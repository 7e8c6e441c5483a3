-- ===== src/Registry/Store/Frame.antt =====
-- internal/registry/store.go: Save and Delete touch the files of their own service only.
use decloud.Base.{◌≡◌, ◌≢◌, refl, sym, subst, ◌⊎◌, inl, inr, ℕ, Str, List, arith}
use decloud.Errors.{Result-cases, ok}
use decloud.Exec.Triple.{Preserves}
use decloud.Registry.Types.{Service, Time}
use decloud.Base.Path.Clean.{IsName}
use decloud.Os.{Files}
use decloud.Os.Laws.{Entry, Apart, apart_sym, HasFiles}
use decloud.Config.{Paths}
use decloud.Registry.Files.{Toml, config_path, secrets_dir_of, secrets_path, write_atomic}
use decloud.Registry.Files.Atomic.{write_atomic_other}
use decloud.Registry.Store.{
  validate_for_save, save, write_secrets, delete, delete_orphan_config, mode_600, mode_644,
  mode_700, mode_755,
}
use decloud.Registry.Store.Layout.{
  IsLaidOut, services-IsClean, secrets_dir-IsClean, secrets-IsClean, config_dir-IsClean,
  secrets_path_dir-IsClean, config-config, config-secrets_dir, config-secrets, secrets-secrets_dir,
  secrets-secrets, secrets_dir-secrets_dir, secrets_dir-apart, secrets-apart, secrets_dir-outside,
  secrets-outside, config-IsKept_config, secrets_dir-IsKept_config, secrets-IsKept_config,
  config-IsKept_secrets, secrets_dir-IsKept_secrets, secrets-IsKept_secrets,
}
use decloud.Registry.Store.Held.{held}

-- What validateForSave keeps of the name.
pub validated_name :
    (now : Time) (given svc : Service)
    → validate_for_save now given ≡ ok svc
    → svc.config.name ≡ given.config.name
unfolding validate_for_save
validated_name now given svc e = ground arith

module _ {W : Type 0} (fs : Files W) (toml : Toml) {paths : Paths} {S T : List Str}
    (at : W → Str → Entry) (h : HasFiles fs at) (laid : IsLaidOut paths S T) where
  -- The files of this service are as they were at v.
  abbrev pub Same : Str → W → W → Type 0
  Same m v w =
      ((at w (config_path paths m)).0 ≡ (at v (config_path paths m)).0)
      × ((at w (secrets_dir_of paths m)).1 ≡ (at v (secrets_dir_of paths m)).1)
      × (at w (secrets_path paths m) ≡ at v (secrets_path paths m))

  pub Same-held :
      (m : Str) (v w : W) → Same m v w → held fs toml paths at w m ≡ held fs toml paths at v m
  Same-held m v w (a, b, c) = ground (arith, a, b, c)

  module _ (m : Str) (name : IsName m) (v : W) where
    pub mkdir_services-Same : Preserves (Same m v) (fs.mkdir_all paths.services_dir mode_755)
    mkdir_services-Same w (a, b, c) = ground (
      arith,
      h.mkdir_content paths.services_dir (config_path paths m) mode_755 w,
      h.mkdir_perm paths.services_dir (secrets_dir_of paths m) mode_755 w (services-IsClean laid)
          (secrets_dir-IsClean laid m name) (secrets_dir-outside laid m name),
      h.mkdir_perm paths.services_dir (secrets_path paths m) mode_755 w (services-IsClean laid)
          (secrets-IsClean laid m name) (secrets-outside laid m name),
    )

    module _ (n : Str) (k : IsName n) (other : m ≢ n) where
      write_config-Same :
          (mode : ℕ) (s : Str) → Preserves (Same m v) (write_atomic fs (config_path paths n) mode s)
      write_config-Same mode s w (a, b, c) = ground (
        arith,
        write_atomic_other fs at h (config_path paths n) (config_dir-IsClean laid n k) mode s
            (config_path paths m) w (config-IsKept_config laid m n name k)
            (config-config laid m n name k other),
        write_atomic_other fs at h (config_path paths n) (config_dir-IsClean laid n k) mode s
            (secrets_dir_of paths m) w (secrets_dir-IsKept_config laid m n name k)
            (apart_sym _ _ (config-secrets_dir laid n m k name)),
        write_atomic_other fs at h (config_path paths n) (config_dir-IsClean laid n k) mode s
            (secrets_path paths m) w (secrets-IsKept_config laid m n name k)
            (apart_sym _ _ (config-secrets laid n m k name)),
      )

      write_secrets_file-Same :
          (mode : ℕ) (s : Str)
          → Preserves (Same m v) (write_atomic fs (secrets_path paths n) mode s)
      write_secrets_file-Same mode s w (a, b, c) = ground (
        arith,
        write_atomic_other fs at h (secrets_path paths n) (secrets_path_dir-IsClean laid n k) mode s
            (config_path paths m) w (config-IsKept_secrets laid m n name k)
            (config-secrets laid m n name k),
        write_atomic_other fs at h (secrets_path paths n) (secrets_path_dir-IsClean laid n k) mode s
            (secrets_dir_of paths m) w (secrets_dir-IsKept_secrets laid m n name k)
            (apart_sym _ _ (secrets-secrets_dir laid n m k name)),
        write_atomic_other fs at h (secrets_path paths n) (secrets_path_dir-IsClean laid n k) mode s
            (secrets_path paths m) w (secrets-IsKept_secrets laid m n name k)
            (secrets-secrets laid m n name k other),
      )

      mkdir_secrets-Same :
          (mode : ℕ) → Preserves (Same m v) (fs.mkdir_all (secrets_dir_of paths n) mode)
      mkdir_secrets-Same mode w (a, b, c) = ground (
        arith,
        h.mkdir_content (secrets_dir_of paths n) (config_path paths m) mode w,
        h.mkdir_perm (secrets_dir_of paths n) (secrets_dir_of paths m) mode w
            (secrets_dir-IsClean laid n k) (secrets_dir-IsClean laid m name)
            (secrets_dir-apart laid m n name k other),
        h.mkdir_perm (secrets_dir_of paths n) (secrets_path paths m) mode w
            (secrets_dir-IsClean laid n k) (secrets-IsClean laid m name)
            (secrets-apart laid m n name k),
      )

      chmod-Same : (mode : ℕ) → Preserves (Same m v) (fs.chmod (secrets_dir_of paths n) mode)
      chmod-Same mode w (a, b, c) = ground (
        arith,
        h.chmod_content (secrets_dir_of paths n) (config_path paths m) mode w,
        h.chmod_other (secrets_dir_of paths n) (secrets_dir_of paths m) mode w
            (secrets_dir-secrets_dir laid m n name k other),
        h.chmod_other (secrets_dir_of paths n) (secrets_path paths m) mode w
            (secrets-secrets_dir laid m n name k),
      )

      -- Apart from all three files of the service.
      apart_from :
          (q p : Str)
          → (p ≡ config_path paths n) ⊎ ((p ≡ secrets_dir_of paths n) ⊎ (p ≡ secrets_path paths n))
          → Apart q (config_path paths n)
          → Apart q (secrets_dir_of paths n)
          → Apart q (secrets_path paths n)
          → Apart q p
      apart_from q p (inl e) a b c = subst (Apart q) (sym e) a
      apart_from q p (inr (inl e)) a b c = subst (Apart q) (sym e) b
      apart_from q p (inr (inr e)) a b c = subst (Apart q) (sym e) c

      remove-Same :
          (p : Str)
          → (p ≡ config_path paths n) ⊎ ((p ≡ secrets_dir_of paths n) ⊎ (p ≡ secrets_path paths n))
          → Preserves (Same m v) (fs.remove p)
      remove-Same p which w (a, b, c) = ground (
        arith,
        h.remove_other p (config_path paths m) w (
            apart_from (config_path paths m) p which (config-config laid m n name k other)
              (config-secrets_dir laid m n name k) (config-secrets laid m n name k)),
        h.remove_other p (secrets_dir_of paths m) w (
            apart_from (secrets_dir_of paths m) p which
              (apart_sym _ _ (config-secrets_dir laid n m k name))
              (secrets_dir-secrets_dir laid m n name k other)
              (apart_sym _ _ (secrets-secrets_dir laid n m k name))),
        h.remove_other p (secrets_path paths m) w (
            apart_from (secrets_path paths m) p which
              (apart_sym _ _ (config-secrets laid n m k name)) (secrets-secrets_dir laid m n name k)
              (secrets-secrets laid m n name k other)),
      )

      write_secrets-Same : (s : Str) → Preserves (Same m v) (write_secrets fs toml paths n s)
      unfolding write_secrets
      write_secrets-Same s w p =
          let dir = secrets_dir_of paths n in
          let w1 = (fs.mkdir_all dir mode_700 w).1 in
          let w2 = (fs.chmod dir mode_700 w1).1 in
          let p1 = mkdir_secrets-Same mode_700 w p in
          let p2 = chmod-Same mode_700 w1 p1 in
          ground (arith, p1, p2, write_secrets_file-Same mode_600 s w2 p2)

      pub delete-Same : Preserves (Same m v) (delete fs toml paths n)
      unfolding delete
      delete-Same w p =
          let dir = secrets_dir_of paths n in
          let path = secrets_path paths n in
          let w1 = (fs.remove path w).1 in
          let w2 = (fs.remove dir w1).1 in
          let p1 = remove-Same path (inr (inr refl)) w p in
          let p2 = remove-Same dir (inr (inl refl)) w1 p1 in
          ground (arith, p1, p2, remove-Same (config_path paths n) (inl refl) w2 p2)

      pub delete_orphan_config-Same : Preserves (Same m v) (delete_orphan_config fs toml paths n)
      unfolding delete_orphan_config
      delete_orphan_config-Same w p =
          ground (arith, remove-Same (config_path paths n) (inl refl) w p)

    pub now-Same : (w : W) → Same m v w → Same m v (fs.now w).1
    now-Same w (a, b, c) = ground (
      arith,
      h.now_keeps (config_path paths m) w,
      h.now_keeps (secrets_dir_of paths m) w,
      h.now_keeps (secrets_path paths m) w,
    )

    pub save-Same :
        (given : Service)
        → IsName given.config.name
        → m ≢ given.config.name
        → Preserves (Same m v) (save fs toml paths given)
    unfolding save
    save-Same given k other w p =
        let n = given.config.name in
        let w1 = (fs.now w).1 in
        let w2 = (fs.mkdir_all paths.services_dir mode_755 w1).1 in
        let p1 = now-Same w p in
        let p2 = mkdir_services-Same w1 p1 in
        elim (Result-cases (validate_for_save (fs.now w).0 given)) [
          | inr (x, e) ↦ ground (arith, p1)
          | inl (svc, e) ↦
              let named = validated_name (fs.now w).0 given svc e in
              elim (Result-cases (toml.marshal_config svc.config)) [
                | inr (x, f) ↦ ground (arith, p2)
                | inl (c, f) ↦ elim (Result-cases (toml.marshal_secrets svc.secrets)) [
                  | inr (x, g) ↦ ground (arith, p2)
                  | inl (s, g) ↦
                      let w3 = (write_atomic fs (config_path paths n) mode_644 c w2).1 in
                      let p3 = write_config-Same n k other mode_644 c w2 p2 in
                      ground (arith, p2, p3, write_secrets-Same n k other s w3 p3, named)
                ]
              ]
        ]
