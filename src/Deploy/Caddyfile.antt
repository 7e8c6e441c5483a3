-- ===== src/Deploy/Caddyfile.antt =====
-- internal/deploy/service.go over the files of the system: what regenerating the Caddyfile leaves of the
-- registry.
pub mod Current
pub mod Installed
use decloud.Base.{
  ◌≡◌, ◌≢◌, refl, sym, ap, subst, ◌∙◌, ◌⊎◌, inl, inr, ℕ, Str, codes, false, List, [], ◌∷◌, ◌++◌,
  All, All-append, arith, contains_byte,
}
use mathlib.Core.List.{append_assoc, append-nil}
use decloud.Base.Path.{path_join, dir_of}
use decloud.Base.Path.Clean.{
  IsName, render, render-injective, path_join-render, dir_of-render, render-append_last,
  render-below,
}
use decloud.Errors.{Result}
use decloud.Registry.Types.{Service}
use decloud.Os.{Files}
use decloud.Os.Laws.{Entry, IsDigit, IsClean, Apart, AtOrAbove, HasFiles}
use decloud.Config.{Paths}
use decloud.Registry.Files.{Toml, config_path, secrets_dir_of, secrets_path}
use decloud.Registry.Store.{fs_store}
use decloud.Registry.Store.Layout.{
  IsLaidOut, config_path-render, secrets_dir_of-render, secrets_path-render, config-IsName,
  env-IsName, not_above, append_nonempty, contains_byte-append_none, digits-contains_byte,
}
use decloud.Registry.Store.Held.{held}
use decloud.Registry.Store.Frame.{Same-held}
use decloud.Caddy.Stub.{write_stub_if_missing, generate, mode_755}
use decloud.Caddy.Stub.Laws.{IsKept, made, generate_other, write_stub_if_missing_other}
use decloud.Deploy.Interface.{Context, Dependencies}
use decloud.Deploy.Service.{tmp_path}
use decloud.Deploy.Registered.{LeavesRoutes}

-- A deployer whose store and Caddyfile are files of this system.
pub record IsOnFiles {W : Type 0} (d : Dependencies W) (fs : Files W) (toml : Toml) (paths : Paths)
    : Type 0 where
  pub store_at : d.store ≡ fs_store fs toml paths
  pub caddyfile_at : d.caddyfile_path ≡ paths.caddyfile_path
  pub generate_at : d.generate ≡ generate fs
  pub stub_at : d.write_stub_if_missing ≡ write_stub_if_missing fs
  pub remove_at : d.os_remove ≡ fs.remove
  pub rename_at : d.os_rename ≡ fs.rename

-- Caddy leaves the files alone.
pub record LeavesFiles {W : Type 0} (d : Dependencies W) (at : W → Str → Entry) : Type 0 where
  pub validate_keeps :
      (c : Context) (p q : Str) (w : W) → at (d.reloader.validate c p w).1 q ≡ at w q
  pub reload_keeps : (c : Context) (p q : Str) (w : W) → at (d.reloader.reload c p w).1 q ≡ at w q

-- The Caddyfile is in a directory that is apart from those of the store.
pub record IsCaddyLaidOut (paths : Paths) (S T C : List Str) : Type 0 where
  pub caddyfile_at : paths.caddyfile_path ≡ render (C ++ codes "Caddyfile" ∷ [])
  pub caddy_names : All IsName C
  pub services_apart : (x y : List Str) → C ++ x ≢ S ++ y
  pub secrets_apart : (x y : List Str) → C ++ x ≢ T ++ y

pub caddyfile-IsName : IsName (codes "Caddyfile")
caddyfile-IsName =
    (unfold contains_byte in refl, (λ e. ground arith), (λ e. ground arith), (λ e. ground arith))

pub tmp-IsName : IsName (codes "Caddyfile.tmp")
tmp-IsName =
    (unfold contains_byte in refl, (λ e. ground arith), (λ e. ground arith), (λ e. ground arith))

pub temp-IsName : (digits : Str) → All IsDigit digits → IsName (codes ".caddyfile-" ++ digits)
temp-IsName digits d = (
  contains_byte-append_none b'/' (codes ".caddyfile-") digits (unfold contains_byte in refl)
      (digits-contains_byte b'/' digits (inl refl) d),
  (λ e. ground arith),
  (λ e. ground arith),
  (λ e. ground arith),
)

module _ {W : Type 0} (fs : Files W) (toml : Toml) {paths : Paths} {S T C : List Str}
    (at : W → Str → Entry) (h : HasFiles fs at) (laid : IsLaidOut paths S T)
    (caddy : IsCaddyLaidOut paths S T C) (d : Dependencies W) (on : IsOnFiles d fs toml paths)
    (leaves : LeavesFiles d at) where
  pub path-render : d.caddyfile_path ≡ render (C ++ codes "Caddyfile" ∷ [])
  path-render = on.caddyfile_at ∙ caddy.caddyfile_at

  pub tmp-render : tmp_path d ≡ render (C ++ codes "Caddyfile.tmp" ∷ [])
  unfolding tmp_path
  tmp-render =
      ap (λ p. p ++ codes ".tmp") path-render
      ∙ render-append_last C (codes "Caddyfile") (codes ".tmp")

  pub caddy-All : (x : Str) → IsName x → All IsName (C ++ x ∷ [])
  caddy-All x k = All-append IsName C (x ∷ []) caddy.caddy_names (k, tt)

  -- Where the files beside the Caddyfile are.
  pub beside-IsClean : (x : Str) → IsName x → IsClean (dir_of (render (C ++ x ∷ [])))
  beside-IsClean x k = (C, caddy.caddy_names, dir_of-render C x caddy.caddy_names k)

  -- What is outside the directory of the Caddyfile.
  abbrev Outside : Str → Type 0
  Outside q =
      (x : Str) → IsName x → Apart q (render (C ++ x ∷ [])) × (¬ AtOrAbove (render (C ++ x ∷ [])) q)

  path-Outside :
      (ps : List Str) → All IsName ps → ((x : List Str) → C ++ x ≢ ps) → Outside (render ps)
  path-Outside ps k a x n =
      let file = C ++ x ∷ [] in
      let names = caddy-All x n in
      let differ : render file ≢ render ps = λ e. a (x ∷ []) (render-injective file ps names k e) in
      (
        ((λ e. differ (sym e)), (ps, k, refl), (file, names, refl)),
        (λ above. elim above [
          | inl e ↦ differ e
          | inr (rest, e) ↦
              let (zs, q) =
                render-below file ps rest names k
                  (append_nonempty C (x ∷ []) (λ z. ground (arith, z))) e in
              a (x ∷ zs) (sym (q ∙ append_assoc C (x ∷ []) zs))
        ]),
      )

  pub IsKept-beside :
      (x q : Str)
      → IsName x
      → ((digits : Str)
          → All IsDigit digits
          → Apart q (render (C ++ (codes ".caddyfile-" ++ digits) ∷ [])))
      → IsKept (render (C ++ x ∷ [])) q
  IsKept-beside x q k o digits g =
      subst (Apart q)
        (sym (
          ap (λ p. path_join p (codes ".caddyfile-" ++ digits))
            (dir_of-render C x caddy.caddy_names k)
          ∙ path_join-render C (codes ".caddyfile-" ++ digits) caddy.caddy_names
              (temp-IsName digits g)))
        (o digits g)

  -- The file at this path keeps its content; a path that is not above the Caddyfile, all that is there.
  abbrev Keeps : Str → W → W → Type 0
  Keeps q v w = ((at w q).0 ≡ (at v q).0) × (¬ AtOrAbove q (render C) → at w q ≡ at v q)

  made-Keeps :
      (x q : Str) (w : W) (k : IsName x)
      → IsClean q
      → Keeps q w (made fs at h (render (C ++ x ∷ [])) (beside-IsClean x k) w)
  made-Keeps x q w k clean =
      subst (λ p. Keeps q w (fs.mkdir_all p mode_755 w).1)
        (sym (dir_of-render C x caddy.caddy_names k))
        (
          h.mkdir_content (render C) q mode_755 w,
          h.mkdir_perm (render C) q mode_755 w (C, caddy.caddy_names, refl) clean,
        )

  module _ (q : Str) (o : Outside q) where
    outside_caddyfile : Apart q (render (C ++ codes "Caddyfile" ∷ []))
    outside_caddyfile = (o (codes "Caddyfile") caddyfile-IsName).0

    outside_tmp : Apart q (render (C ++ codes "Caddyfile.tmp" ∷ []))
    outside_tmp = (o (codes "Caddyfile.tmp") tmp-IsName).0

    -- What is there is as at v, or as once the directory was made.
    from-made :
        (x : Str) (v w : W) (k : IsName x)
        → (at w q ≡ at v q)
          ⊎ (at w q ≡ at (made fs at h (render (C ++ x ∷ [])) (beside-IsClean x k) v) q)
        → Keeps q v w
    from-made x v w k (inl e) = (ap (λ y. y.0) e, (λ n. e))
    from-made x v w k (inr e) =
        let (c, p) = made-Keeps x q v k outside_tmp.1 in (ap (λ y. y.0) e ∙ c, (λ n. e ∙ p n))

    stub-Keeps : (w : W) → Keeps q w (d.write_stub_if_missing d.caddyfile_path w).1
    stub-Keeps w =
        let file = render (C ++ codes "Caddyfile" ∷ []) in
        rw (path-render, on.stub_at)
          (from-made (codes "Caddyfile") w (write_stub_if_missing fs file w).1 caddyfile-IsName (
            write_stub_if_missing_other fs at h file
              (beside-IsClean (codes "Caddyfile") caddyfile-IsName) q w outside_caddyfile))

    generate-Keeps :
        (services : List Service) (w : W) → Keeps q w (d.generate (tmp_path d) services w).1
    generate-Keeps services w =
        let tmp = render (C ++ codes "Caddyfile.tmp" ∷ []) in
        rw (tmp-render, on.generate_at)
          (from-made (codes "Caddyfile.tmp") w (generate fs tmp services w).1 tmp-IsName (
            inr (
              generate_other fs at h tmp (beside-IsClean (codes "Caddyfile.tmp") tmp-IsName)
                services q w
                (IsKept-beside (codes "Caddyfile.tmp") q tmp-IsName
                  (λ digits g. (o (codes ".caddyfile-" ++ digits) (temp-IsName digits g)).0))
                outside_tmp)))

    remove-same : (w : W) → at (d.os_remove (tmp_path d) w).1 q ≡ at w q
    remove-same w = rw (tmp-render, on.remove_at) (h.remove_other _ q w outside_tmp)

    rename-same : (w : W) → at (d.os_rename (tmp_path d) d.caddyfile_path w).1 q ≡ at w q
    rename-same w =
        rw (tmp-render, path-render, on.rename_at)
          (h.rename_apart _ _ q w outside_tmp outside_caddyfile
            (o (codes "Caddyfile.tmp") tmp-IsName).1 (o (codes "Caddyfile") caddyfile-IsName).1)

  -- The files of a service are outside the directory of the Caddyfile.
  services-Outside : (x : Str) → IsName x → Outside (render (S ++ x ∷ []))
  services-Outside x k =
      path-Outside (S ++ x ∷ []) (All-append IsName S (x ∷ []) laid.services_names (k, tt))
        (λ y. caddy.services_apart y (x ∷ []))

  secrets-Outside : (ys : List Str) → All IsName ys → Outside (render (T ++ ys))
  secrets-Outside ys k =
      path-Outside (T ++ ys) (All-append IsName T ys laid.secrets_names k)
        (λ y. caddy.secrets_apart y ys)

  secrets_not_above :
      (ys : List Str) → All IsName ys → ys ≢ [] → ¬ AtOrAbove (render (T ++ ys)) (render C)
  secrets_not_above ys k n =
      not_above laid ys C k n caddy.caddy_names
        (λ x e. caddy.secrets_apart [] (ys ++ x) (append-nil C ∙ e ∙ append_assoc T ys x))

  -- A step that keeps what is outside the directory keeps what the registry holds.
  held-Keeps :
      (m : Str) (v w : W)
      → IsName m
      → ((q : Str) → Outside q → Keeps q v w)
      → held fs toml paths at w m ≡ held fs toml paths at v m
  held-Keeps m v w n keeps =
      let config = config_path-render laid m n in
      let dir = secrets_dir_of-render laid m n in
      let file = secrets_path-render laid m n in
      let names : All IsName (m ∷ codes "env.toml" ∷ []) = (n, (env-IsName, tt)) in
      Same-held fs toml at h laid m v w (
        rw config (keeps _ (services-Outside (m ++ codes ".toml") (config-IsName m n))).0,
        rw dir (
            ap (λ y. y.1)
              ((keeps _ (secrets-Outside (m ∷ []) (n, tt))).1
                (secrets_not_above (m ∷ []) (n, tt) (λ e. ground (arith, e))))),
        rw file (
            (keeps _ (secrets-Outside (m ∷ codes "env.toml" ∷ []) names)).1
              (secrets_not_above (m ∷ codes "env.toml" ∷ []) names (λ e. ground (arith, e)))),
      )

  same-Keeps : (q : Str) (v w : W) → at w q ≡ at v q → Keeps q v w
  same-Keeps q v w e = (ap (λ y. y.0) e, (λ n. e))

  pub files-LeavesRoutes : LeavesRoutes d (held fs toml paths at)
  files-LeavesRoutes = record {
    stub_keeps = λ m w n. held-Keeps m w _ n (λ q o. stub-Keeps q o w);
    generate_keeps = λ s m w n. held-Keeps m w _ n (λ q o. generate-Keeps q o s w);
    validate_keeps =
        λ c m w n. held-Keeps m w _ n (λ q o. same-Keeps q w _ (leaves.validate_keeps c _ q w));
    os_remove_keeps = λ m w n. held-Keeps m w _ n (λ q o. same-Keeps q w _ (remove-same q o w));
    os_rename_keeps = λ m w n. held-Keeps m w _ n (λ q o. same-Keeps q w _ (rename-same q o w));
    reload_keeps =
        λ c m w n. held-Keeps m w _ n (λ q o. same-Keeps q w _ (leaves.reload_keeps c _ q w));
  }
