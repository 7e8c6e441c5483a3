-- ===== src/Registry/Store/Saved.antt =====
-- internal/registry/store.go: what Save leaves of its own service.
use decloud.Base.{
  ◌≡◌, refl, ap, ◌∙◌, inl, inr, Str, codes, true, false, some, List, [], arith, str_eq_iff,
}
use decloud.Errors.{Error, Result-cases, ok, err, is_ok, error_is, err_partial_write}
use decloud.Registry.Types.{Service}
use decloud.Registry.Mount.Laws.{validate_mounts_iff}
use decloud.Base.Path.Clean.{IsName}
use decloud.Os.{Files}
use decloud.Os.Laws.{Entry, apart_sym, HasFiles}
use decloud.Config.{Paths}
use decloud.Registry.Files.{
  Toml, decode_config, decode_secrets, config_path, secrets_dir_of, secrets_path, write_atomic,
}
use decloud.Registry.Files.Atomic.{write_atomic_other, write_atomic_ok, write_atomic_err}
use decloud.Registry.Store.{
  check_config, check_secrets, validate_for_save, save, write_secrets, mode_600, mode_644, mode_700,
  mode_755,
}
use decloud.Registry.Store.Laws.{IsLoaded}
use decloud.Registry.Store.Layout.{
  IsLaidOut, config_dir-IsClean, secrets_path_dir-IsClean, config-secrets_dir, config-secrets,
  secrets-secrets_dir, config-IsKept_config, secrets_dir-IsKept_config, secrets-IsKept_config,
  config-IsKept_secrets, secrets_dir-IsKept_secrets, secrets-IsKept_secrets,
}
use decloud.Registry.Store.Held.{held, held_by, loaded}
use decloud.Registry.Store.Frame.{Same, now-Same, mkdir_services-Same, validated_name}
use decloud.Registry.Store.Change.{saving, IsStorable, IsSound}

check_config-IsLoaded :
    (path : Str) (svc : Service)
    → IsLoaded svc.config.name svc
    → check_config svc.config.name path svc.config ≡ ok svc.config
unfolding check_config
check_config-IsLoaded path svc (named, schema, other, mounts, distinct, strategy) =
    let valid =
      (validate_mounts_iff svc.config.run.mounts svc.config.name path).1 (mounts, distinct) in
    ground (
      arith,
      valid,
      schema,
      strategy,
      str_eq_iff svc.config.strategy [],
      str_eq_iff svc.config.strategy (codes "recreate"),
    )

check_secrets-IsLoaded :
    (path : Str) (svc : Service)
    → IsLoaded svc.config.name svc
    → check_secrets path svc.secrets ≡ ok svc.secrets
unfolding check_secrets
check_secrets-IsLoaded path svc l = ground (arith, l.2)

module _ {W : Type 0} (fs : Files W) (toml : Toml) {paths : Paths} {S T : List Str}
    (at : W → Str → Entry) (h : HasFiles fs at) (laid : IsLaidOut paths S T) where
  write_secrets-partial :
      (n s : Str) (w : W) (e : Error)
      → (write_secrets fs toml paths n s w).0 ≡ err e
      → error_is e err_partial_write ≡ true
  unfolding write_secrets error_is
  write_secrets-partial n s w e q = ground arith

  -- The three files that Save leaves hold the service.
  held_by-written :
      (svc : Service) (c s : Str)
      → IsStorable toml svc
      → toml.marshal_config svc.config ≡ ok c
      → toml.marshal_secrets svc.secrets ≡ ok s
      → held_by toml paths svc.config.name (some c) (some mode_700) (some s, some mode_600)
        ≡ some svc
  unfolding decode_config decode_secrets
  held_by-written svc c s (l, f, g) e q = ground (
    arith,
    f c e,
    g s q,
    check_config-IsLoaded (config_path paths svc.config.name) svc l,
    check_secrets-IsLoaded (secrets_path paths svc.config.name) svc l,
  )

  -- The files after the three writes of Save.
  write_secrets-written :
      (n s : Str) (w : W)
      → IsName n
      → is_ok (write_secrets fs toml paths n s w).0 ≡ true
      → let v = (write_secrets fs toml paths n s w).1 in
        ((at v (config_path paths n)).0 ≡ (at w (config_path paths n)).0)
        × ((at v (secrets_dir_of paths n)).1 ≡ some mode_700)
        × (at v (secrets_path paths n) ≡ (some s, some mode_600))
  unfolding write_secrets
  write_secrets-written n s w k e =
      let dir = secrets_dir_of paths n in
      let path = secrets_path paths n in
      let config = config_path paths n in
      let w1 = (fs.mkdir_all dir mode_700 w).1 in
      let w2 = (fs.chmod dir mode_700 w1).1 in
      ground (
        arith,
        h.mkdir_content dir config mode_700 w,
        h.chmod_content dir config mode_700 w1,
        h.chmod_ok dir mode_700 w1 (ground arith),
        write_atomic_other fs at h path (secrets_path_dir-IsClean laid n k) mode_600 s config w2
            (config-IsKept_secrets laid n n k k) (config-secrets laid n n k k),
        write_atomic_other fs at h path (secrets_path_dir-IsClean laid n k) mode_600 s dir w2
            (secrets_dir-IsKept_secrets laid n n k k)
            (apart_sym _ _ (secrets-secrets_dir laid n n k k)),
        write_atomic_ok fs at h path (secrets_path_dir-IsClean laid n k) mode_600 s w2
            (ground arith) (secrets-IsKept_secrets laid n n k k),
      )

  pub save-held :
      (given : Service) (w : W)
      → IsName given.config.name
      → IsSound toml (fs.now w).0 (saving given)
      → is_ok (save fs toml paths given w).0 ≡ true
      → held fs toml paths at (save fs toml paths given w).1 given.config.name
        ≡ loaded (validate_for_save (fs.now w).0 given)
  unfolding save
  save-held given w k sound done =
      let n = given.config.name in
      let w1 = (fs.now w).1 in
      let w2 = (fs.mkdir_all paths.services_dir mode_755 w1).1 in
      elim (Result-cases (validate_for_save (fs.now w).0 given)) [
        | inr (x, e) ↦ absurd (ground arith)
        | inl (svc, e) ↦
            let named = validated_name (fs.now w).0 given svc e in
            elim (Result-cases (toml.marshal_config svc.config)) [
              | inr (x, f) ↦ absurd (ground arith)
              | inl (c, f) ↦ elim (Result-cases (toml.marshal_secrets svc.secrets)) [
                | inr (x, g) ↦ absurd (ground arith)
                | inl (s, g) ↦
                    let w3 = (write_atomic fs (config_path paths n) mode_644 c w2).1 in
                    let w4 = (write_secrets fs toml paths n s w3).1 in
                    let holds = held_by-written svc c s (sound svc e) f g in
                    let parts : is_ok (write_atomic fs (config_path paths n) mode_644 c w2).0 ≡ true
                        × (is_ok (write_secrets fs toml paths n s w3).0 ≡ true)
                        × ((save fs toml paths given w).1 ≡ w4) =
                      ground arith in
                    let first =
                      write_atomic_ok fs at h (config_path paths n) (config_dir-IsClean laid n k)
                        mode_644 c w2 (ground arith) (config-IsKept_config laid n n k k) parts.0 in
                    let (config, dir, secrets) = write_secrets-written n s w3 k parts.1 in
                    ground (arith, holds, config ∙ ap (λ x. x.0) first, dir, secrets)
              ]
            ]
      ]

  pub save_failed :
      (given : Service) (w : W) (e : Error)
      → IsName given.config.name
      → (save fs toml paths given w).0 ≡ err e
      → error_is e err_partial_write ≡ false
      → Same fs toml at h laid given.config.name w (save fs toml paths given w).1
  unfolding save
  save_failed given w x k failed whole =
      let n = given.config.name in
      let w1 = (fs.now w).1 in
      let w2 = (fs.mkdir_all paths.services_dir mode_755 w1).1 in
      let p1 = now-Same fs toml at h laid n k w w (refl, refl, refl) in
      let p2 = mkdir_services-Same fs toml at h laid n k w w1 p1 in
      elim (Result-cases (validate_for_save (fs.now w).0 given)) [
        | inr (y, e) ↦ ground (arith, p1)
        | inl (svc, e) ↦
            let named = validated_name (fs.now w).0 given svc e in
            elim (Result-cases (toml.marshal_config svc.config)) [
              | inr (y, f) ↦ ground (arith, p2)
              | inl (c, f) ↦ elim (Result-cases (toml.marshal_secrets svc.secrets)) [
                | inr (y, g) ↦ ground (arith, p2)
                | inl (s, g) ↦
                    let path = config_path paths n in
                    let w3 = (write_atomic fs path mode_644 c w2).1 in
                    ground (
                      arith,
                      p2,
                      named,
                      write_atomic_err fs at h path (config_dir-IsClean laid n k) mode_644 c w2
                          (config-IsKept_config laid n n k k),
                      write_atomic_other fs at h path (config_dir-IsClean laid n k) mode_644 c
                          (secrets_dir_of paths n) w2 (secrets_dir-IsKept_config laid n n k k)
                          (apart_sym _ _ (config-secrets_dir laid n n k k)),
                      write_atomic_other fs at h path (config_dir-IsClean laid n k) mode_644 c
                          (secrets_path paths n) w2 (secrets-IsKept_config laid n n k k)
                          (apart_sym _ _ (config-secrets laid n n k k)),
                      write_secrets-partial n s w3 x,
                    )
              ]
            ]
      ]
