-- ===== src/Registry/Store/Laws.antt =====
-- internal/registry/store.go: what Load accepts, what List returns, and what is left after a
-- deletion.
use decloud.Base.{
  ◌≡◌, refl, ◌⊎◌, inl, inr, ℤ, pos, negsuc, Str, codes, Bool, Bool-cases, true, none, List, [], ◌∷◌,
  All, All-mono, arith, str_eq_iff, str_leb, sort, IsSorted,
}
use decloud.Base.Order.{sort-IsSorted, str_leb_total, str_leb_trans}
use decloud.Errors.{Error, Result-cases, ok, err, is_ok, error_is, err_not_found, fs_not_exist}
use decloud.Registry.Types.{Service, ServiceConfig, ServiceSecrets, current_schema_version}
use decloud.Registry.Mount.{validate_mounts}
use decloud.Registry.Mount.Laws.{IsWellFormed, Distinct, validate_mounts_iff}
use decloud.Os.{Files}
use decloud.Config.{Paths}
use decloud.Registry.Files.{Toml, decode_config, config_path}
use decloud.Registry.Store.{
  is_current, check_config, check_secrets, read_error, load_config, load_secrets, load,
  delete_orphan_config, list_names, load_each, list, config_names,
}

-- What Load promises of a service of this name.
abbrev pub IsLoaded : Str → Service → Type 0
IsLoaded name svc =
    (svc.config.name ≡ name)
    × (svc.config.schema_version ≡ current_schema_version)
    × (svc.secrets.schema_version ≡ current_schema_version)
    × All IsWellFormed svc.config.run.mounts
    × Distinct svc.config.run.mounts
    × ((svc.config.strategy ≡ []) ⊎ (svc.config.strategy ≡ codes "recreate"))

is_current-pos : (n : ℤ) → is_current n ≡ true → n ≡ current_schema_version
is_current-pos (pos n) h = ground arith
is_current-pos (negsuc n) h = ground arith

check_config-ok :
    (name path : Str) (cfg c : ServiceConfig)
    → check_config name path cfg ≡ ok c
    → (c.name ≡ name)
      × (c.schema_version ≡ current_schema_version)
      × (validate_mounts c.run.mounts name path ≡ none)
      × ((c.strategy ≡ []) ⊎ (c.strategy ≡ codes "recreate"))
unfolding check_config
check_config-ok name path cfg c h = ground (
  arith,
  is_current-pos cfg.schema_version,
  str_eq_iff cfg.strategy [],
  str_eq_iff cfg.strategy (codes "recreate"),
)

check_secrets-ok :
    (path : Str) (sec s : ServiceSecrets)
    → check_secrets path sec ≡ ok s
    → s.schema_version ≡ current_schema_version
unfolding check_secrets
check_secrets-ok path sec s h = ground (arith, is_current-pos sec.schema_version)

All-unit : {A : Type 0} (xs : List A) → All (λ x. Unit {0}) xs
All-unit [] = tt
All-unit (x ∷ xs) = (tt, All-unit xs)

module _ {W : Type 0} (fs : Files W) (toml : Toml) (paths : Paths) where
  load_config-ok :
      (name : Str) (w : W) (c : ServiceConfig)
      → (load_config fs toml paths name w).0 ≡ ok c
      → (cfg : ServiceConfig) × (check_config name (config_path paths name) cfg ≡ ok c)
  unfolding load_config
  load_config-ok name w c h =
      let content = fs.read_file (config_path paths name) w in
      elim (Result-cases content.0) [
        | inr (x, e) ↦ absurd (ground arith)
        | inl (bytes, e) ↦ elim (Result-cases (decode_config toml bytes)) [
          | inr (x, q) ↦ absurd (ground arith)
          | inl (cfg, q) ↦ (cfg, ground arith)
        ]
      ]

  load_secrets-ok :
      (name : Str) (w : W) (s : ServiceSecrets)
      → (load_secrets fs toml paths name w).0 ≡ ok s
      → s.schema_version ≡ current_schema_version
  unfolding load_secrets
  load_secrets-ok name w s h = grind (arith, check_secrets-ok)

  load-parts :
      (name : Str) (w : W) (svc : Service)
      → (load fs toml paths name w).0 ≡ ok svc
      → ((load_config fs toml paths name w).0 ≡ ok svc.config)
        × ((load_secrets fs toml paths name (load_config fs toml paths name w).1).0
            ≡ ok svc.secrets)
  unfolding load
  load-parts name w svc h = ground arith

  -- A service that Load returns, whatever the files hold, has the name that was asked for, the current
  -- schema version in both of its files, only well-formed mounts with distinct container paths, and the
  -- strategy "recreate" or none.
  pub load-IsLoaded :
      (name : Str) (w : W) (svc : Service)
      → (load fs toml paths name w).0 ≡ ok svc
      → IsLoaded name svc
  load-IsLoaded name w svc h =
      let parts = load-parts name w svc h in
      let (cfg, checked) = load_config-ok name w svc.config parts.0 in
      let (named, schema, valid, strategy) =
        check_config-ok name (config_path paths name) cfg svc.config checked in
      let mounts =
        (validate_mounts_iff svc.config.run.mounts name (config_path paths name)).0 valid in
      (
        named,
        schema,
        load_secrets-ok name (load_config fs toml paths name w).1 svc.secrets parts.1,
        mounts.0,
        mounts.1,
        strategy,
      )

  -- One round of the loop: the service of the first name, or none.
  load_each-cons :
      (name : Str) (names : List Str) (w : W) (services : List Service)
      → (load_each fs toml paths (name ∷ names) w).0 ≡ ok services
      → (rest : List Service) × ((load_each fs toml paths names (load fs toml paths name w).1).0
          ≡ ok rest)
        × ((services ≡ rest) ⊎ ((svc : Service) × (services ≡ svc ∷ rest) × IsLoaded name svc))
  unfolding load_each
  load_each-cons name names w services h =
      elim (Result-cases (load_each fs toml paths names (load fs toml paths name w).1).0) [
        | inr (x, e) ↦ absurd (ground arith)
        | inl (rest, e) ↦ elim (Result-cases (load fs toml paths name w).0) [
          | inr (x, q) ↦ (rest, e, inl (ground arith))
          | inl (svc, q) ↦ (rest, e, inr (svc, ground arith, load-IsLoaded name w svc q))
        ]
      ]

  -- What holds of the names holds of the services that they are loaded under.
  load_each-All :
      (P : Str → Type 0) (names : List Str) (w : W) (services : List Service)
      → (load_each fs toml paths names w).0 ≡ ok services
      → All P names
      → All (λ svc. P svc.config.name × IsLoaded svc.config.name svc) services
  load_each-All P [] w services h p =
      let none_left : [] ≡ services = unfold load_each in ground arith in rw (← none_left) tt
  load_each-All P (name ∷ names) w services h p =
      let (rest, e, shape) = load_each-cons name names w services h in
      let ih = load_each-All P names (load fs toml paths name w).1 rest e p.1 in
      elim shape [
        | inl same ↦ rw same ih
        | inr (svc, same, loaded) ↦
            rw same
              ((rw loaded.0 p.0, (refl, loaded.1, loaded.2, loaded.3, loaded.4, loaded.5)), ih)
      ]

  abbrev pub by_service : Service → Service → Bool
  by_service a b = str_leb a.config.name b.config.name

  load_each-IsSorted :
      (names : List Str) (w : W) (services : List Service)
      → (load_each fs toml paths names w).0 ≡ ok services
      → IsSorted str_leb names
      → IsSorted by_service services
  load_each-IsSorted [] w services h p =
      let none_left : [] ≡ services = unfold load_each in ground arith in rw (← none_left) tt
  load_each-IsSorted (name ∷ names) w services h p =
      let (rest, e, shape) = load_each-cons name names w services h in
      let ih = load_each-IsSorted names (load fs toml paths name w).1 rest e p.1 in
      let behind =
        load_each-All (λ n. str_leb name n ≡ true) names (load fs toml paths name w).1 rest e p.0 in
      elim shape [
        | inl same ↦ rw same ih
        | inr (svc, same, loaded) ↦
            rw same
              (All-mono _ (λ s. by_service svc s ≡ true) rest (λ s q. rw loaded.0 q.0) behind, ih)
      ]

  list_names-IsSorted :
      (w : W) (names : List Str)
      → (list_names fs toml paths w).0 ≡ ok names
      → IsSorted str_leb names
  unfolding list_names
  list_names-IsSorted w names h = elim (Result-cases (fs.read_dir paths.services_dir w).0) [
    | inl (entries, e) ↦
        let same : sort str_leb (config_names entries) ≡ names = ground arith in
        rw (← same) (sort-IsSorted str_leb str_leb_total str_leb_trans (config_names entries))
    | inr (x, e) ↦ let same : [] ≡ names = ground arith in rw (← same) tt
  ]

  -- The services that List returns are sorted by name, and each of them is what Load promises: well-formed,
  -- of the current schema version, and under its own name.
  pub list-IsSorted :
      (w : W) (services : List Service)
      → (list fs toml paths w).0 ≡ ok services
      → IsSorted by_service services × All (λ svc. IsLoaded svc.config.name svc) services
  unfolding list
  list-IsSorted w services h = elim (Result-cases (list_names fs toml paths w).0) [
    | inr (x, e) ↦ absurd (ground arith)
    | inl (names, e) ↦
        let each : (load_each fs toml paths names (list_names fs toml paths w).1).0 ≡ ok services =
          ground arith in
        let sorted =
          load_each-IsSorted names (list_names fs toml paths w).1 services each
            (list_names-IsSorted w names e) in
        let loaded =
          load_each-All (λ n. Unit {0}) names (list_names fs toml paths w).1 services each
            (All-unit names) in
        (sorted, All-mono _ _ services (λ s q. q.1) loaded)
  ]

-- Documented behaviour of os.Remove: a file that was removed, or that was not there, is not there.
pub record Removes {W : Type 0} (fs : Files W) : Type 0 where
  pub remove_ok :
      (p : Str) (w : W)
      → is_ok (fs.remove p w).0 ≡ true
      → (e : Error) × ((fs.read_file p (fs.remove p w).1).0 ≡ err e)
        × (error_is e fs_not_exist ≡ true)
  pub remove_gone :
      (p : Str) (w : W) (x : Error)
      → (fs.remove p w).0 ≡ err x
      → error_is x fs_not_exist ≡ true
      → (e : Error) × ((fs.read_file p (fs.remove p w).1).0 ≡ err e)
        × (error_is e fs_not_exist ≡ true)

module _ {W : Type 0} (fs : Files W) (toml : Toml) (paths : Paths) (r : Removes fs) where
  load_absent :
      (name : Str) (w : W)
      → ((e : Error) × ((fs.read_file (config_path paths name) w).0 ≡ err e)
          × (error_is e fs_not_exist ≡ true))
      → (e : Error) × ((load fs toml paths name w).0 ≡ err e) × (error_is e err_not_found ≡ true)
  unfolding load load_config
  load_absent name w (x, gone, n) = (
    read_error fs toml paths name (config_path paths name) x,
    ground arith,
    unfold error_is in ground arith,
  )

  -- If a file that os.Remove removed, or did not find, is not there (Removes), then after a
  -- DeleteOrphanConfig that succeeds, Load of that name fails with ErrNotFound.
  pub delete_orphan_config-load :
      (name : Str) (w : W)
      → is_ok (delete_orphan_config fs toml paths name w).0 ≡ true
      → (e : Error) × ((load fs toml paths name (delete_orphan_config fs toml paths name w).1).0
          ≡ err e)
        × (error_is e err_not_found ≡ true)
  unfolding delete_orphan_config
  delete_orphan_config-load name w h =
      let path = config_path paths name in
      let w1 = (fs.remove path w).1 in
      elim (Result-cases (fs.remove path w).0) [
        | inl (_, e) ↦ ground (arith, load_absent name w1 (r.remove_ok path w (ground arith)))
        | inr (x, e) ↦ elim (Bool-cases (error_is x fs_not_exist)) [
          | inl gone ↦ ground (arith, load_absent name w1 (r.remove_gone path w x e gone))
          | inr stays ↦ absurd (ground arith)
        ]
      ]
