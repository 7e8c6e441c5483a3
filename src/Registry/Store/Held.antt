-- ===== src/Registry/Store/Held.antt =====
-- internal/registry/store.go: what the files of a service hold, which is what Load reads.
use decloud.Base.{
  ◌≡◌, inl, inr, ℕ, ◌==◌, if◌then◌else◌, Str, Option, Option-cases, none, some, true, arith,
}
use decloud.Errors.{Result, Result-cases, ok, err, is_ok}
use decloud.Registry.Types.{Service, ServiceConfig, ServiceSecrets}
use decloud.Os.{Files}
use decloud.Os.Laws.{Entry, HasFiles}
use decloud.Config.{Paths}
use decloud.Registry.Files.{
  Toml, config_path, secrets_dir_of, secrets_path, decode_config, decode_secrets,
}
use decloud.Registry.Store.{
  check_config, check_secrets, load_config, load_secrets, load, mode_600, mode_700,
}

abbrev pub loaded : {A : Type 0} → Result A → Option A
loaded (ok a) = some a
loaded (err e) = none

module _ (toml : Toml) (paths : Paths) (name : Str) where
  abbrev config_of : Option Str → Option ServiceConfig
  config_of none = none
  config_of (some s) = elim (decode_config toml s) [
    | ok c ↦ loaded (check_config name (config_path paths name) c)
    | err e ↦ none
  ]

  abbrev decoded_secrets : Str → Option ServiceSecrets
  decoded_secrets s = elim (decode_secrets toml s) [
    | ok c ↦ loaded (check_secrets (secrets_path paths name) c)
    | err e ↦ none
  ]

  -- The secrets file counts only in a directory of mode 0700 and with mode 0600.
  abbrev secrets_of : Option ℕ → Entry → Option ServiceSecrets
  secrets_of (some d) (some s, some p) =
      if d == mode_700 then (if p == mode_600 then decoded_secrets s else none) else none
  secrets_of _ _ = none

  abbrev both : Option ServiceConfig → Option ServiceSecrets → Option Service
  both (some c) (some s) = some (record { config = c; secrets = s })
  both _ _ = none

  -- The service that is held by the content of the config file, the mode of the secrets directory and
  -- the secrets file.
  abbrev pub held_by : Option Str → Option ℕ → Entry → Option Service
  held_by config dir secrets = both (config_of config) (secrets_of dir secrets)

module _ {W : Type 0} (fs : Files W) (toml : Toml) (paths : Paths) (at : W → Str → Entry) where
  -- The registry as a map from names to services.
  abbrev pub held : W → Str → Option Service
  held w name =
      held_by toml paths name (at w (config_path paths name)).0 (at w (secrets_dir_of paths name)).1
        (at w (secrets_path paths name))

  -- No read of the files of this name fails, if there is something to read.
  abbrev pub Readable : W → Str → Type 0
  Readable w name =
      let config = config_path paths name in
      let dir = secrets_dir_of paths name in
      let path = secrets_path paths name in
      ((s : Str) → (at w config).0 ≡ some s → is_ok (fs.read_file config w).0 ≡ true)
      × ((m : ℕ) → (at w dir).1 ≡ some m → is_ok (fs.stat_perm dir w).0 ≡ true)
      × ((m : ℕ) → (at w path).1 ≡ some m → is_ok (fs.stat_perm path w).0 ≡ true)
      × ((s : Str) → (at w path).0 ≡ some s → is_ok (fs.read_file path w).0 ≡ true)

  -- What a Load makes of what the map holds: nothing else, and all of it if no read fails; and no change.
  abbrev pub Looked : {A : Type 0} → Type 0 → Option A → W → Result A × W → Type 0
  Looked readable there w r =
      ((a : _) → r.0 ≡ ok a → there ≡ some a) × (readable → loaded r.0 ≡ there) × (r.1 ≡ w)

  module _ (h : HasFiles fs at) where
    load_config-held :
        (name : Str) (w : W)
        → Looked
            (Readable w name)
            (config_of toml paths name (at w (config_path paths name)).0)
            w
            (load_config fs toml paths name w)
    unfolding load_config
    load_config-held name w =
        let path = config_path paths name in
        let same = h.read_keeps path w in
        elim (Result-cases (fs.read_file path w).0) [
          | inl (s, e) ↦
              let there = h.read_ok path s w e in
              (
                (λ a q. ground (arith, e, q, there)),
                (λ r. ground (arith, e, there)),
                ground (arith, e, same),
              )
          | inr (x, e) ↦ (
            (λ a q. absurd (ground (arith, e, q))),
            (λ r. elim (Option-cases (at w path).0) [
              | inl none_there ↦ ground (arith, e, none_there)
              | inr (s, there) ↦ absurd (ground (arith, e, r.0 s there))
            ]),
            ground (arith, e, same),
          )
        ]

    load_secrets-held :
        (name : Str) (w : W)
        → Looked
            (Readable w name)
            (secrets_of toml paths name
              (at w (secrets_dir_of paths name)).1
              (at w (secrets_path paths name)))
            w
            (load_secrets fs toml paths name w)
    unfolding load_secrets
    load_secrets-held name w =
        let dir = secrets_dir_of paths name in
        let path = secrets_path paths name in
        let kept = h.stat_keeps dir w in
        let kept' = h.stat_keeps path w in
        let kept'' = h.read_keeps path w in
        elim (Result-cases (fs.stat_perm dir w).0) [
          | inr (x, e) ↦ (
            (λ a q. absurd (ground (arith, e, q))),
            (λ r. elim (Option-cases (at w dir).1) [
              | inl nothing ↦ ground (arith, e, nothing)
              | inr (m, there) ↦ absurd (ground (arith, e, r.1 m there))
            ]),
            ground (arith, e, kept),
          )
          | inl (d, e) ↦
              let dir_mode = h.stat_ok dir d w e in
              elim (Result-cases (fs.stat_perm path w).0) [
                | inr (x, f) ↦ (
                  (λ a q. absurd (ground (arith, e, f, q, kept))),
                  (λ r. elim (Option-cases (at w path).1) [
                    | inl nothing ↦ ground (arith, e, f, dir_mode, nothing, kept)
                    | inr (m, there) ↦ absurd (ground (arith, f, r.2 m there))
                  ]),
                  ground (arith, e, f, kept, kept'),
                )
                | inl (p, f) ↦
                    let file_mode = h.stat_ok path p w f in
                    elim (Result-cases (fs.read_file path w).0) [
                      | inr (x, g) ↦ (
                        (λ a q. absurd (ground (arith, e, f, g, q, kept, kept'))),
                        (λ r. elim (Option-cases (at w path).0) [
                          | inl nothing ↦
                              ground (arith, e, f, g, dir_mode, file_mode, nothing, kept, kept')
                          | inr (s, there) ↦ absurd (ground (arith, g, r.3 s there))
                        ]),
                        ground (arith, e, f, g, kept, kept', kept''),
                      )
                      | inl (s, g) ↦
                          let there = h.read_ok path s w g in
                          (
                            (λ a q.
                                ground
                                  (arith, e, f, g, q, dir_mode, file_mode, there, kept, kept')),
                            (λ r. ground (arith, e, f, g, dir_mode, file_mode, there, kept, kept')),
                            ground (arith, e, f, g, kept, kept', kept''),
                          )
                    ]
              ]
        ]

    -- When package os does what it documents (HasFiles), Load changes nothing; a service that it returns is the
    -- one that the map of the registry holds under the name; and if no read of the files of the name fails that
    -- have something to read (Readable), it returns that service if there is one, and else fails (Looked).
    pub load-held :
        (name : Str) (w : W) → Looked (Readable w name) (held w name) w (load fs toml paths name w)
    unfolding load
    load-held name w =
        let (c, cs, keeps) = load_config-held name w in
        let (s, ss, same) = load_secrets-held name w in
        let second = load_secrets fs toml paths name w in
        elim (Result-cases (load_config fs toml paths name w).0) [
          | inr (x, e) ↦ (
            (λ a q. absurd (ground (arith, e, q))),
            (λ r. ground (arith, e, cs r)),
            ground (arith, e, keeps),
          )
          | inl (cfg, e) ↦ elim (Result-cases second.0) [
            | inr (x, f) ↦ (
              (λ a q. absurd (ground (arith, e, f, q, keeps))),
              (λ r. ground (arith, e, f, cs r, ss r, keeps)),
              ground (arith, e, f, keeps, same),
            )
            | inl (sec, f) ↦ (
              (λ a q. ground (arith, e, f, q, c cfg e, s sec f, keeps)),
              (λ r. ground (arith, e, f, cs r, ss r, keeps)),
              ground (arith, e, f, keeps, same),
            )
          ]
        ]
