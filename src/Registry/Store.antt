-- ===== src/Registry/Store.antt =====
-- internal/registry/store.go: the store on the file system, fsStore.
pub mod Laws
pub mod Names
pub mod Listed
pub mod Layout
pub mod Change
pub mod Saved
pub mod Removed
pub mod Refines
pub mod Frame
pub mod Held
use decloud.Base.{
  ℕ, ℤ, pos, negsuc, is_zero, String, Str, codes, Bool, true, false, ◌&&◌, ◌||◌, not, List, [], ◌∷◌,
  Option, none, some, if◌then◌else◌, str_eq, str_leb, ◌==◌, has_suffix, trim_suffix, sort,
}
use decloud.Errors.{
  Error, Result, ok, err, wrap_text, sentinel, errorf, end, lit, str, quoted, num, wrap, error_is,
  err_not_found, err_secrets_missing, err_permission_mode, err_schema_mismatch,
  err_invalid_strategy, err_partial_write, fs_not_exist,
}
use decloud.Exec.{M, pure, raise, attempt, or_fail, sure, ◌>>=◌, ◌>>◌}
use decloud.Registry.Types.{Service, ServiceConfig, ServiceSecrets, Time, current_schema_version}
use decloud.Registry.Mount.{validate_mounts}
use decloud.Os.{Files}
use decloud.Config.{Paths}
use decloud.Registry.Files.{
  Toml, config_path, secrets_dir_of, secrets_path, octal, decode_config, decode_secrets,
  write_atomic,
}
use decloud.Deploy.Interface.{Done, Store}

-- The modes of the source, 0o700, 0o600, 0o755 and 0o644.
abbrev mode_700 : ℕ
mode_700 = 448

abbrev mode_600 : ℕ
mode_600 = 384

abbrev mode_755 : ℕ
mode_755 = 493

abbrev mode_644 : ℕ
mode_644 = 420

-- fmt.Errorf("registry: <what> <path>: %w", err)
abbrev pub at_path : String → Str → Error → Error
at_path what path e =
    errorf (lit "registry: " (lit what (lit " " (str path (lit ": " (wrap e end))))))

abbrev schema_error : String → Str → ℤ → Error
schema_error what path n = errorf (
    wrap (sentinel err_schema_mismatch) (
      lit ": " (
        lit what (
          lit " " (
            str path (
              lit " has schema_version="
                (num n (lit ", expected " (num current_schema_version end)))))))))

abbrev strategy_error : Str → Str → Str → Error
strategy_error name strategy path = errorf (
    wrap (sentinel err_invalid_strategy) (
      lit ": service " (
        quoted name (
          lit " declares strategy=" (
            quoted strategy
              (lit " in " (str path (lit "; only \"recreate\" is supported in M1" end))))))))

abbrev mode_error : String → Str → ℕ → String → Error
mode_error what path mode expected = errorf (
    wrap (sentinel err_permission_mode) (
      lit ": "
        (lit what (lit " " (str path (lit " has mode " (str (octal mode) (lit expected end))))))))

abbrev missing : Str → Error
missing path = errorf (wrap (sentinel err_secrets_missing) (lit ": " (str path end)))

-- == CurrentSchemaVersion
abbrev pub is_current : ℤ → Bool
is_current (pos n) = n == 1
is_current (negsuc n) = false

-- The tests on a decoded config, and cfg.Name = name.
unfoldable pub check_config : Str → Str → ServiceConfig → Result ServiceConfig
unfolding str_eq
check_config name path cfg =
    if not (is_current cfg.schema_version)
    then err (schema_error "config" path cfg.schema_version)
    else elim (validate_mounts cfg.run.mounts name path) [
      | some e ↦ err e
      | none ↦
          if not (str_eq cfg.strategy []) && not (str_eq cfg.strategy (codes "recreate"))
          then err (strategy_error name cfg.strategy path)
          else ok (record cfg { name = name })
    ]

unfoldable pub check_secrets : Str → ServiceSecrets → Result ServiceSecrets
check_secrets path sec =
    if not (is_current sec.schema_version)
    then err (schema_error "secrets" path sec.schema_version)
    else ok sec

-- ListNames: the names of the entries that are config files.
unfoldable pub config_names : List (Str × Bool) → List Str
unfolding has_suffix trim_suffix
config_names [] = []
config_names ((n, is_dir) ∷ entries) =
    let rest = config_names entries in
    if is_dir || (not (has_suffix n (codes ".toml")) || has_suffix n (codes ".tmp"))
    then rest
    else trim_suffix n (codes ".toml") ∷ rest

-- validateForSave, which fills in the fields that are not set.
unfoldable pub validate_for_save : Time → Service → Result Service
unfolding str_eq
validate_for_save now svc =
    let config = svc.config in
    let secrets = svc.secrets in
    if str_eq config.name []
    then err (errorf (lit "registry: empty service name" end))
    else ok (record {
      config = record config {
        schema_version =
            if is_zero config.schema_version then current_schema_version else config.schema_version;
        last_deployed_at = if config.last_deployed_at == 0 then now else config.last_deployed_at;
      };
      secrets = record secrets {
        schema_version =
            if is_zero secrets.schema_version
            then current_schema_version
            else secrets.schema_version;
        name = if str_eq secrets.name [] then config.name else secrets.name;
      };
    })

module _ {W : Type 0} (fs : Files W) (toml : Toml) (paths : Paths) where
  -- A result of a pure function, as a step.
  abbrev returned : {A : Type 0} → Result A → M W A
  returned r w = (r, w)

  abbrev read_error : Str → Str → Error → Error
  read_error name path e =
      if error_is e fs_not_exist
      then errorf (wrap (sentinel err_not_found) (lit ": " (str name end)))
      else at_path "reading config" path e

  unfoldable pub load_config : Str → M W ServiceConfig
  load_config name = do
    content ←
        or_fail (read_error name (config_path paths name)) (fs.read_file (config_path paths name))
    cfg ← returned (elim (decode_config toml content) [
      | ok c ↦ check_config name (config_path paths name) c
      | err e ↦ err (at_path "decoding config" (config_path paths name) e)
    ])
    pure cfg

  -- os.Stat of the secrets directory or file, and the test of its mode.
  abbrev stat_error : String → Str → Str → Error → Error
  stat_error what path secrets e =
      if error_is e fs_not_exist then missing secrets else at_path what path e

  abbrev with_mode : String → Str → ℕ → String → ℕ → M W Done
  with_mode what path mode expected perm =
      if perm == mode then pure tt else raise (mode_error what path perm expected)

  unfoldable pub load_secrets : Str → M W ServiceSecrets
  load_secrets name = do
    let dir = secrets_dir_of paths name
    let path = secrets_path paths name
    dir_perm ← or_fail (stat_error "stat secrets dir" dir path) (fs.stat_perm dir)
    with_mode "secrets dir" dir mode_700 ", expected 0700" dir_perm
    perm ← or_fail (stat_error "stat secrets file" path path) (fs.stat_perm path)
    with_mode "secrets file" path mode_600 ", expected 0600" perm
    content ← or_fail (at_path "reading secrets" path) (fs.read_file path)
    returned (elim (decode_secrets toml content) [
      | ok sec ↦ check_secrets path sec
      | err e ↦ err (at_path "decoding secrets" path e)
    ])

  unfoldable pub load : Str → M W Service
  load name = do
    cfg ← load_config name
    sec ← load_secrets name
    pure (record { config = cfg; secrets = sec })

  -- An error after the config was written.
  abbrev partial : String → Str → Error → Error
  partial what path e = errorf (
      wrap (sentinel err_partial_write)
        (lit ": " (lit what (lit " " (str path (lit ": " (wrap e end)))))))

  -- What follows the config in Save: the secrets directory and file.
  unfoldable pub write_secrets : Str → Str → M W Done
  write_secrets name content = do
    let dir = secrets_dir_of paths name
    or_fail (partial "mkdir secrets dir" dir) (fs.mkdir_all dir mode_700)
    or_fail (partial "chmod secrets dir" dir) (fs.chmod dir mode_700)
    or_fail (partial "writing secrets at" (secrets_path paths name))
        (write_atomic fs (secrets_path paths name) mode_600 content)

  -- time.Now is read only for a service without a time; reading it always changes no result.
  unfoldable pub save : Service → M W Done
  save given = do
    now ← sure fs.now
    svc ← returned (validate_for_save now given)
    or_fail (wrap_text "registry: mkdir services dir") (fs.mkdir_all paths.services_dir mode_755)
    config ←
        or_fail (wrap_text "registry: marshalling config")
          (returned (toml.marshal_config svc.config))
    secrets ←
        or_fail (wrap_text "registry: marshalling secrets")
          (returned (toml.marshal_secrets svc.secrets))
    or_fail (wrap_text "registry: writing config")
        (write_atomic fs (config_path paths svc.config.name) mode_644 config)
    write_secrets svc.config.name secrets

  -- os.Remove of a file that need not be there.
  abbrev unless_gone : (Error → Error) → Result Done → M W Done
  unless_gone f (ok _) = pure tt
  unless_gone f (err e) = if error_is e fs_not_exist then pure tt else raise (f e)

  unfoldable pub delete : Str → M W Done
  delete name = do
    a ← attempt (fs.remove (secrets_path paths name))
    unless_gone (at_path "removing secrets file" (secrets_path paths name)) a
    b ← attempt (fs.remove (secrets_dir_of paths name))
    unless_gone (at_path "removing secrets dir" (secrets_dir_of paths name)) b
    c ← attempt (fs.remove (config_path paths name))
    unless_gone (at_path "removing config file" (config_path paths name)) c

  unfoldable pub delete_orphan_config : Str → M W Done
  delete_orphan_config name = do
    a ← attempt (fs.remove (config_path paths name))
    unless_gone (λ e. e) a

  abbrev after_read_dir : Result (List (Str × Bool)) → M W (List Str)
  after_read_dir (ok entries) = pure (sort str_leb (config_names entries))
  after_read_dir (err e) =
      if error_is e fs_not_exist
      then pure []
      else raise (at_path "reading services dir" paths.services_dir e)

  unfoldable pub list_names : M W (List Str)
  list_names = do entries ← attempt (fs.read_dir paths.services_dir); after_read_dir entries

  -- The loop of List: a service that does not load is passed over.
  abbrev add_loaded : Result Service → List Service → List Service
  add_loaded (ok svc) rest = svc ∷ rest
  add_loaded (err e) rest = rest

  unfoldable pub load_each : List Str → M W (List Service)
  load_each [] = pure []
  load_each (name ∷ names) = do
    loaded ← attempt (load name)
    rest ← load_each names
    pure (add_loaded loaded rest)

  unfoldable pub list : M W (List Service)
  list = do names ← list_names; load_each names

  -- NewFSStore
  unfoldable pub fs_store : Store W
  fs_store = record {
    load = λ c. load;
    save = λ c. save;
    delete_orphan_config = λ c. delete_orphan_config;
    list = λ c. list;
    delete = λ c. delete;
    list_names = λ c. list_names;
  }
