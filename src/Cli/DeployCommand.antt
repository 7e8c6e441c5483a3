-- ===== src/Cli/DeployCommand.antt =====
-- internal/cli/deploy_service.go: from the flags of `decloud deploy service` to the request.
pub mod Laws
use decloud.Base.{
  ℕ, suc, ◌+◌, ℤ, pos, is_zero, Str, codes, Bool, false, Option, none, some, List, [], ◌∷◌, ◌++◌,
  not, if◌then◌else◌, str_eq,
}
use decloud.Base.Path.{is_abs, clean, path_join}
use decloud.Errors.{
  Error, Result, ok, err, sentinel, errorf, end, lit, str, quoted, num, wrap, shown, error_is,
  wrap_text, err_usage, err_invalid_strategy, err_env_script_missing, err_env_script_unreadable,
  fs_not_exist,
}
use decloud.Exec.{M, pure, raise, attempt, or_fail, ◌>>=◌, ◌>>◌}
use decloud.Registry.Types.{Mount}
use decloud.Registry.Mount.{parse_mount_string, find_duplicate_target, target_at}
use decloud.Os.{Files}
use decloud.Deploy.Interface.{Done}
use decloud.Deploy.Requests.{Request}

-- deployServiceFlags
pub record Flags : Type 0 where
  pub name : Str
  pub hosts : List Str
  pub port : ℤ
  pub env_file : Str
  pub mounts : List Str
  pub readiness_path : Str
  pub readiness_timeout : ℤ
  pub strategy : Str
  pub dockerfile : Str
  pub no_compression : Bool

-- newDeployServiceCmd: the flags before the command line is read. Cobra asks for --name, which has no
-- use for its default.
abbrev pub default_flags : Flags
default_flags = record {
  name = [];
  hosts = [];
  port = pos 0;
  env_file = [];
  mounts = [];
  readiness_path = codes "/healthz";
  readiness_timeout = pos 60_000_000_000;
  strategy = codes "recreate";
  dockerfile = codes "Dockerfile";
  no_compression = false;
}

abbrev mount_error : Str → Error → Error
mount_error raw e =
    errorf
      (lit "--mount " (quoted raw (lit ": " (shown e (lit ": " (wrap (sentinel err_usage) end))))))

abbrev duplicate_error : Str → ℕ → Error
duplicate_error target first = errorf (
    lit "--mount " (
      quoted target (
        lit ": duplicate container_path (also at --mount["
          (num (pos first) (lit "]): " (wrap (sentinel err_usage) end))))))

abbrev cons_mount : Str → Result Mount → Result (List Mount) → Result (List Mount)
cons_mount raw (err e) rest = err (mount_error raw e)
cons_mount raw (ok m) (err e) = err e
cons_mount raw (ok m) (ok ms) = ok (m ∷ ms)

-- The loop of parseMountFlags: the first value that does not parse is the error.
unfoldable pub parse_each : List Str → Result (List Mount)
parse_each [] = ok []
parse_each (raw ∷ raws) = let rest = parse_each raws in cons_mount raw (parse_mount_string raw) rest

abbrev distinct : Result (List Mount) → Result (List Mount)
distinct (err e) = err e
distinct (ok ms) = elim (find_duplicate_target ms) [
  | none ↦ ok ms
  | some (first, dup) ↦ err (duplicate_error (target_at ms dup) first)
]

unfoldable pub parse_mount_flags : List Str → Result (List Mount)
unfolding parse_each
parse_mount_flags raws = distinct (parse_each raws)

abbrev strategy_error : Str → Error
strategy_error s = errorf (
    lit "--strategy=" (
      quoted s (
        lit ": only \"recreate\" is supported in M1: " (wrap (sentinel err_invalid_strategy) end))))

unfoldable pub port_required : Error
port_required = errorf (lit "--port is required: " (wrap (sentinel err_usage) end))

-- The tests on the flags, in their order.
unfoldable pub check_flags : Flags → Result (List Mount)
unfolding port_required str_eq
check_flags f = elim (parse_mount_flags f.mounts) [
  | err e ↦ err e
  | ok mounts ↦
      if not (str_eq f.strategy (codes "recreate"))
      then err (strategy_error f.strategy)
      else if is_zero f.port
      then err port_required
      else ok mounts
]

module _ {W : Type 0} (fs : Files W) where
  abbrev returned : {A : Type 0} → Result A → M W A
  returned r w = (r, w)

  -- filepath.Abs
  unfoldable pub absolute : Str → M W Str
  unfolding is_abs clean path_join
  absolute path =
      if is_abs path then pure (clean path) else (do dir ← fs.getwd; pure (path_join dir path))

  abbrev env_error : Str → Error → Error
  env_error path e =
      if error_is e fs_not_exist
      then errorf (wrap (sentinel err_env_script_missing) (lit ": " (str path end)))
      else errorf
          (wrap (sentinel err_env_script_unreadable) (lit ": " (str path (lit ": " (wrap e end)))))

  abbrev if_found : Str → Result ℕ → Str
  if_found candidate (ok _) = candidate
  if_found candidate (err e) = []

  unfoldable pub resolve_env_file : Str → Str → M W Str
  unfolding path_join str_eq
  resolve_env_file flag source_dir =
      if not (str_eq flag [])
      then (do or_fail (env_error flag) (fs.stat_perm flag); pure flag)
      else (do
        found ← attempt (fs.stat_perm (path_join source_dir (codes "env.sh")))
        pure (if_found (path_join source_dir (codes "env.sh")) found))

  abbrev dockerfile_of : Str → Str → Str
  dockerfile_of flag abs =
      let file = if str_eq flag [] then codes "Dockerfile" else flag in
      if is_abs file then file else path_join abs file

  abbrev request_of : Flags → List Mount → Str → Str → Request
  request_of f mounts abs env_file = record {
    name = f.name;
    source_dir = abs;
    dockerfile = dockerfile_of f.dockerfile abs;
    hosts = f.hosts;
    port = f.port;
    env_file = env_file;
    mounts = mounts;
    readiness_path = f.readiness_path;
    readiness_timeout = f.readiness_timeout;
    strategy = f.strategy;
    disable_compression = f.no_compression;
  }

  -- runDeployService up to the request.
  unfoldable pub request_from : Flags → Str → M W Request
  unfolding is_abs path_join
  request_from f source_dir = do
    mounts ← returned (check_flags f)
    abs ← or_fail (wrap_text "resolving source-dir") (absolute source_dir)
    env_file ← resolve_env_file f.env_file abs
    pure (request_of f mounts abs env_file)

  -- runDeployService, given Deploy.
  unfoldable pub run_deploy_service : (Request → M W Done) → Flags → Str → M W Done
  run_deploy_service deploy f source_dir = do req ← request_from f source_dir; deploy req
