-- ===== src/Caddy/Reloader.antt =====
-- internal/caddy/reloader.go: the commands of Caddy inside its container, on paths inside the mounted
-- directory.
pub mod Laws
use decloud.Base.{
  Str, codes, Bool, ◌||◌, ◌++◌, Option, none, some, List, [], ◌∷◌, if◌then◌else◌, str_eq,
  has_prefix, contains, to_lower,
}
use decloud.Base.Path.{clean, rel, path_join}
use decloud.Errors.{
  Error, Result, ok, err, error_is, errorf, end, lit, str, quoted, wrap, err_container_not_found,
}
use decloud.Exec.{M}
use decloud.Docker.Types.{ExecOptions}
use decloud.Caddy.Manager.{caddy_container}
use decloud.Deploy.Interface.{Context, Done, Driver, ExecReply, Reloader}

unfoldable pub is_not_running_stderr : Str → Bool
unfolding contains to_lower
is_not_running_stderr s = contains (to_lower s) (codes "is not running")

unfoldable pub outside : Str → Str → Error
outside path dir =
    errorf (
      lit "caddy reloader: path "
        (quoted path (lit " is outside the bind-mount " (quoted dir end))))

abbrev container_dir : Str
container_dir = codes "/etc/caddy"

-- rel == ".." || strings.HasPrefix(rel, "../")
unfoldable pub goes_up : Str → Bool
unfolding str_eq has_prefix
goes_up r = str_eq r (codes "..") || has_prefix r (codes "../")

unfoldable pub translate_path : Str → Str → Result Str
unfolding clean rel goes_up path_join outside
translate_path dir host_path = elim (rel (clean dir) (clean host_path)) [
  | none ↦ err (outside host_path dir)
  | some r ↦ if goes_up r then err (outside host_path dir) else ok (path_join container_dir r)
]

abbrev not_running : Str → Error
not_running sub = errorf (
    lit "caddy " (
      str sub (
        lit ": container "
          (quoted caddy_container (lit " is not running; run 'decloud caddy up' first" end)))))

abbrev failed : Str → Error → Str → Error
failed sub e stderr =
    errorf (lit "caddy " (str sub (lit ": " (wrap e (lit "; stderr=" (quoted stderr end))))))

abbrev pub exec_options : Str → Str → ExecOptions
exec_options sub path = record {
  container = caddy_container;
  cmd = codes "caddy" ∷ sub ∷ codes "--config" ∷ path ∷ [];
}

abbrev pub exec_result : Str → ExecReply → Result Done
exec_result sub reply = elim reply.result [
  | ok _ ↦ ok tt
  | err e ↦
      if error_is e err_container_not_found || is_not_running_stderr reply.stderr
      then err (not_running sub)
      else err (failed sub e reply.stderr)
]

module _ {W : Type 0} (driver : Driver W) (dir : Str) where
  abbrev pub replied : Str → ExecReply × W → Result Done × W
  replied sub (reply, w) = (exec_result sub reply, w)

  -- execCaddy
  unfoldable pub exec_caddy : Context → Str → Str → M W Done
  exec_caddy c sub host_path w = elim (translate_path dir host_path) [
    | err e ↦ (err e, w)
    | ok path ↦ replied sub (driver.exec c (exec_options sub path) w)
  ]

  -- NewCLIReloader
  unfoldable pub cli_reloader : Reloader W
  cli_reloader = record {
    validate = λ c path. exec_caddy c (codes "validate") path;
    reload = λ c path. exec_caddy c (codes "reload") path;
  }
