-- ===== src/Envcap/Capture.antt =====
-- internal/envcap/capture.go: Capture and runHermeticBash. os.Stat and the shell are parameters.
pub mod Laws
use decloud.Base.{Str, codes, Bool, Option, none, some, List, [], ◌∷◌, if◌then◌else◌, str_eq}
use decloud.Errors.{
  Error, sentinel, errorf, end, lit, str, quoted, wrap, Result, ok, err, wrap_text,
  err_env_script_missing, err_env_script_unreadable,
}
use decloud.Exec.{M, pure, raise, or_fail, ◌>>=◌}
use decloud.Registry.Types.{Env}
use decloud.Docker.Cli.{Ran}
use decloud.Deploy.Interface.{Context}
use decloud.Envcap.Dump.{parse_null_delimited, diff_env}

-- os.Stat: fs.ErrNotExist, another error, or a file of which IsDir tells.
pub data Stat : Type 0 where
  missing : Stat
  failed : Error → Stat
  found : Bool → Stat

-- os.Stat, and /usr/bin/env with its arguments.
pub record Bash (W : Type 0) : Type 0 where
  pub stat : Str → W → Stat × W
  pub env : Context → List Str → W → Ran × W

abbrev capture_script : Str
capture_script =
    codes
      "if [ -n \"$1\" ]; then\n    set -a\n    source \"$1\"\nfi\nwhile IFS= read -r __name; do\n    printf \"%s=%s\\0\" \"$__name\" \"${!__name}\"\ndone < <(compgen -e)\n"

abbrev pub hermetic_args : Str → List Str
hermetic_args path =
    codes "-i"
    ∷ codes "PATH=/usr/local/sbin:/usr/local/bin:/usr/sbin:/usr/bin:/sbin:/bin"
    ∷ codes "HOME=/tmp"
    ∷ codes "/bin/bash"
    ∷ codes "--noprofile"
    ∷ codes "--norc"
    ∷ codes "-c"
    ∷ capture_script
    ∷ codes "_"
    ∷ path
    ∷ []

abbrev bash_error : Error → Str → Error
bash_error e stderr = errorf (lit "bash exited: " (wrap e (lit "; stderr=" (quoted stderr end))))

abbrev missing_error : Str → Error
missing_error path = errorf (wrap (sentinel err_env_script_missing) (lit ": " (str path end)))

abbrev unreadable_error : Str → Error → Error
unreadable_error path e =
    errorf (wrap (sentinel err_env_script_unreadable) (lit ": " (str path (lit ": " (wrap e end)))))

abbrev directory_error : Str → Error
directory_error path =
    errorf
      (wrap (sentinel err_env_script_unreadable) (lit ": " (str path (lit " is a directory" end))))

module _ {W : Type 0} (b : Bash W) where
  abbrev dumped : Ran × W → Result Env × W
  dumped (r, w) = elim r.failure [
    | none ↦ (ok (parse_null_delimited r.stdout), w)
    | some e ↦ (err (bash_error e r.stderr), w)
  ]

  unfoldable pub run_hermetic_bash : Context → Str → M W Env
  run_hermetic_bash c path w = dumped (b.env c (hermetic_args path) w)

  -- Both dumps, and their difference.
  unfoldable pub capture_diff : Context → Str → M W Env
  capture_diff c path = do
    baseline ← or_fail (wrap_text "env capture baseline") (run_hermetic_bash c [])
    full ← or_fail (wrap_text "env capture") (run_hermetic_bash c path)
    pure (diff_env baseline full)

  abbrev after_stat : Context → Str → Stat × W → Result Env × W
  after_stat c path (missing, w) = (err (missing_error path), w)
  after_stat c path (failed e, w) = (err (unreadable_error path e), w)
  after_stat c path (found is_dir, w) =
      if is_dir then (err (directory_error path), w) else capture_diff c path w

  unfoldable pub capture : Context → Str → M W Env
  unfolding str_eq
  capture c path w = if str_eq path [] then (ok [], w) else after_stat c path (b.stat path w)
