-- ===== src/Logging.antt =====
-- internal/logging/logging.go: where the log goes. The handlers of log/slog are named by what they
-- write to.
use decloud.Base.{Str, codes, [], if◌then◌else◌, str_eq}
use decloud.Base.Path.{path_join}
use decloud.Config.{or_default}
use decloud.Errors.{Error, Result, ok, err, errorf, end, lit, shown, error_text}
use decloud.Exec.{M, pure, attempt, ◌>>=◌}
use decloud.Os.{Files}
use decloud.Deploy.Interface.{Done}

-- The destination of slog.SetDefault: stderr alone, with the warning that is printed before, or
-- stderr and the file of this path.
pub data Sink : Type 0 where
  stderr_only : Str → Sink
  stderr_and_file : Str → Sink

abbrev dir_warning : Error → Str
dir_warning e =
    error_text (errorf (lit "decloud: log dir unavailable, using stderr only: " (shown e end)))

abbrev file_warning : Error → Str
file_warning e =
    error_text (errorf (lit "decloud: log file unavailable, using stderr only: " (shown e end)))

module _ {W : Type 0} (fs : Files W) where
  abbrev after_open : Str → Result Done → M W Sink
  after_open path (ok _) = pure (stderr_and_file path)
  after_open path (err e) = pure (stderr_only (file_warning e))

  abbrev after_mkdir : Str → Result Done → M W Sink
  after_mkdir dir (err e) = pure (stderr_only (dir_warning e))
  after_mkdir dir (ok _) = do
    opened ← attempt (fs.open_append (path_join dir (codes "decloud.log")) 420)
    after_open (path_join dir (codes "decloud.log")) opened

  -- Init, given os.Getenv("DECLOUD_LOG_TO_STDERR_ONLY"); 493 is 0o755 and 420 is 0o644.
  unfoldable pub init : Str → Str → M W Sink
  unfolding str_eq path_join
  init variable root = if str_eq variable (codes "1") then pure (stderr_only []) else (do
    made ← attempt (fs.mkdir_all (path_join (or_default root) (codes "logs")) 493)
    after_mkdir (path_join (or_default root) (codes "logs")) made)
