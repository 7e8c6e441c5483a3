-- ===== src/Os.antt =====
-- The calls of the packages `os`, `time` and `crypto/rand` that the program makes, over a world that
-- they change.
pub mod Laws
use decloud.Base.{ℕ, Str, Bool, List}
use decloud.Exec.{M}
use decloud.Registry.Types.{Time}
use decloud.Deploy.Interface.{Done}

-- A mode is its permission bits; an entry of a directory is its name and IsDir. A file from
-- CreateTemp is named by its path. `open_append` is OpenFile of the log file.
pub record Files (W : Type 0) : Type 0 where
  pub read_file : Str → M W Str
  pub stat_perm : Str → M W ℕ
  pub mkdir_all : Str → ℕ → M W Done
  pub chmod : Str → ℕ → M W Done
  pub remove : Str → M W Done
  pub rename : Str → Str → M W Done
  pub read_dir : Str → M W (List (Str × Bool))
  pub create_temp : Str → Str → M W Str
  pub write : Str → Str → M W Done
  pub close : Str → M W Done
  pub write_file : Str → ℕ → Str → M W Done
  pub open_append : Str → ℕ → M W Done
  pub getwd : M W Str
  pub now : W → Time × W
