-- ===== src/Caddy/Stub.antt =====
-- internal/caddy/stub.go and the file that internal/caddy/generator.go writes.
pub mod Laws
use decloud.Base.{ℕ, Str, codes, List, ◌∷◌, ◌++◌, if◌then◌else◌}
use decloud.Base.Path.{dir_of}
use decloud.Errors.{Result, ok, err, error_is, fs_not_exist}
use decloud.Exec.{M, pure, raise, attempt, ◌>>=◌, ◌>>◌}
use decloud.Registry.Types.{Service}
use decloud.Os.{Files}
use decloud.Caddy.Generator.{render}
use decloud.Deploy.Interface.{Done}

-- The dash of the first line is three bytes of UTF-8.
abbrev pub stub_body : Str
stub_body =
    codes "# decloud Caddyfile stub "
    ++ (226
        ∷ 128
        ∷ 148
        ∷ codes
            " no services registered yet.\n:80 {\n    respond \"no services registered yet\" 404\n}\n")

-- 0o755 and 0o644
abbrev pub mode_755 : ℕ
mode_755 = 493

abbrev pub mode_644 : ℕ
mode_644 = 420

module _ {W : Type 0} (fs : Files W) where
  -- The branches on os.Stat: only its error is looked at.
  abbrev after_stat : Str → Result ℕ → M W Done
  after_stat path (ok _) = pure tt
  after_stat path (err e) =
      if error_is e fs_not_exist
      then (do fs.mkdir_all (dir_of path) mode_755; fs.write_file path mode_644 stub_body)
      else raise e

  -- WriteStubIfMissing
  unfoldable pub write_stub_if_missing : Str → M W Done
  write_stub_if_missing path = do found ← attempt (fs.stat_perm path); after_stat path found

  -- A failed step removes the temporary file.
  abbrev or_remove : Str → Result Done → M W Done
  or_remove tmp (ok _) = pure tt
  or_remove tmp (err e) = do attempt (fs.remove tmp); raise e

  abbrev after_write : Str → Result Done → M W Done
  after_write tmp (ok _) = pure tt
  after_write tmp (err e) = do attempt (fs.close tmp); attempt (fs.remove tmp); raise e

  unfoldable pub write_file_atomic : Str → Str → M W Done
  write_file_atomic path content = do
    fs.mkdir_all (dir_of path) mode_755
    tmp ← fs.create_temp (dir_of path) (codes ".caddyfile-*")
    written ← attempt (fs.write tmp content)
    after_write tmp written
    closed ← attempt (fs.close tmp)
    or_remove tmp closed
    moded ← attempt (fs.chmod tmp mode_644)
    or_remove tmp moded
    fs.rename tmp path

  -- Generate
  unfoldable pub generate : Str → List Service → M W Done
  generate path services = write_file_atomic path (render services)
