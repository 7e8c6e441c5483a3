-- ===== src/Registry/Files.antt =====
-- internal/registry/store.go: the files of a registration, their paths and writeAtomic. The TOML decoder is a parameter.
pub mod Atomic
use decloud.Base.{
  ℕ, ◌+◌, ◌/◌, ◌%◌, Str, codes, Bool, ◌||◌, not, List, [], ◌∷◌, ◌++◌, if◌then◌else◌, str_eq, ltb,
  ◌==◌, has_prefix, split,
}
use decloud.Base.Split.{join}
use decloud.Errors.{
  Error, Result, ok, err, sentinel, errorf, end, lit, str, wrap, err_unknown_field,
}
use decloud.Exec.{M, pure, raise, attempt, ◌>>=◌, ◌>>◌}
use decloud.Registry.Types.{ServiceConfig, ServiceSecrets, Time}
use decloud.Base.Path.{path_join, dir_of}
use decloud.Os.{Files}
use decloud.Config.{Paths}
use decloud.Deploy.Interface.{Done}

-- What the strict TOML decoder returns: a value, a toml.StrictMissingError with its text, or another
-- error.
pub data Decoded (A : Type 0) : Type 0 where
  value : A → Decoded A
  strict_missing : Str → Decoded A
  malformed : Error → Decoded A

pub record Toml : Type 0 where
  pub marshal_config : ServiceConfig → Result Str
  pub marshal_secrets : ServiceSecrets → Result Str
  pub decode_config : Str → Decoded ServiceConfig
  pub decode_secrets : Str → Decoded ServiceSecrets

unfoldable pub config_path : Paths → Str → Str
unfolding path_join
config_path paths name = path_join paths.services_dir (name ++ codes ".toml")

unfoldable pub secrets_dir_of : Paths → Str → Str
unfolding path_join
secrets_dir_of paths name = path_join paths.secrets_dir name

unfoldable pub secrets_path : Paths → Str → Str
unfolding path_join secrets_dir_of
secrets_path paths name = path_join (secrets_dir_of paths name) (codes "env.toml")

-- %#o of permission bits, which are below 0o1000
unfoldable pub octal : ℕ → Str
octal n =
    let low = b'0' + n % 8 in
    let mid = b'0' + (n / 8) % 8 in
    if n == 0
    then codes "0"
    else if ltb n 8
    then b'0' ∷ low ∷ []
    else if ltb n 64
    then b'0' ∷ mid ∷ low ∷ []
    else b'0' ∷ (b'0' + n / 64) ∷ mid ∷ low ∷ []

unfoldable pub decode_config : Toml → Str → Result ServiceConfig
decode_config t data_bytes = elim (t.decode_config data_bytes) [
  | value cfg ↦ ok cfg
  | strict_missing s ↦ err (errorf (wrap (sentinel err_unknown_field) (lit ": " (str s end))))
  | malformed e ↦ err e
]

unfoldable pub decode_secrets : Toml → Str → Result ServiceSecrets
decode_secrets t data_bytes = elim (t.decode_secrets data_bytes) [
  | value sec ↦ ok sec
  | strict_missing s ↦ err (errorf (wrap (sentinel err_unknown_field) (lit ": " (str s end))))
  | malformed e ↦ err (errorf (wrap (sentinel err_unknown_field) (lit ": " (wrap e end))))
]

module _ {W : Type 0} (fs : Files W) where
  -- An error after CreateTemp: the temporary file is removed.
  abbrev or_remove : Str → Result Done → M W Done
  or_remove tmp (ok _) = pure tt
  or_remove tmp (err e) = do attempt (fs.remove tmp); raise e

  -- The branch of a failed Write, which closes the file first.
  abbrev after_write : Str → Result Done → M W Done
  after_write tmp (ok _) = pure tt
  after_write tmp (err e) = do attempt (fs.close tmp); attempt (fs.remove tmp); raise e

  -- writeAtomic
  unfoldable pub write_atomic : Str → ℕ → Str → M W Done
  write_atomic path mode content = do
    tmp ← fs.create_temp (dir_of path) (codes ".tmp-*")
    written ← attempt (fs.write tmp content)
    after_write tmp written
    closed ← attempt (fs.close tmp)
    or_remove tmp closed
    moded ← attempt (fs.chmod tmp mode)
    or_remove tmp moded
    renamed ← attempt (fs.rename tmp path)
    or_remove tmp renamed
