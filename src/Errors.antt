-- ===== src/Errors.antt =====
-- Go's errors as the program builds them: the sentinels that the packages declare, `errors.New` and
-- `fmt.Errorf` with the verbs %w, %s, %q and %d, `errors.Is` and `err.Error()`.
-- internal/deploy/service.go, internal/registry/errors.go, internal/envcap/capture.go,
-- internal/dockerdrv/driver.go, internal/caddy/manager.go, internal/cli/exit_codes.go.
use decloud.Base.{
  ℕ, ◌≡◌, ◌⊎◌, inl, inr, refl, String, Str, codes, Bool, true, false, ◌||◌, ◌++◌, [], ◌∷◌, ◌==◌,
  ◌+◌, ◌/◌, ◌%◌, ◌-◌, ltb, if◌then◌else◌, itoa, ℤ,
}

-- The last three are those of the packages `context` and `io/fs`.
pub data Sentinel : Type 0 where
  err_env_capture err_build err_run err_readiness err_caddy_reload err_interrupted : Sentinel
  err_not_found err_secrets_missing err_permission_mode err_schema_mismatch : Sentinel
  err_unknown_field err_invalid_mount err_invalid_strategy err_partial_write : Sentinel
  err_env_script_missing err_env_script_unreadable : Sentinel
  err_container_not_found err_no_bridge_ip err_empty_service err_invalid_service : Sentinel
  err_caddy_up err_caddy_down : Sentinel
  err_usage : Sentinel
  canceled deadline_exceeded fs_not_exist : Sentinel

-- Each sentinel is a value of its own, so `==` compares identities.
sentinel_id : Sentinel → ℕ
sentinel_id err_env_capture = 0
sentinel_id err_build = 1
sentinel_id err_run = 2
sentinel_id err_readiness = 3
sentinel_id err_caddy_reload = 4
sentinel_id err_interrupted = 5
sentinel_id err_not_found = 6
sentinel_id err_secrets_missing = 7
sentinel_id err_permission_mode = 8
sentinel_id err_schema_mismatch = 9
sentinel_id err_unknown_field = 10
sentinel_id err_invalid_mount = 11
sentinel_id err_invalid_strategy = 12
sentinel_id err_partial_write = 13
sentinel_id err_env_script_missing = 14
sentinel_id err_env_script_unreadable = 15
sentinel_id err_container_not_found = 16
sentinel_id err_no_bridge_ip = 17
sentinel_id err_empty_service = 18
sentinel_id err_invalid_service = 19
sentinel_id err_caddy_up = 20
sentinel_id err_caddy_down = 21
sentinel_id err_usage = 22
sentinel_id canceled = 23
sentinel_id deadline_exceeded = 24
sentinel_id fs_not_exist = 25

unfoldable pub sentinel_eq : Sentinel → Sentinel → Bool
unfolding sentinel_id
sentinel_eq a b = sentinel_id a == sentinel_id b

mutual
  -- An error is a sentinel, or the value of a call of `fmt.Errorf` or `errors.New`.
  pub data Error : Type 0 where
    sentinel : Sentinel → Error
    errorf : Parts → Error

  -- The pieces of a format, in order: literal text, %s or %q of a string, %d, %w of an error, and
  -- %s or %q of an error's text, which does not wrap.
  pub data Parts : Type 0 where
    end : Parts
    lit : String → Parts → Parts
    str : Str → Parts → Parts
    quoted : Str → Parts → Parts
    num : ℤ → Parts → Parts
    wrap : Error → Parts → Parts
    shown : Error → Parts → Parts

unfoldable mutual
  unfolding sentinel_eq

  -- errors.Is
  pub error_is : Error → Sentinel → Bool
  error_is (sentinel s) t = sentinel_eq s t
  error_is (errorf ps) t = parts_wrap ps t

  pub parts_wrap : Parts → Sentinel → Bool
  parts_wrap end t = false
  parts_wrap (lit s ps) t = parts_wrap ps t
  parts_wrap (str s ps) t = parts_wrap ps t
  parts_wrap (quoted s ps) t = parts_wrap ps t
  parts_wrap (num n ps) t = parts_wrap ps t
  parts_wrap (wrap e ps) t = error_is e t || parts_wrap ps t
  parts_wrap (shown e ps) t = parts_wrap ps t

hex_digit : ℕ → ℕ
hex_digit n = if ltb n 10 then b'0' + n else b'a' + (n - 10)

-- One byte inside %q. A byte from 0x80 on is taken as part of a printable character.
quote_byte : ℕ → Str
unfolding hex_digit
quote_byte c =
    if c == b'"'
    then b'\\' ∷ b'"' ∷ []
    else if c == b'\\'
    then b'\\' ∷ b'\\' ∷ []
    else if c == 7
    then codes "\\a"
    else if c == 8
    then codes "\\b"
    else if c == 9
    then codes "\\t"
    else if c == 10
    then codes "\\n"
    else if c == 11
    then codes "\\v"
    else if c == 12
    then codes "\\f"
    else if c == 13
    then codes "\\r"
    else if ltb c 32 || c == 127
    then b'\\' ∷ b'x' ∷ hex_digit (c / 16) ∷ hex_digit (c % 16) ∷ []
    else c ∷ []

quote_bytes : Str → Str
quote_bytes [] = []
quote_bytes (c ∷ s) = quote_byte c ++ quote_bytes s

-- %q
unfoldable pub quote : Str → Str
unfolding quote_bytes quote_byte
quote s = b'"' ∷ (quote_bytes s ++ b'"' ∷ [])

unfoldable pub sentinel_text : Sentinel → String
sentinel_text err_env_capture = "deploy: env capture failed"
sentinel_text err_build = "deploy: docker build failed"
sentinel_text err_run = "deploy: docker run failed"
sentinel_text err_readiness = "deploy: readiness probe failed"
sentinel_text err_caddy_reload = "deploy: caddy reload failed"
sentinel_text err_interrupted = "deploy: cancelled by user"
sentinel_text err_not_found = "registry: service not found"
sentinel_text err_secrets_missing = "registry: config exists but secrets file is missing"
sentinel_text err_permission_mode = "registry: file or directory has wrong permission mode"
sentinel_text err_schema_mismatch = "registry: schema_version mismatch"
sentinel_text err_unknown_field = "registry: unknown field in TOML"
sentinel_text err_invalid_mount = "registry: invalid mount"
sentinel_text err_invalid_strategy = "registry: strategy not supported in M1"
sentinel_text err_partial_write = "registry: partial write (config wrote, secrets failed)"
sentinel_text err_env_script_missing = "envcap: env script not found"
sentinel_text err_env_script_unreadable = "envcap: env script unreadable"
sentinel_text err_container_not_found = "dockerdrv: container not found"
sentinel_text err_no_bridge_ip = "dockerdrv: container has no bridge network IP"
sentinel_text err_empty_service =
    "dockerdrv: Service is empty; populate Service in RunRequest/RunOptions"
sentinel_text err_invalid_service =
    "dockerdrv: Service contains '/'; journald tag would be ambiguous under journalctl CONTAINER_TAG= prefix queries"
sentinel_text err_caddy_up = "caddy: up failed"
sentinel_text err_caddy_down = "caddy: down failed"
sentinel_text err_usage = "usage error"
sentinel_text canceled = "context canceled"
sentinel_text deadline_exceeded = "context deadline exceeded"
sentinel_text fs_not_exist = "file does not exist"

unfoldable mutual
  unfolding sentinel_text quote itoa

  -- err.Error()
  pub error_text : Error → Str
  error_text (sentinel s) = codes (sentinel_text s)
  error_text (errorf ps) = parts_text ps

  pub parts_text : Parts → Str
  parts_text end = []
  parts_text (lit s ps) = codes s ++ parts_text ps
  parts_text (str s ps) = s ++ parts_text ps
  parts_text (quoted s ps) = quote s ++ parts_text ps
  parts_text (num n ps) = itoa n ++ parts_text ps
  parts_text (wrap e ps) = error_text e ++ parts_text ps
  parts_text (shown e ps) = error_text e ++ parts_text ps

-- A Go result pair `(value, err)`.
pub data Result {ℓ} (A : Type ℓ) : Type ℓ where
  ok : A → Result A
  err : Error → Result A

infixl 5 ◌>>=◌
abbrev pub ◌>>=◌ {ℓ κ} : {A : Type ℓ} {B : Type κ} → Result A → (A → Result B) → Result B
ok a >>= f = f a
err e >>= f = err e

-- err == nil
abbrev pub is_ok {ℓ} : {A : Type ℓ} → Result A → Bool
is_ok (ok a) = true
is_ok (err e) = false

-- fmt.Errorf("%w: %w", s, e)
abbrev pub wrap_both : Sentinel → Error → Error
wrap_both s e = errorf (wrap (sentinel s) (lit ": " (wrap e end)))

-- fmt.Errorf("<text>: %w", e)
abbrev pub wrap_text : String → Error → Error
wrap_text t e = errorf (lit t (lit ": " (wrap e end)))

-- fmt.Errorf("%w: <text>: %w", s, e)
abbrev pub wrap_step : Sentinel → String → Error → Error
wrap_step s t e = errorf (wrap (sentinel s) (lit ": " (lit t (lit ": " (wrap e end)))))

-- isCancellation of internal/deploy/service.go
unfoldable pub is_cancellation : Error → Bool
unfolding error_is
is_cancellation e = error_is e canceled || error_is e deadline_exceeded

pub Result-cases {ℓ} :
    {A : Type ℓ} (r : Result A) → ((a : A) × (r ≡ ok a)) ⊎ ((e : Error) × (r ≡ err e))
Result-cases (ok a) = inl (a, refl)
Result-cases (err e) = inr (e, refl)
