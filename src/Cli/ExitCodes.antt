-- ===== src/Cli/ExitCodes.antt =====
-- internal/cli/exit_codes.go: from an error to the exit code of the process.
use decloud.Base.{ℕ, Bool, ◌||◌, codes, Option, none, some, if◌then◌else◌, contains}
use decloud.Errors.{
  Error, error_is, error_text, err_env_capture, err_build, err_run, err_readiness, err_caddy_reload,
  err_interrupted, err_not_found, err_secrets_missing, err_permission_mode, err_schema_mismatch,
  err_unknown_field, err_invalid_mount, err_invalid_strategy, err_env_script_missing,
  err_env_script_unreadable, err_caddy_up, err_caddy_down, err_usage,
}

abbrev pub exit_ok : ℕ
exit_ok = 0

abbrev pub exit_usage_error : ℕ
exit_usage_error = 2

abbrev pub exit_config_error : ℕ
exit_config_error = 10

abbrev pub exit_env_capture_fail : ℕ
exit_env_capture_fail = 20

abbrev pub exit_build_fail : ℕ
exit_build_fail = 30

abbrev pub exit_run_fail : ℕ
exit_run_fail = 40

abbrev pub exit_readiness_fail : ℕ
exit_readiness_fail = 50

abbrev pub exit_caddy_reload_fail : ℕ
exit_caddy_reload_fail = 60

abbrev pub exit_internal : ℕ
exit_internal = 70

abbrev pub exit_interrupted : ℕ
exit_interrupted = 130

-- isCobraUsageError, at an error that is not nil
unfoldable pub is_cobra_usage_error : Error → Bool
unfolding error_text contains
is_cobra_usage_error e =
    let msg = error_text e in
    contains msg (codes "required flag")
    || contains msg (codes "unknown command")
    || contains msg (codes "unknown flag")
    || contains msg (codes "invalid argument")
    || contains msg (codes "accepts")

-- The sentinels of the ExitConfigError case.
unfoldable pub is_config_error : Error → Bool
unfolding error_is
is_config_error e =
    error_is e err_invalid_mount
    || error_is e err_invalid_strategy
    || error_is e err_schema_mismatch
    || error_is e err_unknown_field
    || error_is e err_permission_mode
    || error_is e err_secrets_missing
    || error_is e err_not_found
    || error_is e err_env_script_missing
    || error_is e err_env_script_unreadable

-- ExitCodeFor: `none` is the nil error.
unfoldable pub exit_code_for : Option Error → ℕ
unfolding is_config_error is_cobra_usage_error error_is
exit_code_for none = exit_ok
exit_code_for (some e) =
    if error_is e err_interrupted
    then exit_interrupted
    else if error_is e err_usage
    then exit_usage_error
    else if is_config_error e
    then exit_config_error
    else if error_is e err_env_capture
    then exit_env_capture_fail
    else if error_is e err_build
    then exit_build_fail
    else if error_is e err_run
    then exit_run_fail
    else if error_is e err_readiness
    then exit_readiness_fail
    else if error_is e err_caddy_reload
    then exit_caddy_reload_fail
    else if error_is e err_caddy_up || error_is e err_caddy_down
    then exit_run_fail
    else if is_cobra_usage_error e
    then exit_usage_error
    else exit_internal
