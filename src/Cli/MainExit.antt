-- ===== src/Cli/MainExit.antt =====
-- cmd/decloud/main.go with internal/cli/exit_codes.go: the exit code of the process.
use decloud.Base.{
  ℕ, ◌≡◌, ◌≢◌, ◌↔◌, refl, subst, ◌⊎◌, inl, inr, Str, codes, true, false, is_zero, none, some, List,
  [], ◌∷◌, Any, arith,
}
use decloud.Errors.{Error, Result-cases, ok, err, is_ok}
use decloud.Cli.ExitCodes.{
  exit_ok, exit_usage_error, exit_config_error, exit_env_capture_fail, exit_build_fail,
  exit_run_fail, exit_readiness_fail, exit_caddy_reload_fail, exit_internal, exit_interrupted,
  exit_code_for,
}
use decloud.Cli.Production.{System}
use decloud.Cli.Commands.{Command, deploy_service, run_command, execute, main}
use decloud.Cli.DeployCommand.{
  Flags, parse_mount_flags, check_flags, request_from, run_deploy_service,
}
use decloud.Cli.DeployCommand.Laws.{FailsWith, check_flags-verdict}
use decloud.Registry.Types.{Mount}

-- The exit codes of a failure, as _docs/usage.md lists them.
abbrev pub failures : List ℕ
failures =
    exit_usage_error ∷ exit_config_error ∷ exit_env_capture_fail ∷ exit_build_fail ∷ exit_run_fail
    ∷ exit_readiness_fail ∷ exit_caddy_reload_fail ∷ exit_internal ∷ exit_interrupted ∷ []

exit_code_for-failures : (e : Error) → Any (λ code. exit_code_for (some e) ≡ code) failures
unfolding exit_code_for
exit_code_for-failures e = ground arith

exit_code_for-none : exit_code_for none ≡ exit_ok
unfolding exit_code_for
exit_code_for-none = refl

failures_nonzero : (n : ℕ) → Any (λ code. n ≡ code) failures → n ≢ 0
failures_nonzero n h e = ground arith

-- The process exits with ExitOK if and only if PersistentPreRunE and RunE of its command return no error;
-- otherwise its exit code is one of the nine that are documented for a failure.
pub main_exits :
    {W : Type 0} (sys : System W) (log_variable config_root : Str) (command : Command) (w : W)
    → let r = main sys log_variable config_root command w in
      let ran = execute sys log_variable config_root command w in
      ((r.0 ≡ exit_ok) ↔ (is_ok ran.0 ≡ true)) × (r.0 ≢ exit_ok → Any (λ code. r.0 ≡ code) failures)
unfolding main
main_exits sys log_variable config_root command w =
    let ran = execute sys log_variable config_root command w in
    let code = (main sys log_variable config_root command w).0 in
    elim (Result-cases ran.0) [
      | inl (x, e) ↦
          let zero_code : code ≡ exit_ok = ground (arith, e, exit_code_for-none) in
          (((λ q. ground (arith, e)), (λ q. zero_code)), (λ n. absurd (n zero_code)))
      | inr (x, e) ↦
          let same : exit_code_for (some x) ≡ code = ground (arith, e) in
          let fails = subst (λ c. Any (λ d. c ≡ d) failures) same (exit_code_for-failures x) in
          (
            ((λ q. absurd (failures_nonzero code fails q)), (λ q. absurd (ground (arith, q, e)))),
            (λ n. fails),
          )
    ]

refused_exit :
    {W : Type 0} (sys : System W) (log_variable config_root source : Str) (f : Flags) (w : W)
    (code : ℕ)
    → FailsWith code (check_flags f)
    → (main sys log_variable config_root (deploy_service f source) w).0 ≡ code
unfolding main execute run_command run_deploy_service request_from
refused_exit sys log_variable config_root source f w code (e, failed, exits) =
    ground (arith, failed, exits)

-- What the flags of `decloud deploy service` come to: the process ends with this exit code, or the
-- flags are accepted.
abbrev pub Verdict : Flags → ℕ → Type 0
Verdict f code =
    (((e : Error) × (parse_mount_flags f.mounts ≡ err e)) × (code ≡ exit_usage_error))
    ⊎ ((ms : List Mount) × (parse_mount_flags f.mounts ≡ ok ms)
        × (((f.strategy ≢ codes "recreate") × (code ≡ exit_config_error))
            ⊎ ((f.strategy ≡ codes "recreate")
                × (((is_zero f.port ≡ true) × (code ≡ exit_usage_error))
                    ⊎ ((is_zero f.port ≡ false) × (check_flags f ≡ ok ms))))))

-- The process that runs `decloud deploy service` ends with ExitUsageError if the mounts among the flags are
-- refused; with ExitConfigError if they are not and the strategy is not "recreate"; with ExitUsageError if
-- neither is so and the port is 0; and in every other case the flags are accepted.
pub refused_flags_exit :
    {W : Type 0} (sys : System W) (log_variable config_root source : Str) (f : Flags) (w : W)
    → Verdict f (main sys log_variable config_root (deploy_service f source) w).0
refused_flags_exit sys log_variable config_root source f w =
    let exits = refused_exit sys log_variable config_root source f w in
    elim (check_flags-verdict f) [
      | inl (p, fails) ↦ inl (p, exits exit_usage_error fails)
      | inr (ms, p, inl (s, fails)) ↦ inr (ms, p, inl (s, exits exit_config_error fails))
      | inr (ms, p, inr (s, inl (z, fails))) ↦
          inr (ms, p, inr (s, inl (z, exits exit_usage_error fails)))
      | inr (ms, p, inr (s, inr (z, accepted))) ↦ inr (ms, p, inr (s, inr (z, accepted)))
    ]
