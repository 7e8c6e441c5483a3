-- ===== src/Docker/Cli/Laws.antt =====
-- internal/dockerdrv/cli_driver.go: what the driver's errors say, and what it makes of docker's reply.
use decloud.Base.{
  ◌≡◌, ◌≢◌, ◌⊎◌, inl, inr, Str, String, codes, subst, List, [], ◌∷◌, true, none, some, arith,
  Option-cases, trim_space,
}
use decloud.Errors.{Error, Sentinel, Result-cases, ok, err, error_is}
use decloud.Docker.Types.{RunRequest, InspectResult}
use decloud.Docker.Args.{run_args}
use decloud.Docker.Cli.{
  Shell, is_not_found, run, inspect, cli_driver, absent, inspect_format, command_error, run_with,
}
use decloud.Deploy.Interface.{Context}

pub command_error-is :
    (what : String) (e : Error) (stderr : Str) (s : Sentinel)
    → error_is (command_error what e stderr) s ≡ error_is e s
unfolding error_is
command_error-is what e stderr s = ground arith

module _ {W : Type 0} (sh : Shell W) (c : Context) (w : W) where
  -- An error wraps just what the error of some docker command wraps.
  abbrev pub Passes : Error → Type 0
  Passes e =
      (args : List Str) × (cause : Error) × ((sh.docker c args w).0.failure ≡ some cause)
      × ((s : Sentinel) → error_is e s ≡ error_is cause s)

  run_command : (args : List Str) (e : Error) → (run_with sh c (ok args) w).0 ≡ err e → Passes e
  run_command args e h = elim (Option-cases (sh.docker c args w).0.failure) [
    | inl n ↦ absurd (ground arith)
    | inr (cause, f) ↦
        let same : command_error "run" cause (sh.docker c args w).0.stderr ≡ e = ground arith in
        (args, cause, f, rw (← same) (command_error-is "run" cause (sh.docker c args w).0.stderr))
  ]

  -- An error of the driver's Run is the refusal of the service's name before docker is called, or it
  -- wraps exactly the sentinels that the error of a docker command wraps.
  pub run_errors :
      (req : RunRequest) (e : Error)
      → ((cli_driver sh).run c req w).0 ≡ err e
      → (run_args req ≡ err e) ⊎ Passes e
  unfolding cli_driver run
  run_errors req e h = elim (Result-cases (run_args req)) [
    | inl (args, a) ↦ inr (run_command args e (subst (λ x. (run_with sh c x w).0 ≡ err e) a h))
    | inr (x, a) ↦ inl (ground arith)
  ]

  -- What the driver's Inspect returns without an error is what docker inspect printed, decoded, if the
  -- command succeeded; and the state "absent" if the command failed because there is no such container.
  inspect_reply :
      (name : Str) (r : InspectResult)
      → ((cli_driver sh).inspect c name w).0 ≡ ok r
      → let ran =
          (sh.docker c (codes "inspect" ∷ name ∷ codes "--format" ∷ inspect_format ∷ []) w).0 in
        ((ran.failure ≡ none) × (sh.unmarshal (trim_space ran.stdout) ≡ ok r))
        ⊎ ((ran.failure ≢ none) × (is_not_found ran.stderr ≡ true) × (r ≡ absent))
  unfolding cli_driver inspect
  inspect_reply name r h =
      let ran =
        (sh.docker c (codes "inspect" ∷ name ∷ codes "--format" ∷ inspect_format ∷ []) w).0 in
      elim (Option-cases ran.failure) [
        | inl n ↦ inl (n, ground arith)
        | inr (cause, f) ↦ inr (λ z. ground arith, ground arith, ground arith)
      ]
