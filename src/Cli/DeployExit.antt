-- ===== src/Cli/DeployExit.antt =====
-- internal/cli/exit_codes.go over the errors of internal/deploy/service.go: the exit code of a
-- deployment that fails at each of its steps.
use decloud.Base.{
  ◌≡◌, ◌∙◌, refl, Str, String, true, false, Option, none, some, arith, List, [], ◌∷◌, codes,
}
use decloud.Errors.{
  Error, Sentinel, sentinel, errorf, end, lit, wrap, ok, err, is_ok, error_is, is_cancellation,
  wrap_both, wrap_step, canceled, deadline_exceeded, err_env_capture, err_build, err_run,
  err_readiness, err_caddy_reload, err_interrupted, err_usage, err_invalid_mount,
  err_invalid_strategy, err_schema_mismatch, err_unknown_field, err_permission_mode,
  err_secrets_missing, err_not_found, err_env_script_missing, err_env_script_unreadable,
}
use decloud.Registry.Types.{Service}
use decloud.Docker.Types.{BuildRequest, RunRequest}
use decloud.Docker.Args.{run_args}
use decloud.Docker.Cli.{Shell, cli_driver, build, run, command_error}
use decloud.Docker.Cli.Laws.{command_error-is}
use decloud.Deploy.Interface.{Dependencies, caller}
use decloud.Deploy.Requests.{Request, network_name, build_request}
use decloud.Ids.{image_ref}
use decloud.Deploy.Failures.{or_interrupted, readiness_error, no_route, orphan_error}
use decloud.Deploy.Service.{
  run_new, restore_old, prepare, deploy, capture_env, load_previous, build_image,
}
use decloud.Cli.ExitCodes.{
  exit_code_for, is_config_error, exit_env_capture_fail, exit_build_fail, exit_run_fail,
  exit_readiness_fail, exit_caddy_reload_fail, exit_interrupted,
}

-- An error of docker, of the shell or of the system: it wraps none of the sentinels.
abbrev pub IsPlain : Error → Type 0
IsPlain e = (s : Sentinel) → error_is e s ≡ false

module _ (e : Error) (p : IsPlain e) where
  not_config : is_config_error e ≡ false
  unfolding is_config_error
  not_config = ground (
    arith,
    p err_invalid_mount,
    p err_invalid_strategy,
    p err_schema_mismatch,
    p err_unknown_field,
    p err_permission_mode,
    p err_secrets_missing,
    p err_not_found,
    p err_env_script_missing,
    p err_env_script_unreadable,
  )

  -- An error of the system that wraps no sentinel gets the exit code of the step in which it occurs: 40
  -- for a step of docker run, the orphan check included, 20 for the environment, 30 for the build, 50
  -- for readiness, 60 for Caddy.
  step_exit_codes :
      (step : String) (container : Str)
      → (exit_code_for (some (wrap_step err_run step e)) ≡ exit_run_fail)
        × (exit_code_for (some (wrap_both err_env_capture e)) ≡ exit_env_capture_fail)
        × (exit_code_for (some (wrap_both err_build e)) ≡ exit_build_fail)
        × (exit_code_for (some (orphan_error container e)) ≡ exit_run_fail)
        × (exit_code_for (some (or_interrupted e (wrap_both err_run e))) ≡ exit_run_fail)
        × (exit_code_for (some (readiness_error e)) ≡ exit_readiness_fail)
        × (exit_code_for (some (no_route step e)) ≡ exit_caddy_reload_fail)
  unfolding exit_code_for is_cancellation
  step_exit_codes step container = ground (
    arith,
    p err_interrupted,
    p err_usage,
    p err_invalid_mount,
    p err_invalid_strategy,
    p err_schema_mismatch,
    p err_unknown_field,
    p err_permission_mode,
    p err_secrets_missing,
    p err_not_found,
    p err_env_script_missing,
    p err_env_script_unreadable,
    p err_env_capture,
    p err_build,
    p err_run,
    p err_readiness,
    p err_caddy_reload,
    p canceled,
    p deadline_exceeded,
  )

-- In every step whose error is wrapped by or_interrupted, a cancellation gives the exit code of an
-- interruption, whatever the step's own error would have been.
pub cancelled_exit :
    (e other : Error)
    → is_cancellation e ≡ true
    → exit_code_for (some (or_interrupted e other)) ≡ exit_interrupted
unfolding exit_code_for
cancelled_exit e other c = ground arith

-- The steps before the build come through, and the build starts in the second world.
abbrev pub ReachesBuild : {W : Type 0} → Dependencies W → Request → W → W → Type 0
ReachesBuild d req w v =
    let w1 = (d.new_deploy_id w).1 in
    let w2 = (d.driver.network_ensure caller network_name w1).1 in
    let w3 = (capture_env d req.env_file w2).1 in
    (is_ok (d.driver.network_ensure caller network_name w1).0 ≡ true)
    × (is_ok (capture_env d req.env_file w2).0 ≡ true)
    × (is_ok (load_previous d req.name w3).0 ≡ true)
    × ((load_previous d req.name w3).1 ≡ v)

deploy_build_failed :
    {W : Type 0} (d : Dependencies W) (req : Request) (w v : W) (e : Error)
    → ReachesBuild d req w v
    → ((r : BuildRequest) → (d.driver.build caller r v).0 ≡ err e)
    → (deploy d req w).0 ≡ err (wrap_both err_build e)
unfolding deploy prepare build_image
deploy_build_failed d req w v e (a, b, c, there) fails =
    ground
      (arith, a, b, c, there, fails (build_request req (image_ref req.name (d.new_deploy_id w).0)))

-- If the build is made by the driver that runs the `docker` command, the steps before it come through
-- (ReachesBuild), and the context is cancelled by then, so that os/exec starts no command and returns
-- its error, then the deployment fails with a cancellation, and its exit code is that of a failed
-- build, 30.
pub cancelled_build_exit :
    {W : Type 0} (sh : Shell W) (d : Dependencies W)
    → ((r : BuildRequest) (w : W) → d.driver.build caller r w ≡ (cli_driver sh).build caller r w)
    → (req : Request) (w v : W) → ReachesBuild d req w v
    → ((args : List Str) → (sh.docker caller args v).0.failure ≡ some (sentinel canceled))
    → (e : Error) × ((deploy d req w).0 ≡ err e)
      × (is_cancellation e ≡ true)
      × (exit_code_for (some e) ≡ exit_build_fail)
unfolding cli_driver build
cancelled_build_exit sh d same req w v reaches stopped =
    let e = errorf (lit "docker build: " (wrap (sentinel canceled) end)) in
    (
      wrap_both err_build e,
      deploy_build_failed d req w v e reaches (λ r. rw (same r v) (
          ground (
            arith,
            stopped (
                codes "build"
                ∷ codes "-t"
                ∷ r.image_ref
                ∷ codes "-f"
                ∷ r.dockerfile
                ∷ r.source_dir
                ∷ []),
          ))),
      unfold is_cancellation in refl,
      unfold exit_code_for in refl,
    )

run_new_failed :
    {W : Type 0} (d : Dependencies W) (req : RunRequest) (prev : Option Service) (w : W) (e : Error)
    → (d.driver.run caller req w).0 ≡ err e
    → (run_new d req prev w).0 ≡ err (or_interrupted e (wrap_both err_run e))
unfolding run_new restore_old
run_new_failed d req none w e h = ground arith
run_new_failed d req (some p) w e h = ground arith

-- If docker run is made by the driver that runs the `docker` command, and the command fails with an
-- error that wraps no sentinel, as os/exec reports a command that was killed when its context was
-- cancelled, then the start of the new container fails and its exit code is that of a failed run, 40.
pub killed_run_exit :
    {W : Type 0} (sh : Shell W) (d : Dependencies W)
    → ((r : RunRequest) (w : W) → d.driver.run caller r w ≡ (cli_driver sh).run caller r w)
    → (req : RunRequest) (prev : Option Service) (args : List Str) (w : W) (e : Error)
    → run_args req ≡ ok args
    → (sh.docker caller args w).0.failure ≡ some e
    → IsPlain e
    → (e' : Error) × ((run_new d req prev w).0 ≡ err e') × (exit_code_for (some e') ≡ exit_run_fail)
unfolding cli_driver run
killed_run_exit sh d same req prev args w e a f p =
    let killed = command_error "run" e (sh.docker caller args w).0.stderr in
    let plain : IsPlain killed =
      λ s. command_error-is "run" e (sh.docker caller args w).0.stderr s ∙ p s in
    let failed : (d.driver.run caller req w).0 ≡ err killed = rw (same req w) (ground arith) in
    (
      or_interrupted killed (wrap_both err_run killed),
      run_new_failed d req prev w killed failed,
      (step_exit_codes killed plain "" []).4,
    )
