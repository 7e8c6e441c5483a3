-- ===== src/Deploy/Service.antt =====
-- internal/deploy/service.go: Deploy, stage by stage, restoreOldContainer and regenerateAndReload.
use decloud.Base.{
  Str, codes, Bool, false, not, ◌&&◌, Option, none, some, List, [], ◌++◌, if◌then◌else◌, str_eq,
}
use decloud.Errors.{
  Error, Result, ok, err, error_is, wrap_both, wrap_text, wrap_step, err_env_capture, err_build,
  err_run, err_caddy_reload, err_not_found, err_secrets_missing, err_partial_write,
  err_container_not_found,
}
use decloud.Exec.{M, pure, raise, attempt, or_fail, sure, ◌>>=◌, ◌>>◌}
use decloud.Registry.Types.{Env, Service}
use decloud.Docker.Types.{RunRequest, InspectResult}
use decloud.Docker.Args.{get_or_empty}
use decloud.Ids.{container_name, image_ref}
use decloud.Deploy.Interface.{caller, cleanup, Done, Dependencies}
use decloud.Deploy.Requests.{
  Request, network_name, build_request, restore_request, run_request, readiness_spec, registration,
}
use decloud.Deploy.Failures.{
  or_interrupted, orphan_error, foreign_error, inspect_error, readiness_error, no_route,
}

-- ierr == nil && inspect.State == "running"
abbrev still_running : Result InspectResult → Bool
still_running (ok r) = str_eq r.state (codes "running")
still_running (err e) = false

abbrev pub service_label : InspectResult → Str
service_label r = get_or_empty (codes "decloud.service") r.labels

module _ {W : Type 0} (d : Dependencies W) where
  unfoldable pub capture_env : Str → M W Env
  unfolding str_eq
  capture_env env_file =
      if str_eq env_file []
      then pure []
      else or_fail (wrap_both err_env_capture) (d.capture caller env_file)

  -- prev, hasPrev
  abbrev previous_of : Result Service → M W (Option Service)
  previous_of (ok s) = pure (some s)
  previous_of (err e) =
      if not (error_is e err_not_found) && not (error_is e err_secrets_missing)
      then raise (wrap_text "loading previous registration" e)
      else pure none

  unfoldable pub load_previous : Str → M W (Option Service)
  load_previous name = do loaded ← attempt (d.store.load caller name); previous_of loaded

  unfoldable pub build_image : Request → Str → M W Done
  build_image req image = do
    or_fail (wrap_both err_build) (d.driver.build caller (build_request req image))
    pure tt

  abbrev after_stop_old : Str → Result Done → M W Done
  after_stop_old container (ok _) = pure tt
  after_stop_old container (err e) = if error_is e err_container_not_found then pure tt else do
    inspected ← attempt (d.driver.inspect caller container)
    if still_running inspected
        then raise (or_interrupted e (wrap_step err_run "stop previous container" e))
        else pure tt

  -- The error of a call is returned as `f` of it, unless there was no such container.
  abbrev unless_not_found : (Error → Error) → Result Done → M W Done
  unless_not_found f (ok _) = pure tt
  unless_not_found f (err e) =
      if error_is e err_container_not_found then pure tt else raise (or_interrupted e (f e))

  -- The branch `if hasPrev` before the new container runs.
  unfoldable pub clear_previous : Str → M W Done
  clear_previous container = do
    stopped ← attempt (d.driver.stop caller container 10)
    after_stop_old container stopped
    removed ← attempt (d.driver.remove caller container)
    unless_not_found (wrap_step err_run "remove previous container") removed

  unfoldable pub remove_orphan : Str → M W Done
  remove_orphan container = do
    stopped ← attempt (d.driver.stop caller container 10)
    unless_not_found (orphan_error container) stopped
    removed ← attempt (d.driver.remove caller container)
    unless_not_found (orphan_error container) removed

  -- The branch `else`: a container may be left from an interrupted first deployment.
  unfoldable pub clear_orphan : Str → Str → M W Done
  unfolding remove_orphan
  clear_orphan name container = do
    inspected ← or_fail (inspect_error container) (d.driver.inspect caller container)
    if str_eq inspected.state (codes "absent")
        then pure tt
        else if not (str_eq (service_label inspected) name)
        then raise (foreign_error container (service_label inspected) name)
        else remove_orphan container

  unfoldable pub clear_old : Str → Str → Option Service → M W Done
  unfolding clear_previous clear_orphan
  clear_old name container (some prev) = clear_previous container
  clear_old name container none = clear_orphan name container

  -- restoreOldContainer: its own failure is logged only.
  unfoldable pub restore_old : Option Service → M W Done
  restore_old none = pure tt
  restore_old (some prev) = do attempt (d.driver.run cleanup (restore_request prev)); pure tt

  abbrev after_run_new : Option Service → Result Str → M W Done
  after_run_new prev (ok _) = pure tt
  after_run_new prev (err e) = do restore_old prev; raise (or_interrupted e (wrap_both err_run e))

  unfoldable pub run_new : RunRequest → Option Service → M W Done
  run_new request prev = do
    started ← attempt (d.driver.run caller request)
    after_run_new prev started

  -- The clean-up after a failed probe and after a failed save: errors are logged only.
  unfoldable pub discard_new : Str → Option Service → M W Done
  discard_new container prev = do
    attempt (d.driver.stop cleanup container 10)
    attempt (d.driver.remove cleanup container)
    restore_old prev

  abbrev after_wait : Str → Option Service → Result Done → M W Done
  after_wait container prev (ok _) = pure tt
  after_wait container prev (err e) = do discard_new container prev; raise (readiness_error e)

  unfoldable pub await_ready : Str → Request → Option Service → M W Done
  await_ready container req prev = do
    waited ← attempt (d.wait caller container (readiness_spec req) req.port)
    after_wait container prev waited

  -- Only a partial write leaves a config file to delete.
  abbrev roll_back_config : Str → Error → M W Done
  roll_back_config name e =
      if error_is e err_partial_write
      then (do attempt (d.store.delete_orphan_config cleanup name); pure tt)
      else pure tt

  abbrev after_save : Str → Str → Option Service → Result Done → M W Done
  after_save name container prev (ok _) = pure tt
  after_save name container prev (err e) = do
    roll_back_config name e
    discard_new container prev
    raise (or_interrupted e (wrap_text "registry save" e))

  unfoldable pub save_registration : Str → Service → Option Service → M W Done
  save_registration container svc prev = do
    saved ← attempt (d.store.save caller svc)
    after_save svc.config.name container prev saved

  abbrev after_validate : Str → Result Done → M W Done
  after_validate tmp (ok _) = pure tt
  after_validate tmp (err e) = do attempt (d.os_remove tmp); raise (no_route "validate" e)

  -- The file that is validated before it becomes the Caddyfile.
  unfoldable pub tmp_path : Str
  tmp_path = d.caddyfile_path ++ codes ".tmp"

  -- regenerateAndReload, once the services are listed.
  unfoldable pub install_caddyfile : List Service → M W Done
  install_caddyfile services = do
    attempt (d.write_stub_if_missing d.caddyfile_path)
    or_fail (wrap_step err_caddy_reload "generating caddyfile") (d.generate tmp_path services)
    valid ← attempt (d.reloader.validate caller tmp_path)
    after_validate tmp_path valid
    or_fail (wrap_step err_caddy_reload "rename caddyfile") (d.os_rename tmp_path d.caddyfile_path)
    or_fail (no_route "reload") (d.reloader.reload caller d.caddyfile_path)

  -- regenerateAndReload
  unfoldable pub regenerate_and_reload : M W Done
  regenerate_and_reload = do
    services ← or_fail (wrap_text "listing services") (d.store.list caller)
    install_caddyfile services

  -- From the new container on: readiness, the registry, Caddy.
  unfoldable pub publish : Request → Str → Str → Env → Option Service → M W Done
  publish req deploy_id image captured prev = do
    await_ready (container_name req.name) req prev
    at ← sure d.now
    save_registration (container_name req.name) (registration req deploy_id image captured at) prev
    regenerate_and_reload

  -- What a deployment does before it touches a container: the id, the network, the environment,
  -- the previous registration, the image.
  unfoldable pub prepare : Request → M W (Str × Env × Option Service)
  prepare req = do
    deploy_id ← sure d.new_deploy_id
    or_fail (wrap_step err_run "ensuring decloud network")
        (d.driver.network_ensure caller network_name)
    captured ← capture_env req.env_file
    prev ← load_previous req.name
    build_image req (image_ref req.name deploy_id)
    pure (deploy_id, captured, prev)

  -- What it does after that.
  unfoldable pub activate : Request → Str × Env × Option Service → M W Done
  activate req (deploy_id, captured, prev) = do
    let image = image_ref req.name deploy_id
    clear_old req.name (container_name req.name) prev
    run_new (run_request req image captured) prev
    publish req deploy_id image captured prev

  -- Deploy
  unfoldable pub deploy : Request → M W Done
  deploy req = do prepared ← prepare req; activate req prepared
