-- ===== src/Deploy/Rollback.antt =====
-- internal/deploy/service.go: what a deployment that fails leaves running.
use decloud.Base.{◌≡◌, ◌⊎◌, true, false, Str, Option, some, arith}
use decloud.Errors.{Error, is_ok, error_is, err_caddy_reload, wrap_text}
use decloud.Exec.Triple.{Triple}
use decloud.Registry.Types.{Env, Service}
use decloud.Ids.{container_name}
use decloud.Deploy.Interface.{Dependencies, caller}
use decloud.Deploy.Requests.{Request, run_request, restore_request}
use decloud.Deploy.Host.{Container, HasContainers, IsRunnable, CleansUp, RefusesUsedNames}
use decloud.Deploy.Service.{run_new, restore_old}

module _ {W : Type 0} (d : Dependencies W) (container : W → Str → Option Container) (req : Request)
    (prev : Service) (same : prev.config.name ≡ req.name) where
  -- The previous container runs again, as its registration says.
  abbrev pub Restored : W → Type 0
  Restored w =
      container w (container_name req.name)
      ≡ some (record { request = restore_request prev; is_running = true })

  -- The new container runs.
  abbrev pub Renewed : Str → Env → W → Type 0
  Renewed image env w =
      container w (container_name req.name)
      ≡ some (record { request = run_request req image env; is_running = true })

  -- An error after the registration was saved.
  abbrev pub IsLate : Error → Type 0
  IsLate e =
      (error_is e err_caddy_reload ≡ true) ⊎ ((e' : Error) × (e ≡ wrap_text "listing services" e'))

  module _ (h : HasContainers d container) (c : CleansUp d container)
      (runnable : IsRunnable (restore_request prev)) where
    abbrev pub Late : Str → Env → Error → W → Type 0
    Late image env e w = Renewed image env w × IsLate e

    abbrev pub Fate : Str → Env → Error → W → Type 0
    Fate image env e w = Restored w ⊎ Late image env e w

  -- If docker refuses a name that is in use (RefusesUsedNames), and the `docker run` of the new container
  -- fails after it created the container, then run_new, given a previous registration of this service,
  -- fails and ends with that container under the service's name, not running: restoreOldContainer does
  -- not bring the previous container back.
  pub run_new_blocked :
      RefusesUsedNames d container
      → (image : Str) (env : Env) (w : W)
      → is_ok (d.driver.run caller (run_request req image env) w).0 ≡ false
      → container (d.driver.run caller (run_request req image env) w).1 (container_name req.name)
        ≡ some (record { request = run_request req image env; is_running = false })
      → let r = run_new d (run_request req image env) (some prev) w in
        (is_ok r.0 ≡ false)
        × (container r.1 (container_name req.name)
            ≡ some (record { request = run_request req image env; is_running = false }))
  unfolding run_new restore_old
  run_new_blocked used image env w failed created =
      let w1 = (d.driver.run caller (run_request req image env) w).1 in
      let c : Container = record { request = run_request req image env; is_running = false } in
      let created' : container w1 (container_name prev.config.name) ≡ some c = rw same created in
      let refused = used (restore_request prev) w1 c created' in
      (ground (arith, failed), rw (← same) (ground (arith, failed, refused)))
