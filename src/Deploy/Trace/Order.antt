-- ===== src/Deploy/Trace/Order.antt =====
-- internal/deploy/service.go: in which order a deployment makes its calls, and which it does not make.
use decloud.Base.{◌≡◌, refl, Str, none, List, [], All, arith, true, false, str_eq, codes}
use decloud.Errors.{Error, ok, err, error_is, err_run}
use decloud.Registry.Types.{Env}
use decloud.Ids.{container_name}
use decloud.Docker.Types.{InspectResult}
use decloud.Deploy.Interface.{Dependencies, caller}
use decloud.Deploy.Requests.{Request}
use decloud.Deploy.Failures.{foreign_error}
use decloud.Deploy.Service.{
  service_label, capture_env, load_previous, build_image, prepare, clear_old, activate, deploy,
}
use decloud.Deploy.Trace.{Call, traced}
use decloud.Deploy.Trace.Predicates.{IsHarmless}

module _ {W : Type 0} (d : Dependencies W) (req : Request) where
  prepare-IsHarmless : (w : W) → All IsHarmless (prepare (traced d) req (w, [])).1.1
  unfolding prepare capture_env load_previous build_image
  prepare-IsHarmless w = ground arith

  -- If the preparation of a deployment fails, the deployment fails with the same error, and none of its
  -- calls changes a container, a registration or a file of Caddy.
  pub deploy_unprepared :
      (w : W) {e : Error}
      → (prepare (traced d) req (w, [])).0 ≡ err e
      → ((deploy (traced d) req (w, [])).0 ≡ err e)
        × All IsHarmless (deploy (traced d) req (w, [])).1.1
  unfolding deploy
  deploy_unprepared w failed = ground (arith, prepare-IsHarmless w)

  -- If the service has no registration, the preparation succeeds, and docker shows a container of the
  -- service's name whose label is not the service's, then the deployment fails with the error of a
  -- foreign container, which wraps ErrRun, and none of its calls changes a container, a registration or
  -- a file of Caddy.
  pub deploy_foreign :
      (w w1 w2 : W) (log : List Call) (id : Str) (env : Env) (r : InspectResult)
      → prepare (traced d) req (w, []) ≡ (ok (id, env, none), (w1, log))
      → d.driver.inspect caller (container_name req.name) w1 ≡ (ok r, w2)
      → str_eq r.state (codes "absent") ≡ false
      → str_eq (service_label r) req.name ≡ false
      → (error_is (foreign_error (container_name req.name) (service_label r) req.name) err_run
          ≡ true)
        × ((deploy (traced d) req (w, [])).0
            ≡ err (foreign_error (container_name req.name) (service_label r) req.name))
        × All IsHarmless (deploy (traced d) req (w, [])).1.1
  unfolding deploy activate clear_old error_is
  deploy_foreign w w1 w2 log id env r p i a l =
      let before : All IsHarmless log = rw p at (prepare-IsHarmless w) in
      (refl, rw p (ground arith), rw p (ground arith))
