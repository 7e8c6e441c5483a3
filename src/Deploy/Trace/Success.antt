-- ===== src/Deploy/Trace/Success.antt =====
-- internal/deploy/service.go: the calls of a deployment that succeeds, in their order.
use decloud.Base.{◌≡◌, refl, Str, Option, none, some, List, [], ◌∷◌, ◌++◌, arith, codes, ◌⊎◌}
use decloud.Errors.{Error, Result, ok, err, wrap_step, err_run}
use decloud.Exec.{sure, or_fail, pure, ◌>>◌}
use decloud.Exec.Triple.{Outcome, Triple, Triple-bind, Outcome-ok, Outcome-mono, Triple_any}
use decloud.Registry.Types.{Env, Service, Time}
use decloud.Ids.{container_name, image_ref}
use decloud.Docker.Types.{RunRequest}
use decloud.Deploy.Interface.{Dependencies, caller, Done}
use decloud.Deploy.Requests.{
  Request, network_name, build_request, run_request, registration, readiness_spec,
}
use decloud.Deploy.Service.{
  install_caddyfile, tmp_path, discard_new, restore_old, capture_env, load_previous, build_image,
  prepare, clear_old, run_new, await_ready, save_registration, regenerate_and_reload, publish,
  activate, deploy,
}
use decloud.Deploy.Trace
use decloud.Deploy.Trace.{Call, traced}

abbrev Ignored : {S : Type 0} → Error → S → Type 0
Ignored e s = Unit

-- The calls of regenerateAndReload, the latest first, and what was logged before them.
abbrev pub caddy_calls : Str → List Service → List Call → List Call
caddy_calls path services log =
    Trace.reload caller path
    ∷ Trace.os_rename (path ++ codes ".tmp") path
    ∷ Trace.validate caller (path ++ codes ".tmp")
    ∷ Trace.generate (path ++ codes ".tmp") services
    ∷ Trace.write_stub_if_missing path
    ∷ Trace.list caller
    ∷ log

-- The calls by which the old container of this name goes away, or is found to be absent.
abbrev pub Cleared : Str → List Call → List Call → Type 0
Cleared n before after =
    (after ≡ Trace.inspect caller n ∷ before)
    ⊎ ((after ≡ Trace.remove caller n ∷ Trace.stop caller n 10 ∷ before)
        ⊎ ((after
              ≡ Trace.remove caller n ∷ Trace.stop caller n 10 ∷ Trace.inspect caller n ∷ before)
            ⊎ (after
                ≡ Trace.remove caller n
                  ∷ Trace.inspect caller n
                  ∷ Trace.stop caller n 10
                  ∷ before)))

-- The calls from the new container to its registration.
abbrev pub start_calls : Request → Str → Env → Time → List Call → List Call
start_calls req id env at log =
    Trace.save caller (registration req id (image_ref req.name id) env at)
    ∷ Trace.now
    ∷ Trace.wait caller (container_name req.name) (readiness_spec req) req.port
    ∷ Trace.run caller (run_request req (image_ref req.name id) env)
    ∷ log

abbrev listed : Result (List Service) → List Service
listed (ok services) = services
listed (err e) = []

abbrev tail : List Call → List Call
tail [] = []
tail (c ∷ log) = log

module _ {W : Type 0} (d : Dependencies W) (req : Request) where
  abbrev Logged : {A : Type 0} → List Call → A → W × List Call → Type 0
  Logged log a s = s.1 ≡ log

  regenerate-calls :
      (log : List Call) (w : W)
      → Outcome
          (Logged (caddy_calls d.caddyfile_path (listed (d.store.list caller w).0) log))
          Ignored
          (regenerate_and_reload (traced d) (w, log))
  unfolding regenerate_and_reload install_caddyfile tmp_path
  regenerate-calls log w = ground arith

  abbrev Reloaded : List Call → Done → W × List Call → Type 0
  Reloaded log a s = (services : List Service) × (s.1 ≡ caddy_calls d.caddyfile_path services log)

  regenerate-Reloaded :
      (log : List Call)
      → Triple (Logged log tt) (regenerate_and_reload (traced d)) (Reloaded log) Ignored
  regenerate-Reloaded log (w, l) h = rw h (
      Outcome-mono _ (Reloaded log) Ignored (regenerate_and_reload (traced d) (w, log))
        (λ a s e. (listed (d.store.list caller w).0, e)) (regenerate-calls log w))

  abbrev Built : Str × Env × Option Service → W × List Call → Type 0
  Built t s = s.1 ≡ Trace.build caller (build_request req (image_ref req.name t.0)) ∷ tail s.1

  abbrev Anything : {A : Type 0} → A → W × List Call → Type 0
  Anything a s = Unit

  -- The image is built last.
  prepare_last :
      (id : Str) (env : Env) (prev : Option Service)
      → Triple
          (Anything tt)
          (λ s. (build_image (traced d) req (image_ref req.name id) >> pure (id, env, prev)) s)
          Built
          Ignored
  unfolding build_image
  prepare_last id env prev (w, l) h = ground arith

  prepare-Built : Triple (Anything tt) (prepare (traced d) req) Built Ignored
  unfolding prepare
  prepare-Built =
      Triple-bind (Anything tt) Anything Built Ignored (sure (traced d).new_deploy_id) _
        (Triple_any (Anything tt) (sure (traced d).new_deploy_id))
        λ id.
          Triple-bind (Anything tt) Anything Built Ignored
            (or_fail (wrap_step err_run "ensuring decloud network")
              ((traced d).driver.network_ensure caller network_name))
            _
            (Triple_any (Anything tt) (
              or_fail (wrap_step err_run "ensuring decloud network")
                ((traced d).driver.network_ensure caller network_name)))
            λ _.
              Triple-bind (Anything tt) Anything Built Ignored (capture_env (traced d) req.env_file)
                _ (Triple_any (Anything tt) (capture_env (traced d) req.env_file))
                λ env.
                  Triple-bind (Anything tt) Anything Built Ignored
                    (load_previous (traced d) req.name) _
                    (Triple_any (Anything tt) (load_previous (traced d) req.name))
                    λ prev. prepare_last id env prev

  clear_old-Cleared :
      (prev : Option Service) (log : List Call)
      → Triple
          (Logged log tt)
          (clear_old (traced d) req.name (container_name req.name) prev)
          (λ _ s. Cleared (container_name req.name) log s.1)
          Ignored
  unfolding clear_old
  clear_old-Cleared none log (w, l) h = ground arith
  clear_old-Cleared (some p) log (w, l) h = ground arith

  run_new-Logged :
      (request : RunRequest) (prev : Option Service) (log : List Call)
      → Triple
          (Logged log tt)
          (run_new (traced d) request prev)
          (Logged (Trace.run caller request ∷ log))
          Ignored
  unfolding run_new restore_old
  run_new-Logged request none log (w, l) h = ground arith
  run_new-Logged request (some p) log (w, l) h = ground arith

  await_ready-Logged :
      (prev : Option Service) (log : List Call)
      → Triple
          (Logged log tt)
          (await_ready (traced d) (container_name req.name) req prev)
          (Logged (Trace.wait caller (container_name req.name) (readiness_spec req) req.port ∷ log))
          Ignored
  unfolding await_ready discard_new restore_old
  await_ready-Logged none log (w, l) h = ground arith
  await_ready-Logged (some p) log (w, l) h = ground arith

  save-Logged :
      (container : Str) (svc : Service) (prev : Option Service) (log : List Call)
      → Triple
          (Logged log tt)
          (save_registration (traced d) container svc prev)
          (Logged (Trace.save caller svc ∷ log))
          Ignored
  unfolding save_registration discard_new restore_old
  save-Logged container svc none log (w, l) h = ground arith
  save-Logged container svc (some p) log (w, l) h = ground arith

  publish-calls :
      (id : Str) (env : Env) (prev : Option Service) (log : List Call)
      → Triple
          (Logged (Trace.run caller (run_request req (image_ref req.name id) env) ∷ log) tt)
          (publish (traced d) req id (image_ref req.name id) env prev)
          (λ _ s. (at : Time) × Reloaded (start_calls req id env at log) tt s)
          Ignored
  unfolding publish
  publish-calls id env prev log =
      let ran = Trace.run caller (run_request req (image_ref req.name id) env) ∷ log in
      let waited =
        Trace.wait caller (container_name req.name) (readiness_spec req) req.port ∷ ran in
      let Final : Done → W × List Call → Type 0 =
        λ _ s. (at : Time) × Reloaded (start_calls req id env at log) tt s in
      Triple-bind (Logged ran tt) (Logged waited) Final Ignored
        (await_ready (traced d) (container_name req.name) req prev) _ (await_ready-Logged prev ran)
        λ _.
          Triple-bind (Logged waited tt) (Logged (Trace.now ∷ waited)) Final Ignored
            (sure (traced d).now) _ (λ (w, l) h. ground arith)
            λ at.
              Triple-bind (Logged (Trace.now ∷ waited) tt) (Logged (start_calls req id env at log))
                Final Ignored
                (save_registration (traced d) (container_name req.name)
                  (registration req id (image_ref req.name id) env at) prev)
                _
                (save-Logged (container_name req.name)
                  (registration req id (image_ref req.name id) env at) prev (Trace.now ∷ waited))
                λ _ s h.
                  Outcome-mono (Reloaded (start_calls req id env at log)) Final Ignored
                    (regenerate_and_reload (traced d) s) (λ a s' r. (at, r))
                    (regenerate-Reloaded (start_calls req id env at log) s h)

  -- The log of a deployment that succeeded.
  abbrev pub Succeeded : List Call → Type 0
  Succeeded log =
      (id : Str) × (env : Env) × (at : Time) × (services : List Service) × (before cleared : List
        Call)
      × Cleared (container_name req.name)
          (Trace.build caller (build_request req (image_ref req.name id)) ∷ before) cleared
      × (log ≡ caddy_calls d.caddyfile_path services (start_calls req id env at cleared))

  activate-Succeeded :
      (t : Str × Env × Option Service)
      → Triple (Built t) (activate (traced d) req t) (λ _ s. Succeeded s.1) Ignored
  unfolding activate
  activate-Succeeded (id, env, prev) (w, l) h =
      let built = Trace.build caller (build_request req (image_ref req.name id)) ∷ tail l in
      let Final : Done → W × List Call → Type 0 = λ _ s. Succeeded s.1 in
      let Gone : Done → W × List Call → Type 0 =
        λ _ s. Cleared (container_name req.name) built s.1 in
      Triple-bind (Logged built tt) Gone Final Ignored
        (clear_old (traced d) req.name (container_name req.name) prev) _
        (clear_old-Cleared prev built)
        (λ _ (w1, cleared) gone.
          Triple-bind (Logged cleared tt)
            (Logged (Trace.run caller (run_request req (image_ref req.name id) env) ∷ cleared))
            Final Ignored (run_new (traced d) (run_request req (image_ref req.name id) env) prev) _
            (run_new-Logged (run_request req (image_ref req.name id) env) prev cleared)
            (λ _ s ran.
              Outcome-mono
                (λ _ s'. (at : Time) × Reloaded (start_calls req id env at cleared) tt s') Final
                Ignored (publish (traced d) req id (image_ref req.name id) env prev s)
                (λ a s' r. (id, env, r.0, r.1.0, tail l, cleared, gone, r.1.1))
                (publish-calls id env prev cleared s ran))
            (w1, cleared) refl)
        (w, l) h

  -- A deployment that succeeds has built the image and then made just these calls, in this order: those
  -- that clear the old container, or find none; docker run of the new image; the wait for readiness;
  -- the clock; the save of the registration; and the list, stub, generate, validate, rename and reload
  -- of Caddy.
  pub deploy-Succeeded :
      (w : W)
      → (deploy (traced d) req (w, [])).0 ≡ ok tt
      → Succeeded (deploy (traced d) req (w, [])).1.1
  unfolding deploy
  deploy-Succeeded w =
      Outcome-ok (λ _ s. Succeeded s.1) Ignored (deploy (traced d) req (w, [])) tt
        (Triple-bind (Anything tt) Built (λ _ s. Succeeded s.1) Ignored (prepare (traced d) req)
          (activate (traced d) req) prepare-Built activate-Succeeded (w, []) tt)
