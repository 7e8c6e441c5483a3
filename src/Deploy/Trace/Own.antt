-- ===== src/Deploy/Trace/Own.antt =====
-- internal/deploy/service.go: a deployment leaves the containers of others alone.
use decloud.Base.{◌≡◌, Str, Option, none, some, List, [], All, arith}
use decloud.Errors.{Result, ok, err}
use decloud.Exec.{sure, ◌>>◌}
use decloud.Exec.Triple.{Outcome, Triple, Triple-bind}
use decloud.Registry.Types.{Env, Service}
use decloud.Ids.{container_name, image_ref}
use decloud.Deploy.Interface.{Dependencies, Done}
use decloud.Deploy.Requests.{Request, run_request, registration}
use decloud.Deploy.Service.{
  install_caddyfile, discard_new, restore_old, capture_env, load_previous, build_image, prepare,
  clear_old, run_new, await_ready, save_registration, regenerate_and_reload, publish, activate,
  deploy,
}
use decloud.Deploy.Trace.{Call, traced}
use decloud.Deploy.Trace.Predicates.{Touches, LoadsByName}

module _ {W : Type 0} (d : Dependencies W) (req : Request) where
  abbrev OnlyOwn : {A : Type 0} → A → W × List Call → Type 0
  OnlyOwn a s = All (Touches (container_name req.name)) s.1

  abbrev Named : Option Service → Type 0
  Named none = Unit
  Named (some p) = p.config.name ≡ req.name

  abbrev OwnAndNamed : Str × Env × Option Service → W × List Call → Type 0
  OwnAndNamed t s = All (Touches (container_name req.name)) s.1 × Named t.2

  prepare-OnlyOwn : LoadsByName d → Triple (OnlyOwn tt) (prepare (traced d) req) OwnAndNamed OnlyOwn
  unfolding prepare capture_env load_previous build_image
  prepare-OnlyOwn named (w, log) h = grind (arith, named)

  clear_old-OnlyOwn :
      (prev : Option Service)
      → Triple
          (OnlyOwn tt)
          (clear_old (traced d) req.name (container_name req.name) prev)
          OnlyOwn
          OnlyOwn
  unfolding clear_old
  clear_old-OnlyOwn prev (w, log) h = ground arith

  run_new-OnlyOwn :
      (image : Str) (env : Env) (prev : Option Service)
      → Named prev
      → Triple (OnlyOwn tt) (run_new (traced d) (run_request req image env) prev) OnlyOwn OnlyOwn
  unfolding run_new restore_old
  run_new-OnlyOwn image env none n (w, log) h = ground arith
  run_new-OnlyOwn image env (some p) n (w, log) h = ground arith

  await_ready-OnlyOwn :
      (prev : Option Service)
      → Named prev
      → Triple
          (OnlyOwn tt)
          (await_ready (traced d) (container_name req.name) req prev)
          OnlyOwn
          OnlyOwn
  unfolding await_ready discard_new restore_old
  await_ready-OnlyOwn none n (w, log) h = ground arith
  await_ready-OnlyOwn (some p) n (w, log) h = ground arith

  save-OnlyOwn :
      (svc : Service) (prev : Option Service)
      → Named prev
      → Triple
          (OnlyOwn tt)
          (save_registration (traced d) (container_name req.name) svc prev)
          OnlyOwn
          OnlyOwn
  unfolding save_registration discard_new restore_old
  save-OnlyOwn svc none n (w, log) h = ground arith
  save-OnlyOwn svc (some p) n (w, log) h = ground arith

  reload-OnlyOwn : Triple (OnlyOwn tt) (regenerate_and_reload (traced d)) OnlyOwn OnlyOwn
  unfolding regenerate_and_reload install_caddyfile
  reload-OnlyOwn (w, log) h = ground arith

  publish-OnlyOwn :
      (id image : Str) (env : Env) (prev : Option Service)
      → Named prev
      → Triple (OnlyOwn tt) (publish (traced d) req id image env prev) OnlyOwn OnlyOwn
  unfolding publish
  publish-OnlyOwn id image env prev n =
      Triple-bind (OnlyOwn tt) OnlyOwn OnlyOwn OnlyOwn
        (await_ready (traced d) (container_name req.name) req prev) _ (await_ready-OnlyOwn prev n)
        λ _.
          Triple-bind {B = Done} (OnlyOwn tt) OnlyOwn OnlyOwn OnlyOwn (sure (traced d).now)
            (λ at.
              save_registration (traced d) (container_name req.name)
                (registration req id image env at) prev
              >> regenerate_and_reload (traced d))
            (λ s h. ground arith)
            λ at.
              Triple-bind {B = Done} (OnlyOwn tt) OnlyOwn OnlyOwn OnlyOwn
                (save_registration (traced d) (container_name req.name)
                  (registration req id image env at) prev)
                (λ _. regenerate_and_reload (traced d))
                (save-OnlyOwn (registration req id image env at) prev n) λ _. reload-OnlyOwn

  activate-OnlyOwn :
      (t : Str × Env × Option Service)
      → Triple (OwnAndNamed t) (activate (traced d) req t) OnlyOwn OnlyOwn
  unfolding activate
  activate-OnlyOwn (id, env, prev) s (h, n) =
      Triple-bind (OnlyOwn tt) OnlyOwn OnlyOwn OnlyOwn
        (clear_old (traced d) req.name (container_name req.name) prev) _ (clear_old-OnlyOwn prev)
        (λ _.
          Triple-bind (OnlyOwn tt) OnlyOwn OnlyOwn OnlyOwn
            (run_new (traced d) (run_request req (image_ref req.name id) env) prev) _
            (run_new-OnlyOwn (image_ref req.name id) env prev n)
            (λ _. publish-OnlyOwn id (image_ref req.name id) env prev n))
        s h

  Outcome-OnlyOwn :
      (r : Result Done × (W × List Call))
      → Outcome OnlyOwn OnlyOwn r
      → All (Touches (container_name req.name)) r.1.1
  Outcome-OnlyOwn (ok a, s) h = h
  Outcome-OnlyOwn (err e, s) h = h

  -- If the store gives registrations the name that they are asked for, every call on a container that a
  -- deployment makes through its driver is on the service's own: whatever the environment answers, the
  -- driver runs, stops, starts, removes and enters no other. What the reloader does in Caddy's container is
  -- not among these calls.
  pub deploy-Touches :
      LoadsByName d
      → (w : W) → All (Touches (container_name req.name)) (deploy (traced d) req (w, [])).1.1
  unfolding deploy
  deploy-Touches named w = Outcome-OnlyOwn (deploy (traced d) req (w, [])) (
      Triple-bind (OnlyOwn tt) OwnAndNamed OnlyOwn OnlyOwn (prepare (traced d) req)
        (activate (traced d) req) (prepare-OnlyOwn named) activate-OnlyOwn (w, []) tt)
