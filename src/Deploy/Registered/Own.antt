-- ===== src/Deploy/Registered/Own.antt =====
-- internal/deploy/service.go: a deployment that succeeds is registered.
use decloud.Base.{
  ◌≡◌, ◌≢◌, refl, sym, ap, subst, ◌∙◌, ◌⊎◌, inl, inr, Str, [], true, Option, arith, Bool-cases,
  str_eq, str_eq_iff,
}
use decloud.Errors.{Result-cases, ok, is_ok}
use decloud.Exec.{sure, ◌>>◌}
use decloud.Exec.Triple.{Outcome-of, Outcome-ok, Triple, Triple-bind, Triple_any}
use decloud.Registry.Types.{Env, Service, Time}
use decloud.Base.Path.Clean.{IsName}
use decloud.Ids.{container_name, image_ref}
use decloud.Deploy.Interface.{caller, Dependencies, Done}
use decloud.Deploy.Requests.{Request, network_name, build_request, run_request, registration}
use decloud.Deploy.Service.{
  capture_env, load_previous, build_image, prepare, clear_old, run_new, await_ready,
  save_registration, regenerate_and_reload, publish, activate, deploy,
}
use decloud.Deploy.Registered.{Registry, KeepsRegistry, LeavesRoutes}
use decloud.Deploy.Registered.Others.{reload-keeps}

module _ {W : Type 0} (d : Dependencies W) (req : Request) (start : W) where
  -- The environment of the container: none without an env file, or what was captured from it.
  abbrev pub Captured : Env → Type 0
  Captured env =
      let w1 = (d.new_deploy_id start).1 in
      let w2 = (d.driver.network_ensure caller network_name w1).1 in
      ((req.env_file ≡ []) × (env ≡ []))
      ⊎ ((req.env_file ≢ []) × ((d.capture caller req.env_file w2).0 ≡ ok env))

  -- The image of the deployment that starts here.
  abbrev pub image_of : Str
  image_of = image_ref req.name (d.new_deploy_id start).0

  -- The image was built.
  abbrev pub Built : Type 0
  Built = (v : W) × (is_ok (d.driver.build caller (build_request req image_of) v).0 ≡ true)

  abbrev Prepared : Str × Env × Option Service → Type 0
  Prepared (id, env, prev) = (id ≡ (d.new_deploy_id start).0) × Captured env × Built

  captured :
      (env : Env)
      → let w1 = (d.new_deploy_id start).1 in
        (capture_env d req.env_file (d.driver.network_ensure caller network_name w1).1).0 ≡ ok env
        → Captured env
  unfolding capture_env
  captured env e =
      let w1 = (d.new_deploy_id start).1 in
      let w2 = (d.driver.network_ensure caller network_name w1).1 in
      let same = str_eq_iff req.env_file [] in
      elim (Bool-cases (str_eq req.env_file [])) [
        | inl f ↦ inl (same.0 f, ground (arith, e, f))
        | inr f ↦ inr (
          (λ q. ground (arith, f, same.1 q)),
          elim (Result-cases (d.capture caller req.env_file w2).0) [
            | inl (x, g) ↦ ground (arith, e, f, g)
            | inr (x, g) ↦ absurd (ground (arith, e, f, g))
          ],
        )
      ]

  prepare-Prepared : (p : Str × Env × Option Service) → (prepare d req start).0 ≡ ok p → Prepared p
  unfolding prepare build_image
  prepare-Prepared (id, env, prev) e =
      let w1 = (d.new_deploy_id start).1 in
      let w2 = (d.driver.network_ensure caller network_name w1).1 in
      let w3 = (capture_env d req.env_file w2).1 in
      let w4 = (load_previous d req.name w3).1 in
      let built = d.driver.build caller (build_request req image_of) w4 in
      elim (Result-cases (d.driver.network_ensure caller network_name w1).0) [
        | inr (x, f) ↦ absurd (ground (arith, e, f))
        | inl (x, f) ↦ elim (Result-cases (capture_env d req.env_file w2).0) [
          | inr (x, g) ↦ absurd (ground (arith, e, f, g))
          | inl (c, g) ↦ elim (Result-cases (load_previous d req.name w3).0) [
            | inr (x, i) ↦ absurd (ground (arith, e, f, g, i))
            | inl (x, i) ↦ elim (Result-cases built.0) [
              | inr (x, j) ↦ absurd (ground (arith, e, f, g, i, j))
              | inl (x, j) ↦
                  let same : env ≡ c = ground (arith, e, f, g, i, j) in
                  (
                    ground (arith, e, f, g, i, j),
                    captured env (g ∙ ap ok (sym same)),
                    (w4, ground (arith, j)),
                  )
            ]
          ]
        ]
      ]

  module _ (view : W → Registry) where
    -- The registry holds under the request's name what a Save left there that succeeded, of the request with
    -- the deployment's id, the image that was built, the environment that was captured and a reading of the
    -- clock.
    abbrev pub Registered : W → Type 0
    Registered w =
        (env : Env) × (t : W) × (v : W) × Captured env
        × Built
        × (let svc = registration req (d.new_deploy_id start).0 image_of env (d.now t).0 in
            (is_ok (d.store.save caller svc v).0 ≡ true)
            × (view w req.name ≡ view (d.store.save caller svc v).1 req.name))

    module _ {stored : Time → Service → Option Service} {Storable : Service → Type 0}
        (k : KeepsRegistry d.store view stored Storable req.name) (r : LeavesRoutes d view)
        (n : IsName req.name) where
      abbrev Ends : {A : Type 0} → A → W → Type 0
      Ends a = Registered

      abbrev Nothing : {A : Type 0} → A → W → Type 0
      Nothing a w = Unit {0}

      abbrev Before : W → Type 0
      Before w = Unit {0}

      saved :
          (container : Str) (svc : Service) (prev : Option Service) (w : W) (x : Done)
          → (save_registration d container svc prev w).0 ≡ ok x
          → (is_ok (d.store.save caller svc w).0 ≡ true)
            × ((save_registration d container svc prev w).1 ≡ (d.store.save caller svc w).1)
      unfolding save_registration
      saved container svc prev w x e = (ground arith, ground arith)

      reload-Registered : Triple Registered (regenerate_and_reload d) Ends Nothing
      reload-Registered w (env, t, v, c, b, (done, e)) =
          Outcome-of Ends Nothing (regenerate_and_reload d w)
            (λ x q. (env, t, v, c, b, (done, reload-keeps d view r k req.name n w ∙ e))) (λ x q. tt)

      -- A reading of the clock.
      abbrev Read : Time → W → Type 0
      Read at w = (t : W) × (at ≡ (d.now t).0)

      module _ (id : Str) (env : Env) (prev : Option Service)
          (tied : Prepared (id, env, prev)) where
        save-Registered :
            (at : Time)
            → Triple
                (Read at)
                (save_registration d
                  (container_name req.name)
                  (registration req id (image_ref req.name id) env at)
                  prev)
                Ends
                Nothing
        save-Registered at w (t, now) =
            let (same_id, c, b) = tied in
            let svc = registration req id (image_ref req.name id) env at in
            let tied_svc = registration req (d.new_deploy_id start).0 image_of env (d.now t).0 in
            let same : svc ≡ tied_svc =
              ap (λ i. registration req i (image_ref req.name i) env at) same_id
              ∙ ap (λ time. registration req (d.new_deploy_id start).0 image_of env time) now in
            Outcome-of Ends Nothing (save_registration d (container_name req.name) svc prev w)
              (λ x e.
                let (done, left) = saved (container_name req.name) svc prev w x e in
                (
                  env,
                  t,
                  w,
                  c,
                  b,
                  (
                    subst (λ s. is_ok (d.store.save caller s w).0 ≡ true) same done,
                    ap (λ s. view s req.name) (left ∙ ap (λ s. (d.store.save caller s w).1) same),
                  ),
                ))
              (λ x e. tt)

        publish-Registered :
            Triple Before (publish d req id (image_ref req.name id) env prev) Ends Nothing
        unfolding publish
        publish-Registered =
            Triple-bind Before Nothing Ends Nothing
              (await_ready d (container_name req.name) req prev) _
              (Triple_any Before (await_ready d (container_name req.name) req prev))
              λ _.
                Triple-bind {B = Done} Before Read Ends Nothing (sure d.now)
                  (λ at.
                    save_registration d (container_name req.name)
                      (registration req id (image_ref req.name id) env at) prev
                    >> regenerate_and_reload d)
                  (λ w h. (w, refl))
                  λ at.
                    Triple-bind {B = Done} (Read at) Ends Ends Nothing
                      (save_registration d (container_name req.name)
                        (registration req id (image_ref req.name id) env at) prev)
                      (λ _. regenerate_and_reload d) (save-Registered at) λ _. reload-Registered

        activate-Registered : Triple Before (activate d req (id, env, prev)) Ends Nothing
        unfolding activate
        activate-Registered =
            Triple-bind Before Nothing Ends Nothing
              (clear_old d req.name (container_name req.name) prev) _
              (Triple_any Before (clear_old d req.name (container_name req.name) prev))
              λ _.
                Triple-bind Before Nothing Ends Nothing
                  (run_new d (run_request req (image_ref req.name id) env) prev) _
                  (Triple_any Before (run_new d (run_request req (image_ref req.name id) env) prev))
                  (λ _. publish-Registered)

      -- A deployment that succeeds is registered.
      pub deploy-Registered :
          (x : Done) → (deploy d req start).0 ≡ ok x → Registered (deploy d req start).1
      unfolding deploy
      deploy-Registered x e = elim (Result-cases (prepare d req start).0) [
        | inr (y, f) ↦ absurd (ground (arith, e, f))
        | inl ((id, env, prev), f) ↦
            let w1 = (prepare d req start).1 in
            let same : deploy d req start ≡ activate d req (id, env, prev) w1 = ground (arith, f) in
            rw same (
              Outcome-ok Ends Nothing (activate d req (id, env, prev) w1) x
                (activate-Registered id env prev (prepare-Prepared (id, env, prev) f) w1 tt)
                (ap (λ r. r.0) (sym same) ∙ e))
      ]
