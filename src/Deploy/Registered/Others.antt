-- ===== src/Deploy/Registered/Others.antt =====
-- internal/deploy/service.go: a deployment changes what the registry holds under one name only.
use decloud.Base.{◌≡◌, ◌≢◌, refl, ◌∙◌, inl, inr, Str, List, Option, none, some, arith}
use decloud.Errors.{Result-cases}
use decloud.Exec.{M, sure, ◌>>◌}
use decloud.Exec.Triple.{Outcome-same, Outcome-world, Triple, Triple-bind}
use decloud.Registry.Types.{Env, Service, Time}
use decloud.Ids.{container_name, image_ref}
use decloud.Base.Path.Clean.{IsName}
use decloud.Docker.Types.{RunRequest}
use decloud.Deploy.Interface.{caller, Dependencies, Done}
use decloud.Deploy.Requests.{Request, network_name, build_request, run_request, registration}
use decloud.Deploy.Service.{
  install_caddyfile, discard_new, restore_old, capture_env, load_previous, build_image, prepare,
  clear_old, run_new, await_ready, save_registration, regenerate_and_reload, publish, activate,
  deploy, tmp_path,
}
use decloud.Deploy.Registered.{Registry, KeepsRegistry, LeavesRoutes, LeavesRegistry}

module _ {W : Type 0} (d : Dependencies W) (view : W → Registry) (r : LeavesRoutes d view) where
  pub install-keeps :
      (services : List Service) (m : Str) (w : W)
      → IsName m
      → view (install_caddyfile d services w).1 m ≡ view w m
  unfolding install_caddyfile
  install-keeps services m w n =
      let w1 = (d.write_stub_if_missing d.caddyfile_path w).1 in
      let w2 = (d.generate (tmp_path d) services w1).1 in
      let w3 = (d.reloader.validate caller (tmp_path d) w2).1 in
      let w4 = (d.os_rename (tmp_path d) d.caddyfile_path w3).1 in
      ground (
        arith,
        r.stub_keeps m w n,
        r.generate_keeps services m w1 n,
        r.validate_keeps caller m w2 n,
        r.os_remove_keeps m w3 n,
        r.os_rename_keeps m w3 n,
        r.reload_keeps caller m w4 n,
      )

  pub reload-keeps :
      {stored : Time → Service → Option Service} {Storable : Service → Type 0} {name : Str}
      → KeepsRegistry d.store view stored Storable name
      → (m : Str) → IsName m
      → (w : W) → view (regenerate_and_reload d w).1 m ≡ view w m
  unfolding regenerate_and_reload
  reload-keeps k m n w = elim (Result-cases (d.store.list caller w).0) [
    | inl (services, e) ↦
        ground
          (arith, k.list_keeps caller m w, install-keeps services m (d.store.list caller w).1 n)
    | inr (x, e) ↦ ground (arith, k.list_keeps caller m w)
  ]

module _ {W : Type 0} (d : Dependencies W) (view : W → Registry) (l : LeavesRegistry d view) where
  module _ (m : Str) where
    discard_new-keeps :
        (container : Str) (prev : Option Service) (w : W)
        → view (discard_new d container prev w).1 m ≡ view w m
    unfolding discard_new restore_old
    discard_new-keeps container none w = grind (arith, l.stop_keeps, l.remove_keeps)
    discard_new-keeps container (some p) w =
        grind (arith, l.stop_keeps, l.remove_keeps, l.run_keeps)

    clear_old-keeps :
        (name container : Str) (prev : Option Service) (w : W)
        → view (clear_old d name container prev w).1 m ≡ view w m
    unfolding clear_old
    clear_old-keeps name container none w =
        grind (arith, l.stop_keeps, l.remove_keeps, l.inspect_keeps)
    clear_old-keeps name container (some p) w =
        grind (arith, l.stop_keeps, l.remove_keeps, l.inspect_keeps)

    run_new-keeps :
        (r : RunRequest) (prev : Option Service) (w : W) → view (run_new d r prev w).1 m ≡ view w m
    unfolding run_new restore_old
    run_new-keeps r none w = grind (arith, l.run_keeps)
    run_new-keeps r (some p) w = grind (arith, l.run_keeps)

    await_ready-keeps :
        (container : Str) (req : Request) (prev : Option Service) (w : W)
        → view (await_ready d container req prev w).1 m ≡ view w m
    unfolding await_ready
    await_ready-keeps container req prev w = grind (arith, l.wait_keeps, discard_new-keeps)

    module _ {stored : Time → Service → Option Service} {Storable : Service → Type 0} {name : Str}
        (k : KeepsRegistry d.store view stored Storable name) where
      capture_env-keeps : (file : Str) (w : W) → view (capture_env d file w).1 m ≡ view w m
      unfolding capture_env
      capture_env-keeps file w = ground (arith, l.capture_keeps caller file m w)

      load_previous-keeps : (n : Str) (w : W) → view (load_previous d n w).1 m ≡ view w m
      unfolding load_previous
      load_previous-keeps n w = ground (arith, k.load_keeps caller n m w)

      build_image-keeps :
          (req : Request) (image : Str) (w : W) → view (build_image d req image w).1 m ≡ view w m
      unfolding build_image
      build_image-keeps req image w =
          ground (arith, l.build_keeps caller (build_request req image) m w)

      prepare-keeps : (req : Request) (w : W) → view (prepare d req w).1 m ≡ view w m
      unfolding prepare
      prepare-keeps req w =
          let (id, w1) = d.new_deploy_id w in
          let w2 = (d.driver.network_ensure caller network_name w1).1 in
          let w3 = (capture_env d req.env_file w2).1 in
          let w4 = (load_previous d req.name w3).1 in
          ground (
            arith,
            l.id_keeps m w,
            l.ensure_keeps caller network_name m w1,
            capture_env-keeps req.env_file w2,
            load_previous-keeps req.name w3,
            build_image-keeps req (image_ref req.name id) w4,
          )

      save-keeps :
          (container : Str) (svc : Service) (prev : Option Service) (w : W)
          → svc.config.name ≡ name
          → IsName m
          → m ≢ name
          → view (save_registration d container svc prev w).1 m ≡ view w m
      unfolding save_registration
      save-keeps container svc prev w named n other = grind (
        arith,
        named,
        k.save_other caller svc m w named n other,
        k.drop_other,
        n,
        other,
        discard_new-keeps,
      )

      module _ (r : LeavesRoutes d view) (v : Option Service) where
        abbrev Kept : W → Type 0
        Kept w = view w m ≡ v

        kept :
            {A : Type 0} (method : M W A)
            → ((w : W) → view (method w).1 m ≡ view w m)
            → Triple Kept method (λ _. Kept) (λ _. Kept)
        kept method keeps w h = Outcome-same Kept (method w) (keeps w ∙ h)

        abbrev After : {A : Type 0} → A → W → Type 0
        After a = Kept

        publish-kept :
            (req : Request) (id image : Str) (env : Env) (prev : Option Service)
            → req.name ≡ name
            → IsName m
            → m ≢ name
            → Triple Kept (publish d req id image env prev) After After
        unfolding publish
        publish-kept req id image env prev named n other =
            Triple-bind Kept After After After (await_ready d (container_name req.name) req prev) _
              (kept (await_ready d (container_name req.name) req prev)
                (await_ready-keeps (container_name req.name) req prev))
              λ _.
                Triple-bind {B = Done} Kept After After After (sure d.now)
                  (λ at.
                    save_registration d (container_name req.name) (registration req id image env at)
                      prev
                    >> regenerate_and_reload d)
                  (kept (sure d.now) (l.now_keeps m))
                  λ at.
                    Triple-bind {B = Done} Kept After After After
                      (save_registration d (container_name req.name)
                        (registration req id image env at) prev)
                      (λ _. regenerate_and_reload d)
                      (kept
                        (save_registration d (container_name req.name)
                          (registration req id image env at) prev)
                        (λ w.
                          save-keeps (container_name req.name) (registration req id image env at)
                            prev w named n other))
                      λ _. kept (regenerate_and_reload d) (reload-keeps d view r k m n)

        activate-kept :
            (req : Request) (t : Str × Env × Option Service)
            → req.name ≡ name
            → IsName m
            → m ≢ name
            → Triple Kept (activate d req t) After After
        unfolding activate
        activate-kept req (id, env, prev) named n other =
            Triple-bind Kept After After After (clear_old d req.name (container_name req.name) prev)
              _
              (kept (clear_old d req.name (container_name req.name) prev)
                (clear_old-keeps req.name (container_name req.name) prev))
              λ _.
                Triple-bind Kept After After After
                  (run_new d (run_request req (image_ref req.name id) env) prev) _
                  (kept (run_new d (run_request req (image_ref req.name id) env) prev)
                    (run_new-keeps (run_request req (image_ref req.name id) env) prev))
                  (λ _. publish-kept req id (image_ref req.name id) env prev named n other)

  -- What a deployment leaves under other names.
  pub deploy-keeps :
      {stored : Time → Service → Option Service} {Storable : Service → Type 0} (req : Request)
      → KeepsRegistry d.store view stored Storable req.name
      → LeavesRoutes d view
      → (m : Str) (w : W) → IsName m
      → m ≢ req.name
      → view (deploy d req w).1 m ≡ view w m
  unfolding deploy
  deploy-keeps req k r m w n other =
      Outcome-world (λ s. view s m ≡ view w m) (deploy d req w)
        (Triple-bind (Kept m k r (view w m)) (After m k r (view w m)) (After m k r (view w m))
          (After m k r (view w m)) (prepare d req) (activate d req)
          (kept m k r (view w m) (prepare d req) (prepare-keeps m k req))
          (λ t. activate-kept m k r (view w m) req t refl n other) w refl)
