-- ===== src/Deploy/Caddyfile/Current.antt =====
-- internal/deploy/service.go from end to end: what is registered, and what the
-- Caddyfile says.
use decloud.Base.{
  ◌≡◌, ◌≢◌, sym, subst, ◌∙◌, inl, inr, Str, true, Option, some, List, Any, All, All-mono, arith,
}
use decloud.Base.Path.Clean.{IsName}
use decloud.Errors.{Result, Result-cases, is_ok}
use decloud.Exec.{sure, ◌>>◌}
use decloud.Exec.Triple.{Outcome-of, Outcome-ok, Triple, Triple-bind, Triple_any}
use decloud.Registry.Types.{Env, Service}
use decloud.Ids.{container_name, image_ref}
use decloud.Os.{Files}
use decloud.Os.Laws.{Entry, HasFiles}
use decloud.Config.{Paths}
use decloud.Registry.Files.{Toml}
use decloud.Registry.Store.Layout.{IsLaidOut}
use decloud.Registry.Store.Held.{held, Readable}
use decloud.Caddy.Generator.{GeneratorInput, input_of, site_block}
use decloud.Caddy.Generator
use decloud.Deploy.Interface.{Dependencies, Done}
use decloud.Deploy.Requests.{Request, run_request, registration}
use decloud.Deploy.Service.{
  prepare, clear_old, run_new, await_ready, save_registration, regenerate_and_reload, publish,
  activate, deploy,
}
use decloud.Deploy.Registered.{KeepsRegistry, LeavesRegistry}
use decloud.Deploy.Registered.Own.{Registered, deploy-Registered}
use decloud.Deploy.Registered.Others.{reload-keeps, deploy-keeps}
use decloud.Deploy.Registered.OnFiles.{filled, AlwaysSound, fs_store-KeepsRegistry}
use decloud.Deploy.Caddyfile.{IsOnFiles, LeavesFiles, IsCaddyLaidOut, files-LeavesRoutes}
use decloud.Deploy.Caddyfile.Installed.{caddyfile, regenerate_and_reload-Regenerated}

-- What holds after the Caddyfile was regenerated holds after a deployment that succeeds.
module _ {W : Type 0} (d : Dependencies W) (req : Request) (Q : W → Type 0)
    (last : (w : W)
      → is_ok (regenerate_and_reload d w).0 ≡ true
      → Q (regenerate_and_reload d w).1) where
  abbrev Before : W → Type 0
  Before w = Unit {0}

  abbrev Nothing : {A : Type 0} → A → W → Type 0
  Nothing a w = Unit {0}

  abbrev Ends : {A : Type 0} → A → W → Type 0
  Ends a = Q

  regenerate-Ends : Triple Before (regenerate_and_reload d) Ends Nothing
  regenerate-Ends w h =
      Outcome-of Ends Nothing (regenerate_and_reload d w) (λ x e. last w (ground (arith, e)))
        (λ x e. tt)

  publish-Ends :
      (id image : Str) (env : Env) (prev : Option Service)
      → Triple Before (publish d req id image env prev) Ends Nothing
  unfolding publish
  publish-Ends id image env prev =
      Triple-bind Before Nothing Ends Nothing (await_ready d (container_name req.name) req prev) _
        (Triple_any Before (await_ready d (container_name req.name) req prev))
        λ _.
          Triple-bind {B = Done} Before Nothing Ends Nothing (sure d.now)
            (λ at.
              save_registration d (container_name req.name) (registration req id image env at) prev
              >> regenerate_and_reload d)
            (Triple_any Before (sure d.now))
            λ at.
              Triple-bind {B = Done} Before Nothing Ends Nothing
                (save_registration d (container_name req.name) (registration req id image env at)
                  prev)
                (λ _. regenerate_and_reload d)
                (Triple_any Before (
                  save_registration d (container_name req.name) (registration req id image env at)
                    prev))
                λ _. regenerate-Ends

  activate-Ends : (t : Str × Env × Option Service) → Triple Before (activate d req t) Ends Nothing
  unfolding activate
  activate-Ends (id, env, prev) =
      Triple-bind Before Nothing Ends Nothing (clear_old d req.name (container_name req.name) prev)
        _ (Triple_any Before (clear_old d req.name (container_name req.name) prev))
        λ _.
          Triple-bind Before Nothing Ends Nothing
            (run_new d (run_request req (image_ref req.name id) env) prev) _
            (Triple_any Before (run_new d (run_request req (image_ref req.name id) env) prev))
            (λ _. publish-Ends id (image_ref req.name id) env prev)

  deploy-Ends : (w : W) → is_ok (deploy d req w).0 ≡ true → Q (deploy d req w).1
  unfolding deploy
  deploy-Ends w done = elim (Result-cases (deploy d req w).0) [
    | inr (x, e) ↦ absurd (ground (arith, done, e))
    | inl (x, e) ↦
        Outcome-ok Ends Nothing (deploy d req w) x
          (Triple-bind Before Nothing Ends Nothing (prepare d req) (activate d req)
            (Triple_any Before (prepare d req)) activate-Ends w tt)
          e
  ]

module _ {W : Type 0} (fs : Files W) (toml : Toml) {paths : Paths} {S T C : List Str}
    (at : W → Str → Entry) (h : HasFiles fs at) (laid : IsLaidOut paths S T)
    (caddy : IsCaddyLaidOut paths S T C) (d : Dependencies W) (on : IsOnFiles d fs toml paths)
    (leaves : LeavesFiles d at) where
  abbrev view : W → Str → Option Service
  view = held fs toml paths at

  abbrev pub text_of : W → Option Str
  text_of = caddyfile fs toml at h laid caddy d on leaves

  -- The Caddyfile is that of a list of services in which every registered one is; and each service in the
  -- list is registered under its name, if that is the name of a file.
  abbrev pub CoversRegistry : List Service → W → Type 0
  CoversRegistry services w =
      ((name : Str) (svc : Service)
        → IsName name
        → view w name ≡ some svc
        → Any (λ s. s ≡ svc) services)
      × All (λ svc. IsName svc.config.name → view w svc.config.name ≡ some svc) services
      × (text_of w ≡ some (Generator.render services))

  keeps : (name : Str) → IsName name → KeepsRegistry d.store view filled (AlwaysSound toml) name
  keeps name n =
      subst (λ s. KeepsRegistry s view filled (AlwaysSound toml) name) (sym on.store_at)
        (fs_store-KeepsRegistry fs toml at h laid name n)

  -- What a deployment that ended in this way leaves in the registry: the rest stays, and what succeeded is
  -- registered.
  abbrev pub Deployed : Request → W → Result Done × W → Type 0
  Deployed req w r =
      ((m : Str) → IsName m → m ≢ req.name → view r.1 m ≡ view w m)
      × (is_ok r.0 ≡ true → Registered d req w view r.1)

  -- For a deployer whose store and Caddyfile are files (IsOnFiles) of an os that does what it documents
  -- (HasFiles), where the store's directories and the Caddyfile's are apart (IsLaidOut, IsCaddyLaidOut),
  -- `caddy`, docker and the shell leave the files alone (LeavesFiles, LeavesRegistry) and the name of the
  -- deployed service is the name of a file: however a deployment ends, what the registry's files hold
  -- under the name of any other file stays; and if it succeeds, they hold under its name what a Save left
  -- there that succeeded, and what was saved is the registration of the request with the deployment's id, the image of
  -- that id, which was built, the environment that was captured from the env file (empty without one) and
  -- a reading of the clock.
  pub deploy-Deployed :
      (apart : LeavesRegistry d view) (req : Request)
      → IsName req.name
      → (w : W) → Deployed req w (deploy d req w)
  deploy-Deployed apart req n w =
      let routes = files-LeavesRoutes fs toml at h laid caddy d on leaves in
      (
        (λ m k other. deploy-keeps d view apart req (keeps req.name n) routes m w k other),
        (λ done. elim (Result-cases (deploy d req w).0) [
          | inl (x, e) ↦ deploy-Registered d req w view (keeps req.name n) routes n x e
          | inr (x, e) ↦ absurd (ground (arith, done, e))
        ]),
      )

  module _ (reads : (v : W) (name : Str) → Readable fs toml paths at v name) where
    regenerated :
        (w : W)
        → is_ok (regenerate_and_reload d w).0 ≡ true
        → (services : List Service) × CoversRegistry services (regenerate_and_reload d w).1
    regenerated w done =
        let routes = files-LeavesRoutes fs toml at h laid caddy d on leaves in
        let (services, (complete, sound), text) =
          (regenerate_and_reload-Regenerated fs toml at h laid caddy d on leaves w).0 done in
        (
          services,
          (
            (λ name svc n e.
                complete name svc n (reads (fs.read_dir paths.services_dir w).1 name)
                  (sym (reload-keeps d view routes (keeps name n) name n w) ∙ e)),
            All-mono (λ svc. view w svc.config.name ≡ some svc)
                (λ svc.
                  IsName svc.config.name
                  → view (regenerate_and_reload d w).1 svc.config.name ≡ some svc)
                services
                (λ svc e n.
                  reload-keeps d view routes (keeps svc.config.name n) svc.config.name n w ∙ e)
                sound,
            text,
          ),
        )

    -- When the deployer's store and Caddyfile are files (IsOnFiles) of an os that does what it documents
    -- (HasFiles), the store's directories and the Caddyfile's are apart (IsLaidOut, IsCaddyLaidOut), `caddy`
    -- leaves the files alone (LeavesFiles), and no read of a file of the registry that is there fails (reads):
    -- a deployment that succeeds leaves the Caddyfile of a list of services in which every service is that
    -- the registry holds at the end under the name of a file, and no other under such a name.
    pub deploy_routed :
        (req : Request) (w : W)
        → is_ok (deploy d req w).0 ≡ true
        → (services : List Service) × CoversRegistry services (deploy d req w).1
    deploy_routed req w done =
        deploy-Ends d req (λ v. (services : List Service) × CoversRegistry services v) regenerated w
          done
