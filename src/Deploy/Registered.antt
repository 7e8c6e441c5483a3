-- ===== src/Deploy/Registered.antt =====
-- internal/deploy/service.go over a registry: what a deployment leaves in it.
pub mod Others
pub mod Own
pub mod OnFiles
pub mod Unregistered
use decloud.Base.{
  ℕ, ℤ, ◌≡◌, ◌≢◌, refl, ap, sym, ◌∙◌, Str, true, Option, none, some, List, [], ◌∷◌, arith,
}
use decloud.Errors.{Error, Result, ok, err, is_ok}
use decloud.Exec.{M, sure, ◌>>=◌, ◌>>◌}
use decloud.Exec.Triple.{
  Outcome-of, Outcome-same, Outcome-world, Outcome, Outcome-ok, Triple, Triple-bind, Triple_any,
}
use decloud.Registry.Types.{Env, Service, ReadinessSpec, Time}
use decloud.Ids.{container_name, image_ref}
use decloud.Base.Path.Clean.{IsName}
use decloud.Docker.Types.{BuildRequest, RunRequest}
use decloud.Deploy.Interface.{Context, caller, cleanup, Dependencies, Done, Store}
use decloud.Deploy.Requests.{Request, network_name, build_request, run_request, registration}
use decloud.Deploy.Service.{
  install_caddyfile, discard_new, restore_old, capture_env, load_previous, build_image, prepare,
  clear_old, run_new, await_ready, save_registration, regenerate_and_reload, publish, activate,
  deploy, tmp_path,
}

abbrev pub Registry : Type 0
Registry = Str → Option Service

-- What a deployment asks of the store of a registry: its methods change what this name holds, and a
-- save that succeeds leaves the service as `stored` fills it in at some time.
pub record KeepsRegistry {W : Type 0} (store : Store W) (view : W → Registry)
    (stored : Time → Service → Option Service) (Storable : Service → Type 0) (name : Str)
    : Type 0 where
  pub load_keeps : (c : Context) (n m : Str) (w : W) → view (store.load c n w).1 m ≡ view w m
  pub list_keeps : (c : Context) (m : Str) (w : W) → view (store.list c w).1 m ≡ view w m
  pub save_other :
      (c : Context) (svc : Service) (m : Str) (w : W)
      → svc.config.name ≡ name
      → IsName m
      → m ≢ name
      → view (store.save c svc w).1 m ≡ view w m
  pub drop_other :
      (c : Context) (m : Str) (w : W)
      → IsName m
      → m ≢ name
      → view (store.delete_orphan_config c name w).1 m ≡ view w m
  pub save_ok :
      (c : Context) (svc : Service) (w : W)
      → svc.config.name ≡ name
      → Storable svc
      → is_ok (store.save c svc w).0 ≡ true
      → (t : Time) × (view (store.save c svc w).1 name ≡ stored t svc)

-- What regenerating the Caddyfile calls on its two paths leaves the registry alone.
pub record LeavesRoutes {W : Type 0} (d : Dependencies W) (view : W → Registry) : Type 0 where
  pub stub_keeps :
      (m : Str) (w : W)
      → IsName m
      → view (d.write_stub_if_missing d.caddyfile_path w).1 m ≡ view w m
  pub generate_keeps :
      (s : List Service) (m : Str) (w : W)
      → IsName m
      → view (d.generate (tmp_path d) s w).1 m ≡ view w m
  pub validate_keeps :
      (c : Context) (m : Str) (w : W)
      → IsName m
      → view (d.reloader.validate c (tmp_path d) w).1 m ≡ view w m
  pub os_remove_keeps :
      (m : Str) (w : W) → IsName m → view (d.os_remove (tmp_path d) w).1 m ≡ view w m
  pub os_rename_keeps :
      (m : Str) (w : W)
      → IsName m
      → view (d.os_rename (tmp_path d) d.caddyfile_path w).1 m ≡ view w m
  pub reload_keeps :
      (c : Context) (m : Str) (w : W)
      → IsName m
      → view (d.reloader.reload c d.caddyfile_path w).1 m ≡ view w m

-- Docker, the shell and the clock leave the registry alone.
pub record LeavesRegistry {W : Type 0} (d : Dependencies W) (view : W → Registry) : Type 0 where
  pub build_keeps :
      (c : Context) (r : BuildRequest) (m : Str) (w : W)
      → view (d.driver.build c r w).1 m ≡ view w m
  pub run_keeps :
      (c : Context) (r : RunRequest) (m : Str) (w : W) → view (d.driver.run c r w).1 m ≡ view w m
  pub stop_keeps :
      (c : Context) (n : Str) (s : ℕ) (m : Str) (w : W)
      → view (d.driver.stop c n s w).1 m ≡ view w m
  pub remove_keeps : (c : Context) (n m : Str) (w : W) → view (d.driver.remove c n w).1 m ≡ view w m
  pub inspect_keeps :
      (c : Context) (n m : Str) (w : W) → view (d.driver.inspect c n w).1 m ≡ view w m
  pub ensure_keeps :
      (c : Context) (n m : Str) (w : W) → view (d.driver.network_ensure c n w).1 m ≡ view w m
  pub capture_keeps : (c : Context) (p m : Str) (w : W) → view (d.capture c p w).1 m ≡ view w m
  pub wait_keeps :
      (c : Context) (n : Str) (s : ReadinessSpec) (p : ℤ) (m : Str) (w : W)
      → view (d.wait c n s p w).1 m ≡ view w m
  pub id_keeps : (m : Str) (w : W) → view (d.new_deploy_id w).1 m ≡ view w m
  pub now_keeps : (m : Str) (w : W) → view (d.now w).1 m ≡ view w m
