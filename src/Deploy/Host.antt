-- ===== src/Deploy/Host.antt =====
-- What docker does to containers, as far as internal/deploy relies on it: the container of each name,
-- in every world, and how the driver's calls change it.
use decloud.Base.{ℕ, ◌≡◌, Bool, true, false, Str, Option, none, some, List}
use decloud.Errors.{is_ok}
use decloud.Registry.Types.{Service, ReadinessSpec}
use decloud.Docker.Types.{RunRequest}
use decloud.Docker.Args.{run_args}
use decloud.Deploy.Interface.{Context, cleanup, Dependencies}

-- A container, with the request that created it.
pub record Container : Type 0 where
  pub request : RunRequest
  pub is_running : Bool

-- Documented behaviour of docker: `docker run` that succeeds leaves the container running, and
-- `docker rm` that succeeds leaves no container of the name. A call that names one container leaves
-- the containers of other names as they are. The registry's and Caddy's calls touch no service
-- container.
pub record HasContainers {W : Type 0} (d : Dependencies W) (container : W → Str → Option Container)
    : Type 0 where
  pub run_ok :
      (c : Context) (r : RunRequest) (w : W)
      → is_ok (d.driver.run c r w).0 ≡ true
      → container (d.driver.run c r w).1 r.name ≡ some (record { request = r; is_running = true })
  pub remove_ok :
      (c : Context) (n : Str) (w : W)
      → is_ok (d.driver.remove c n w).0 ≡ true
      → container (d.driver.remove c n w).1 n ≡ none
  pub save_keeps :
      (c : Context) (s : Service) (w : W) (n : Str)
      → container (d.store.save c s w).1 n ≡ container w n
  pub delete_keeps :
      (c : Context) (m : Str) (w : W) (n : Str)
      → container (d.store.delete_orphan_config c m w).1 n ≡ container w n
  pub list_keeps :
      (c : Context) (w : W) (n : Str) → container (d.store.list c w).1 n ≡ container w n
  pub generate_keeps :
      (p : Str) (s : List Service) (w : W) (n : Str)
      → container (d.generate p s w).1 n ≡ container w n
  pub stub_keeps :
      (p : Str) (w : W) (n : Str) → container (d.write_stub_if_missing p w).1 n ≡ container w n
  pub os_remove_keeps :
      (p : Str) (w : W) (n : Str) → container (d.os_remove p w).1 n ≡ container w n
  pub rename_keeps :
      (p q : Str) (w : W) (n : Str) → container (d.os_rename p q w).1 n ≡ container w n
  pub validate_keeps :
      (c : Context) (p : Str) (w : W) (n : Str)
      → container (d.reloader.validate c p w).1 n ≡ container w n
  pub reload_keeps :
      (c : Context) (p : Str) (w : W) (n : Str)
      → container (d.reloader.reload c p w).1 n ≡ container w n
  pub now_keeps : (w : W) (n : Str) → container (d.now w).1 n ≡ container w n
  pub wait_keeps :
      (c : Context) (m : Str) (s : ReadinessSpec) (p : _) (w : W) (n : Str)
      → container (d.wait c m s p w).1 n ≡ container w n

-- No container of the name runs.
abbrev pub IsStopped : Option Container → Type 0
IsStopped none = Unit {0}
IsStopped (some c) = c.is_running ≡ false

-- A request that the driver takes to docker: its service can be the value of a label.
abbrev pub IsRunnable : RunRequest → Type 0
IsRunnable r = is_ok (run_args r) ≡ true

-- The clean-up calls come through, within the time of newCleanupContext: `docker stop` leaves no
-- running container of the name, `docker rm` removes one that does not run, and `docker run` succeeds
-- for a request that the driver takes, if no container has the name.
pub record CleansUp {W : Type 0} (d : Dependencies W) (container : W → Str → Option Container)
    : Type 0 where
  pub cleanup_stops :
      (n : Str) (s : ℕ) (w : W) → IsStopped (container (d.driver.stop cleanup n s w).1 n)
  pub cleanup_removes :
      (n : Str) (w : W)
      → IsStopped (container w n)
      → container (d.driver.remove cleanup n w).1 n ≡ none
  pub cleanup_runs :
      (r : RunRequest) (w : W)
      → IsRunnable r
      → container w r.name ≡ none
      → is_ok (d.driver.run cleanup r w).0 ≡ true

-- Documented behaviour of docker: `docker run` refuses a name that is in use, and leaves its container.
abbrev pub RefusesUsedNames : {W : Type 0} → Dependencies W → (W → Str → Option Container) → Type 0
RefusesUsedNames {W} d container =
    (r : RunRequest) (w : W) (c : Container)
    → container w r.name ≡ some c
    → (is_ok (d.driver.run cleanup r w).0 ≡ false)
      × (container (d.driver.run cleanup r w).1 r.name ≡ some c)
