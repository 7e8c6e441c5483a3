-- ===== src/Caddy/Manager/Laws.antt =====
-- internal/caddy/manager.go: what Up and Down leave, and what their errors are.
use decloud.Base.{◌≡◌, inl, inr, Str, codes, Bool, true, false, arith, str_eq}
use decloud.Errors.{
  Error, Result-cases, ok, err, is_ok, error_is, err_caddy_up, err_container_not_found,
}
use decloud.Docker.Types.{RunOptions, InspectResult}
use decloud.Deploy.Interface.{caller}
use decloud.Caddy.Manager.{
  ManagerConfig, caddy_container, caddy_network, default_image, ports_bound, run_opts, pull_and_run,
  up_from, up, down,
}

-- Whether a container of a name is there and runs, in every world, and what docker tells of it:
-- documented behaviour of `docker inspect`, `docker start`, `docker run` and `docker rm`.
pub record Observes {W : Type 0} (m : ManagerConfig W) (exists runs : W → Str → Bool) : Type 0 where
  pub inspect_ok :
      (n : Str) (w : W) (r : InspectResult)
      → (m.driver.inspect caller n w).0 ≡ ok r
      → runs (m.driver.inspect caller n w).1 n ≡ str_eq r.state (codes "running")
  pub start_ok :
      (n : Str) (w : W)
      → is_ok (m.driver.start caller n w).0 ≡ true
      → runs (m.driver.start caller n w).1 n ≡ true
  pub run_ok :
      (o : RunOptions) (w : W)
      → is_ok (m.driver.run_with_options caller o w).0 ≡ true
      → runs (m.driver.run_with_options caller o w).1 o.name ≡ true
  pub remove_ok :
      (n : Str) (w : W)
      → is_ok (m.driver.remove caller n w).0 ≡ true
      → exists (m.driver.remove caller n w).1 n ≡ false
  pub remove_absent :
      (n : Str) (w : W) (e : Error)
      → (m.driver.remove caller n w).0 ≡ err e
      → error_is e err_container_not_found ≡ true
      → exists (m.driver.remove caller n w).1 n ≡ false

module _ {W : Type 0} (m : ManagerConfig W) where
  -- Every error of Up, whichever of its calls failed, wraps ErrCaddyUp.
  pub up_fails : (w : W) (e : Error) → (up m w).0 ≡ err e → error_is e err_caddy_up ≡ true
  unfolding up up_from pull_and_run ports_bound error_is
  up_fails w e h = ground arith

  module _ (exists runs : W → Str → Bool) (o : Observes m exists runs) where
    up_from-runs :
        (state : Str) (w : W)
        → runs w caddy_container ≡ str_eq state (codes "running")
        → is_ok (up_from m state w).0 ≡ true
        → runs (up_from m state w).1 caddy_container ≡ true
    unfolding up_from pull_and_run run_opts
    up_from-runs state w r h =
        let pulled = (m.driver.image_pull caller default_image w).1 in
        ground (arith, o.start_ok caddy_container w, o.run_ok (run_opts m) pulled)

    -- If docker's calls do what docker documents (Observes), an Up that succeeds leaves the decloud-caddy
    -- container running, whichever state it was in.
    pub up_runs : (w : W) → is_ok (up m w).0 ≡ true → runs (up m w).1 caddy_container ≡ true
    unfolding up
    up_runs w h =
        let w1 = (m.driver.network_ensure caller caddy_network w).1 in
        let w2 = (m.write_stub_if_missing m.caddyfile_path w1).1 in
        let inspected = m.driver.inspect caller caddy_container w2 in
        elim (Result-cases inspected.0) [
          | inl (r, e) ↦
              ground (arith, o.inspect_ok caddy_container w2 r, up_from-runs r.state inspected.1)
          | inr (x, e) ↦ absurd (ground arith)
        ]

    -- If docker's calls do what docker documents (Observes), a Down that succeeds leaves no decloud-caddy
    -- container, whether there was one or not.
    down_removes : (w : W) → is_ok (down m w).0 ≡ true → exists (down m w).1 caddy_container ≡ false
    unfolding down
    down_removes w h =
        let w1 = (m.driver.stop caller caddy_container 10 w).1 in
        elim (Result-cases (m.driver.remove caller caddy_container w1).0) [
          | inl (_, e) ↦ ground (arith, o.remove_ok caddy_container w1)
          | inr (x, e) ↦ ground (arith, o.remove_absent caddy_container w1 x)
        ]
