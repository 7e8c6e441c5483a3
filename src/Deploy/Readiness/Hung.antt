-- ===== src/Deploy/Readiness/Hung.antt =====
-- internal/deploy/readiness.go and internal/deploy/service.go: a service that takes connections and
-- never answers. `probeOnce` runs under a timeout of its own, whose error is `DeadlineExceeded`.
use decloud.Base.{
  ℕ, zero, suc, ◌+◌, ◌*◌, ◌<◌, ◌≡◌, ◌≢◌, inl, inr, refl, ℤ, Str, Option, none, some, [], arith, ltb,
  str_eq_iff, Bool-cases,
}
use decloud.Errors.{
  Error, ok, err, sentinel, err_readiness, deadline_exceeded, wrap_both, is_cancellation,
}
use decloud.Registry.Types.{Service, Time}
use decloud.Deploy.Interface.{Dependencies, caller}
use decloud.Deploy.Requests.{Request, readiness_spec}
use decloud.Deploy.Failures.{readiness_error}
use decloud.Deploy.Service.{await_ready, discard_new, restore_old}
use decloud.Deploy.Readiness.{Prober, interval_of, timeout_of, attempt_probe, wait_loop, wait}
use decloud.Deploy.Readiness.Laws.{HasClock, attempt_later}
use decloud.Cli.ExitCodes.{exit_code_for, exit_interrupted}

abbrev pub timed_out : Error
timed_out = sentinel deadline_exceeded

-- The container has an address, every request runs into the client's timeout, and nobody cancels.
pub record IsHung {W : Type 0} (p : Prober W) : Type 0 where
  pub ip : Str
  pub ip_found : ip ≢ []
  pub has_ip : (c : Str) (w : W) → (p.container_ip c w).0 ≡ ok ip
  pub no_answer : (u : Str) (w : W) → (p.round_trip u w).0 ≡ err timed_out
  pub not_cancelled : (n : ℕ) (w : W) → (p.pause n w).0 ≡ ok tt

module _ {W : Type 0} (p : Prober W) (c : HasClock p) (h : IsHung p) where
  attempt-timed_out :
      (container path : Str) (port : ℤ) (w : W)
      → (attempt_probe p container path port w).0 ≡ err timed_out
  unfolding attempt_probe
  attempt-timed_out container path port w =
      grind (arith, h.has_ip, h.no_answer, str_eq_iff h.ip [], h.ip_found)

  wait_loop-hung :
      (container path : Str) (port : ℤ) (interval : ℕ) (deadline : Time) (f : ℕ) (w : W)
      → deadline < p.now w + f * interval
      → (w' : W) × (wait_loop p (suc f) container path port interval deadline w
          ≡ some (err (wrap_both err_readiness timed_out), w'))
  unfolding wait_loop
  wait_loop-hung container path port interval deadline zero w l = (
    (attempt_probe p container path port w).1,
    ground
        (arith, attempt-timed_out container path port w, attempt_later p c container path port w),
  )
  wait_loop-hung container path port interval deadline (suc f) w l =
      let w1 = (attempt_probe p container path port w).1 in
      let w2 = (p.pause interval w1).1 in
      elim (Bool-cases (ltb deadline (p.now w1))) [
        | inl late ↦ (w1, ground (arith, attempt-timed_out container path port w))
        | inr early ↦
            let rest = wait_loop-hung container path port interval deadline f w2 (
              ground (
                arith,
                attempt_later p c container path port w,
                c.pause_later interval w1,
                h.not_cancelled interval w1,
              )) in
            (
              rest.0,
              ground (
                arith,
                attempt-timed_out container path port w,
                h.not_cancelled interval w1,
                rest.1,
              ),
            )
      ]

  readiness_failed :
      (d : Dependencies W) (req : Request) (prev : Option Service) (container : Str) (w : W)
      (e : Error)
      → (d.wait caller container (readiness_spec req) req.port w).0 ≡ err e
      → (await_ready d container req prev w).0 ≡ err (readiness_error e)
  unfolding await_ready discard_new restore_old
  readiness_failed d req none container w e h = ground arith
  readiness_failed d req (some p') container w e h = ground arith

  -- If every request to the service runs into the probe's own timeout (IsHung), the clock does not run
  -- backwards and nobody cancels, then the readiness step of a deployment that uses this probe fails
  -- with an error that is mapped to the exit code of an interruption, 130, and not to that of a failed
  -- readiness probe.
  pub hung_service_exit :
      (d : Dependencies W) (req : Request) (prev : Option Service) (container : Str) (f : ℕ) (w : W)
      → timeout_of (readiness_spec req) < f * interval_of (readiness_spec req)
      → wait p (suc f) container (readiness_spec req) req.port w
        ≡ some (d.wait caller container (readiness_spec req) req.port w)
      → (e : Error) × ((await_ready d container req prev w).0 ≡ err e)
        × (exit_code_for (some e) ≡ exit_interrupted)
  unfolding wait
  hung_service_exit d req prev container f w l same =
      let spec = readiness_spec req in
      let e = wrap_both err_readiness timed_out in
      let ended =
        wait_loop-hung container spec.http_path req.port (interval_of spec)
          (p.now w + timeout_of spec) f w (omega arith) in
      (
        readiness_error e,
        readiness_failed d req prev container w e (ground (arith, ended.1)),
        unfold exit_code_for is_cancellation in refl,
      )
