-- ===== src/Deploy/Readiness/Laws.antt =====
-- internal/deploy/readiness.go: the loop of Wait ends, and what its results mean.
use decloud.Base.{
  ℕ, zero, suc, ◌+◌, ◌*◌, ◌≤◌, ◌<◌, ◌≡◌, ◌≢◌, ◌⊎◌, inl, inr, refl, ℤ, Str, true, none, some, [],
  arith, ltb, str_eq_iff, Bool-cases,
}
use decloud.Errors.{Error, Result, ok, err, is_ok, Result-cases, error_is, err_readiness, wrap_both}
use decloud.Registry.Types.{ReadinessSpec, Time}
use decloud.Deploy.Interface.{Done}
use decloud.Deploy.Readiness.{
  Prober, interval_of, timeout_of, probe_url, attempt_probe, wait_loop, wait,
}

-- Time does not run backwards, and a pause that is not cancelled lasts for its interval.
pub record HasClock {W : Type 0} (p : Prober W) : Type 0 where
  pub ip_later : (c : Str) (w : W) → p.now w ≤ p.now (p.container_ip c w).1
  pub trip_later : (u : Str) (w : W) → p.now w ≤ p.now (p.round_trip u w).1
  pub pause_later :
      (n : ℕ) (w : W) → is_ok (p.pause n w).0 ≡ true → p.now w + n ≤ p.now (p.pause n w).1

module _ {W : Type 0} (p : Prober W) where
  pub attempt_later :
      HasClock p
      → (container path : Str) (port : ℤ) (w : W)
      → p.now w ≤ p.now (attempt_probe p container path port w).1
  unfolding attempt_probe
  attempt_later c container path port w = grind (arith, c.ip_later, c.trip_later)

  module _ (container path : Str) (port : ℤ) (interval : ℕ) (deadline : Time) where
    wait_loop_ends :
        HasClock p
        → (f : ℕ) (w : W) → deadline < p.now w + f * interval
        → wait_loop p (suc f) container path port interval deadline w ≢ none
    unfolding wait_loop
    wait_loop_ends c zero w h = ground (arith, attempt_later c container path port w)
    wait_loop_ends c (suc f) w h =
        let w1 = (attempt_probe p container path port w).1 in
        let w2 = (p.pause interval w1).1 in
        ground (
          arith,
          attempt_later c container path port w,
          c.pause_later interval w1,
          wait_loop_ends c f w2,
        )

    -- The probe answered at last: a status of 2xx or 3xx came from the container's address.
    abbrev pub Answered : W → Type 0
    Answered w' =
        (w w1 : W) × (ip : Str) × (status : ℕ) × (p.container_ip container w ≡ (ok ip, w1))
        × (ip ≢ [])
        × (p.round_trip (probe_url ip port path) w1 ≡ (ok status, w'))
        × (200 ≤ status)
        × (status < 400)

    -- The deadline has passed, or the pause was cancelled with this error.
    abbrev pub GivenUp : Error → W → Type 0
    GivenUp e w' =
        ((error_is e err_readiness ≡ true) × (deadline < p.now w'))
        ⊎ ((w : W) × (p.pause interval w ≡ (err e, w')))

    probe-Answered :
        (w : W) (w' : W) → attempt_probe p container path port w ≡ (ok tt, w') → Answered w'
    unfolding attempt_probe
    probe-Answered w w' h = elim (Result-cases (p.container_ip container w).0) [
      | inl (ip, e) ↦
          elim (Result-cases
            (p.round_trip (probe_url ip port path) (p.container_ip container w).1).0) [
              | inl (status, s) ↦ (
                w,
                (p.container_ip container w).1,
                ip,
                status,
                ground arith,
                (λ z. ground (arith, str_eq_iff ip [])),
                ground arith,
                ground arith,
                ground arith,
              )
              | inr (x, s) ↦ absurd (ground arith)
            ]
      | inr (x, e) ↦ absurd (ground arith)
    ]

    abbrev pub Fate : Result Done → W → Type 0
    Fate (ok _) w' = Answered w'
    Fate (err e) w' = GivenUp e w'

    wait_loop-Fate :
        (f : ℕ) (w w' : W) (r : Result Done)
        → wait_loop p f container path port interval deadline w ≡ some (r, w')
        → Fate r w'
    unfolding wait_loop
    wait_loop-Fate zero w w' r h = cc
    wait_loop-Fate (suc f) w w' r h =
        let probed = attempt_probe p container path port w in
        let paused = p.pause interval probed.1 in
        elim (Result-cases probed.0) [
          | inl (_, e) ↦
              let er : ok tt ≡ r = ground arith in
              let ew : probed.1 ≡ w' = ground arith in
              rw (← er) (probe-Answered w w' (ground arith))
          | inr (x, e) ↦ elim (Bool-cases (ltb deadline (p.now probed.1))) [
            | inl late ↦
                let er : err (wrap_both err_readiness x) ≡ r = ground arith in
                let ew : probed.1 ≡ w' = ground arith in
                rw (← er, ← ew) (inl (unfold error_is in refl, ground arith))
            | inr early ↦ elim (Result-cases paused.0) [
              | inl (_, q) ↦ wait_loop-Fate f paused.1 w' r (ground arith)
              | inr (c, q) ↦
                  let er : err c ≡ r = ground arith in
                  let ew : paused.1 ≡ w' = ground arith in rw (← er) (inr (probed.1, ground arith))
            ]
          ]
        ]

  -- If the clock does not run backwards and a pause that is not cancelled lasts for its interval
  -- (HasClock), Wait ends on fuel f + 1, where f intervals are longer than the timeout.
  pub wait_ends :
      HasClock p
      → (f : ℕ) (container : Str) (spec : ReadinessSpec) (port : ℤ) (w : W)
      → timeout_of spec < f * interval_of spec
      → wait p (suc f) container spec port w ≢ none
  unfolding wait
  wait_ends c f container spec port w h =
      wait_loop_ends container spec.http_path port (interval_of spec) (p.now w + timeout_of spec) c
        f w (omega arith)

  -- When Wait ends, it returned nil because the container's address answered the request for the probe's
  -- URL with a status from 200 to 399, at the end; or it returned an error that wraps ErrReadiness and
  -- the deadline has passed; or it returned the error of the cancelled pause.
  pub wait-Fate :
      (f : ℕ) (container : Str) (spec : ReadinessSpec) (port : ℤ) (w w' : W) (r : Result Done)
      → wait p f container spec port w ≡ some (r, w')
      → Fate container spec.http_path port (interval_of spec) (p.now w + timeout_of spec) r w'
  unfolding wait
  wait-Fate f container spec port w w' r h =
      wait_loop-Fate container spec.http_path port (interval_of spec) (p.now w + timeout_of spec) f
        w w' r h
