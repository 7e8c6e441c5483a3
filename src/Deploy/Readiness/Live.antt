-- ===== src/Deploy/Readiness/Live.antt =====
-- internal/deploy/readiness.go: a service that becomes ready in time is found to be ready, and the
-- durations stay within Go's integers.
use decloud.Base.{
  ◌/◌, ℕ, zero, suc, ◌+◌, ◌*◌, ◌^◌, ◌≤◌, ◌<◌, ◌≡◌, ◌≢◌, inl, inr, refl, ℤ, pos, negsuc, Str, false,
  some, [], arith, ltb, str_eq_iff,
}
use decloud.Errors.{Result-cases, ok}
use decloud.Registry.Types.{ReadinessSpec, Time}
use decloud.Deploy.Requests.{Request, readiness_spec, seconds, binade, whole_seconds}
use decloud.Deploy.Readiness.{
  Prober, second, duration_or, interval_of, timeout_of, probe_url, attempt_probe, wait_loop, wait,
}
use decloud.Deploy.Readiness.Laws.{HasClock, attempt_later}

-- From the time `since` on, the container has an address and answers the probe with a status from
-- 200 to 399; a round of the probe takes at most `patience`; and nobody cancels.
pub record BecomesReady {W : Type 0} (p : Prober W) (container path : Str) (port : ℤ) (since : Time)
    (patience : ℕ) : Type 0 where
  pub ip : Str
  pub ip_found : ip ≢ []
  pub has_ip : (w : W) → since ≤ p.now w → (p.container_ip container w).0 ≡ ok ip
  pub status : ℕ
  pub status_passes : (200 ≤ status) × (status < 400)
  pub answers : (w : W) → since ≤ p.now w → (p.round_trip (probe_url ip port path) w).0 ≡ ok status
  pub is_quick : (w : W) → p.now (attempt_probe p container path port w).1 ≤ p.now w + patience
  pub not_cancelled : (n : ℕ) (w : W) → (p.pause n w).0 ≡ ok tt

module _ {W : Type 0} (p : Prober W) (c : HasClock p) (container path : Str) (port : ℤ)
    (since : Time) (patience : ℕ) (b : BecomesReady p container path port since patience) where
  attempt-ready : (w : W) → since ≤ p.now w → (attempt_probe p container path port w).0 ≡ ok tt
  unfolding attempt_probe
  attempt-ready w h =
      let w1 = (p.container_ip container w).1 in
      ground (
        arith,
        b.has_ip w h,
        str_eq_iff b.ip [],
        b.ip_found,
        c.ip_later container w,
        b.answers w1,
        b.status_passes,
      )

  module _ (interval : ℕ) (deadline : Time) (in_time : since + patience ≤ deadline) where
    wait_loop-ready :
        (f : ℕ) (w : W)
        → deadline < p.now w + f * interval
        → (w' : W) × (wait_loop p (suc f) container path port interval deadline w
            ≡ some (ok tt, w'))
    unfolding wait_loop
    wait_loop-ready zero w h = elim (Result-cases (attempt_probe p container path port w).0) [
      | inl (_, e) ↦ ((attempt_probe p container path port w).1, ground arith)
      | inr (x, e) ↦ absurd (ground (arith, attempt-ready w))
    ]
    wait_loop-ready (suc f) w h =
        let w1 = (attempt_probe p container path port w).1 in
        let w2 = (p.pause interval w1).1 in
        elim (Result-cases (attempt_probe p container path port w).0) [
          | inl (_, e) ↦ (w1, ground arith)
          | inr (x, e) ↦
              let early : p.now w < since = ground (arith, attempt-ready w) in
              let on : ltb deadline (p.now w1) ≡ false = ground (arith, b.is_quick w) in
              let later = c.pause_later interval w1 (ground (arith, b.not_cancelled interval w1)) in
              let rest =
                wait_loop-ready f w2 (ground (arith, attempt_later p c container path port w)) in
              (rest.0, ground (arith, b.not_cancelled interval w1, rest.1))
        ]

  -- If from the time `since` on the container has an address and answers with a status from 200 to 399,
  -- every round of the probe takes at most `patience`, nobody cancels, and the clock does not go back
  -- (BecomesReady, HasClock), then Wait succeeds, provided that `since` and `patience` end by the deadline;
  -- with f intervals longer than the timeout, f + 1 rounds are enough.
  pub wait_succeeds :
      (spec : ReadinessSpec) (f : ℕ) (w : W)
      → spec.http_path ≡ path
      → since + patience ≤ p.now w + timeout_of spec
      → timeout_of spec < f * interval_of spec
      → (w' : W) × (wait p (suc f) container spec port w ≡ some (ok tt, w'))
  unfolding wait
  wait_succeeds spec f w e in_time h =
      rw e
        (wait_loop-ready (interval_of spec) (p.now w + timeout_of spec) in_time f w (omega arith))

-- An int64, as time.Duration and int are.
abbrev pub IsInt64 : ℤ → Type 0
IsInt64 (pos n) = n < 2 ^ 63
IsInt64 (negsuc n) = n < 2 ^ 63

binade-bound : (k s : ℕ) → binade k s ≤ 2 ^ k
unfolding binade
binade-bound zero s = omega arith
binade-bound (suc k) s = ground (arith, binade-bound k s)

-- Rounding up takes a fraction of more than 999999 microseconds, which the last second has not.
whole_seconds-bound : (n : ℕ) → n ≤ 2 ^ 63 → whole_seconds n ≤ 9_223_372_036
unfolding whole_seconds
whole_seconds-bound n h = let b = binade-bound 33 (n / 1_000_000_000) in ground (arith, b, h)

seconds-IsInt64 : (d : ℤ) → IsInt64 d → IsInt64 (seconds d)
seconds-IsInt64 (pos n) h = ground (arith, whole_seconds-bound n (omega arith))
seconds-IsInt64 (negsuc n) h = ground (arith, whole_seconds-bound (n + 1) (omega arith))

timeout_of-bound : (d : ℤ) → IsInt64 d → duration_or (60 * second) (seconds d) < 2 ^ 63
timeout_of-bound (pos n) h = ground (arith, whole_seconds-bound n (omega arith))
timeout_of-bound (negsuc n) h = ground (arith, whole_seconds-bound (n + 1) (omega arith))

-- A readiness timeout that is an int64 gives a number of seconds that is one, and Wait computes from it
-- a timeout below 2^63 nanoseconds and an interval of one second: time.Duration does not overflow.
pub readiness_spec-IsInt64 :
    (req : Request)
    → IsInt64 req.readiness_timeout
    → IsInt64 (readiness_spec req).timeout_secs
      × (timeout_of (readiness_spec req) < 2 ^ 63)
      × (interval_of (readiness_spec req) ≡ second)
readiness_spec-IsInt64 req h =
    (seconds-IsInt64 req.readiness_timeout h, timeout_of-bound req.readiness_timeout h, refl)
