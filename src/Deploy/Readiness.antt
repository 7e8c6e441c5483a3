-- ===== src/Deploy/Readiness.antt =====
-- internal/deploy/readiness.go: the polling loop of the HTTP probe. The network, the driver's
-- ContainerIP, the clock and the select are parameters.
pub mod Laws
pub mod Hung
pub mod Live
use decloud.Base.{
  ℕ, zero, suc, ◌+◌, ◌*◌, ℤ, pos_part, not_positive, Str, codes, ◌++◌, [], ◌∷◌, Option, none, some,
  ◌&&◌, if◌then◌else◌, leb, ltb, str_eq, contains_byte, itoa,
}
use decloud.Errors.{
  Error, sentinel, errorf, end, lit, Result, ok, err, err_readiness, err_no_bridge_ip, wrap_both,
}
use decloud.Exec.{M, pure, raise, ◌>>=◌}
use decloud.Registry.Types.{ReadinessSpec, Time}
use decloud.Deploy.Interface.{Done}

-- `round_trip` makes a GET request within the client's timeout and answers its status code.
-- `pause` is the select: it ends after the interval, or at once with the context's error.
pub record Prober (W : Type 0) : Type 0 where
  pub container_ip : Str → M W Str
  pub round_trip : Str → M W ℕ
  pub now : W → Time
  pub pause : ℕ → M W Done

abbrev pub second : ℕ
second = 1_000_000_000

-- time.Duration(n) * time.Second, or the default if that is not positive
abbrev pub duration_or : ℕ → ℤ → ℕ
duration_or default n = if not_positive n then default else pos_part n * second

abbrev pub interval_of : ReadinessSpec → ℕ
interval_of spec = duration_or second spec.interval_secs

abbrev pub timeout_of : ReadinessSpec → ℕ
timeout_of spec = duration_or (60 * second) spec.timeout_secs

-- net.JoinHostPort
unfoldable pub join_host_port : Str → Str → Str
unfolding contains_byte
join_host_port host port =
    if contains_byte b':' host then b'[' ∷ (host ++ (codes "]:" ++ port)) else host ++ (b':' ∷ port)

unfoldable pub probe_url : Str → ℤ → Str → Str
unfolding join_host_port itoa
probe_url ip port path = codes "http://" ++ (join_host_port ip (itoa port) ++ path)

module _ {W : Type 0} (p : Prober W) where
  -- probeOnce
  unfoldable pub probe_once : Str → M W Done
  probe_once url = do
    status ← p.round_trip url
    if leb 200 status && ltb status 400
        then pure tt
        else raise (errorf (lit "non-2xx/3xx status" end))

  -- The switch of the loop: an error is the new lastErr.
  unfoldable pub attempt_probe : Str → Str → ℤ → M W Done
  unfolding probe_once str_eq
  attempt_probe container path port = do
    ip ← p.container_ip container
    if str_eq ip [] then raise (sentinel err_no_bridge_ip) else probe_once (probe_url ip port path)

  -- The rest of a round whose probe failed: the deadline, then the pause. The error of the round is
  -- always set here, so the message without one is never built.
  abbrev give_up : Error → W → Option (Result Done × W)
  give_up e w = some (err (wrap_both err_readiness e), w)

  -- The rounds of the loop; `none` is fuel that ran out.
  unfoldable pub wait_loop : ℕ → Str → Str → ℤ → ℕ → Time → W → Option (Result Done × W)
  wait_loop zero container path port interval deadline w = none
  wait_loop (suc fuel) container path port interval deadline w =
      let (r, w1) = attempt_probe container path port w in
      elim r [
        | ok _ ↦ some (ok tt, w1)
        | err e ↦
            if ltb deadline (p.now w1)
            then give_up e w1
            else let (r', w2) = p.pause interval w1 in
              elim r' [
                | ok _ ↦ wait_loop fuel container path port interval deadline w2
                | err cancelled ↦ some (err cancelled, w2)
              ]
      ]

  -- Wait, with fuel for the rounds.
  unfoldable pub wait : ℕ → Str → ReadinessSpec → ℤ → W → Option (Result Done × W)
  wait fuel container spec port w =
      wait_loop fuel container spec.http_path port (interval_of spec) (p.now w + timeout_of spec) w
