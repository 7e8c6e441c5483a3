-- ===== src/Cli/Production/Laws.antt =====
-- internal/cli/deploy_service.go with internal/deploy/readiness.go: the probe of the production
-- deployer has rounds enough, and the production deployer is what the theorems on files ask for.
use decloud.Base.{
  ℕ, suc, ◌+◌, ◌*◌, ◌/◌, ◌<◌, ◌≡◌, refl, inl, inr, ℤ, pos, negsuc, zero, Str, Option-cases, some,
  arith,
}
use decloud.Registry.Types.{ReadinessSpec}
use decloud.Deploy.Interface.{Context}
use decloud.Deploy.Readiness.{second, duration_or, interval_of, timeout_of, wait}
use decloud.Deploy.Readiness.Laws.{HasClock, wait_ends}
use decloud.Cli.Production.{System, prober, rounds, wait_ready, build_production, production}
use decloud.Deploy.Constructor.{new_service_deployer}
use decloud.Deploy.Caddyfile.{IsOnFiles}
use decloud.Config.{Paths}
use decloud.Errors.{ok}

duration_or-positive : (default : ℕ) (n : ℤ) → 0 < default → 0 < duration_or default n
duration_or-positive default (pos zero) h = h
duration_or-positive default (pos (suc n)) h = omega arith
duration_or-positive default (negsuc n) h = h

rounds-enough : (t i : ℕ) → 0 < i → t < (t / i + 1) * i
rounds-enough t i h = grind arith

module _ {W : Type 0} (sys : System W) (c : Context) (k : HasClock (prober sys c)) where
  -- When the clock of the production probe does not go back and a pause lasts its interval (HasClock), Wait
  -- ends within its rounds for every spec, so what the production probe returns is what Wait returns.
  pub wait_ready-wait :
      (name : Str) (spec : ReadinessSpec) (port : ℤ) (w : W)
      → wait (prober sys c) (suc (rounds sys spec)) name spec port w
        ≡ some (wait_ready sys c name spec port w)
  unfolding wait_ready
  wait_ready-wait name spec port w =
      let ends = wait_ends (prober sys c) k (rounds sys spec) name spec port w (
        rounds-enough (timeout_of spec) (interval_of spec)
          (duration_or-positive second spec.interval_secs (omega arith))) in
      elim (Option-cases (wait (prober sys c) (suc (rounds sys spec)) name spec port w)) [
        | inl n ↦ absurd (ends n)
        | inr (r, s) ↦ ground arith
      ]

module _ {W : Type 0} (sys : System W) (paths : Paths) where
  -- The production factories give the constructor all that it asks for.
  build_production-production : build_production sys paths ≡ ok (production sys paths)
  unfolding build_production production new_service_deployer
  build_production-production = refl

  -- The production deployer is one on the files of the system.
  production-IsOnFiles : IsOnFiles (production sys paths) sys.files sys.toml paths
  unfolding production
  production-IsOnFiles = record {
    store_at = refl;
    caddyfile_at = refl;
    generate_at = refl;
    stub_at = refl;
    remove_at = refl;
    rename_at = refl;
  }
