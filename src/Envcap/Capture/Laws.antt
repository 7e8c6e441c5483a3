-- ===== src/Envcap/Capture/Laws.antt =====
-- internal/envcap/capture.go: what Capture returns for a script, and which errors it gives.
use decloud.Base.{◌≡◌, Str, false, none, some, [], arith, str_eq, if◌then◌else◌}
use decloud.Errors.{ok}
use decloud.Registry.Types.{Env}
use decloud.Deploy.Interface.{Context}
use decloud.Envcap.Dump.{lookup, is_bash_internal, same_as, diff_env}
use decloud.Envcap.Laws.{
  dump, DistinctKeys, IsPrintable, parse_null_delimited-dump, lookup-diff_env,
}
use decloud.Envcap.Capture.{Bash, hermetic_args, run_hermetic_bash, capture_diff, capture, found}

-- Documented behaviour of the shell: the command of these arguments succeeds and prints the
-- variables of an environment, as printf does.
abbrev pub Prints : {W : Type 0} → Bash W → Context → Str → Env → W → W → Type 0
Prints b c path env w w' =
    ((b.env c (hermetic_args path) w).0.failure ≡ none)
    × ((b.env c (hermetic_args path) w).0.stdout ≡ dump env)
    × ((b.env c (hermetic_args path) w).1 ≡ w')
    × IsPrintable env
    × DistinctKeys env

module _ {W : Type 0} (b : Bash W) (c : Context) where
  run_hermetic_bash-Prints :
      (path : Str) (env : Env) (w w' : W)
      → Prints b c path env w w'
      → run_hermetic_bash b c path w ≡ (ok env, w')
  unfolding run_hermetic_bash
  run_hermetic_bash-Prints path env w w' (f, o, n, p, d) =
      ground (arith, parse_null_delimited-dump env p d)

  -- If the script is a file and the shell prints one environment without it and another with it (Prints),
  -- Capture returns an environment in which a variable has the value that it has with the script, if it
  -- is no variable of bash itself and its value was not the same without it; and no value otherwise.
  pub capture_sees :
      (path : Str) (baseline full : Env) (w w1 w2 w3 : W)
      → str_eq path [] ≡ false
      → b.stat path w ≡ (found false, w1)
      → Prints b c [] baseline w1 w2
      → Prints b c path full w2 w3
      → (env : Env) × (capture b c path w ≡ (ok env, w3))
        × ((k : Str)
            → lookup k env ≡ elim (lookup k full) [
              | none ↦ none
              | some v ↦
                  if is_bash_internal k
                  then none
                  else if same_as (lookup k baseline) v
                  then none
                  else some v
            ])
  unfolding capture capture_diff
  capture_sees path baseline full w w1 w2 w3 e s p q =
      let first = run_hermetic_bash-Prints [] baseline w1 w2 p in
      let second = run_hermetic_bash-Prints path full w2 w3 q in
      (diff_env baseline full, ground arith, λ k. lookup-diff_env k baseline full q.4)
