-- ===== src/Deploy/Trace/Predicates.antt =====
-- What a statement says of the calls of internal/deploy/service.go.
use decloud.Base.{◌≡◌, Str}
use decloud.Errors.{ok}
use decloud.Registry.Types.{Service}
use decloud.Deploy.Interface.{Dependencies, caller}
use decloud.Deploy.Trace
use decloud.Deploy.Trace.{Call}

-- A call that changes no container, no registration and no file of Caddy.
abbrev pub IsHarmless : Call → Type 0
IsHarmless (Trace.build _ _) = Unit
IsHarmless (Trace.network_ensure _ _) = Unit
IsHarmless (Trace.load _ _) = Unit
IsHarmless (Trace.inspect _ _) = Unit
IsHarmless (Trace.capture _ _) = Unit
IsHarmless Trace.new_deploy_id = Unit
IsHarmless _ = ⊥

-- A call that changes a container changes the container of this name.
abbrev pub Touches : Str → Call → Type 0
Touches n (Trace.run _ r) = r.name ≡ n
Touches n (Trace.stop _ m _) = m ≡ n
Touches n (Trace.start _ m) = m ≡ n
Touches n (Trace.remove _ m) = m ≡ n
Touches n (Trace.run_with_options _ o) = o.name ≡ n
Touches n (Trace.exec _ o) = o.container ≡ n
Touches n _ = Unit

-- The store gives a registration the name that it was asked for.
abbrev pub LoadsByName : {W : Type 0} → Dependencies W → Type 0
LoadsByName {W} d =
    (n : Str) (w : W) (p : Service) → (d.store.load caller n w).0 ≡ ok p → p.config.name ≡ n
