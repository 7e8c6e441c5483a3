-- ===== src/Caddy/Generator/Rows.antt =====
-- internal/caddy/generator.go: the hosts of a service, and its row.
use decloud.Base.{
  ◌≡◌, ◌≢◌, refl, sym, ◌∙◌, ◌⊎◌, inl, inr, Str, Bool-cases, List, [], ◌∷◌, All, All-mono, Any,
  arith, str_eq, str_eq_iff, str_leb, sort,
}
use decloud.Registry.Types.{Route, Service}
use decloud.Caddy.Generator.{GeneratorInput, hosts_of, input_of, add_input, inputs_of}

pub hosts_of-All :
    (P : Str → Type 0) (rs : List Route)
    → All (λ r. (r.hostname ≡ []) ⊎ P r.hostname) rs
    → All P (hosts_of rs)
unfolding hosts_of
hosts_of-All P [] h = tt
hosts_of-All P (r ∷ rs) h = elim (Bool-cases (str_eq r.hostname [])) [
  | inl e ↦ rw e (hosts_of-All P rs h.1)
  | inr e ↦ rw e (
    elim h.0 [ inl z ↦ absurd (ground (arith, z, str_eq_iff r.hostname [])) | inr p ↦ p ],
    hosts_of-All P rs h.1,
  )
]

pub hosts_of-routes :
    (rs : List Route) → All (λ host. Any (λ r. r.hostname ≡ host) rs) (hosts_of rs)
unfolding hosts_of
hosts_of-routes [] = tt
hosts_of-routes (r ∷ rs) =
    let later =
      All-mono (λ host. Any (λ q. q.hostname ≡ host) rs)
        (λ host. Any (λ q. q.hostname ≡ host) (r ∷ rs)) (hosts_of rs) (λ host p. inr p)
        (hosts_of-routes rs) in
    elim (Bool-cases (str_eq r.hostname [])) [ inl e ↦ rw e later | inr e ↦ rw e (inl refl, later) ]

pub hosts_of-Any :
    (host : Str) (rs : List Route)
    → host ≢ []
    → Any (λ r. r.hostname ≡ host) rs
    → Any (λ x. x ≡ host) (hosts_of rs)
unfolding hosts_of
hosts_of-Any host [] n h = h
hosts_of-Any host (r ∷ rs) n h = elim (Bool-cases (str_eq r.hostname [])) [
  | inl e ↦ rw e (elim h [
    | inl q ↦ absurd (n (sym q ∙ (str_eq_iff r.hostname []).0 e))
    | inr q ↦ hosts_of-Any host rs n q
  ])
  | inr e ↦ rw e (elim h [ inl q ↦ inl q | inr q ↦ inr (hosts_of-Any host rs n q) ])
]

add_input-All :
    (P : GeneratorInput → Type 0) (svc : Service) (hosts : List Str) (rows : List GeneratorInput)
    → P (input_of svc (sort str_leb hosts))
    → All P rows
    → All P (add_input svc hosts rows)
unfolding add_input
add_input-All P svc [] rows p h = h
add_input-All P svc (x ∷ hosts) rows p h = (p, h)

pub inputs_of-All :
    (P : GeneratorInput → Type 0) (svcs : List Service)
    → All (λ svc. P (input_of svc (sort str_leb (hosts_of svc.config.routes)))) svcs
    → All P (inputs_of svcs)
unfolding inputs_of
inputs_of-All P [] h = tt
inputs_of-All P (svc ∷ svcs) h =
    add_input-All P svc (hosts_of svc.config.routes) (inputs_of svcs) h.0 (inputs_of-All P svcs h.1)

add_input-Any :
    (P : GeneratorInput → Type 0) (svc : Service) (hosts : List Str) (rows : List GeneratorInput)
    → Any P rows
    → Any P (add_input svc hosts rows)
unfolding add_input
add_input-Any P svc [] rows h = h
add_input-Any P svc (x ∷ hosts) rows h = inr h

add_input-own :
    (P : GeneratorInput → Type 0) (svc : Service) (hosts : List Str) (rows : List GeneratorInput)
    → hosts ≢ []
    → P (input_of svc (sort str_leb hosts))
    → Any P (add_input svc hosts rows)
unfolding add_input
add_input-own P svc [] rows n p = absurd (n refl)
add_input-own P svc (x ∷ hosts) rows n p = inl p

pub Any-nonempty : {A : Type 0} (P : A → Type 0) (xs : List A) → Any P xs → xs ≢ []
Any-nonempty P [] h e = h
Any-nonempty P (x ∷ xs) h e = ground arith

pub inputs_of-Any :
    (P : GeneratorInput → Type 0) (svc : Service) (svcs : List Service)
    → hosts_of svc.config.routes ≢ []
    → P (input_of svc (sort str_leb (hosts_of svc.config.routes)))
    → Any (λ s. s ≡ svc) svcs
    → Any P (inputs_of svcs)
unfolding inputs_of
inputs_of-Any P svc [] n p h = h
inputs_of-Any P svc (s ∷ svcs) n p (inl e) =
    rw e (add_input-own P svc (hosts_of svc.config.routes) (inputs_of svcs) n p)
inputs_of-Any P svc (s ∷ svcs) n p (inr h) =
    add_input-Any P s (hosts_of s.config.routes) (inputs_of svcs) (inputs_of-Any P svc svcs n p h)
