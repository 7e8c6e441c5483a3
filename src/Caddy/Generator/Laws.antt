-- ===== src/Caddy/Generator/Laws.antt =====
-- internal/caddy/generator.go: what the rows of the Caddyfile are.
use decloud.Base.{
  ◌≢◌, inl, inr, Str, Bool, Bool-cases, List, [], ◌∷◌, All, arith, str_eq, str_eq_iff, str_leb,
  sort, insert_sorted, IsSorted,
}
use decloud.Base.Order.{str_leb_total, str_leb_trans, sort-IsSorted, sort-All}
use decloud.Registry.Types.{Route, Service}
use decloud.Caddy.Generator.{
  GeneratorInput, hosts_of, input_of, add_input, inputs_of, by_name, normalize,
}

hosts_of-All : (rs : List Route) → All (λ h. h ≢ []) (hosts_of rs)
unfolding hosts_of
hosts_of-All [] = tt
hosts_of-All (r ∷ rs) = elim (Bool-cases (str_eq r.hostname [])) [
  | inl e ↦ rw e (hosts_of-All rs)
  | inr e ↦ rw e ((λ z. ground (arith, str_eq_iff r.hostname [])), hosts_of-All rs)
]

-- The row has sorted hosts, none of them empty, and at least one.
abbrev pub IsRow : GeneratorInput → Type 0
IsRow row = (row.hostnames ≢ []) × IsSorted str_leb row.hostnames × All (λ h. h ≢ []) row.hostnames

insert_sorted-nonempty :
    {A : Type 0} (before : A → A → Bool) (x : A) (xs : List A) → insert_sorted before x xs ≢ []
unfolding insert_sorted
insert_sorted-nonempty before x [] h = cc
insert_sorted-nonempty before x (y ∷ ys) h = ground arith

add_input-IsRow :
    (svc : Service) (hosts : List Str) (rows : List GeneratorInput)
    → All (λ h. h ≢ []) hosts
    → All IsRow rows
    → All IsRow (add_input svc hosts rows)
unfolding add_input input_of sort
add_input-IsRow svc [] rows h r = r
add_input-IsRow svc (x ∷ hs) rows h r = (
  (
    insert_sorted-nonempty str_leb x (sort str_leb hs),
    sort-IsSorted str_leb str_leb_total str_leb_trans (x ∷ hs),
    sort-All str_leb (λ h. h ≢ []) (x ∷ hs) h,
  ),
  r,
)

inputs_of-IsRow : (svcs : List Service) → All IsRow (inputs_of svcs)
unfolding inputs_of
inputs_of-IsRow [] = tt
inputs_of-IsRow (svc ∷ svcs) =
    add_input-IsRow svc (hosts_of svc.config.routes) (inputs_of svcs)
      (hosts_of-All svc.config.routes) (inputs_of-IsRow svcs)

-- The rows of the Caddyfile are sorted by the name of the service, and each of them has at least one
-- host, its hosts sorted and none of them empty.
normalize-IsSorted :
    (svcs : List Service) → IsSorted by_name (normalize svcs) × All IsRow (normalize svcs)
unfolding normalize
normalize-IsSorted svcs = (
  sort-IsSorted by_name (λ a b. str_leb_total a.service_name b.service_name)
      (λ a b c. str_leb_trans a.service_name b.service_name c.service_name) (inputs_of svcs),
  sort-All by_name IsRow (inputs_of svcs) (inputs_of-IsRow svcs),
)
