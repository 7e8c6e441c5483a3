-- ===== src/Caddy/Generator/Blocks.antt =====
-- internal/caddy/generator.go: the Caddyfile has the site block of every host, whatever else it has.
use decloud.Base.{
  ◌≡◌, ◌≢◌, refl, ap, sym, ◌∙◌, inl, inr, Str, List, [], ◌∷◌, ◌++◌, Any, str_leb, sort,
}
use mathlib.Core.List.{append_assoc}
use decloud.Base.Order.{sort-Any}
use decloud.Registry.Types.{Service}
use decloud.Caddy.Generator.{
  GeneratorInput, hosts_of, input_of, inputs_of, by_name, normalize, site_block, site_blocks,
  render_rows, preamble, render,
}
use decloud.Caddy.Generator.Rows.{hosts_of-Any, inputs_of-Any, Any-nonempty}

-- This text is a part of that one.
abbrev pub Holds : Str → Str → Type 0
Holds part text = (before : Str) × (after : Str) × (text ≡ before ++ (part ++ after))

Holds-left : (part s t : Str) → Holds part s → Holds part (s ++ t)
Holds-left part s t (before, after, e) = (
  before,
  after ++ t,
  ap (λ x. x ++ t) e
      ∙ append_assoc before (part ++ after) t
      ∙ ap (◌++◌ before) (append_assoc part after t),
)

Holds-right : (part s t : Str) → Holds part t → Holds part (s ++ t)
Holds-right part s t (before, after, e) =
    (s ++ before, after, ap (◌++◌ s) e ∙ sym (append_assoc s before (part ++ after)))

site_blocks-Holds :
    (row : GeneratorInput) (host : Str) (hosts : List Str)
    → Any (λ h. h ≡ host) hosts
    → Holds (site_block row host) (site_blocks row hosts)
unfolding site_blocks
site_blocks-Holds row host [] a = absurd a
site_blocks-Holds row host (h ∷ hosts) (inl e) =
    ([], site_blocks row hosts, ap (λ x. site_block row x ++ site_blocks row hosts) e)
site_blocks-Holds row host (h ∷ hosts) (inr a) =
    Holds-right (site_block row host) (site_block row h) (site_blocks row hosts)
      (site_blocks-Holds row host hosts a)

render_rows-Holds :
    (part : Str) (rows : List GeneratorInput)
    → Any (λ row. Holds part (site_blocks row row.hostnames)) rows
    → Holds part (render_rows rows)
unfolding render_rows
render_rows-Holds part [] a = absurd a
render_rows-Holds part (row ∷ rows) (inl p) =
    Holds-right part (10 ∷ []) (site_blocks row row.hostnames ++ render_rows rows)
      (Holds-left part (site_blocks row row.hostnames) (render_rows rows) p)
render_rows-Holds part (row ∷ rows) (inr a) =
    Holds-right part (10 ∷ []) (site_blocks row row.hostnames ++ render_rows rows) (
      Holds-right part (site_blocks row row.hostnames) (render_rows rows)
        (render_rows-Holds part rows a))

same_block :
    (svc : Service) (hosts : List Str) (host : Str)
    → site_block (input_of svc hosts) host ≡ site_block (input_of svc []) host
unfolding site_block input_of
same_block svc hosts host = refl

-- Every host of a service has a block that sends its requests to the service.
pub render-Holds :
    (svcs : List Service) (svc : Service) (host : Str)
    → Any (λ s. s ≡ svc) svcs
    → host ≢ []
    → Any (λ r. r.hostname ≡ host) svc.config.routes
    → Holds (site_block (input_of svc []) host) (render svcs)
unfolding render normalize input_of
render-Holds svcs svc host m n a =
    let hosts = hosts_of svc.config.routes in
    let part = site_block (input_of svc []) host in
    let found = hosts_of-Any host svc.config.routes n a in
    let own : Holds (site_block (input_of svc (sort str_leb hosts)) host)
        (site_blocks (input_of svc (sort str_leb hosts)) (sort str_leb hosts)) =
      site_blocks-Holds (input_of svc (sort str_leb hosts)) host (sort str_leb hosts)
        (sort-Any str_leb (λ h. h ≡ host) hosts found) in
    let ours : Holds part (site_blocks (input_of svc (sort str_leb hosts)) (sort str_leb hosts)) =
      rw (← same_block svc (sort str_leb hosts) host) own in
    Holds-right part preamble (render_rows (normalize svcs)) (
      render_rows-Holds part (normalize svcs) (
        sort-Any by_name (λ row. Holds part (site_blocks row row.hostnames)) (inputs_of svcs)
          (inputs_of-Any (λ row. Holds part (site_blocks row row.hostnames)) svc svcs
            (Any-nonempty (λ h. h ≡ host) hosts found) ours m)))
