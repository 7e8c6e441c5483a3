-- ===== src/Caddy/Generator/Routes.antt =====
-- internal/caddy/generator.go: the sites of a Caddyfile are the hosts of the services.
use decloud.Base.{
  ◌≡◌, ◌≢◌, refl, ◌⊎◌, inl, inr, Str, not, List, [], ◌∷◌, ◌++◌, All, All-append, All-mono, Any,
  Any-append_left, Any-append_right, Any-mono, str_leb, sort, itoa,
}
use decloud.Base.Order.{sort-All, sort-Any}
use decloud.Registry.Types.{Service}
use decloud.Caddy.Generator.{
  GeneratorInput, hosts_of, input_of, inputs_of, by_name, normalize, render,
}
use decloud.Caddy.Generator.Reader.{Site, read_caddyfile}
use decloud.Caddy.Generator.RoundTrip.{
  IsLine, IsHost, IsPrintable, site_of, row_sites, sites_of, read_caddyfile-render,
}
use decloud.Caddy.Generator.Rows.{
  hosts_of-All, hosts_of-routes, hosts_of-Any, inputs_of-All, Any-nonempty, inputs_of-Any,
}

-- Where the service listens, for Caddy.
abbrev pub container_of : Service → Str
container_of svc = (input_of svc []).container_name

-- The service has this host, and this is where its requests go.
abbrev pub Serves : Service → Site → Type 0
Serves svc site =
    Any (λ r. r.hostname ≡ site.host) svc.config.routes
    × (site.upstream ≡ container_of svc ++ (b':' ∷ itoa svc.config.run.port))
    × (site.is_compressed ≡ not svc.config.disable_compression)

-- The hosts and the container of a service fit into a Caddyfile.
abbrev pub FitsCaddyfile : Service → Type 0
FitsCaddyfile svc =
    IsLine (container_of svc) × All (λ r. (r.hostname ≡ []) ⊎ IsHost r.hostname) svc.config.routes

row_sites-All :
    (Q : Site → Type 0) (row : GeneratorInput) (hs : List Str)
    → All (λ h. Q (site_of row h)) hs
    → All Q (row_sites row hs)
unfolding row_sites
row_sites-All Q row [] h = tt
row_sites-All Q row (x ∷ hs) h = (h.0, row_sites-All Q row hs h.1)

row_sites-Any :
    (Q : Site → Type 0) (row : GeneratorInput) (hs : List Str)
    → Any (λ h. Q (site_of row h)) hs
    → Any Q (row_sites row hs)
unfolding row_sites
row_sites-Any Q row [] h = h
row_sites-Any Q row (x ∷ hs) (inl p) = inl p
row_sites-Any Q row (x ∷ hs) (inr h) = inr (row_sites-Any Q row hs h)

abbrev own_sites : GeneratorInput → List Site
own_sites row = row_sites row row.hostnames

sites_of-All :
    (Q : Site → Type 0) (rows : List GeneratorInput)
    → All (λ row. All Q (own_sites row)) rows
    → All Q (sites_of rows)
unfolding sites_of
sites_of-All Q [] h = tt
sites_of-All Q (row ∷ rows) h =
    All-append Q (own_sites row) (sites_of rows) h.0 (sites_of-All Q rows h.1)

sites_of-Any :
    (Q : Site → Type 0) (rows : List GeneratorInput)
    → Any (λ row. Any Q (own_sites row)) rows
    → Any Q (sites_of rows)
unfolding sites_of
sites_of-Any Q [] h = h
sites_of-Any Q (row ∷ rows) (inl p) = Any-append_left Q (own_sites row) (sites_of rows) p
sites_of-Any Q (row ∷ rows) (inr h) =
    Any-append_right Q (own_sites row) (sites_of rows) (sites_of-Any Q rows h)

-- The site of a host of a service.
input-Serves :
    (svc : Service) (hosts : List Str) (h : Str)
    → Any (λ r. r.hostname ≡ h) svc.config.routes
    → Serves svc (site_of (input_of svc hosts) h)
unfolding input_of
input-Serves svc hosts h a = (a, refl, refl)

pub normalize-IsPrintable :
    (svcs : List Service) → All FitsCaddyfile svcs → All IsPrintable (normalize svcs)
unfolding normalize
normalize-IsPrintable svcs h = sort-All by_name IsPrintable (inputs_of svcs) (
    inputs_of-All IsPrintable svcs (
      All-mono FitsCaddyfile _ svcs
        (λ svc f.
          unfold input_of in
          (
            f.0,
            sort-All str_leb IsHost (hosts_of svc.config.routes)
                (hosts_of-All IsHost svc.config.routes f.1),
          ))
        h))

self-All : (svcs : List Service) → All (λ svc. Any (λ s. s ≡ svc) svcs) svcs
self-All [] = tt
self-All (svc ∷ svcs) = (
  inl refl,
  All-mono (λ s. Any (λ t. t ≡ s) svcs) (λ s. Any (λ t. t ≡ s) (svc ∷ svcs)) svcs (λ s p. inr p)
      (self-All svcs),
)

own-served :
    (svcs : List Service) (svc : Service)
    → Any (λ s. s ≡ svc) svcs
    → All
        (λ site. Any (λ s. Serves s site) svcs)
        (own_sites (input_of svc (sort str_leb (hosts_of svc.config.routes))))
unfolding input_of
own-served svcs svc m =
    let hosts = hosts_of svc.config.routes in
    let row = input_of svc (sort str_leb hosts) in
    let Q : Str → Type 0 = λ h. Any (λ s. Serves s (site_of row h)) svcs in
    row_sites-All (λ site. Any (λ s. Serves s site) svcs) row (sort str_leb hosts)
      (sort-All str_leb Q hosts (
        All-mono (λ h. Any (λ r. r.hostname ≡ h) svc.config.routes) Q hosts
          (λ h a.
            Any-mono (λ s. s ≡ svc) (λ s. Serves s (site_of row h)) svcs
              (λ s e. rw e (input-Serves svc (sort str_leb hosts) h a)) m)
          (hosts_of-routes svc.config.routes)))

-- Every site is a service's.
sites-served :
    (svcs : List Service)
    → All (λ site. Any (λ svc. Serves svc site) svcs) (sites_of (normalize svcs))
unfolding normalize
sites-served svcs =
    let Q : Site → Type 0 = λ site. Any (λ svc. Serves svc site) svcs in
    sites_of-All Q (normalize svcs) (
      sort-All by_name (λ row. All Q (own_sites row)) (inputs_of svcs)
        (inputs_of-All (λ row. All Q (own_sites row)) svcs
          (All-mono (λ svc. Any (λ s. s ≡ svc) svcs) _ svcs (λ svc m. own-served svcs svc m)
            (self-All svcs))))

-- Every host of a service has a site.
hosts-served :
    (svcs : List Service) (svc : Service) (host : Str)
    → Any (λ s. s ≡ svc) svcs
    → host ≢ []
    → Any (λ r. r.hostname ≡ host) svc.config.routes
    → Any (λ site. (site.host ≡ host) × Serves svc site) (sites_of (normalize svcs))
unfolding normalize
hosts-served svcs svc host m n a =
    let Q : Site → Type 0 = λ site. (site.host ≡ host) × Serves svc site in
    let hosts = hosts_of svc.config.routes in
    let found = hosts_of-Any host svc.config.routes n a in
    let row = input_of svc (sort str_leb hosts) in
    let own : Any Q (own_sites row) = row_sites-Any Q row (sort str_leb hosts) (
      sort-Any str_leb (λ h. Q (site_of row h)) hosts
        (Any-mono (λ x. x ≡ host) (λ h. Q (site_of row h)) hosts
          (λ x e. (e, input-Serves svc (sort str_leb hosts) x (rw e a))) found)) in
    sites_of-Any Q (normalize svcs) (
      sort-Any by_name (λ r. Any Q (own_sites r)) (inputs_of svcs)
        (inputs_of-Any (λ r. Any Q (own_sites r)) svc svcs
          (Any-nonempty (λ x. x ≡ host) hosts found) own m))

-- The sites that the text has are the hosts of these services.
abbrev pub RoutesExactly : List Service → Str → Type 0
RoutesExactly svcs text =
    ((svc : Service) (host : Str)
      → Any (λ s. s ≡ svc) svcs
      → host ≢ []
      → Any (λ r. r.hostname ≡ host) svc.config.routes
      → Any (λ site. (site.host ≡ host) × Serves svc site) (read_caddyfile text))
    × All (λ site. Any (λ svc. Serves svc site) svcs) (read_caddyfile text)

-- If the container and every host that is set of each service fit into a Caddyfile (FitsCaddyfile), then
-- the text of the Caddyfile, read back, has a site for every host that is set of every service, with the
-- service's container, port and compression; and every site that it has is such a site of a service.
pub render-RoutesExactly :
    (svcs : List Service) → All FitsCaddyfile svcs → RoutesExactly svcs (render svcs)
render-RoutesExactly svcs h =
    rw (read_caddyfile-render svcs (normalize-IsPrintable svcs h))
      (hosts-served svcs, sites-served svcs)
