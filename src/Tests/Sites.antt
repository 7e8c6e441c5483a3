-- ===== src/Tests/Sites.antt =====
-- The Caddyfile of two services.
use decloud.Base.{
  ◌≡◌, refl, inl, inr, codes, true, List, [], ◌∷◌, All, arith, str_eq, contains_byte, has_prefix,
}
use decloud.Registry.Types.{Service}
use decloud.Ids.{container_name}
use decloud.Caddy.Generator.{input_of, normalize, render}
use decloud.Caddy.Generator.Reader.{read_caddyfile}
use decloud.Caddy.Generator.RoundTrip.{sites_of, read_caddyfile-render}
use decloud.Caddy.Generator.Routes.{
  FitsCaddyfile, RoutesExactly, normalize-IsPrintable, render-RoutesExactly,
}
use decloud.Tests.Host.{registered}

abbrev two : List Service
two =
    let shop = registered (codes "shop") in
    record {
      config = record shop.config {
        disable_compression = true;
        routes =
            record { hostname = codes "shop.example.com" }
            ∷ record { hostname = [] }
            ∷ record { hostname = codes "www.example.com" }
            ∷ [];
      };
      secrets = shop.secrets;
    }
    ∷ registered (codes "blog")
    ∷ []

two-FitsCaddyfile : All FitsCaddyfile two
unfolding input_of container_name contains_byte str_eq has_prefix
two-FitsCaddyfile = (
  (
    refl,
    (
      inr (refl, (λ e. ground arith), refl),
      (inl refl, (inr (refl, (λ e. ground arith), refl), tt)),
    ),
  ),
  ((refl, (inr (refl, (λ e. ground arith), refl), tt)), tt),
)

render-RoutesExactly_example : RoutesExactly two (render two)
render-RoutesExactly_example = render-RoutesExactly two two-FitsCaddyfile

read_caddyfile-render_example : read_caddyfile (render two) ≡ sites_of (normalize two)
read_caddyfile-render_example =
    read_caddyfile-render two (normalize-IsPrintable two two-FitsCaddyfile)
