-- ===== src/Caddy/Generator.antt =====
-- internal/caddy/generator.go: the rows of the Caddyfile, and its text.
pub mod Laws
pub mod Reader
pub mod RoundTrip
pub mod Rows
pub mod Routes
pub mod Blocks
use decloud.Base.{
  ℕ, ℤ, Str, String, codes, Bool, true, false, not, ◌++◌, List, [], ◌∷◌, if◌then◌else◌, str_eq,
  str_leb, itoa, sort,
}
use decloud.Registry.Types.{Route, Service}

pub record GeneratorInput : Type 0 where
  pub service_name : Str
  pub container_name : Str
  pub port : ℤ
  pub hostnames : List Str
  pub disable_compression : Bool

-- The inner loop of normalize.
unfoldable pub hosts_of : List Route → List Str
unfolding str_eq
hosts_of [] = []
hosts_of (r ∷ rs) =
    let rest = hosts_of rs in if str_eq r.hostname [] then rest else r.hostname ∷ rest

-- The row of a service whose sorted hosts are given.
unfoldable pub input_of : Service → List Str → GeneratorInput
unfolding str_eq
input_of svc hosts =
    let named = svc.config.state.container_name in
    record {
      service_name = svc.config.name;
      container_name = if str_eq named [] then codes "decloud-" ++ svc.config.name else named;
      port = svc.config.run.port;
      hostnames = hosts;
      disable_compression = svc.config.disable_compression;
    }

-- One round of the outer loop of normalize: a service with no host has no row.
unfoldable pub add_input : Service → List Str → List GeneratorInput → List GeneratorInput
unfolding input_of sort str_leb
add_input svc [] rows = rows
add_input svc (h ∷ hs) rows = input_of svc (sort str_leb (h ∷ hs)) ∷ rows

unfoldable pub inputs_of : List Service → List GeneratorInput
unfolding add_input hosts_of
inputs_of [] = []
inputs_of (svc ∷ svcs) = add_input svc (hosts_of svc.config.routes) (inputs_of svcs)

abbrev pub by_name : GeneratorInput → GeneratorInput → Bool
by_name a b = str_leb a.service_name b.service_name

-- normalize. Rows of one name keep their order here; `sort.Slice` promises no order for them.
unfoldable pub normalize : List Service → List GeneratorInput
unfolding inputs_of sort str_leb
normalize svcs = sort by_name (inputs_of svcs)

-- fmt.Fprintln
abbrev line : String → Str → Str
line text rest = codes text ++ (10 ∷ rest)

-- One site block.
unfoldable pub site_block : GeneratorInput → Str → Str
unfolding itoa
site_block row host =
    host
    ++ (codes " {"
        ++ (10
            ∷ ((if row.disable_compression then [] else line "    encode zstd gzip" [])
                ++ (codes "    reverse_proxy "
                    ++ (row.container_name ++ (b':' ∷ (itoa row.port ++ (10 ∷ line "}" []))))))))

unfoldable pub site_blocks : GeneratorInput → List Str → Str
unfolding site_block
site_blocks row [] = []
site_blocks row (h ∷ hs) = site_block row h ++ site_blocks row hs

unfoldable pub render_rows : List GeneratorInput → Str
unfolding site_blocks
render_rows [] = []
render_rows (row ∷ rows) = 10 ∷ (site_blocks row row.hostnames ++ render_rows rows)

-- The dash of the source's first line is three bytes of UTF-8.
unfoldable pub preamble : Str
preamble =
    codes "# Caddyfile generated by decloud "
    ++ (226
        ∷ 128
        ∷ 148
        ∷ line " do not edit by hand." (
            line "# Re-run `decloud caddy reload` to refresh." (
              line "" (
                line "{" (
                  line "    servers {"
                    (line "        protocols h1 h2" (line "    }" (line "}" []))))))))

-- The bytes that Generate writes.
unfoldable pub render : List Service → Str
unfolding preamble render_rows normalize
render svcs = preamble ++ render_rows (normalize svcs)
