-- ===== src/Caddy/Generator/RoundTrip.antt =====
-- internal/caddy/generator.go: the text of a Caddyfile can be read back.
use decloud.Base.{
  ℕ, zero, suc, ◌+◌, ◌/◌, ◌%◌, ◌≡◌, ◌≢◌, refl, ap, ◌∙◌, inl, inr, ℤ, pos, negsuc, Str, codes,
  Bool-cases, true, false, not, List, [], ◌∷◌, ◌++◌, All, arith, if◌then◌else◌, contains_byte,
  has_prefix, split, split-append, str_eq, itoa, format_nat, digits,
}
use mathlib.Core.List.{append_assoc}
use decloud.Base.Suffix.{has_suffix-append, trim_suffix-append}
use decloud.Registry.Types.{Service}
use decloud.Caddy.Generator.{
  GeneratorInput, site_block, site_blocks, render_rows, preamble, normalize, render,
}
use decloud.Caddy.Generator.Reader.{
  Site, outside, block, opening, encode_line, read_lines, read_caddyfile,
}

-- What fits on one line.
abbrev pub IsLine : Str → Type 0
IsLine s = contains_byte 10 s ≡ false

-- A host that is no comment.
abbrev pub IsHost : Str → Type 0
IsHost h = IsLine h × (h ≢ []) × (has_prefix h (codes "#") ≡ false)

IsLine-append : (s t : Str) → IsLine s → IsLine t → IsLine (s ++ t)
unfolding contains_byte
IsLine-append [] t h k = k
IsLine-append (a ∷ s) t h k = ground (arith, IsLine-append s t)

digits-IsLine : (f n : ℕ) (out : Str) → IsLine out → IsLine (digits f n out)
unfolding digits contains_byte
digits-IsLine zero n out h = h
digits-IsLine (suc f) n out h = ground (arith, digits-IsLine f (n / 10) ((b'0' + n % 10) ∷ out))

itoa-IsLine : (n : ℤ) → IsLine (itoa n)
unfolding itoa format_nat contains_byte
itoa-IsLine (pos n) = ground (arith, digits-IsLine (n + 1) n [])
itoa-IsLine (negsuc n) = ground (arith, digits-IsLine (suc n + 1) (suc n) [])

-- The site of a host of this row.
abbrev pub site_of : GeneratorInput → Str → Site
site_of row host = record {
  host = host;
  is_compressed = not row.disable_compression;
  upstream = row.container_name ++ (b':' ∷ itoa row.port);
}

-- The line that opens a site.
read-opening :
    (h : Str) (ls : List Str)
    → IsHost h
    → read_lines outside ((h ++ codes " {") ∷ ls)
      ≡ read_lines (block (record { host = h; is_compressed = false; upstream = [] })) ls
unfolding read_lines has_prefix str_eq
read-opening [] ls k = absurd (k.1 refl)
read-opening (a ∷ []) ls k = ground (
  arith,
  k.2,
  has_suffix-append (a ∷ []) opening,
  trim_suffix-append (a ∷ []) opening (λ e. ground (arith, e)),
)
read-opening (a ∷ b ∷ h) ls k = ground (
  arith,
  k.2,
  has_suffix-append (a ∷ b ∷ h) opening,
  trim_suffix-append (a ∷ b ∷ h) opening (λ e. ground (arith, e)),
)

read-proxy :
    (site : Site) (address : Str) (ls : List Str)
    → read_lines (block site) ((codes "    reverse_proxy " ++ address) ∷ ls)
      ≡ read_lines (block (record site { upstream = address })) ls
unfolding read_lines str_eq has_prefix
read-proxy site address ls = refl

read-encode :
    (site : Site) (ls : List Str)
    → read_lines (block site) (encode_line ∷ ls)
      ≡ read_lines (block (record site { is_compressed = true })) ls
unfolding read_lines str_eq
read-encode site ls = refl

read-end :
    (site : Site) (ls : List Str)
    → read_lines (block site) (codes "}" ∷ ls) ≡ site ∷ read_lines outside ls
unfolding read_lines str_eq
read-end site ls = refl

address-IsLine :
    (row : GeneratorInput)
    → IsLine row.container_name
    → IsLine (row.container_name ++ (b':' ∷ itoa row.port))
address-IsLine row h =
    IsLine-append row.container_name (b':' ∷ itoa row.port) h
      (unfold contains_byte in ground (arith, itoa-IsLine row.port))

abbrev lines_of : GeneratorInput → Str → List Str → List Str
lines_of row h ls =
    let rest =
      (codes "    reverse_proxy " ++ (row.container_name ++ (b':' ∷ itoa row.port)))
      ∷ codes "}"
      ∷ ls in
    (h ++ codes " {") ∷ (if row.disable_compression then rest else encode_line ∷ rest)

abbrev proxy_line : GeneratorInput → Str
proxy_line row = codes "    reverse_proxy " ++ (row.container_name ++ (b':' ∷ itoa row.port))

abbrev tail_of : GeneratorInput → Str → Str
tail_of row rest = proxy_line row ++ (10 ∷ codes "}" ++ (10 ∷ rest))

glued :
    (row : GeneratorInput) (h rest : Str)
    → site_block row h ++ rest
      ≡ (h ++ codes " {")
        ++ (10
            ∷ (if row.disable_compression
                then tail_of row rest
                else encode_line ++ (10 ∷ tail_of row rest)))
unfolding site_block
glued row h rest = elim (Bool-cases row.disable_compression) [
  | inl e ↦ rw e (simp append_assoc)
  | inr e ↦ rw e (simp append_assoc)
]

split-tail_of :
    (row : GeneratorInput) (rest : Str)
    → IsLine row.container_name
    → split (tail_of row rest) 10 ≡ proxy_line row ∷ codes "}" ∷ split rest 10
split-tail_of row rest k =
    split-append (proxy_line row) (codes "}" ++ (10 ∷ rest)) 10 (
      IsLine-append (codes "    reverse_proxy ") (row.container_name ++ (b':' ∷ itoa row.port))
        (unfold contains_byte in refl) (address-IsLine row k))
    ∙ ap (◌∷◌ (proxy_line row)) (split-append (codes "}") rest 10 (unfold contains_byte in refl))

split-site_block :
    (row : GeneratorInput) (h rest : Str)
    → IsLine row.container_name
    → IsLine h
    → split (site_block row h ++ rest) 10 ≡ lines_of row h (split rest 10)
split-site_block row h rest k l =
    let opening = IsLine-append h (codes " {") l (unfold contains_byte in refl) in
    let tail = split-tail_of row rest k in
    ap (λ t. split t 10) (glued row h rest) ∙ elim (Bool-cases row.disable_compression) [
      | inl e ↦ rw e (
          split-append (h ++ codes " {") (tail_of row rest) 10 opening
          ∙ ap (◌∷◌ (h ++ codes " {")) tail)
      | inr e ↦ rw e (
          split-append (h ++ codes " {") (encode_line ++ (10 ∷ tail_of row rest)) 10 opening
          ∙ ap (◌∷◌ (h ++ codes " {")) (
              split-append encode_line (tail_of row rest) 10 (unfold contains_byte in refl)
              ∙ ap (◌∷◌ encode_line) tail))
    ]

read-site_block :
    (row : GeneratorInput) (h rest : Str)
    → IsLine row.container_name
    → IsHost h
    → read_caddyfile (site_block row h ++ rest) ≡ site_of row h ∷ read_caddyfile rest
unfolding read_caddyfile
read-site_block row h rest k l =
    let ls = split rest 10 in
    let site : Site = record { host = h; is_compressed = false; upstream = [] } in
    let address = row.container_name ++ (b':' ∷ itoa row.port) in
    ap (read_lines outside) (split-site_block row h rest k l.0)
    ∙ elim (Bool-cases row.disable_compression) [
      | inl e ↦ rw e (
          read-opening h (proxy_line row ∷ codes "}" ∷ ls) l
          ∙ read-proxy site address (codes "}" ∷ ls)
          ∙ read-end (record site { upstream = address }) ls)
      | inr e ↦ rw e (
          read-opening h (encode_line ∷ proxy_line row ∷ codes "}" ∷ ls) l
          ∙ read-encode site (proxy_line row ∷ codes "}" ∷ ls)
          ∙ read-proxy (record site { is_compressed = true }) address (codes "}" ∷ ls)
          ∙ read-end (record site { is_compressed = true; upstream = address }) ls)
    ]

-- The sites of the rows, in their order.
unfoldable pub row_sites : GeneratorInput → List Str → List Site
row_sites row [] = []
row_sites row (h ∷ hs) = site_of row h ∷ row_sites row hs

unfoldable pub sites_of : List GeneratorInput → List Site
unfolding row_sites
sites_of [] = []
sites_of (row ∷ rows) = row_sites row row.hostnames ++ sites_of rows

-- The names of the row fit into a Caddyfile.
abbrev pub IsPrintable : GeneratorInput → Type 0
IsPrintable row = IsLine row.container_name × All IsHost row.hostnames

read-site_blocks :
    (row : GeneratorInput) (hs : List Str) (rest : Str)
    → IsLine row.container_name
    → All IsHost hs
    → read_caddyfile (site_blocks row hs ++ rest) ≡ row_sites row hs ++ read_caddyfile rest
unfolding site_blocks row_sites
read-site_blocks row [] rest k l = refl
read-site_blocks row (h ∷ hs) rest k l =
    rw (append_assoc, read-site_block row h (site_blocks row hs ++ rest) k l.0)
      (ap (◌∷◌ (site_of row h)) (read-site_blocks row hs rest k l.1))

-- An empty line between the blocks.
read-blank : (rest : Str) → read_caddyfile (10 ∷ rest) ≡ read_caddyfile rest
unfolding read_caddyfile read_lines split str_eq
read-blank rest = refl

read-rows :
    (rows : List GeneratorInput)
    → All IsPrintable rows
    → read_caddyfile (render_rows rows) ≡ sites_of rows
unfolding render_rows sites_of
read-rows [] h = unfold read_caddyfile read_lines split str_eq in refl
read-rows (row ∷ rows) h =
    read-blank (site_blocks row row.hostnames ++ render_rows rows)
    ∙ read-site_blocks row row.hostnames (render_rows rows) h.0.0 h.0.1
    ∙ ap (◌++◌ (row_sites row row.hostnames)) (read-rows rows h.1)

read-preamble : (rest : Str) → read_caddyfile (preamble ++ rest) ≡ read_caddyfile rest
unfolding preamble read_caddyfile read_lines split str_eq has_prefix
read-preamble rest = refl

-- If the containers and the hosts of the rows are on one line each, and no host is empty or begins with
-- "#" (IsPrintable), then reading the text of the Caddyfile back (read_caddyfile) gives one site for each
-- host of each row, in order, with the row's container, port and compression.
pub read_caddyfile-render :
    (svcs : List Service)
    → All IsPrintable (normalize svcs)
    → read_caddyfile (render svcs) ≡ sites_of (normalize svcs)
unfolding render
read_caddyfile-render svcs h =
    read-preamble (render_rows (normalize svcs)) ∙ read-rows (normalize svcs) h
