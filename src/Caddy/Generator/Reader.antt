-- ===== src/Caddy/Generator/Reader.antt =====
-- A reader of the Caddyfiles that internal/caddy/generator.go writes: the site blocks, in order. A line
-- that it does not know has no effect.
use decloud.Base.{
  Str, codes, Bool, true, false, ◌||◌, List, [], ◌∷◌, if◌then◌else◌, str_eq, has_prefix, has_suffix,
  trim_suffix, split,
}

-- What Caddy is told of one host.
pub record Site : Type 0 where
  pub host : Str
  pub is_compressed : Bool
  pub upstream : Str

-- Outside of the blocks, in the block of global options, or in the block of a site.
pub data Place : Type 0 where
  outside : Place
  options : Place
  block : Site → Place

-- What ends the line that opens a site.
abbrev pub opening : Str
opening = codes " {"

-- What begins the line that says where requests go.
abbrev pub proxy : Str
proxy = codes "    reverse_proxy "

-- The string after as many bytes as the first one has.
abbrev pub drop_of : Str → Str → Str
drop_of [] s = s
drop_of (a ∷ p) [] = []
drop_of (a ∷ p) (b ∷ s) = drop_of p s

abbrev pub encode_line : Str
encode_line = codes "    encode zstd gzip"

unfoldable pub read_lines : Place → List Str → List Site
unfolding str_eq has_prefix has_suffix trim_suffix
read_lines place [] = []
read_lines outside (l ∷ ls) =
    let skipped = read_lines outside ls in
    let global = read_lines options ls in
    let inside =
      read_lines
        (block (record { host = trim_suffix l opening; is_compressed = false; upstream = [] }))
        ls in
    if str_eq l [] || has_prefix l (codes "#")
    then skipped
    else if str_eq l (codes "{")
    then global
    else if has_suffix l opening
    then inside
    else skipped
read_lines options (l ∷ ls) =
    let here = read_lines options ls in
    let after = read_lines outside ls in if str_eq l (codes "}") then after else here
read_lines (block site) (l ∷ ls) =
    let after = read_lines outside ls in
    let compressed = read_lines (block (record site { is_compressed = true })) ls in
    let routed = read_lines (block (record site { upstream = drop_of proxy l })) ls in
    let ignored = read_lines (block site) ls in
    if str_eq l (codes "}")
    then site ∷ after
    else if str_eq l encode_line
    then compressed
    else if has_prefix l proxy
    then routed
    else ignored

unfoldable pub read_caddyfile : Str → List Site
unfolding read_lines split
read_caddyfile text = read_lines outside (split text 10)
