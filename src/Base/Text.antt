-- ===== src/Base/Text.antt =====
-- Go's strings: sequences of bytes, with the functions of `strings`, `bytes` and `strconv` that the
-- program calls.
use Prim.Native.Nat.{ℕ, zero, suc, ◌+◌, ◌/◌, ◌%◌}
use Prim.Native.Char.{code}
use Prim.Native.String.{String}
use mathlib.Core.Path.{◌≡◌, refl}
use mathlib.Core.Logic.{◌↔◌}
use mathlib.Core.Bool.{Bool, true, false, ◌||◌, ◌&&◌}
use mathlib.Core.List.{List, [], ◌∷◌}
use native.Mathlib.Omega.{arith}
use decloud.Base.Tests.{ltb, leb, ◌==◌, if◌then◌else◌, ℤ, pos, negsuc}

abbrev pub Str : Type 0
Str = List ℕ

-- The bytes of an ASCII literal.
abbrev pub codes : String → Str
codes String.[] = []
codes (String.◌∷◌ c s) = code c ∷ codes s

-- s == t
unfoldable pub str_eq : Str → Str → Bool
str_eq [] [] = true
str_eq (a ∷ s) (b ∷ t) = a == b && str_eq s t
str_eq _ _ = false

-- s <= t, byte by byte
unfoldable pub str_leb : Str → Str → Bool
str_leb [] t = true
str_leb (a ∷ s) [] = false
str_leb (a ∷ s) (b ∷ t) = ltb a b || (a == b && str_leb s t)

-- strings.HasPrefix
unfoldable pub has_prefix : Str → Str → Bool
has_prefix s [] = true
has_prefix [] (b ∷ p) = false
has_prefix (a ∷ s) (b ∷ p) = a == b && has_prefix s p

-- strings.HasSuffix
unfoldable pub has_suffix : Str → Str → Bool
unfolding str_eq
has_suffix [] p = str_eq [] p
has_suffix (a ∷ s) p = str_eq (a ∷ s) p || has_suffix s p

-- strings.TrimSuffix
unfoldable pub trim_suffix : Str → Str → Str
unfolding str_eq
trim_suffix [] p = []
trim_suffix (a ∷ s) p = if str_eq (a ∷ s) p then [] else a ∷ trim_suffix s p

-- strings.Contains
unfoldable pub contains : Str → Str → Bool
unfolding has_prefix
contains [] p = has_prefix [] p
contains (a ∷ s) p = has_prefix (a ∷ s) p || contains s p

-- strings.ContainsRune for an ASCII character
unfoldable pub contains_byte : ℕ → Str → Bool
contains_byte b [] = false
contains_byte b (a ∷ s) = a == b || contains_byte b s

-- strings.ToLower on ASCII
unfoldable pub to_lower : Str → Str
to_lower [] = []
to_lower (a ∷ s) = (if leb b'A' a && leb a b'Z' then a + 32 else a) ∷ to_lower s

abbrev pub cons_first : ℕ → List Str → List Str
cons_first a [] = (a ∷ []) ∷ []
cons_first a (p ∷ ps) = (a ∷ p) ∷ ps

-- strings.Split and bytes.Split at one byte
unfoldable pub split : Str → ℕ → List Str
split [] sep = [] ∷ []
split (a ∷ s) sep = let rest = split s sep in if a == sep then [] ∷ rest else cons_first a rest

unfoldable pub digits : ℕ → ℕ → Str → Str
digits zero n out = out
digits (suc f) n out =
    let rest = digits f (n / 10) ((b'0' + n % 10) ∷ out) in if n == 0 then out else rest

-- %d of a number that is not negative; n + 1 rounds are more than it has digits.
unfoldable pub format_nat : ℕ → Str
unfolding digits
format_nat n = if n == 0 then b'0' ∷ [] else digits (n + 1) n []

-- strconv.Itoa and %d
unfoldable pub itoa : ℤ → Str
unfolding format_nat
itoa (pos n) = format_nat n
itoa (negsuc n) = b'-' ∷ format_nat (n + 1)

abbrev is_space : ℕ → Bool
is_space c = leb 9 c && leb c 13 || c == 32

trim_left : Str → Str
trim_left [] = []
trim_left (a ∷ s) = let rest = trim_left s in if is_space a then rest else a ∷ s

cons_trimmed : ℕ → Str → Str
cons_trimmed a [] = if is_space a then [] else a ∷ []
cons_trimmed a (b ∷ s) = a ∷ b ∷ s

trim_right : Str → Str
unfolding cons_trimmed
trim_right [] = []
trim_right (a ∷ s) = cons_trimmed a (trim_right s)

-- strings.TrimSpace on ASCII
unfoldable pub trim_space : Str → Str
unfolding trim_left trim_right
trim_space s = trim_right (trim_left s)

pub str_eq_iff : (s t : Str) → (str_eq s t ≡ true) ↔ (s ≡ t)
unfolding str_eq
str_eq_iff [] [] = ground arith
str_eq_iff [] (b ∷ t) = ground arith
str_eq_iff (a ∷ s) [] = ground arith
str_eq_iff (a ∷ s) (b ∷ t) = ground (arith, str_eq_iff s t)

pub str_eq_refl : (s : Str) → str_eq s s ≡ true
str_eq_refl s = (str_eq_iff s s).1 refl
