-- ===== src/Base/Split.antt =====
-- Laws of `split`, the model of strings.Split and bytes.Split at one byte.
use decloud.Base.Text.{Str, split, cons_first, contains_byte}
use decloud.Base.Tests.{◌==◌, Bool-cases}
use Prim.Native.Nat.{ℕ}
use mathlib.Core.Path.{◌≡◌, refl, ap}
use mathlib.Core.Logic.{◌≢◌, inl, inr}
use mathlib.Core.Bool.{false}
use mathlib.Core.List.{List, [], ◌∷◌, ◌++◌}
use native.Mathlib.Omega.{arith}

-- The parts with the separator between them.
unfoldable pub join : List Str → ℕ → Str
join [] sep = []
join (p ∷ []) sep = p
join (p ∷ q ∷ ps) sep = p ++ (sep ∷ join (q ∷ ps) sep)

split-ne-nil : (s : Str) (sep : ℕ) → split s sep ≢ []
unfolding split
split-ne-nil [] sep h = ground arith
split-ne-nil (a ∷ s) sep h = ground (arith, split-ne-nil s sep)

join-first :
    (a : ℕ) (p : Str) (ps : List Str) (sep : ℕ) → join ((a ∷ p) ∷ ps) sep ≡ a ∷ join (p ∷ ps) sep
unfolding join
join-first a p [] sep = refl
join-first a p (q ∷ ps) sep = refl

join-cons_first :
    (a : ℕ) (ps : List Str) (sep : ℕ) → ps ≢ [] → join (cons_first a ps) sep ≡ a ∷ join ps sep
join-cons_first a [] sep h = absurd (h refl)
join-cons_first a (p ∷ ps) sep h = join-first a p ps sep

join-empty : (ps : List Str) (sep : ℕ) → ps ≢ [] → join ([] ∷ ps) sep ≡ sep ∷ join ps sep
unfolding join
join-empty [] sep h = absurd (h refl)
join-empty (p ∷ ps) sep h = refl

pub join-split : (s : Str) (sep : ℕ) → join (split s sep) sep ≡ s
unfolding split
join-split [] sep = unfold join in refl
join-split (a ∷ s) sep = elim (Bool-cases (a == sep)) [
  | inl e ↦
      rw e (ground (arith, join-split s sep, join-empty (split s sep) sep (split-ne-nil s sep)))
  | inr e ↦
      rw (e, join-cons_first a (split s sep) sep (split-ne-nil s sep))
        (ap (◌∷◌ a) (join-split s sep))
]

pub split_lacking : (p : Str) (sep : ℕ) → contains_byte sep p ≡ false → split p sep ≡ p ∷ []
unfolding split contains_byte
split_lacking [] sep h = refl
split_lacking (a ∷ p) sep h = ground (arith, split_lacking p sep)

pub split-append :
    (p rest : Str) (sep : ℕ)
    → contains_byte sep p ≡ false
    → split (p ++ (sep ∷ rest)) sep ≡ p ∷ split rest sep
unfolding split contains_byte
split-append [] rest sep h = ground arith
split-append (a ∷ p) rest sep h = ground (arith, split-append p rest sep)
