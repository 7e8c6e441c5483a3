-- ===== src/Base/Suffix.antt =====
-- strings.HasSuffix and strings.TrimSuffix of a string that was appended.
use decloud.Base.{
  ◌≡◌, ◌≢◌, refl, Str, true, [], ◌∷◌, ◌++◌, arith, str_eq, str_eq_iff, str_eq_refl, has_suffix,
  trim_suffix,
}
use mathlib.Core.List.{append_cancel_right}

pub has_suffix-append : (s p : Str) → has_suffix (s ++ p) p ≡ true
unfolding has_suffix
has_suffix-append [] [] = unfold str_eq in refl
has_suffix-append [] (b ∷ p) = ground (arith, str_eq_refl (b ∷ p))
has_suffix-append (a ∷ s) p = ground (arith, has_suffix-append s p)

pub trim_suffix-append : (s p : Str) → p ≢ [] → trim_suffix (s ++ p) p ≡ s
unfolding trim_suffix
trim_suffix-append [] [] n = refl
trim_suffix-append [] (b ∷ p) n = ground (arith, str_eq_refl (b ∷ p))
trim_suffix-append (a ∷ s) p n =
    let longer : (a ∷ s) ++ p ≢ p = λ e. ground (arith, append_cancel_right (a ∷ s) [] p e) in
    ground (arith, trim_suffix-append s p n, longer, str_eq_iff ((a ∷ s) ++ p) p)
