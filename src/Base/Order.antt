-- ===== src/Base/Order.antt =====
-- The byte order of strings, and sorting by it: what `sort.Strings` promises.
use mathlib.Core.Path.{◌≡◌, refl}
use mathlib.Core.Logic.{◌⊎◌, inl, inr}
use mathlib.Core.Bool.{Bool, true, false}
use mathlib.Core.List.{List, [], ◌∷◌, Perm}
use mathlib.Core.List.Perm
use native.Mathlib.Omega.{arith}
use decloud.Base.Tests.{Bool-cases}
use decloud.Base.Text.{Str, str_leb}
use decloud.Base.Lists.{All, All-mono, Any, insert_sorted, sort, IsSorted}

pub str_leb_total : (s t : Str) → str_leb s t ≡ false → str_leb t s ≡ true
unfolding str_leb
str_leb_total [] t h = cc
str_leb_total (a ∷ s) [] h = refl
str_leb_total (a ∷ s) (b ∷ t) h = ground (arith, str_leb_total s t)

pub str_leb_trans : (s t u : Str) → str_leb s t ≡ true → str_leb t u ≡ true → str_leb s u ≡ true
unfolding str_leb
str_leb_trans [] t u h k = refl
str_leb_trans (a ∷ s) [] u h k = cc
str_leb_trans (a ∷ s) (b ∷ t) [] h k = cc
str_leb_trans (a ∷ s) (b ∷ t) (c ∷ u) h k = ground (arith, str_leb_trans s t u)

pub str_leb_antisymm : (s t : Str) → str_leb s t ≡ true → str_leb t s ≡ true → s ≡ t
unfolding str_leb
str_leb_antisymm [] [] h k = refl
str_leb_antisymm [] (b ∷ t) h k = cc
str_leb_antisymm (a ∷ s) [] h k = cc
str_leb_antisymm (a ∷ s) (b ∷ t) h k = ground (arith, str_leb_antisymm s t)

module _ {ℓ} {A : Type ℓ} (leb : A → A → Bool) where
  insert_sorted-All :
      (P : A → Type 0) (x : A) (ys : List A) → P x → All P ys → All P (insert_sorted leb x ys)
  unfolding insert_sorted
  insert_sorted-All P x [] p h = (p, tt)
  insert_sorted-All P x (y ∷ ys) p h = ground (arith, insert_sorted-All P x ys p h.1)

  pub sort-All : (P : A → Type 0) (xs : List A) → All P xs → All P (sort leb xs)
  unfolding sort
  sort-All P [] h = tt
  sort-All P (x ∷ xs) h = insert_sorted-All P x (sort leb xs) h.0 (sort-All P xs h.1)

module _ {ℓ} {A : Type ℓ} (leb : A → A → Bool) (P : A → Type 0) where
  insert_sorted-Any : (x : A) (ys : List A) → P x ⊎ Any P ys → Any P (insert_sorted leb x ys)
  unfolding insert_sorted
  insert_sorted-Any x [] h = h
  insert_sorted-Any x (y ∷ ys) h = elim (Bool-cases (leb x y)) [
    | inl e ↦ rw e h
    | inr e ↦ rw e (elim h [
      | inl p ↦ inr (insert_sorted-Any x ys (inl p))
      | inr (inl q) ↦ inl q
      | inr (inr r) ↦ inr (insert_sorted-Any x ys (inr r))
    ])
  ]

  pub sort-Any : (xs : List A) → Any P xs → Any P (sort leb xs)
  unfolding sort
  sort-Any [] h = h
  sort-Any (x ∷ xs) (inl p) = insert_sorted-Any x (sort leb xs) (inl p)
  sort-Any (x ∷ xs) (inr h) = insert_sorted-Any x (sort leb xs) (inr (sort-Any xs h))

module _ {ℓ} {A : Type ℓ} (leb : A → A → Bool)
    (total : (x y : A) → leb x y ≡ false → leb y x ≡ true)
    (trans : (x y z : A) → leb x y ≡ true → leb y z ≡ true → leb x z ≡ true) where
  insert_sorted-IsSorted :
      (x : A) (ys : List A) → IsSorted leb ys → IsSorted leb (insert_sorted leb x ys)
  unfolding insert_sorted
  insert_sorted-IsSorted x [] h = (tt, tt)
  insert_sorted-IsSorted x (y ∷ ys) h = elim (Bool-cases (leb x y)) [
    | inl e ↦ rw e (
      (e, All-mono (λ z. leb y z ≡ true) (λ z. leb x z ≡ true) ys (λ z p. trans x y z e p) h.0),
      h,
    )
    | inr e ↦ rw e (
      insert_sorted-All leb (λ z. leb y z ≡ true) x ys (total x y e) h.0,
      insert_sorted-IsSorted x ys h.1,
    )
  ]

  pub sort-IsSorted : (xs : List A) → IsSorted leb (sort leb xs)
  unfolding sort
  sort-IsSorted [] = tt
  sort-IsSorted (x ∷ xs) = insert_sorted-IsSorted x (sort leb xs) (sort-IsSorted xs)

  module _ (antisymm : (x y : A) → leb x y ≡ true → leb y x ≡ true → x ≡ y) where
    pub insert_sorted_comm :
        (x y : A) (l : List A)
        → insert_sorted leb x (insert_sorted leb y l) ≡ insert_sorted leb y (insert_sorted leb x l)
    unfolding insert_sorted
    insert_sorted_comm x y [] = ground (arith, total x y, antisymm x y)
    insert_sorted_comm x y (z ∷ l) = ground (
      arith,
      total x y,
      antisymm x y,
      trans x y z,
      trans y x z,
      total x z,
      total y z,
      insert_sorted_comm x y l,
    )

module _ {ℓ} {A : Type ℓ} (leb : A → A → Bool) where
  insert_sorted-perm : (x : A) (ys : List A) → Perm (insert_sorted leb x ys) (x ∷ ys)
  unfolding insert_sorted
  insert_sorted-perm x [] = Perm.refl (x ∷ [])
  insert_sorted-perm x (y ∷ ys) = elim (Bool-cases (leb x y)) [
    | inl e ↦ rw e (Perm.refl (x ∷ y ∷ ys))
    | inr e ↦ rw e (Perm.trans (Perm.cons y (insert_sorted-perm x ys)) (Perm.swap x y ys))
  ]

  pub sort-perm : (xs : List A) → Perm (sort leb xs) xs
  unfolding sort
  sort-perm [] = Perm.refl []
  sort-perm (x ∷ xs) = Perm.trans (insert_sorted-perm x (sort leb xs)) (Perm.cons x (sort-perm xs))
