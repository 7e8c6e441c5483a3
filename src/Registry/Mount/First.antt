-- ===== src/Registry/Mount/First.antt =====
-- internal/registry/mount.go: the pair of positions that FindDuplicateTarget reports.
use decloud.Base.{
  ℕ, suc, ◌+◌, ◌<◌, ◌≡◌, refl, Str, some, List, [], ◌∷◌, arith, get_elem?, str_eq, str_eq_iff,
  Bool-cases, Option-cases, inl, inr,
}
use native.Mathlib.Nat.{zero-add}
use decloud.Registry.Types.{Mount}
use decloud.Registry.Mount.{seen_at, duplicate_from, find_duplicate_target}

-- The mount at a position has this target.
abbrev pub TargetAt : List Mount → ℕ → Str → Type 0
TargetAt ms i path = (m : Mount) × (get_elem? ms i ≡ some m) × (m.container_path ≡ path)

-- What the loop knows: the entries of `seen` are positions before `i`, and `rest` is what follows.
record Scanned (whole rest : List Mount) (i : ℕ) (seen : List (Str × ℕ)) : Type 0 where
  behind : (path : Str) (k : ℕ) → seen_at path seen ≡ some k → (k < i) × TargetAt whole k path
  ahead : (k : ℕ) → get_elem? whole (i + k) ≡ get_elem? rest k

module _ (whole : List Mount) where
  at_head :
      (m : Mount) (rest : List Mount) (i : ℕ) (seen : List (Str × ℕ))
      → Scanned whole (m ∷ rest) i seen
      → get_elem? whole i ≡ some m
  at_head m rest i seen s = let e : i + 0 ≡ i = omega arith in rw e at (s.ahead 0)

  Scanned-behind :
      (m : Mount) (rest : List Mount) (i : ℕ) (seen : List (Str × ℕ))
      → Scanned whole (m ∷ rest) i seen
      → (path : Str) (k : ℕ) → seen_at path ((m.container_path, i) ∷ seen) ≡ some k
      → (k < i + 1) × TargetAt whole k path
  unfolding seen_at
  Scanned-behind m rest i seen s path k h = elim (Bool-cases (str_eq m.container_path path)) [
    | inl e ↦
        let same : i ≡ k = ground arith in
        (omega arith, (m, rw (← same) (at_head m rest i seen s), (str_eq_iff _ path).0 e))
    | inr e ↦ let old = s.behind path k (ground arith) in (omega (arith, old.0), old.1)
  ]

  Scanned-step :
      (m : Mount) (rest : List Mount) (i : ℕ) (seen : List (Str × ℕ))
      → Scanned whole (m ∷ rest) i seen
      → Scanned whole rest (i + 1) ((m.container_path, i) ∷ seen)
  Scanned-step m rest i seen s = record {
    behind = Scanned-behind m rest i seen s;
    ahead = λ k. let e : i + 1 + k ≡ i + suc k = omega arith in rw e (s.ahead (suc k));
  }

  duplicate_from-some :
      (ms : List Mount) (i : ℕ) (seen : List (Str × ℕ)) (a b : ℕ)
      → Scanned whole ms i seen
      → duplicate_from ms i seen ≡ some (a, b)
      → (a < b) × (path : Str) × TargetAt whole a path × TargetAt whole b path
  unfolding duplicate_from
  duplicate_from-some [] i seen a b s h = cc
  duplicate_from-some (m ∷ ms) i seen a b s h =
      elim (Option-cases (seen_at m.container_path seen)) [
        | inl e ↦
            duplicate_from-some ms (i + 1) ((m.container_path, i) ∷ seen) a b
              (Scanned-step m ms i seen s) (ground arith)
        | inr (k, e) ↦
            let first : k ≡ a = ground arith in
            let second : i ≡ b = ground arith in
            let old = s.behind m.container_path k e in
            rw (← first, ← second)
              (old.0, m.container_path, old.1, (m, at_head m ms i seen s, refl))
      ]

-- If FindDuplicateTarget reports two positions, the first lies before the second, and the mounts at
-- both have one and the same target.
find_duplicate_target-some :
    (ms : List Mount) {i j : ℕ}
    → find_duplicate_target ms ≡ some (i, j)
    → (i < j) × (path : Str) × TargetAt ms i path × TargetAt ms j path
unfolding find_duplicate_target seen_at
find_duplicate_target-some ms {i} {j} h =
    duplicate_from-some ms ms 0 [] i j
      (record { behind = λ path k e. cc; ahead = λ k. rw zero-add }) h
