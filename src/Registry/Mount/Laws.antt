-- ===== src/Registry/Mount/Laws.antt =====
-- internal/registry/mount.go: what the validation and the search for duplicates decide.
use decloud.Base.{
  ℕ, ◌+◌, ◌≡◌, ◌≢◌, ◌↔◌, ◌⊎◌, refl, Str, true, none, List, [], ◌∷◌, arith, All, All-mono,
  str_eq_iff, has_prefix,
}
use decloud.Registry.Types.{Mount}
use decloud.Registry.Mount.{
  seen_at, duplicate_from, find_duplicate_target, validate_mount, validate_each, validate_mounts,
  volume_name_re,
}

-- No two mounts have one target.
abbrev pub Distinct : List Mount → Type 0
Distinct [] = Unit
Distinct (m ∷ ms) = All (λ n. m.container_path ≢ n.container_path) ms × Distinct ms

-- The grammar of a mount: an absolute target, and a source that is an absolute path or the name of
-- a volume.
abbrev pub IsWellFormed : Mount → Type 0
IsWellFormed m =
    ((t : Str) × (m.container_path ≡ b'/' ∷ t))
    × (((s : Str) × (m.host_path ≡ b'/' ∷ s)) ⊎ (volume_name_re m.host_path ≡ true))

absolute_iff : (p : Str) → (has_prefix p (b'/' ∷ []) ≡ true) ↔ ((t : Str) × (p ≡ b'/' ∷ t))
unfolding has_prefix
absolute_iff [] = (λ h. cc, λ (t, e). cc)
absolute_iff (c ∷ p) = (λ h. (p, ground arith), λ (t, e). ground arith)

pub validate_mount_iff : (m : Mount) → (validate_mount m ≡ none) ↔ IsWellFormed m
unfolding validate_mount
validate_mount_iff m = ground (
  arith,
  absolute_iff m.container_path,
  absolute_iff m.host_path,
  str_eq_iff m.container_path [],
  str_eq_iff m.host_path [],
)

seen_at-cons :
    (p q : Str) (i : ℕ) (seen : List (Str × ℕ))
    → seen_at p ((q, i) ∷ seen) ≡ none
    → (q ≢ p) × (seen_at p seen ≡ none)
unfolding seen_at
seen_at-cons p q i seen h = ground (arith, str_eq_iff q p)

-- The loop finds nothing exactly if the rest is distinct, also from what it has seen.
duplicate_from-none :
    (ms : List Mount) (i : ℕ) (seen : List (Str × ℕ))
    → duplicate_from ms i seen ≡ none
    → Distinct ms × All (λ m. seen_at m.container_path seen ≡ none) ms
unfolding duplicate_from
duplicate_from-none [] i seen h = (tt, tt)
duplicate_from-none (m ∷ ms) i seen h =
    let ih = duplicate_from-none ms (i + 1) ((m.container_path, i) ∷ seen) (ground arith) in
    let split = All-mono _ _ ms (λ n. seen_at-cons n.container_path m.container_path i seen) ih.1 in
    ((All-mono _ _ ms (λ n p. p.0) split, ih.0), (ground arith, All-mono _ _ ms (λ n p. p.1) split))

seen_at-cons_ne :
    (p q : Str) (i : ℕ) (seen : List (Str × ℕ))
    → q ≢ p
    → seen_at p seen ≡ none
    → seen_at p ((q, i) ∷ seen) ≡ none
unfolding seen_at
seen_at-cons_ne p q i seen h = ground (arith, str_eq_iff q p)

All-both {ℓ κ μ} :
    {A : Type ℓ} (P : A → Type κ) (Q : A → Type μ) (xs : List A)
    → All P xs
    → All Q xs
    → All (λ x. P x × Q x) xs
All-both P Q [] h k = tt
All-both P Q (x ∷ xs) h k = ((h.0, k.0), All-both P Q xs h.1 k.1)

duplicate_from-Distinct :
    (ms : List Mount) (i : ℕ) (seen : List (Str × ℕ))
    → Distinct ms
    → All (λ m. seen_at m.container_path seen ≡ none) ms
    → duplicate_from ms i seen ≡ none
unfolding duplicate_from
duplicate_from-Distinct [] i seen h k = refl
duplicate_from-Distinct (m ∷ ms) i seen h k =
    let fresh =
      All-mono _ _ ms (λ n p. seen_at-cons_ne n.container_path m.container_path i seen p.0 p.1)
        (All-both (λ n. m.container_path ≢ n.container_path)
          (λ n. seen_at n.container_path seen ≡ none) ms h.0 k.1) in
    ground (arith, duplicate_from-Distinct ms (i + 1) ((m.container_path, i) ∷ seen) h.1 fresh)

All-true {ℓ} : {A : Type ℓ} (P : A → Type 0) (xs : List A) → ((x : A) → P x) → All P xs
All-true P [] f = tt
All-true P (x ∷ xs) f = (f x, All-true P xs f)

-- FindDuplicateTarget finds nothing exactly if no two mounts have one container path.
pub find_duplicate_target-none : (ms : List Mount) → (find_duplicate_target ms ≡ none) ↔ Distinct ms
unfolding find_duplicate_target seen_at
find_duplicate_target-none ms = (
  λ h. (duplicate_from-none ms 0 [] h).0,
  λ h. duplicate_from-Distinct ms 0 [] h (All-true _ ms (λ m. refl)),
)

validate_each_iff :
    (ms : List Mount) (i : ℕ) (name path : Str)
    → (validate_each ms i name path ≡ none) ↔ All IsWellFormed ms
unfolding validate_each
validate_each_iff [] i name path = (λ _. tt, λ _. refl)
validate_each_iff (m ∷ ms) i name path =
    ground (arith, validate_mount_iff m, validate_each_iff ms (i + 1) name path)

-- ValidateMounts accepts exactly the lists in which every mount is well-formed and no two mounts have
-- one container path.
pub validate_mounts_iff :
    (ms : List Mount) (name path : Str)
    → (validate_mounts ms name path ≡ none) ↔ (All IsWellFormed ms × Distinct ms)
unfolding validate_mounts
validate_mounts_iff ms name path =
    ground (arith, validate_each_iff ms 0 name path, find_duplicate_target-none ms)
