-- ===== src/Docker/Args/Order.antt =====
-- internal/dockerdrv/cli_driver.go: Go ranges over a map in no fixed order, and docker is called with
-- the same arguments whatever that order was.
use mathlib.Core.List.{Perm, Permᴰ}
use decloud.Base.{
  ◌≡◌, refl, sym, subst, ◌∙◌, ap, Str, none, some, List, [], ◌∷◌, ◌++◌, arith, str_eq_iff, str_leb,
  sort, codes,
}
use decloud.Base.Order.{str_leb_total, str_leb_trans, str_leb_antisymm, insert_sorted_comm}
use mathlib.Core.Logic.{∥∥₁_elim}
use decloud.Registry.Types.{Env}
use decloud.Docker.Types.{RunRequest}
use decloud.Docker.Args.{
  get_or_empty, keys, flag_each, sorted_flags, run_head, volume_flags, run_args, check_service,
}
use decloud.Envcap.Dump.{lookup}
use decloud.Envcap.Laws.{DistinctKeys}

sort-Permᴰ : {xs ys : List Str} → Permᴰ xs ys → sort str_leb xs ≡ sort str_leb ys
unfolding sort
sort-Permᴰ Permᴰ.nil = refl
sort-Permᴰ (Permᴰ.cons e p) = cc (e, sort-Permᴰ p)
sort-Permᴰ (Permᴰ.swap {a = a} {b = b} {l = l} e f) = cc (
  e,
  f,
  insert_sorted_comm str_leb str_leb_total str_leb_trans str_leb_antisymm a b (sort str_leb l),
)
sort-Permᴰ (Permᴰ.trans p q) = sort-Permᴰ p ∙ sort-Permᴰ q

keys-Permᴰ : {m n : Env} → Permᴰ m n → Permᴰ (keys m) (keys n)
keys-Permᴰ Permᴰ.nil = Permᴰ.nil
keys-Permᴰ (Permᴰ.cons e p) = Permᴰ.cons (ap (λ x. x.0) e) (keys-Permᴰ p)
keys-Permᴰ (Permᴰ.swap e f) = Permᴰ.swap (ap (λ x. x.0) e) (ap (λ x. x.0) f)
keys-Permᴰ (Permᴰ.trans p q) = Permᴰ.trans (keys-Permᴰ p) (keys-Permᴰ q)

-- Two orders of one map have the same values.
abbrev Same : Env → Env → Type 0
Same m n = DistinctKeys n × ((k : Str) → lookup k m ≡ lookup k n)

swapped : (a b : Str × Str) (l : Env) → DistinctKeys (a ∷ b ∷ l) → Same (a ∷ b ∷ l) (b ∷ a ∷ l)
unfolding lookup
swapped a b l d = (
  (ground (arith, str_eq_iff a.0 b.0, str_eq_iff b.0 a.0), (ground arith, d.1.1)),
  λ k. ground (arith, str_eq_iff a.0 b.0, str_eq_iff b.0 a.0, str_eq_iff a.0 k, str_eq_iff b.0 k),
)

lookup-Permᴰ : {m n : Env} → Permᴰ m n → DistinctKeys m → Same m n
unfolding lookup
lookup-Permᴰ Permᴰ.nil d = (tt, λ k. refl)
lookup-Permᴰ (Permᴰ.cons {a = a} {b = b} e p) d =
    let (dn, same) = lookup-Permᴰ p d.1 in
    ((rw (← e) (sym (same a.0) ∙ d.0), dn), λ k. rw e (ground (arith, same k)))
lookup-Permᴰ (Permᴰ.swap {a = a} {b = b} {a' = a'} {b' = b'} {l = l} e f) d =
    subst (λ z. Same (a ∷ b ∷ l) (z ∷ b' ∷ l)) f
      (subst (λ z. Same (a ∷ b ∷ l) (b ∷ z ∷ l)) e (swapped a b l d))
lookup-Permᴰ (Permᴰ.trans p q) d =
    let (d1, same1) = lookup-Permᴰ p d in
    let (d2, same2) = lookup-Permᴰ q d1 in (d2, λ k. same1 k ∙ same2 k)

get_or_empty-lookup :
    (k : Str) (m : Env) → get_or_empty k m ≡ elim (lookup k m) [ none ↦ [] | some v ↦ v ]
unfolding get_or_empty lookup
get_or_empty-lookup k [] = refl
get_or_empty-lookup k ((j, v) ∷ m) = ground (arith, get_or_empty-lookup k m)

flag_each-Same :
    (flag : Str) (m n : Env) (ks : List Str)
    → ((k : Str) → lookup k m ≡ lookup k n)
    → flag_each flag m ks ≡ flag_each flag n ks
unfolding flag_each
flag_each-Same flag m n [] same = refl
flag_each-Same flag m n (k ∷ ks) same =
    cc (get_or_empty-lookup k m, get_or_empty-lookup k n, same k, flag_each-Same flag m n ks same)

sorted_flags-Permᴰ :
    (flag : Str) {m n : Env}
    → Permᴰ m n
    → DistinctKeys m
    → sorted_flags flag m ≡ sorted_flags flag n
unfolding sorted_flags
sorted_flags-Permᴰ flag {m} {n} p d =
    flag_each-Same flag m n (sort str_leb (keys m)) (lookup-Permᴰ p d).1
    ∙ ap (flag_each flag n) (sort-Permᴰ (keys-Permᴰ p))

sorted_flags-Perm :
    (flag : Str) {m n : Env} → Perm m n → DistinctKeys m → sorted_flags flag m ≡ sorted_flags flag n
sorted_flags-Perm flag {m} {n} p d =
    let flags_IsSet : IsSet (List Str) = hlevel in
    ∥∥₁_elim p (flags_IsSet (sorted_flags flag m) (sorted_flags flag n))
      (λ q. sorted_flags-Permᴰ flag q d)

-- Run calls docker with the same arguments, or refuses the service's name alike, whatever the order in
-- which the map of the environment, whose keys are distinct, gives its entries.
pub run_args-Perm :
    (req : RunRequest) (env : Env)
    → Perm req.env env
    → DistinctKeys req.env
    → run_args req ≡ run_args (record req { env = env })
unfolding run_args
run_args-Perm req env p d =
    ap
      (λ flags. check_service req.service (
        run_head req.name req.network req.restart req.service
        ++ (flags
            ++ (volume_flags req.volumes
                ++ (codes "--label"
                    ∷ (codes "decloud.service=" ++ req.service)
                    ∷ req.image
                    ∷ [])))))
      (sorted_flags-Perm (codes "--env") p d)
