-- ===== src/Envcap/Laws.antt =====
-- internal/envcap/capture.go: the dump is read back as it was printed, and the difference holds
-- what the script set.
use mathlib.Core.List.{append_assoc, append-nil}
use decloud.Base.{
  ℕ, ◌≡◌, refl, Str, false, none, some, List, [], ◌∷◌, ◌++◌, arith, if◌then◌else◌, str_eq,
  str_eq_iff, contains_byte, split, split-append,
}
use decloud.Registry.Types.{Env}
use decloud.Envcap.Dump.{
  lookup, insert, cut_at_eq, add_record, add_records, parse_null_delimited, is_bash_internal,
  same_as, diff_from, diff_env,
}

-- printf "%s=%s\0" for each variable
unfoldable pub dump : Env → Str
dump [] = []
dump ((k, v) ∷ env) = k ++ (b'=' ∷ (v ++ (0 ∷ dump env)))

abbrev pub DistinctKeys : Env → Type 0
DistinctKeys [] = Unit
DistinctKeys ((k, v) ∷ env) = (lookup k env ≡ none) × DistinctKeys env

-- A shell variable: no `=` and no NUL in its name, no NUL in its value.
abbrev pub IsPrintable : Env → Type 0
IsPrintable [] = Unit
IsPrintable ((k, v) ∷ env) =
    (contains_byte b'=' k ≡ false)
    × (contains_byte 0 k ≡ false)
    × (contains_byte 0 v ≡ false)
    × IsPrintable env

contains_byte-append :
    (b : ℕ) (s t : Str)
    → contains_byte b s ≡ false
    → contains_byte b t ≡ false
    → contains_byte b (s ++ t) ≡ false
unfolding contains_byte
contains_byte-append b [] t h k = k
contains_byte-append b (a ∷ s) t h k = ground (arith, contains_byte-append b s t)

cut_at_eq-record :
    (k v : Str) → contains_byte b'=' k ≡ false → cut_at_eq (k ++ (b'=' ∷ v)) ≡ some (k, v)
unfolding cut_at_eq contains_byte
cut_at_eq-record [] v h = refl
cut_at_eq-record (a ∷ k) v h = ground (arith, cut_at_eq-record k v)

lookup-insert :
    (j k v : Str) (m : Env) → lookup j (insert k v m) ≡ (if str_eq k j then some v else lookup j m)
unfolding lookup insert
lookup-insert j k v [] = refl
lookup-insert j k v ((i, w) ∷ m) =
    ground (arith, lookup-insert j k v m, str_eq_iff i k, str_eq_iff i j, str_eq_iff k j)

insert-append : (k v : Str) (m : Env) → lookup k m ≡ none → insert k v m ≡ m ++ (k, v) ∷ []
unfolding lookup insert
insert-append k v [] h = refl
insert-append k v ((i, w) ∷ m) h = ground (arith, insert-append k v m)

lookup-append_none : (j : Str) (m n : Env) → lookup j m ≡ none → lookup j (m ++ n) ≡ lookup j n
unfolding lookup
lookup-append_none j [] n h = refl
lookup-append_none j ((i, w) ∷ m) n h = ground (arith, lookup-append_none j m n)

pub lookup-diff_from :
    (k : Str) (baseline full out : Env)
    → DistinctKeys full
    → lookup k (diff_from baseline full out) ≡ elim (lookup k full) [
      | none ↦ lookup k out
      | some v ↦
          if is_bash_internal k
          then lookup k out
          else if same_as (lookup k baseline) v
          then lookup k out
          else some v
    ]
unfolding diff_from lookup
lookup-diff_from k baseline [] out h = refl
lookup-diff_from k baseline ((j, v) ∷ full) out h = ground (
  arith,
  lookup-diff_from k baseline full out h.1,
  lookup-diff_from k baseline full (insert j v out) h.1,
  lookup-insert k j v out,
  str_eq_iff j k,
)

-- For an environment with distinct keys, diffEnv gives a variable the value that it has after the
-- script, if it is no variable of bash itself and its value was not the same before; and no value
-- otherwise.
pub lookup-diff_env :
    (k : Str) (baseline full : Env)
    → DistinctKeys full
    → lookup k (diff_env baseline full) ≡ elim (lookup k full) [
      | none ↦ none
      | some v ↦
          if is_bash_internal k
          then none
          else if same_as (lookup k baseline) v
          then none
          else some v
    ]
unfolding diff_env lookup
lookup-diff_env k baseline full h = lookup-diff_from k baseline full [] h

lookup-append_some :
    (j k v : Str) (m n : Env)
    → lookup j (m ++ (k, v) ∷ n) ≡ none
    → (str_eq k j ≡ false) × (lookup j m ≡ none)
unfolding lookup
lookup-append_some j k v [] n h = ground arith
lookup-append_some j k v ((i, w) ∷ m) n h = ground (arith, lookup-append_some j k v m n)

DistinctKeys-front : (k v : Str) (m n : Env) → DistinctKeys (m ++ (k, v) ∷ n) → lookup k m ≡ none
unfolding lookup
DistinctKeys-front k v [] n h = refl
DistinctKeys-front k v ((i, w) ∷ m) n h = ground (
  arith,
  DistinctKeys-front k v m n h.1,
  lookup-append_some i k v m n h.0,
  str_eq_iff i k,
  str_eq_iff k i,
)

add_record-append :
    (k v : Str) (out : Env)
    → contains_byte b'=' k ≡ false
    → lookup k out ≡ none
    → add_record (k ++ (b'=' ∷ v)) out ≡ out ++ (k, v) ∷ []
unfolding add_record
add_record-append k v out p h = rw (cut_at_eq-record k v p, add_record) (insert-append k v out h)

record_lacks :
    (k v : Str)
    → contains_byte 0 k ≡ false
    → contains_byte 0 v ≡ false
    → contains_byte 0 (k ++ (b'=' ∷ v)) ≡ false
record_lacks k v h i = contains_byte-append 0 k (b'=' ∷ v) h (unfold contains_byte in i)

add_records-cons :
    (r : Str) (rs : List Str) (out : Env)
    → add_records (r ∷ rs) out ≡ add_records rs (add_record r out)
unfolding add_records
add_records-cons r rs out = refl

-- Every record of a dump goes behind what was read before it.
add_records-dump :
    (env out : Env)
    → IsPrintable env
    → DistinctKeys (out ++ env)
    → add_records (split (dump env) 0) out ≡ out ++ env
unfolding dump
add_records-dump [] out p d = unfold add_records add_record cut_at_eq split in rw append-nil
add_records-dump ((k, v) ∷ env) out p d = rw (
  ← append_assoc k (b'=' ∷ v) (0 ∷ dump env),
  split-append (k ++ (b'=' ∷ v)) (dump env) 0 (record_lacks k v p.1 p.2),
  add_records-cons,
  add_record-append k v out p.0 (DistinctKeys-front k v out env d),
  add_records-dump env (out ++ (k, v) ∷ []) p.3 (rw (append_assoc out ((k, v) ∷ []) env) d),
  append_assoc,
)

-- An environment with distinct keys, with no `=` in a name and no NUL anywhere, is read back from its
-- dump as it was.
pub parse_null_delimited-dump :
    (env : Env) → IsPrintable env → DistinctKeys env → parse_null_delimited (dump env) ≡ env
unfolding parse_null_delimited
parse_null_delimited-dump env p d = add_records-dump env [] p d
