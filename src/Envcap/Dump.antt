-- ===== src/Envcap/Dump.antt =====
-- internal/envcap/capture.go: reading the dump `name=value\0…` that the hermetic shell prints, and
-- the difference of two dumps.
use decloud.Base.{
  Str, codes, Bool, false, ◌||◌, Option, none, some, List, [], ◌∷◌, ◌==◌, if◌then◌else◌, str_eq,
  has_prefix, split,
}
use decloud.Registry.Types.{Env}

-- m[k], with the `ok` of a map read.
unfoldable pub lookup : Str → Env → Option Str
unfolding str_eq
lookup k [] = none
lookup k ((j, v) ∷ m) = if str_eq j k then some v else lookup k m

-- m[k] = v
unfoldable pub insert : Str → Str → Env → Env
unfolding str_eq
insert k v [] = (k, v) ∷ []
insert k v ((j, w) ∷ m) = if str_eq j k then (k, v) ∷ m else (j, w) ∷ insert k v m

-- rec[:eq] and rec[eq+1:] at the first `=`, or none where IndexByte is -1.
unfoldable pub cut_at_eq : Str → Option (Str × Str)
cut_at_eq [] = none
cut_at_eq (c ∷ s) =
    let rest : Option (Str × Str) = elim (cut_at_eq s) [
      | none ↦ none
      | some (k, v) ↦ some (c ∷ k, v)
    ] in
    if c == b'=' then some ([], s) else rest

-- One round of the loop of parseNullDelimited. An empty record has no `=`.
unfoldable pub add_record : Str → Env → Env
add_record rec out = elim (cut_at_eq rec) [ none ↦ out | some (k, v) ↦ insert k v out ]

unfoldable pub add_records : List Str → Env → Env
add_records [] out = out
add_records (rec ∷ recs) out = add_records recs (add_record rec out)

-- parseNullDelimited
unfoldable pub parse_null_delimited : Str → Env
parse_null_delimited bytes = add_records (split bytes 0) []

unfoldable pub any_eq : Str → List Str → Bool
unfolding str_eq
any_eq k [] = false
any_eq k (n ∷ ns) = str_eq k n || any_eq k ns

abbrev internal_names : List Str
internal_names =
    codes "_"
    ∷ codes "PWD"
    ∷ codes "OLDPWD"
    ∷ codes "SHLVL"
    ∷ codes "BASH"
    ∷ codes "BASH_VERSION"
    ∷ codes "BASH_VERSINFO"
    ∷ codes "PATH"
    ∷ codes "HOME"
    ∷ codes "IFS"
    ∷ codes "PS1"
    ∷ codes "PS2"
    ∷ codes "PS4"
    ∷ codes "UID"
    ∷ codes "EUID"
    ∷ codes "PPID"
    ∷ codes "HOSTNAME"
    ∷ codes "HOSTTYPE"
    ∷ codes "MACHTYPE"
    ∷ codes "OSTYPE"
    ∷ codes "TERM"
    ∷ codes "LANG"
    ∷ codes "SHELL"
    ∷ codes "LOGNAME"
    ∷ codes "USER"
    ∷ []

-- isBashInternal
unfoldable pub is_bash_internal : Str → Bool
unfolding has_prefix any_eq
is_bash_internal k = has_prefix k (codes "BASH_FUNC_") || any_eq k internal_names

-- bv, ok := baseline[k]; ok && bv == v
unfoldable pub same_as : Option Str → Str → Bool
unfolding str_eq
same_as none v = false
same_as (some bv) v = str_eq bv v

-- The loop of diffEnv.
unfoldable pub diff_from : Env → Env → Env → Env
diff_from baseline [] out = out
diff_from baseline ((k, v) ∷ full) out = diff_from baseline full (
    if is_bash_internal k
    then out
    else if same_as (lookup k baseline) v
    then out
    else insert k v out)

-- diffEnv
unfoldable pub diff_env : Env → Env → Env
diff_env baseline full = diff_from baseline full []
