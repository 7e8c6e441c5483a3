-- ===== src/Registry/Mount.antt =====
-- internal/registry/mount.go: the grammar of `--mount` and of the `mounts` of a registered service.
pub mod Laws
pub mod First
use decloud.Base.{
  ℕ, zero, suc, ◌+◌, pos, Str, codes, Bool, true, false, not, ◌&&◌, ◌||◌, Option, none, some, List,
  [], ◌∷◌, ◌==◌, leb, if◌then◌else◌, str_eq, has_prefix, split, length,
}
use decloud.Base.Path.{is_abs}
use decloud.Errors.{
  Error, errorf, sentinel, err_invalid_mount, end, lit, str, quoted, num, wrap, Result, ok, err,
}
use decloud.Registry.Types.{Mount}

-- m.HostPath != "" && !strings.HasPrefix(m.HostPath, "/")
unfoldable pub is_named : Mount → Bool
unfolding str_eq has_prefix
is_named m = not (str_eq m.host_path []) && not (has_prefix m.host_path (b'/' ∷ []))

is_alphanumeric : ℕ → Bool
is_alphanumeric c = leb b'a' c && leb c b'z' || leb b'A' c && leb c b'Z' || leb b'0' c && leb c b'9'

-- A byte of [a-zA-Z0-9_.-]
unfoldable pub is_volume_byte : ℕ → Bool
unfolding is_alphanumeric
is_volume_byte c = is_alphanumeric c || c == b'_' || c == b'.' || c == b'-'

unfoldable pub all_volume_bytes : Str → Bool
unfolding is_volume_byte
all_volume_bytes [] = true
all_volume_bytes (c ∷ s) = is_volume_byte c && all_volume_bytes s

-- ^[a-zA-Z0-9][a-zA-Z0-9_.-]+$
unfoldable pub volume_name_re : Str → Bool
unfolding is_alphanumeric all_volume_bytes
volume_name_re (c ∷ d ∷ s) = is_alphanumeric c && all_volume_bytes (d ∷ s)
volume_name_re _ = false

-- ValidateMount: `none` is the nil error.
unfoldable pub validate_mount : Mount → Option Error
unfolding volume_name_re is_abs str_eq has_prefix
validate_mount m =
    if str_eq m.host_path []
    then some (errorf (lit "source must be non-empty" end))
    else if str_eq m.container_path []
    then some (errorf (lit "container_path must be non-empty" end))
    else if not (is_abs m.container_path)
    then some (errorf (lit "container_path must be absolute, got " (quoted m.container_path end)))
    else if not (has_prefix m.host_path (b'/' ∷ [])) && not (volume_name_re m.host_path)
    then some (
        errorf (
          lit "named-volume source "
            (quoted m.host_path (lit " must match [a-zA-Z0-9][a-zA-Z0-9_.-]+" end))))
    else none

-- seen[path]
unfoldable pub seen_at : Str → List (Str × ℕ) → Option ℕ
unfolding str_eq
seen_at path [] = none
seen_at path ((p, i) ∷ seen) = if str_eq p path then some i else seen_at path seen

-- The loop of FindDuplicateTarget. A path enters `seen` once, so adding it in front is `seen[p] = i`.
unfoldable pub duplicate_from : List Mount → ℕ → List (Str × ℕ) → Option (ℕ × ℕ)
unfolding seen_at
duplicate_from [] i seen = none
duplicate_from (m ∷ ms) i seen =
    let rest = duplicate_from ms (i + 1) ((m.container_path, i) ∷ seen) in
    elim (seen_at m.container_path seen) [ none ↦ rest | some first ↦ some (first, i) ]

-- FindDuplicateTarget: `some (firstIdx, dupIdx)`, or `none` for found = false.
unfoldable pub find_duplicate_target : List Mount → Option (ℕ × ℕ)
unfolding duplicate_from
find_duplicate_target mounts = duplicate_from mounts 0 []

-- The loop of ValidateMounts.
unfoldable pub validate_each : List Mount → ℕ → Str → Str → Option Error
unfolding validate_mount
validate_each [] i name path = none
validate_each (m ∷ ms) i name path =
    let rest = validate_each ms (i + 1) name path in
    elim (validate_mount m) [
      | none ↦ rest
      | some e ↦ some (
          errorf (
            wrap (sentinel err_invalid_mount) (
              lit ": service " (
                quoted name
                  (lit " mount[" (num (pos i) (lit "] in " (str path (lit ": " (wrap e end))))))))))
    ]

pub target_at : List Mount → ℕ → Str
target_at [] i = []
target_at (m ∷ ms) zero = m.container_path
target_at (m ∷ ms) (suc i) = target_at ms i

-- ValidateMounts
unfoldable pub validate_mounts : List Mount → Str → Str → Option Error
unfolding validate_each find_duplicate_target target_at
validate_mounts mounts name path = elim (validate_each mounts 0 name path) [
  | some e ↦ some e
  | none ↦ elim (find_duplicate_target mounts) [
    | none ↦ none
    | some (first, dup) ↦ some (
        errorf (
          wrap (sentinel err_invalid_mount) (
            lit ": service " (
              quoted name (
                lit " mount[" (
                  num (pos dup) (
                    lit "] in " (
                      str path (
                        lit ": duplicate container_path " (
                          quoted (target_at mounts dup)
                            (lit " (also at mount[" (num (pos first) (lit "])" end)))))))))))))
  ]
]

-- The end of ParseMountString: the mount, if it is well formed.
unfoldable pub checked : Mount → Result Mount
unfolding validate_mount
checked m = elim (validate_mount m) [ none ↦ ok m | some e ↦ err e ]

-- The switch on len(parts) of ParseMountString.
unfoldable pub mount_of_parts : List Str → Result Mount
unfolding checked str_eq
mount_of_parts (src ∷ target ∷ []) =
    checked (record { host_path = src; container_path = target; read_only = false })
mount_of_parts (src ∷ target ∷ mode ∷ []) =
    if str_eq mode (codes "ro")
    then checked (record { host_path = src; container_path = target; read_only = true })
    else err (
        errorf (lit "unsupported mode flag " (quoted mode (lit " (only \"ro\" is supported)" end))))
mount_of_parts parts = err (
    errorf (
      lit "expected <source>:<target>[:ro], got "
        (num (pos (length parts)) (lit " component(s)" end))))

-- ParseMountString
unfoldable pub parse_mount_string : Str → Result Mount
unfolding mount_of_parts split
parse_mount_string [] = err (errorf (lit "empty" end))
parse_mount_string (c ∷ raw) = mount_of_parts (split (c ∷ raw) b':')
