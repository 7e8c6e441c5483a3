-- ===== src/Deploy/Mounts.antt =====
-- A `--mount` flag on its way: ParseMountString of internal/registry/mount.go, toVolumeMounts of
-- internal/deploy/service.go and formatVolume of internal/dockerdrv/cli_driver.go.
use mathlib.Core.List.{append_assoc}
use decloud.Base.{
  ℕ, ◌≢◌, if◌then◌else◌, Bool-cases, inl, inr, ◌≡◌, refl, Str, codes, true, false, none, List, [],
  ◌∷◌, ◌++◌, arith, contains_byte, split, join, join-split, split_lacking, split-append, str_eq,
  str_eq_iff,
}
use decloud.Errors.{ok}
use decloud.Registry.Types.{Mount}
use decloud.Registry.Mount.{validate_mount, parse_mount_string, mount_of_parts, checked}
use decloud.Docker.Args.{format_volume}
use decloud.Deploy.Requests.{to_volume_mount}

nonempty : (s t : Str) (c : ℕ) → s ++ (c ∷ t) ≢ []
nonempty [] t c h = cc
nonempty (a ∷ s) t c h = cc

parse_nonempty : (raw : Str) → raw ≢ [] → parse_mount_string raw ≡ mount_of_parts (split raw b':')
unfolding parse_mount_string
parse_nonempty [] h = absurd (h refl)
parse_nonempty (c ∷ raw) h = refl

-- The flag of a mount, split at its colons.
flag_parts : Mount → List Str
flag_parts m =
    if m.read_only
    then m.host_path ∷ m.container_path ∷ codes "ro" ∷ []
    else m.host_path ∷ m.container_path ∷ []

module _ (m : Mount) (h : contains_byte b':' m.host_path ≡ false)
    (c : contains_byte b':' m.container_path ≡ false) where
  split-format : split (format_volume (to_volume_mount m)) b':' ≡ flag_parts m
  unfolding format_volume to_volume_mount flag_parts contains_byte
  split-format = elim (Bool-cases m.read_only) [
    | inl r ↦ rw r (
        rw (
          append_assoc,
          split-append m.host_path _ b':' h,
          split-append m.container_path _ b':' c,
          split_lacking (codes "ro") b':' refl,
        ))
    | inr r ↦ rw r (rw (split-append m.host_path _ b':' h, split_lacking m.container_path b':' c))
  ]

  parts-mount : validate_mount m ≡ none → mount_of_parts (flag_parts m) ≡ ok m
  unfolding flag_parts mount_of_parts checked str_eq
  parts-mount v = ground arith

  format-nonempty : format_volume (to_volume_mount m) ≢ []
  unfolding format_volume to_volume_mount
  format-nonempty = elim (Bool-cases m.read_only) [
    | inl r ↦ rw r (rw append_assoc (nonempty m.host_path _ b':'))
    | inr r ↦ rw r (nonempty m.host_path m.container_path b':')
  ]

  -- A valid mount without a colon in its two paths is read back from the -v flag that is made for it.
  pub parse_mount_string-format :
      validate_mount m ≡ none → parse_mount_string (format_volume (to_volume_mount m)) ≡ ok m
  parse_mount_string-format v = rw (parse_nonempty _ format-nonempty, split-format) (parts-mount v)

mount_of_parts_sound :
    (ps : List Str) (m : Mount)
    → mount_of_parts ps ≡ ok m
    → (format_volume (to_volume_mount m) ≡ join ps b':') × (validate_mount m ≡ none)
unfolding mount_of_parts checked format_volume to_volume_mount join
mount_of_parts_sound [] m h = cc
mount_of_parts_sound (a ∷ []) m h = cc
mount_of_parts_sound (a ∷ b ∷ []) m h = ground arith
mount_of_parts_sound (a ∷ b ∷ c ∷ []) m h =
    ground (arith, str_eq_iff c (codes "ro"), append_assoc a (b':' ∷ b) (codes ":ro"))
mount_of_parts_sound (a ∷ b ∷ c ∷ e ∷ ps) m h = cc

-- A --mount string that is accepted is the -v flag of the mount that it was read as, and that mount is
-- valid.
pub parse_mount_string_sound :
    (raw : Str) (m : Mount)
    → parse_mount_string raw ≡ ok m
    → (format_volume (to_volume_mount m) ≡ raw) × (validate_mount m ≡ none)
unfolding parse_mount_string
parse_mount_string_sound [] m h = cc
parse_mount_string_sound (c ∷ raw) m h =
    rw (← join-split (c ∷ raw) b':') (mount_of_parts_sound (split (c ∷ raw) b':') m h)

-- For every valid read-only mount, the writable mount whose container path ends in ":ro" is valid too,
-- and docker is given the same -v flag for both.
pub format_volume_ambiguous :
    (host target : Str)
    → validate_mount (record { host_path = host; container_path = target; read_only = true }) ≡ none
    → let plain : Mount = record {
      host_path = host;
      container_path = target ++ codes ":ro";
      read_only = false;
    } in
      (validate_mount plain ≡ none)
      × (format_volume (to_volume_mount plain)
          ≡ format_volume (
              to_volume_mount
                (record { host_path = host; container_path = target; read_only = true })))
unfolding format_volume to_volume_mount
format_volume_ambiguous host [] v = absurd (unfold validate_mount in ground arith)
format_volume_ambiguous host (c ∷ target) v =
    (unfold validate_mount in ground arith, rw append_assoc)
