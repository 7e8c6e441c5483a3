-- ===== src/Config/Laws.antt =====
-- internal/config/paths.go: where NewPaths puts the registry's directories.
use decloud.Base.{
  ◌≡◌, refl, sym, ap, ◌∙◌, Str, codes, Bool, false, ◌||◌, List, [], ◌∷◌, ◌++◌, All, All-append,
  arith, contains_byte, str_eq, str_eq_iff,
}
use mathlib.Core.List.{append_assoc, append_cancel_left}
use decloud.Base.Path.{join_all}
use decloud.Base.Path.Clean.{IsName, render, clean-render-append}
use decloud.Config.{new_paths, paths_under}
use decloud.Registry.Store.Layout.{IsLaidOut}
use decloud.Deploy.Caddyfile.{IsCaddyLaidOut}

abbrev is_not_name : Str → Bool
is_not_name s =
    contains_byte b'/' s || (str_eq s [] || (str_eq s (codes ".") || str_eq s (codes "..")))

pub is_not_name-IsName : (s : Str) → is_not_name s ≡ false → IsName s
is_not_name-IsName s h =
    ground (arith, str_eq_iff s [], str_eq_iff s (codes "."), str_eq_iff s (codes ".."))

pub join_all-render :
    (ps : List Str) (q : Str) (qs : List Str)
    → All IsName ps
    → All IsName (q ∷ qs)
    → join_all (render ps ∷ q ∷ qs) ≡ render (ps ++ (q ∷ qs))
unfolding join_all
join_all-render ps q qs h k =
    let rooted : str_eq (render ps) [] ≡ false = unfold render str_eq in refl in
    rw rooted (clean-render-append ps q qs h k)

config_name : IsName (codes "config")
config_name = is_not_name-IsName (codes "config") (unfold contains_byte str_eq in refl)

services_name : IsName (codes "services")
services_name = is_not_name-IsName (codes "services") (unfold contains_byte str_eq in refl)

secrets_name : IsName (codes "secrets")
secrets_name = is_not_name-IsName (codes "secrets") (unfold contains_byte str_eq in refl)

-- Under a root that is a clean absolute path, NewPaths gives the registry two directories of which
-- neither is inside the other.
pub new_paths-IsLaidOut :
    (R : List Str)
    → All IsName R
    → IsLaidOut
        (new_paths (render R))
        (R ++ codes "config" ∷ codes "services" ∷ [])
        (R ++ codes "secrets" ∷ [])
unfolding new_paths paths_under render str_eq
new_paths-IsLaidOut R h = record {
  services_at =
      join_all-render R (codes "config") (codes "services" ∷ []) h
        (config_name, (services_name, tt));
  secrets_at = join_all-render R (codes "secrets") [] h (secrets_name, tt);
  services_names =
      All-append IsName R (codes "config" ∷ codes "services" ∷ []) h
        (config_name, (services_name, tt));
  secrets_names = All-append IsName R (codes "secrets" ∷ []) h (secrets_name, tt);
  apart = λ x y e.
      let apart_below =
        append_cancel_left R ((codes "config" ∷ codes "services" ∷ []) ++ x)
          ((codes "secrets" ∷ []) ++ y)
          (sym (append_assoc R (codes "config" ∷ codes "services" ∷ []) x)
            ∙ e
            ∙ append_assoc R (codes "secrets" ∷ []) y) in
      ground (arith, apart_below);
}

caddy_name : IsName (codes "caddy")
caddy_name = is_not_name-IsName (codes "caddy") (unfold contains_byte str_eq in refl)

caddyfile_name : IsName (codes "Caddyfile")
caddyfile_name = is_not_name-IsName (codes "Caddyfile") (unfold contains_byte str_eq in refl)

-- The directory of the Caddyfile is apart from those of the registry.
pub new_paths-IsCaddyLaidOut :
    (R : List Str)
    → All IsName R
    → IsCaddyLaidOut
        (new_paths (render R))
        (R ++ codes "config" ∷ codes "services" ∷ [])
        (R ++ codes "secrets" ∷ [])
        (R ++ codes "config" ∷ codes "caddy" ∷ [])
unfolding new_paths paths_under render str_eq
new_paths-IsCaddyLaidOut R h =
    let C = codes "config" ∷ codes "caddy" ∷ [] in
    record {
      caddyfile_at =
          join_all-render R (codes "config") (codes "caddy" ∷ codes "Caddyfile" ∷ []) h
            (config_name, (caddy_name, (caddyfile_name, tt)))
          ∙ ap render (sym (append_assoc R C (codes "Caddyfile" ∷ [])));
      caddy_names = All-append IsName R C h (config_name, (caddy_name, tt));
      services_apart = λ x y e.
          let S = codes "config" ∷ codes "services" ∷ [] in
          let below =
            append_cancel_left R (C ++ x) (S ++ y)
              (sym (append_assoc R C x) ∙ e ∙ append_assoc R S y) in
          ground (arith, below);
      secrets_apart = λ x y e.
          let below =
            append_cancel_left R (C ++ x) ((codes "secrets" ∷ []) ++ y)
              (sym (append_assoc R C x) ∙ e ∙ append_assoc R (codes "secrets" ∷ []) y) in
          ground (arith, below);
    }
