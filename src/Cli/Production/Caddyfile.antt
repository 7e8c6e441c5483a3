-- ===== src/Cli/Production/Caddyfile.antt =====
-- internal/caddy/reloader.go over internal/config/paths.go: the paths that Deploy gives to the
-- reloader are inside the directory that the container sees.
use decloud.Base.{
  ◌≡◌, refl, sym, ap, ◌∙◌, inl, inr, Str, codes, List, [], ◌∷◌, ◌++◌, All, All-append, arith,
  contains_byte, str_eq,
}
use mathlib.Core.List.{append_assoc, append-nil, append_cancel_left}
use decloud.Base.Split.{join}
use decloud.Base.Path.Clean.{IsName, render}
use decloud.Errors.{Result, ok}
use decloud.Config.{new_paths, paths_under}
use decloud.Config.Laws.{is_not_name-IsName, join_all-render}
use decloud.Deploy.Interface.{Context, Driver, Done}
use decloud.Caddy.Reloader.{translate_path, exec_caddy, exec_options, replied}
use decloud.Caddy.Reloader.Laws.{container_names, translate_path-cases}

join-append_last :
    (ps : List Str) (q s : Str) → join (ps ++ q ∷ []) b'/' ++ s ≡ join (ps ++ (q ++ s) ∷ []) b'/'
unfolding join
join-append_last [] q s = refl
join-append_last (p ∷ []) q s = append_assoc p (b'/' ∷ q) s
join-append_last (p ∷ r ∷ ps) q s =
    append_assoc p (b'/' ∷ join ((r ∷ ps) ++ q ∷ []) b'/') s
    ∙ ap (λ t. p ++ (b'/' ∷ t)) (join-append_last (r ∷ ps) q s)

render-append_last :
    (ps : List Str) (q s : Str) → render (ps ++ q ∷ []) ++ s ≡ render (ps ++ (q ++ s) ∷ [])
unfolding render
render-append_last ps q s = ap (◌∷◌ b'/') (join-append_last ps q s)

abbrev caddy_names : List Str
caddy_names = codes "config" ∷ codes "caddy" ∷ []

caddy_names-IsName : All IsName caddy_names
caddy_names-IsName = (
  is_not_name-IsName (codes "config") (unfold contains_byte str_eq in refl),
  (is_not_name-IsName (codes "caddy") (unfold contains_byte str_eq in refl), tt),
)

-- A file in the directory, which is a file in the container.
translate_path-inside :
    (D : List Str) (f : Str)
    → All IsName D
    → IsName f
    → translate_path (render D) (render (D ++ f ∷ [])) ≡ ok (render (container_names ++ f ∷ []))
translate_path-inside D f h k =
    elim (translate_path-cases D (D ++ f ∷ []) h (All-append IsName D (f ∷ []) h (k, tt))) [
      | inl (F, e, r) ↦
          r ∙ ap (λ x. ok (render (container_names ++ x))) (sym (append_cancel_left D (f ∷ []) F e))
      | inr (n, r) ↦ absurd (n (f ∷ []) refl)
    ]

module _ (R : List Str) (h : All IsName R) where
  caddy_dir-render : (new_paths (render R)).caddy_dir ≡ render (R ++ caddy_names)
  unfolding new_paths paths_under render str_eq
  caddy_dir-render = join_all-render R (codes "config") (codes "caddy" ∷ []) h caddy_names-IsName

  caddyfile_path-render :
      (new_paths (render R)).caddyfile_path ≡ render ((R ++ caddy_names) ++ codes "Caddyfile" ∷ [])
  unfolding new_paths paths_under render str_eq
  caddyfile_path-render =
      join_all-render R (codes "config") (codes "caddy" ∷ codes "Caddyfile" ∷ []) h (
        caddy_names-IsName.0,
        (
          caddy_names-IsName.1.0,
          (is_not_name-IsName (codes "Caddyfile") (unfold contains_byte str_eq in refl), tt),
        ),
      )
      ∙ ap render (sym (append_assoc R caddy_names (codes "Caddyfile" ∷ [])))

  -- The file itself and a file beside it, named by what is put behind its name.
  translated :
      (s : Str)
      → IsName (codes "Caddyfile" ++ s)
      → translate_path (new_paths (render R)).caddy_dir ((new_paths (render R)).caddyfile_path ++ s)
        ≡ ok (codes "/etc/caddy/Caddyfile" ++ s)
  translated s k =
      let here : render (container_names ++ (codes "Caddyfile" ++ s) ∷ [])
          ≡ codes "/etc/caddy/Caddyfile" ++ s =
        unfold render join in refl in
      rw
        (
          caddyfile_path-render,
          render-append_last (R ++ caddy_names) (codes "Caddyfile") s,
          caddy_dir-render,
        )
        (translate_path-inside (R ++ caddy_names) (codes "Caddyfile" ++ s)
            (All-append IsName R caddy_names h caddy_names-IsName) k
          ∙ ap ok here)

  module _ {W : Type 0} (driver : Driver W) where
    -- The exec of `caddy <sub>` on this file, in the container.
    abbrev pub execs : Context → Str → Str → W → Result Done × W
    execs c sub path w =
        replied driver (new_paths (render R)).caddy_dir sub
          (driver.exec c (exec_options sub path) w)

    -- Under a root that is a clean absolute path, the reloader of the production deployer runs
    -- `caddy <sub> --config` on /etc/caddy/Caddyfile for the Caddyfile of NewPaths, and on
    -- /etc/caddy/Caddyfile.tmp for the file beside it that Deploy validates: neither is refused as outside
    -- the mount.
    pub exec_caddy-execs :
        (c : Context) (sub : Str) (w : W)
        → let paths = new_paths (render R) in
          (exec_caddy driver paths.caddy_dir c sub paths.caddyfile_path w
            ≡ execs c sub (codes "/etc/caddy/Caddyfile") w)
          × (exec_caddy driver paths.caddy_dir c sub (paths.caddyfile_path ++ codes ".tmp") w
              ≡ execs c sub (codes "/etc/caddy/Caddyfile.tmp") w)
    unfolding exec_caddy
    exec_caddy-execs c sub w =
        let itself =
          translated []
            (is_not_name-IsName (codes "Caddyfile") (unfold contains_byte str_eq in refl)) in
        let beside =
          translated (codes ".tmp")
            (is_not_name-IsName (codes "Caddyfile.tmp") (unfold contains_byte str_eq in refl)) in
        (
          ground (arith, itself, append-nil (new_paths (render R)).caddyfile_path),
          ground (arith, beside),
        )
