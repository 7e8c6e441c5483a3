-- ===== src/Deploy/Caddyfile/Installed.antt =====
-- internal/deploy/service.go: what regenerateAndReload leaves at the Caddyfile.
use decloud.Base.{
  ◌≡◌, ◌≢◌, refl, sym, ap, subst, ◌∙◌, ◌⊎◌, inl, inr, ℕ, Str, codes, true, false, Option, some,
  List, [], ◌∷◌, ◌++◌, arith,
}
use mathlib.Core.List.{append_cancel_left}
use decloud.Base.Path.{dir_of}
use decloud.Base.Path.Clean.{IsName, render-injective, render}
use decloud.Errors.{Result, Result-cases, is_ok}
use decloud.Exec.{M}
use decloud.Registry.Types.{Service}
use decloud.Os.{Files}
use decloud.Os.Laws.{Entry, Apart, IsClean, HasFiles}
use decloud.Config.{Paths}
use decloud.Registry.Files.{Toml}
use decloud.Registry.Store.{list, fs_store}
use decloud.Registry.Store.Layout.{IsLaidOut}
use decloud.Registry.Store.Listed.{Lists, list_at, list-Lists}
use decloud.Caddy.Stub.{mode_755}
use decloud.Caddy.Stub.Laws.{generate_ok, generate_other, write_stub_if_missing_there}
use decloud.Caddy.Generator
use decloud.Deploy.Interface.{caller, Dependencies, Done, Store}
use decloud.Deploy.Service.{tmp_path, install_caddyfile, regenerate_and_reload}
use decloud.Deploy.Caddyfile.{
  IsOnFiles, LeavesFiles, IsCaddyLaidOut, path-render, tmp-render, caddy-All, IsKept-beside,
  beside-IsClean, caddyfile-IsName, tmp-IsName, temp-IsName,
}

module _ {W : Type 0} (fs : Files W) (toml : Toml) {paths : Paths} {S T C : List Str}
    (at : W → Str → Entry) (h : HasFiles fs at) (laid : IsLaidOut paths S T)
    (caddy : IsCaddyLaidOut paths S T C) (d : Dependencies W) (on : IsOnFiles d fs toml paths)
    (leaves : LeavesFiles d at) where
  -- The text of the Caddyfile.
  abbrev pub caddyfile : W → Option Str
  caddyfile w = (at w d.caddyfile_path).0

  siblings_apart :
      (x y : Str)
      → IsName x
      → IsName y
      → x ≢ y
      → Apart (render (C ++ x ∷ [])) (render (C ++ y ∷ []))
  siblings_apart x y k l n =
      let left = caddy-All fs toml at h laid caddy d on leaves x k in
      let right = caddy-All fs toml at h laid caddy d on leaves y l in
      (
        (λ e.
            let same =
              append_cancel_left C (x ∷ []) (y ∷ [])
                (render-injective (C ++ x ∷ []) (C ++ y ∷ []) left right e) in
            n (ground (arith, same))),
        (C ++ x ∷ [], left, refl),
        (C ++ y ∷ [], right, refl),
      )

  file_apart : Apart d.caddyfile_path (tmp_path d)
  file_apart =
      rw
        (
          tmp-render fs toml at h laid caddy d on leaves,
          path-render fs toml at h laid caddy d on leaves,
        )
        (siblings_apart (codes "Caddyfile") (codes "Caddyfile.tmp") caddyfile-IsName tmp-IsName
          (λ e. ground (arith, e)))

  -- The directory of the Caddyfile, by its path and by that of the new file.
  caddyfile-clean : IsClean (dir_of d.caddyfile_path)
  caddyfile-clean =
      rw (path-render fs toml at h laid caddy d on leaves)
        (beside-IsClean fs toml at h laid caddy d on leaves (codes "Caddyfile") caddyfile-IsName)

  tmp-clean : IsClean (dir_of (tmp_path d))
  tmp-clean =
      rw (tmp-render fs toml at h laid caddy d on leaves)
        (beside-IsClean fs toml at h laid caddy d on leaves (codes "Caddyfile.tmp") tmp-IsName)

  stub_same :
      (m : ℕ) (w : W)
      → (at w d.caddyfile_path).1 ≡ some m
      → (d.write_stub_if_missing d.caddyfile_path w).1 ≡ w
  stub_same m w e =
      subst (λ g. (g d.caddyfile_path w).1 ≡ w) (sym on.stub_at)
        (write_stub_if_missing_there fs at h d.caddyfile_path caddyfile-clean m w e)

  generate_same :
      (services : List Service) (w : W)
      → caddyfile (d.generate (tmp_path d) services w).1 ≡ caddyfile w
  generate_same services w =
      let file = render (C ++ codes "Caddyfile" ∷ []) in
      let tmp = render (C ++ codes "Caddyfile.tmp" ∷ []) in
      let kept =
        IsKept-beside fs toml at h laid caddy d on leaves (codes "Caddyfile.tmp") file tmp-IsName
          (λ digits g.
            siblings_apart (codes "Caddyfile") (codes ".caddyfile-" ++ digits) caddyfile-IsName
              (temp-IsName digits g) (λ e. ground (arith, e))) in
      let apart =
        siblings_apart (codes "Caddyfile") (codes "Caddyfile.tmp") caddyfile-IsName tmp-IsName
          (λ e. ground (arith, e)) in
      rw
        (
          tmp-render fs toml at h laid caddy d on leaves,
          path-render fs toml at h laid caddy d on leaves,
          on.generate_at,
        )
        (ap (λ e. e.0)
            (generate_other fs at h tmp
              (beside-IsClean fs toml at h laid caddy d on leaves (codes "Caddyfile.tmp")
                tmp-IsName)
              services file w kept apart)
          ∙ h.mkdir_content _ file mode_755 w)

  generated :
      (services : List Service) (w : W)
      → is_ok (d.generate (tmp_path d) services w).0 ≡ true
      → (at (d.generate (tmp_path d) services w).1 (tmp_path d)).0
        ≡ some (Generator.render services)
  generated services w =
      subst
        (λ g.
          is_ok (g (tmp_path d) services w).0 ≡ true
          → (at (g (tmp_path d) services w).1 (tmp_path d)).0 ≡ some (Generator.render services))
        (sym on.generate_at)
        (λ e. ap (λ x. x.0) (generate_ok fs at h (tmp_path d) tmp-clean services w e))

  removed : (w : W) → caddyfile (d.os_remove (tmp_path d) w).1 ≡ caddyfile w
  removed w =
      subst (λ g. caddyfile (g (tmp_path d) w).1 ≡ caddyfile w) (sym on.remove_at)
        (ap (λ e. e.0) (h.remove_other (tmp_path d) d.caddyfile_path w file_apart))

  -- A rename of the validated file to the Caddyfile, by this method.
  abbrev Renames : (Str → Str → M W Done) → W → Type 0
  Renames method w =
      let r = method (tmp_path d) d.caddyfile_path w in
      (is_ok r.0 ≡ true → caddyfile r.1 ≡ (at w (tmp_path d)).0)
      × (is_ok r.0 ≡ false → caddyfile r.1 ≡ caddyfile w)

  renamed : (w : W) → Renames d.os_rename w
  renamed w =
      subst (λ method. Renames method w) (sym on.rename_at)
        (
          (λ e. ap (λ x. x.0) (h.rename_ok (tmp_path d) d.caddyfile_path w e)),
          (λ e. ap (λ x. x.0) (h.rename_err (tmp_path d) d.caddyfile_path d.caddyfile_path w e)),
        )

  -- `caddy validate` accepted a file with this text.
  abbrev pub Accepted : Str → Type 0
  Accepted text =
      (w : W) × ((at w (tmp_path d)).0 ≡ some text)
      × (is_ok (d.reloader.validate caller (tmp_path d) w).0 ≡ true)

  -- The Caddyfile after it was regenerated for these services.
  abbrev pub Installed : List Service → W → Result Done × W → Type 0
  Installed services w r =
      (is_ok r.0 ≡ true → caddyfile r.1 ≡ some (Generator.render services))
      × ((m : ℕ)
          → (at w d.caddyfile_path).1 ≡ some m
          → (caddyfile r.1 ≡ caddyfile w)
            ⊎ ((caddyfile r.1 ≡ some (Generator.render services))
                × Accepted (Generator.render services)))

  install-Installed :
      (services : List Service) (w : W) → Installed services w (install_caddyfile d services w)
  unfolding install_caddyfile
  install-Installed services w =
      let text = Generator.render services in
      let w1 = (d.write_stub_if_missing d.caddyfile_path w).1 in
      let w2 = (d.generate (tmp_path d) services w1).1 in
      let w3 = (d.reloader.validate caller (tmp_path d) w2).1 in
      let w4 = (d.os_rename (tmp_path d) d.caddyfile_path w3).1 in
      let kept = generate_same services w1 in
      let validated =
        ap (λ e. e.0) (leaves.validate_keeps caller (tmp_path d) d.caddyfile_path w2) in
      let reloaded =
        ap (λ e. e.0) (leaves.reload_keeps caller d.caddyfile_path d.caddyfile_path w4) in
      let moved = ap (λ e. e.0) (leaves.validate_keeps caller (tmp_path d) (tmp_path d) w2) in
      elim (Result-cases (d.generate (tmp_path d) services w1).0) [
        | inr (x, e) ↦ (
          (λ done. absurd (ground (arith, done, e))),
          (λ m there. inl (ground (arith, e, kept, stub_same m w there))),
        )
        | inl (x, e) ↦ elim (Result-cases (d.reloader.validate caller (tmp_path d) w2).0) [
          | inr (y, f) ↦ (
            (λ done. absurd (ground (arith, done, e, f))),
            (λ m there.
                inl (ground (arith, e, f, kept, validated, removed w3, stub_same m w there))),
          )
          | inl (y, f) ↦
              let written = generated services w1 (ground (arith, e)) in
              let accepted : Accepted text = (w2, written, ground (arith, f)) in
              elim (Result-cases (d.os_rename (tmp_path d) d.caddyfile_path w3).0) [
                | inr (z, g) ↦ (
                  (λ done. absurd (ground (arith, done, e, f, g))),
                  (λ m there.
                      inl (
                        ground (arith, e, f, g, kept, validated, renamed w3, stub_same m w there))),
                )
                | inl (z, g) ↦
                    let new : caddyfile (install_caddyfile d services w).1 ≡ some text =
                      ground (arith, e, f, g, written, moved, renamed w3, reloaded) in
                    ((λ done. new), (λ m there. inr (new, accepted)))
              ]
        ]
      ]

  -- The Caddyfile is that of the registry's services.
  abbrev pub IsCurrent : W → Option Str → Type 0
  IsCurrent w text =
      (services : List Service) × Lists fs toml at h laid w services
      × (text ≡ some (Generator.render services))

  -- The Caddyfile after a regeneration.
  abbrev pub Regenerated : W → Result Done × W → Type 0
  Regenerated w r =
      (is_ok r.0 ≡ true → IsCurrent w (caddyfile r.1))
      × ((m : ℕ)
          → (at w d.caddyfile_path).1 ≡ some m
          → (caddyfile r.1 ≡ caddyfile w)
            ⊎ (IsCurrent w (caddyfile r.1)
                × ((text : Str) × (caddyfile r.1 ≡ some text) × Accepted text)))

  list_store : (w : W) → d.store.list caller w ≡ list fs toml paths w
  unfolding fs_store
  list_store w = ap (λ (s : Store W). s.list caller w) on.store_at

  -- When the deployer's store and Caddyfile are files (IsOnFiles) of an os that does what it documents
  -- (HasFiles), the store's directories and the Caddyfile's are apart (IsLaidOut, IsCaddyLaidOut), and
  -- `caddy` leaves the files alone (LeavesFiles): if regenerateAndReload succeeds, the Caddyfile is that of
  -- services which the registry holds, those left out that have a file which could not be read (Lists);
  -- and however it ends, a Caddyfile that was there keeps its text,
  -- or gets the text for those services after `caddy validate` accepted a file with that text.
  pub regenerate_and_reload-Regenerated : (w : W) → Regenerated w (regenerate_and_reload d w)
  unfolding regenerate_and_reload
  regenerate_and_reload-Regenerated w =
      let w1 = (list fs toml paths w).1 in
      let same = list_at fs toml at h laid d.caddyfile_path w in
      elim (Result-cases (list fs toml paths w).0) [
        | inr (x, e) ↦ (
          (λ done. absurd (ground (arith, done, e, list_store w))),
          (λ m there. inl (ground (arith, e, list_store w, same))),
        )
        | inl (services, e) ↦
            let (ended, kept) = install-Installed services w1 in
            let lists = list-Lists fs toml at h laid w services e in
            let after : regenerate_and_reload d w ≡ install_caddyfile d services w1 =
              ground (arith, e, list_store w) in
            rw after (
              (λ done. (services, lists, ended done)),
              (λ m there. elim (kept m (ground (arith, same, there))) [
                | inl old ↦ inl (old ∙ ap (λ x. x.0) same)
                | inr (new, accepted) ↦
                    inr ((services, lists, new), (Generator.render services, new, accepted))
              ]),
            )
      ]
