-- ===== src/Registry/Store/Removed.antt =====
-- internal/registry/store.go: what Delete and DeleteOrphanConfig leave of their service.
use decloud.Base.{◌≡◌, ◌∙◌, ◌⊎◌, inl, inr, Str, true, false, Bool-cases, none, List, arith}
use decloud.Errors.{Error, Result-cases, ok, err, is_ok, error_is, fs_not_exist}
use decloud.Base.Path.Clean.{IsName}
use decloud.Os.{Files}
use decloud.Os.Laws.{Entry, apart_sym, HasFiles}
use decloud.Config.{Paths}
use decloud.Registry.Files.{Toml, config_path, secrets_dir_of, secrets_path}
use decloud.Registry.Store.{delete, delete_orphan_config}
use decloud.Registry.Store.Layout.{
  IsLaidOut, config-secrets_dir, config-secrets, secrets-secrets_dir,
}
use decloud.Registry.Store.Held.{held}

module _ {W : Type 0} (fs : Files W) (toml : Toml) {paths : Paths} {S T : List Str}
    (at : W → Str → Entry) (h : HasFiles fs at) (laid : IsLaidOut paths S T) where
  -- The ends of os.Remove: removed, not there, or there still.
  removed :
      (p : Str) (w : W)
      → (((fs.remove p w).0 ≡ ok tt) × (at (fs.remove p w).1 p ≡ (none, none)))
        ⊎ ((e : Error) × ((fs.remove p w).0 ≡ err e)
            × (((error_is e fs_not_exist ≡ true) × (at (fs.remove p w).1 p ≡ (none, none)))
                ⊎ ((error_is e fs_not_exist ≡ false) × (at (fs.remove p w).1 p ≡ at w p))))
  removed p w = elim (Result-cases (fs.remove p w).0) [
    | inl (_, e) ↦ inl (e, h.remove_ok p w (ground arith))
    | inr (x, e) ↦
        let (same, gone) = h.remove_err p w x e in
        inr (
          x,
          e,
          elim (Bool-cases (error_is x fs_not_exist)) [
            | inl absent ↦ inl (absent, same ∙ gone absent)
            | inr there ↦ inr (there, same)
          ],
        )
  ]

  pub delete-held :
      (n : Str) (w : W)
      → IsName n
      → let r = delete fs toml paths n w in
        (is_ok r.0 ≡ true → held fs toml paths at r.1 n ≡ none)
        × ((held fs toml paths at r.1 n ≡ held fs toml paths at w n)
            ⊎ (held fs toml paths at r.1 n ≡ none))
  unfolding delete
  delete-held n w k =
      let config = config_path paths n in
      let dir = secrets_dir_of paths n in
      let path = secrets_path paths n in
      let w1 = (fs.remove path w).1 in
      let w2 = (fs.remove dir w1).1 in
      ground (
        arith,
        removed path w,
        removed dir w1,
        removed config w2,
        h.remove_other path dir w (apart_sym _ _ (secrets-secrets_dir laid n n k k)),
        h.remove_other path config w (config-secrets laid n n k k),
        h.remove_other dir path w1 (secrets-secrets_dir laid n n k k),
        h.remove_other dir config w1 (config-secrets_dir laid n n k k),
        h.remove_other config dir w2 (apart_sym _ _ (config-secrets_dir laid n n k k)),
        h.remove_other config path w2 (apart_sym _ _ (config-secrets laid n n k k)),
      )

  pub delete_orphan_config-held :
      (n : Str) (w : W)
      → IsName n
      → let r = delete_orphan_config fs toml paths n w in
        (is_ok r.0 ≡ true → held fs toml paths at r.1 n ≡ none)
        × (is_ok r.0 ≡ false → held fs toml paths at r.1 n ≡ held fs toml paths at w n)
  unfolding delete_orphan_config
  delete_orphan_config-held n w k =
      let config = config_path paths n in
      ground (
        arith,
        removed config w,
        h.remove_other config (secrets_dir_of paths n) w
            (apart_sym _ _ (config-secrets_dir laid n n k k)),
        h.remove_other config (secrets_path paths n) w
            (apart_sym _ _ (config-secrets laid n n k k)),
      )
