-- ===== src/Registry/Store/Refines.antt =====
-- internal/registry/store.go: the store refines a map from names to services.
use decloud.Base.{refl, Str, List, arith}
use decloud.Exec.{M}
use decloud.Base.Path.Clean.{IsName}
use decloud.Os.{Files}
use decloud.Os.Laws.{Entry, HasFiles}
use decloud.Config.{Paths}
use decloud.Deploy.Interface.{Done}
use decloud.Registry.Files.{Toml}
use decloud.Registry.Store.{save, delete, delete_orphan_config}
use decloud.Registry.Store.Layout.{IsLaidOut}
use decloud.Registry.Store.Held.{held}
use decloud.Registry.Store.Frame.{Same-held, save-Same, delete-Same, delete_orphan_config-Same}
use decloud.Registry.Store.Change.{Change, saving, deleting, dropping, subject, Step, IsSound}
use decloud.Registry.Store.Saved.{save-held, save_failed}
use decloud.Registry.Store.Removed.{delete-held, delete_orphan_config-held}

module _ {W : Type 0} (fs : Files W) (toml : Toml) {paths : Paths} {S T : List Str}
    (at : W → Str → Entry) (h : HasFiles fs at) (laid : IsLaidOut paths S T) where
  abbrev pub run : Change → M W Done
  run (saving svc) = save fs toml paths svc
  run (deleting n) = delete fs toml paths n
  run (dropping n) = delete_orphan_config fs toml paths n

  -- The registry is a map from names to services (held). When the directories of the store are clean
  -- absolute paths, neither inside the other (IsLaidOut), package os does what it documents (HasFiles),
  -- and the name of the service is the name of a file, then each of Save, Delete and DeleteOrphanConfig
  -- leaves what every other name holds as it was. If the method succeeds, the name holds the saved
  -- service, with the fields that Save fills in, or nothing; for Save this asks that Load accepts the
  -- service and that its encoded files decode to it (IsSound). If it fails with another error than
  -- ErrPartialWrite, Save and DeleteOrphanConfig leave what the name holds as it was, and Delete leaves
  -- that or nothing.
  pub run-Step :
      (c : Change) (w : W)
      → IsName (subject c)
      → IsSound toml (fs.now w).0 c
      → Step
          (fs.now w).0
          c
          (held fs toml paths at w)
          (run c w).0
          (held fs toml paths at (run c w).1)
  run-Step (saving given) w k sound = (
    (λ m name other.
        Same-held fs toml at h laid m w (run (saving given) w).1
          (save-Same fs toml at h laid m name w given k other w (refl, refl, refl))),
    save-held fs toml at h laid given w k sound,
    (λ e failed whole.
        Same-held fs toml at h laid given.config.name w (run (saving given) w).1
          (save_failed fs toml at h laid given w e k failed whole)),
  )
  run-Step (deleting n) w k sound = (
    (λ m name other.
        Same-held fs toml at h laid m w (run (deleting n) w).1
          (delete-Same fs toml at h laid m name w n k other w (refl, refl, refl))),
    (delete-held fs toml at h laid n w k).0,
    (λ e failed whole. (delete-held fs toml at h laid n w k).1),
  )
  run-Step (dropping n) w k sound = (
    (λ m name other.
        Same-held fs toml at h laid m w (run (dropping n) w).1
          (delete_orphan_config-Same fs toml at h laid m name w n k other w (refl, refl, refl))),
    (delete_orphan_config-held fs toml at h laid n w k).0,
    (λ e failed whole.
        (delete_orphan_config-held fs toml at h laid n w k).1 (ground (arith, failed))),
  )
