-- ===== src/Deploy/Registered/OnFiles.antt =====
-- internal/registry/store.go as the registry of internal/deploy: what its methods leave in the files.
use decloud.Base.{refl, ap, sym, subst, ◌∙◌, Str, Option, List}
use decloud.Registry.Types.{Service, Time}
use decloud.Base.Path.Clean.{IsName}
use decloud.Os.{Files}
use decloud.Os.Laws.{Entry, HasFiles}
use decloud.Config.{Paths}
use decloud.Registry.Files.{Toml}
use decloud.Registry.Store.{validate_for_save, save, delete_orphan_config, fs_store}
use decloud.Registry.Store.Layout.{IsLaidOut}
use decloud.Registry.Store.Held.{held, loaded, load-held}
use decloud.Registry.Store.Listed.{list-held}
use decloud.Registry.Store.Frame.{Same-held, save-Same, delete_orphan_config-Same}
use decloud.Registry.Store.Refines.{run-Step}
use decloud.Registry.Store.Change.{saving, IsSound}
use decloud.Deploy.Registered.{KeepsRegistry}

-- What Save makes of a service, if it is valid.
abbrev pub filled : Time → Service → Option Service
filled t svc = loaded (validate_for_save t svc)

abbrev pub AlwaysSound : Toml → Service → Type 0
AlwaysSound toml svc = (t : Time) → IsSound toml t (saving svc)

module _ {W : Type 0} (fs : Files W) (toml : Toml) {paths : Paths} {S T : List Str}
    (at : W → Str → Entry) (h : HasFiles fs at) (laid : IsLaidOut paths S T) where
  pub fs_store-KeepsRegistry :
      (name : Str)
      → IsName name
      → KeepsRegistry
          (fs_store fs toml paths)
          (held fs toml paths at)
          filled
          (AlwaysSound toml)
          name
  unfolding fs_store
  fs_store-KeepsRegistry name n = record {
    load_keeps =
        λ c o m w. ap (λ s. held fs toml paths at s m) (load-held fs toml paths at h o w).2;
    list_keeps = λ c m w. list-held fs toml at h laid m w;
    save_other = λ c svc m w named k other.
        Same-held fs toml at h laid m w (save fs toml paths svc w).1 (
          save-Same fs toml at h laid m k w svc (subst IsName (sym named) n)
            (λ e. other (e ∙ named)) w (refl, refl, refl));
    drop_other = λ c m w k other.
        Same-held fs toml at h laid m w (delete_orphan_config fs toml paths name w).1
          (delete_orphan_config-Same fs toml at h laid m k w name n other w (refl, refl, refl));
    save_ok = λ c svc w named sound done. (
      (fs.now w).0,
      ap (held fs toml paths at (save fs toml paths svc w).1) (sym named)
          ∙ (run-Step fs toml at h laid (saving svc) w (subst IsName (sym named) n)
                (sound (fs.now w).0)).1
              done,
    );
  }
