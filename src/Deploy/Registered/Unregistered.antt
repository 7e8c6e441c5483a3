-- ===== src/Deploy/Registered/Unregistered.antt =====
-- internal/deploy/lifecycle.go over internal/registry/store.go: what Unregister leaves in the files of
-- the registry.
use decloud.Base.{◌≡◌, ◌≢◌, sym, subst, Str, true, Option, none, List, arith}
use decloud.Errors.{Result, is_ok}
use decloud.Base.Path.Clean.{IsName}
use decloud.Registry.Types.{Service}
use decloud.Os.{Files}
use decloud.Os.Laws.{Entry, HasFiles}
use decloud.Config.{Paths}
use decloud.Ids.{container_name}
use decloud.Registry.Files.{Toml}
use decloud.Registry.Store.{fs_store}
use decloud.Registry.Store.Layout.{IsLaidOut}
use decloud.Registry.Store.Held.{held}
use decloud.Registry.Store.Change.{deleting}
use decloud.Registry.Store.Refines.{run-Step}
use decloud.Deploy.Interface.{caller, Dependencies, Done, Store}
use decloud.Deploy.Lifecycle.{unregister}
use decloud.Deploy.Registered.{KeepsRegistry, LeavesRegistry, LeavesRoutes}
use decloud.Deploy.Registered.Others.{reload-keeps}
use decloud.Deploy.Registered.OnFiles.{filled, AlwaysSound, fs_store-KeepsRegistry}

module _ {W : Type 0} (fs : Files W) (toml : Toml) {paths : Paths} {S T : List Str}
    (at : W → Str → Entry) (h : HasFiles fs at) (laid : IsLaidOut paths S T) (d : Dependencies W)
    (store : d.store ≡ fs_store fs toml paths) (leaves : LeavesRegistry d (held fs toml paths at))
    (routes : LeavesRoutes d (held fs toml paths at)) (name : Str) (n : IsName name) where
  abbrev view : W → Str → Option Service
  view = held fs toml paths at

  keeps : KeepsRegistry d.store view filled (AlwaysSound toml) name
  keeps =
      subst (λ s. KeepsRegistry s view filled (AlwaysSound toml) name) (sym store)
        (fs_store-KeepsRegistry fs toml at h laid name n)

  -- A store whose Delete changes what this name holds, to nothing if it succeeds.
  abbrev Deletes : Store W → Type 0
  Deletes s =
      (w : W)
      → ((m : Str) → IsName m → m ≢ name → view (s.delete caller name w).1 m ≡ view w m)
        × (is_ok (s.delete caller name w).0 ≡ true → view (s.delete caller name w).1 name ≡ none)

  store-Deletes : Deletes d.store
  store-Deletes = subst Deletes (sym store) (
      unfold fs_store in
      λ w. let step = run-Step fs toml at h laid (deleting name) w n tt in (step.0, step.1))

  -- The registry after an Unregister that ended in this way.
  abbrev pub Unregistered : W → Result Done × W → Type 0
  Unregistered w r =
      ((m : Str) → IsName m → m ≢ name → view r.1 m ≡ view w m)
      × (is_ok r.0 ≡ true → view r.1 name ≡ none)

  -- An Unregister over the store on files, when package os does what it documents (HasFiles), the
  -- directories of the store are laid out (IsLaidOut), the name of the service is the name of a file, and
  -- docker (LeavesRegistry) and the calls on the Caddyfile (LeavesRoutes) leave the registry's files
  -- alone: however it ends, what the registry holds under every other name stays; and if it succeeds, the registry holds nothing under
  -- the name.
  pub unregister-Unregistered : (w : W) → Unregistered w (unregister d name w)
  unfolding unregister
  unregister-Unregistered w =
      let w1 = (d.store.load caller name w).1 in
      let w2 = (d.driver.stop caller (container_name name) 10 w1).1 in
      let w3 = (d.driver.remove caller (container_name name) w2).1 in
      let w4 = (d.store.delete caller name w3).1 in
      (
        (λ m k other. ground (
          arith,
          keeps.load_keeps caller name m w,
          leaves.stop_keeps caller (container_name name) 10 m w1,
          leaves.remove_keeps caller (container_name name) m w2,
          (store-Deletes w3).0 m k other,
          reload-keeps d view routes keeps m k w4,
        )),
        (λ done.
            ground (arith, done, (store-Deletes w3).1, reload-keeps d view routes keeps name n w4)),
      )
