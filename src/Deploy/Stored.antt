-- ===== src/Deploy/Stored.antt =====
-- internal/deploy/service.go with the store of internal/registry/store.go: what the deployment asks
-- of its store, the store on the file system promises.
use decloud.Base.{◌≡◌, [], All, arith, ap}
use decloud.Os.{Files}
use decloud.Config.{Paths}
use decloud.Registry.Files.{Toml}
use decloud.Registry.Store.{load, fs_store}
use decloud.Registry.Store.Laws.{load-IsLoaded}
use decloud.Ids.{container_name}
use decloud.Deploy.Interface.{Dependencies, Store, caller}
use decloud.Deploy.Requests.{Request}
use decloud.Deploy.Service.{deploy}
use decloud.Deploy.Trace.{traced}
use decloud.Deploy.Trace.Predicates.{Touches, LoadsByName}
use decloud.Deploy.Trace.Own.{deploy-Touches}

module _ {W : Type 0} (fs : Files W) (toml : Toml) (paths : Paths) (d : Dependencies W)
    (stored : d.store ≡ fs_store fs toml paths) where
  fs_store-LoadsByName : LoadsByName d
  unfolding fs_store
  fs_store-LoadsByName n w p h =
      let same : (d.store.load caller n w).0 ≡ (load fs toml paths n w).0 =
        ap (λ (s : Store W). (s.load caller n w).0) stored in
      (load-IsLoaded fs toml paths n w p (ground arith)).0

  -- A deployment over the store on the file system, whatever its files hold and however the calls end:
  -- every call that changes a container changes the service's own.
  pub deploy_stored-Touches :
      (req : Request) (w : W)
      → All (Touches (container_name req.name)) (deploy (traced d) req (w, [])).1.1
  deploy_stored-Touches req w = deploy-Touches d req fs_store-LoadsByName w
