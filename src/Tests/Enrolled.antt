-- ===== src/Tests/Enrolled.antt =====
-- A deployment over the store on the file system in memory.
use decloud.Base.{refl, codes, [], ◌∷◌, ◌++◌, str_eq, contains_byte}
use decloud.Base.Path.Clean.{IsName, render}
use decloud.Errors.{ok}
use decloud.Config.{Paths, new_paths}
use decloud.Config.Laws.{is_not_name-IsName, new_paths-IsCaddyLaidOut}
use decloud.Registry.Files.{Toml, value}
use decloud.Registry.Store.{fs_store}
use decloud.Registry.Store.Held.{held}
use decloud.Deploy.Interface.{Dependencies}
use decloud.Deploy.Requests.{registration}
use decloud.Deploy.Service.{deploy}
use decloud.Caddy.Stub.{write_stub_if_missing, generate}
use decloud.Deploy.Caddyfile.{IsOnFiles, LeavesFiles, IsCaddyLaidOut, files-LeavesRoutes}
use decloud.Deploy.Lifecycle.{unregister}
use decloud.Deploy.Registered.Unregistered.{Unregistered, unregister-Unregistered}
use decloud.Deploy.Registered.{LeavesRegistry, LeavesRoutes}
use decloud.Deploy.Caddyfile.Current.{Deployed, deploy-Deployed}
use decloud.Tests.Host.{blog}
use decloud.Tests.Memory.{Disk, memory, memory-HasFiles, at}
use decloud.Tests.Registry.{root, root-IsName, laid, empty}

abbrev pub blog_codec : Toml
blog_codec = record {
  marshal_config = λ c. ok c.state.last_deploy_id;
  marshal_secrets = λ s. ok [];
  decode_config = λ s. value (registration blog s [] [] 7).config;
  decode_secrets = λ s. value (registration blog [] [] [] 0).secrets;
}

abbrev pub paths : Paths
paths = new_paths (render root)

-- Docker, Caddy and the shell do nothing and come through; the files are in memory.
abbrev pub quiet : Dependencies Disk
quiet = record {
  caddyfile_path = paths.caddyfile_path;
  driver = record {
    build = λ c r w. (ok [], w);
    run = λ c r w. (ok [], w);
    stop = λ c n s w. (ok tt, w);
    start = λ c n w. (ok tt, w);
    remove = λ c n w. (ok tt, w);
    inspect = λ c n w. (ok (record { container_id = []; state = codes "absent"; labels = [] }), w);
    logs = λ c n o w. (ok tt, w);
    network_ensure = λ c n w. (ok tt, w);
    container_ip = λ c n w. (ok [], w);
    image_pull = λ c n w. (ok tt, w);
    run_with_options = λ c o w. (ok [], w);
    exec = λ c o w. (record { result = ok tt; stderr = [] }, w);
  };
  store = fs_store memory blog_codec paths;
  capture = λ c p w. (ok [], w);
  generate = generate memory;
  reloader = record { validate = λ c p w. (ok tt, w); reload = λ c p w. (ok tt, w) };
  wait = λ c n s p w. (ok tt, w);
  new_deploy_id = λ w. (codes "d2", w);
  now = λ w. (7, w);
  write_stub_if_missing = write_stub_if_missing memory;
  os_remove = memory.remove;
  os_rename = memory.rename;
}

pub quiet-LeavesRegistry : LeavesRegistry quiet (held memory blog_codec paths at)
quiet-LeavesRegistry = record {
  build_keeps = λ c r m w. refl;
  run_keeps = λ c r m w. refl;
  stop_keeps = λ c n s m w. refl;
  remove_keeps = λ c n m w. refl;
  inspect_keeps = λ c n m w. refl;
  ensure_keeps = λ c n m w. refl;
  capture_keeps = λ c p m w. refl;
  wait_keeps = λ c n s p m w. refl;
  id_keeps = λ m w. refl;
  now_keeps = λ m w. refl;
}

pub laid_caddy :
    IsCaddyLaidOut paths
      (root ++ codes "config" ∷ codes "services" ∷ [])
      (root ++ codes "secrets" ∷ [])
      (root ++ codes "config" ∷ codes "caddy" ∷ [])
laid_caddy = new_paths-IsCaddyLaidOut root root-IsName

pub quiet-IsOnFiles : IsOnFiles quiet memory blog_codec paths
quiet-IsOnFiles = record {
  store_at = refl;
  caddyfile_at = refl;
  generate_at = refl;
  stub_at = refl;
  remove_at = refl;
  rename_at = refl;
}

pub quiet-LeavesFiles : LeavesFiles quiet at
quiet-LeavesFiles = record { validate_keeps = λ c p q w. refl; reload_keeps = λ c p q w. refl }

quiet-LeavesRoutes : LeavesRoutes quiet (held memory blog_codec paths at)
quiet-LeavesRoutes =
    files-LeavesRoutes memory blog_codec at memory-HasFiles laid laid_caddy quiet quiet-IsOnFiles
      quiet-LeavesFiles

pub blog_name : IsName (codes "blog")
blog_name = is_not_name-IsName (codes "blog") (unfold contains_byte str_eq in refl)

deploy-Deployed_example :
    Deployed memory blog_codec at memory-HasFiles laid laid_caddy quiet quiet-IsOnFiles
      quiet-LeavesFiles blog empty
      (deploy quiet blog empty)
deploy-Deployed_example =
    deploy-Deployed memory blog_codec at memory-HasFiles laid laid_caddy quiet quiet-IsOnFiles
      quiet-LeavesFiles quiet-LeavesRegistry blog blog_name empty

-- The disk after that deployment.
abbrev pub deployed : Disk
deployed = (deploy quiet blog empty).1

unregister-Unregistered_example :
    Unregistered memory blog_codec at memory-HasFiles laid quiet refl quiet-LeavesRegistry
      quiet-LeavesRoutes
      (codes "blog")
      blog_name
      deployed
      (unregister quiet (codes "blog") deployed)
unregister-Unregistered_example =
    unregister-Unregistered memory blog_codec at memory-HasFiles laid quiet refl
      quiet-LeavesRegistry quiet-LeavesRoutes (codes "blog") blog_name deployed
