-- ===== src/Tests/Stores.antt =====
-- Runs of the store on a file system that holds one registration or none.
use decloud.Base.{
  ◌≡◌, refl, codes, Bool, true, false, [], ◌∷◌, All, IsSorted, str_eq, sort, insert_sorted,
  has_suffix, trim_suffix, if◌then◌else◌,
}
use decloud.Errors.{Error, ok, err, is_ok, error_is, sentinel, err_not_found, fs_not_exist}
use decloud.Registry.Types.{Service}
use decloud.Registry.Mount.{validate_mounts, validate_each, find_duplicate_target, duplicate_from}
use decloud.Os.{Files}
use decloud.Config.{Paths, paths_under, new_paths}
use decloud.Base.Path.{join_all, path_join, clean, clean_parts}
use decloud.Registry.Files.{
  Toml, value, decode_config, decode_secrets, secrets_path, secrets_dir_of,
}
use decloud.Registry.Store.{
  check_config, check_secrets, load_config, load_secrets, load, config_names, list_names, load_each,
  list, delete_orphan_config, fs_store,
}
use decloud.Registry.Store.Laws.{
  IsLoaded, load-IsLoaded, by_service, list-IsSorted, Removes, delete_orphan_config-load,
}
use decloud.Deploy.Interface.{Dependencies}
use decloud.Tests.Host.{refused, registered}

-- A world that is whether the config is there.
abbrev files : Files Bool
files = record {
  read_file = λ p w. (if w then ok [] else err (sentinel fs_not_exist), w);
  stat_perm = λ p w. (ok (if has_suffix p (codes "env.toml") then 384 else 448), w);
  mkdir_all = λ p m w. (ok tt, w);
  chmod = λ p m w. (ok tt, w);
  remove = λ p w. (ok tt, false);
  rename = λ p q w. (ok tt, true);
  read_dir = λ p w. (ok ((codes "blog.toml", false) ∷ (codes ".tmp-1", false) ∷ []), w);
  create_temp = λ p n w. (ok (codes "/tmp/1"), w);
  write = λ p c w. (ok tt, w);
  close = λ p w. (ok tt, w);
  write_file = λ p m c w. (ok tt, w);
  open_append = λ p m w. (ok tt, w);
  getwd = λ w. (ok (codes "/root"), w);
  now = λ w. (7, w);
}

abbrev blog_service : Service
blog_service = registered (codes "blog")

abbrev toml : Toml
toml = record {
  marshal_config = λ c. ok [];
  marshal_secrets = λ s. ok [];
  decode_config = λ s. value blog_service.config;
  decode_secrets = λ s. value blog_service.secrets;
}

abbrev paths : Paths
paths = new_paths []

load_blog : (load files toml paths (codes "blog") true).0 ≡ ok blog_service
unfolding load load_config load_secrets decode_config decode_secrets check_config check_secrets
    validate_mounts validate_each find_duplicate_target duplicate_from secrets_path secrets_dir_of
    new_paths paths_under join_all path_join clean clean_parts has_suffix str_eq
load_blog = refl

load-IsLoaded_example : IsLoaded (codes "blog") blog_service
load-IsLoaded_example = load-IsLoaded files toml paths (codes "blog") true blog_service load_blog

list_blog : (list files toml paths true).0 ≡ ok (blog_service ∷ [])
unfolding list list_names config_names load_each load load_config load_secrets decode_config
    decode_secrets check_config check_secrets validate_mounts validate_each find_duplicate_target
    duplicate_from secrets_path secrets_dir_of new_paths paths_under join_all path_join clean
    clean_parts has_suffix trim_suffix sort insert_sorted str_eq
list_blog = refl

list-IsSorted_example :
    IsSorted (by_service files toml paths) (blog_service ∷ [])
    × All (λ svc. IsLoaded svc.config.name svc) (blog_service ∷ [])
list-IsSorted_example = list-IsSorted files toml paths true (blog_service ∷ []) list_blog

not_exist : error_is (sentinel fs_not_exist) fs_not_exist ≡ true
unfolding error_is
not_exist = refl

files-Removes : Removes files
files-Removes = record {
  remove_ok = λ p w h. (sentinel fs_not_exist, refl, not_exist);
  remove_gone = λ p w x h k. (sentinel fs_not_exist, refl, not_exist);
}

delete_blog : is_ok (delete_orphan_config files toml paths (codes "blog") true).0 ≡ true
unfolding delete_orphan_config
delete_blog = refl

delete_orphan_config-load_example :
    (e : Error) × ((load files toml paths
        (codes "blog")
        (delete_orphan_config files toml paths (codes "blog") true).1).0
      ≡ err e)
    × (error_is e err_not_found ≡ true)
delete_orphan_config-load_example =
    delete_orphan_config-load files toml paths files-Removes (codes "blog") true delete_blog

-- A host on which nothing fails, over that store.
abbrev stored : Dependencies Bool
stored = record {
  caddyfile_path = codes "/etc/decloud/caddy/Caddyfile";
  driver = record {
    build = λ c r w. (ok [], w);
    run = λ c r w. (ok [], w);
    stop = λ c n s w. (ok tt, w);
    start = λ c n w. (ok tt, w);
    remove = λ c n w. (ok tt, w);
    inspect = λ c n w. (err refused, w);
    logs = λ c n o w. (ok tt, w);
    network_ensure = λ c n w. (ok tt, w);
    container_ip = λ c n w. (ok [], w);
    image_pull = λ c n w. (ok tt, w);
    run_with_options = λ c o w. (ok [], w);
    exec = λ c o w. (record { result = ok tt; stderr = [] }, w);
  };
  store = fs_store files toml paths;
  capture = λ c p w. (ok [], w);
  generate = λ p s w. (ok tt, w);
  reloader = record { validate = λ c p w. (ok tt, w); reload = λ c p w. (ok tt, w) };
  wait = λ c n s p w. (ok tt, w);
  new_deploy_id = λ w. (codes "d2", w);
  now = λ w. (7, w);
  write_stub_if_missing = λ p w. (ok tt, w);
  os_remove = λ p w. (ok tt, w);
  os_rename = λ p q w. (ok tt, w);
}
