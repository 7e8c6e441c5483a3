-- ===== src/Config.antt =====
-- internal/config/paths.go: the layout of the root directory.
pub mod Laws
use decloud.Base.{Str, codes, List, [], ◌∷◌, if◌then◌else◌, str_eq}
use decloud.Base.Path.{join_all}

-- DefaultRoot
abbrev pub default_root : Str
default_root = codes "/opt/decloud"

pub record Paths : Type 0 where
  pub root : Str
  pub config_dir : Str
  pub services_dir : Str
  pub jobs_dir : Str
  pub caddy_dir : Str
  pub caddyfile_path : Str
  pub secrets_dir : Str
  pub state_dir : Str
  pub deploys_dir : Str
  pub logs_dir : Str
  pub log_file : Str

abbrev pub or_default : Str → Str
or_default root = if str_eq root [] then default_root else root

abbrev below : Str → List Str → Str
below root es = join_all (root ∷ es)

-- The paths under a root that is not empty.
unfoldable pub paths_under : Str → Paths
unfolding join_all
paths_under root = record {
  root = root;
  config_dir = below root (codes "config" ∷ []);
  services_dir = below root (codes "config" ∷ codes "services" ∷ []);
  jobs_dir = below root (codes "config" ∷ codes "jobs" ∷ []);
  caddy_dir = below root (codes "config" ∷ codes "caddy" ∷ []);
  caddyfile_path = below root (codes "config" ∷ codes "caddy" ∷ codes "Caddyfile" ∷ []);
  secrets_dir = below root (codes "secrets" ∷ []);
  state_dir = below root (codes "state" ∷ []);
  deploys_dir = below root (codes "state" ∷ codes "deploys" ∷ []);
  logs_dir = below root (codes "logs" ∷ []);
  log_file = below root (codes "logs" ∷ codes "decloud.log" ∷ []);
}

-- NewPaths
unfoldable pub new_paths : Str → Paths
unfolding paths_under str_eq
new_paths root = paths_under (or_default root)

-- RootFromEnv, given os.Getenv("DECLOUD_ROOT")
unfoldable pub root_from_env : Str → Str
unfolding str_eq
root_from_env variable = if str_eq variable [] then default_root else variable
