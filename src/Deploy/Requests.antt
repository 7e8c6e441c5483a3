-- ===== src/Deploy/Requests.antt =====
-- internal/deploy/service.go: the request of a deployment, and the requests and the registration
-- that it is turned into.
use decloud.Base.{
  ℕ, zero, suc, ◌+◌, ◌-◌, ◌*◌, ◌%◌, ◌^◌, leb, ℤ, pos, negsuc, ◌/◌, Str, codes, Bool, List, [], map,
  if◌then◌else◌, str_eq,
}
use decloud.Registry.Types.{Env, Mount, ReadinessSpec, Service, current_schema_version, Time}
use decloud.Registry.Mount.{is_named}
use decloud.Docker.Types.{BuildRequest, RunRequest, VolumeMount}
use decloud.Ids.{container_name}

abbrev pub network_name : Str
network_name = codes "decloud"

-- A Duration, in nanoseconds.
pub record Request : Type 0 where
  pub name : Str
  pub source_dir : Str
  pub dockerfile : Str
  pub hosts : List Str
  pub port : ℤ
  pub env_file : Str
  pub mounts : List Mount
  pub readiness_path : Str
  pub readiness_timeout : ℤ
  pub strategy : Str
  pub disable_compression : Bool

-- The greatest power of two that is at most s, from 2 ^ k down.
unfoldable pub binade : ℕ → ℕ → ℕ
binade zero s = 1
binade (suc k) s = let rest = binade k s in if leb (2 ^ suc k) s then 2 ^ suc k else rest

-- The whole seconds of a Duration of n nanoseconds, as int(d.Seconds()) has them: Seconds adds the
-- seconds and the fraction as float64, whose 53 bits round the sum up to the next second when the
-- fraction is that close to it. 2 ^ 33 seconds are more than half of all that a Duration holds.
unfoldable pub whole_seconds : ℕ → ℕ
unfolding binade
whole_seconds n =
    let s = n / 1_000_000_000 in
    let missing = 1_000_000_000 - n % 1_000_000_000 in
    if leb (missing * 2 ^ 53) (1_000_000_000 * binade 33 s) then s + 1 else s

abbrev negated : ℕ → ℤ
negated zero = pos 0
negated (suc k) = negsuc k

-- int(d.Seconds())
abbrev pub seconds : ℤ → ℤ
seconds (pos n) = pos (whole_seconds n)
seconds (negsuc n) = negated (whole_seconds (n + 1))

unfoldable pub to_volume_mount : Mount → VolumeMount
to_volume_mount m = record {
  source = m.host_path;
  target = m.container_path;
  read_only = m.read_only;
  is_named = is_named m;
}

-- toVolumeMounts
unfoldable pub to_volume_mounts : List Mount → List VolumeMount
unfolding to_volume_mount
to_volume_mounts = map to_volume_mount

abbrev pub build_request : Request → Str → BuildRequest
build_request req image = record {
  image_ref = image;
  source_dir = req.source_dir;
  dockerfile = req.dockerfile;
}

abbrev pub restore_request : Service → RunRequest
restore_request prev = record {
  name = container_name prev.config.name;
  service = prev.config.name;
  image = prev.config.build.image_ref;
  network = network_name;
  env = prev.secrets.env;
  restart = prev.config.run.restart;
  port = prev.config.run.port;
  volumes = to_volume_mounts prev.config.run.mounts;
}

abbrev pub run_request : Request → Str → Env → RunRequest
run_request req image captured = record {
  name = container_name req.name;
  service = req.name;
  image = image;
  network = network_name;
  env = captured;
  restart = codes "unless-stopped";
  port = req.port;
  volumes = to_volume_mounts req.mounts;
}

abbrev pub readiness_spec : Request → ReadinessSpec
readiness_spec req = record {
  kind = codes "http";
  http_path = if str_eq req.readiness_path [] then codes "/healthz" else req.readiness_path;
  timeout_secs = seconds req.readiness_timeout;
  interval_secs = pos 1;
}

abbrev pub registration : Request → Str → Str → Env → Time → Service
registration req deploy_id image captured at = record {
  config = record {
    schema_version = current_schema_version;
    name = req.name;
    source = record { dir = req.source_dir };
    build = record { dockerfile = req.dockerfile; image_ref = image };
    run = record {
      network = network_name;
      port = req.port;
      restart = codes "unless-stopped";
      mounts = req.mounts;
    };
    routes = map (λ h. record { hostname = h }) req.hosts;
    strategy = req.strategy;
    disable_compression = req.disable_compression;
    readiness = readiness_spec req;
    state = record {
      last_deploy_id = deploy_id;
      built_image_id = [];
      container_id = [];
      container_name = container_name req.name;
      last_deployed_by = [];
    };
    last_deployed_at = at;
  };
  secrets = record { schema_version = current_schema_version; name = req.name; env = captured };
}
