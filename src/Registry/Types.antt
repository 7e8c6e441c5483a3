-- ===== src/Registry/Types.antt =====
-- internal/registry/types.go: the two files of a service, and the view that joins them.
use decloud.Base.{ℕ, ℤ, pos, Str, Bool, List}

-- Nanoseconds since Go's zero time, so that `IsZero` is `== 0`.
abbrev pub Time : Type 0
Time = ℕ

abbrev pub current_schema_version : ℤ
current_schema_version = pos 1

-- A map from variables to values, as its entries.
abbrev pub Env : Type 0
Env = List (Str × Str)

pub record SourceSpec : Type 0 where
  pub dir : Str

pub record BuildSpec : Type 0 where
  pub dockerfile : Str
  pub image_ref : Str

pub record Mount : Type 0 where
  pub host_path : Str
  pub container_path : Str
  pub read_only : Bool

pub record RunSpec : Type 0 where
  pub network : Str
  pub port : ℤ
  pub restart : Str
  pub mounts : List Mount

pub record Route : Type 0 where
  pub hostname : Str

pub record ReadinessSpec : Type 0 where
  pub kind : Str
  pub http_path : Str
  pub timeout_secs : ℤ
  pub interval_secs : ℤ

pub record ServiceState : Type 0 where
  pub last_deploy_id : Str
  pub built_image_id : Str
  pub container_id : Str
  pub container_name : Str
  pub last_deployed_by : Str

pub record ServiceConfig : Type 0 where
  pub schema_version : ℤ
  pub name : Str
  pub source : SourceSpec
  pub build : BuildSpec
  pub run : RunSpec
  pub routes : List Route
  pub strategy : Str
  pub disable_compression : Bool
  pub readiness : ReadinessSpec
  pub state : ServiceState
  pub last_deployed_at : Time

pub record ServiceSecrets : Type 0 where
  pub schema_version : ℤ
  pub name : Str
  pub env : Env

pub record Service : Type 0 where
  pub config : ServiceConfig
  pub secrets : ServiceSecrets
