-- ===== src/Docker/Types.antt =====
-- internal/dockerdrv/driver.go: requests and replies. The writers for a command's output are left
-- out: nothing that the program decides depends on them.
use decloud.Base.{ℤ, Str, Bool, List}
use decloud.Registry.Types.{Env}

pub record BuildRequest : Type 0 where
  pub image_ref : Str
  pub source_dir : Str
  pub dockerfile : Str

pub record VolumeMount : Type 0 where
  pub source : Str
  pub target : Str
  pub read_only : Bool
  pub is_named : Bool

pub record RunRequest : Type 0 where
  pub name : Str
  pub service : Str
  pub image : Str
  pub network : Str
  pub env : Env
  pub restart : Str
  pub port : ℤ
  pub volumes : List VolumeMount

pub record InspectResult : Type 0 where
  pub container_id : Str
  pub state : Str
  pub labels : Env

pub record LogsOptions : Type 0 where
  pub follow : Bool
  pub tail : ℤ

pub record PortMap : Type 0 where
  pub host_bind : Str
  pub host_port : ℤ
  pub container_port : ℤ
  pub proto : Str

pub record RunOptions : Type 0 where
  pub name : Str
  pub service : Str
  pub image : Str
  pub network : Str
  pub restart : Str
  pub ports : List PortMap
  pub volumes : List VolumeMount
  pub labels : Env
  pub env : Env

pub record ExecOptions : Type 0 where
  pub container : Str
  pub cmd : List Str
