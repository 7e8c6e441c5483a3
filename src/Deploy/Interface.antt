-- ===== src/Deploy/Interface.antt =====
-- What internal/deploy asks of the rest of the program and of the system: the interfaces Driver,
-- Store, Capturer, Generator, Reloader and ReadinessProbe, the clock, the deploy ids, and the calls
-- of the package `os`, over a world that they change (service.go, driver.go, store.go, reloader.go).
use decloud.Base.{ℕ, ℤ, Str, List}
use decloud.Errors.{Result}
use decloud.Exec.{M}
use decloud.Registry.Types.{Env, Time, ReadinessSpec, Service}
use decloud.Docker.Types.{
  BuildRequest, RunRequest, RunOptions, ExecOptions, InspectResult, LogsOptions,
}

-- The caller's context, which a signal cancels, or one of newCleanupContext, which no signal does.
pub data Context : Type 0 where
  caller cleanup : Context

abbrev pub Done : Type 0
Done = Unit {0}

-- The error of Exec, and what the command wrote to the writer that is given for its stderr.
pub record ExecReply : Type 0 where
  pub result : Result Done
  pub stderr : Str

-- dockerdrv.Driver. A grace period is in seconds.
pub record Driver (W : Type 0) : Type 0 where
  pub build : Context → BuildRequest → M W Str
  pub run : Context → RunRequest → M W Str
  pub stop : Context → Str → ℕ → M W Done
  pub start : Context → Str → M W Done
  pub remove : Context → Str → M W Done
  pub inspect : Context → Str → M W InspectResult
  pub logs : Context → Str → LogsOptions → M W Done
  pub network_ensure : Context → Str → M W Done
  pub container_ip : Context → Str → M W Str
  pub image_pull : Context → Str → M W Done
  pub run_with_options : Context → RunOptions → M W Str
  pub exec : Context → ExecOptions → W → ExecReply × W

-- registry.Store
pub record Store (W : Type 0) : Type 0 where
  pub load : Context → Str → M W Service
  pub save : Context → Service → M W Done
  pub delete_orphan_config : Context → Str → M W Done
  pub list : Context → M W (List Service)
  pub delete : Context → Str → M W Done
  pub list_names : Context → M W (List Str)

-- caddy.Reloader
pub record Reloader (W : Type 0) : Type 0 where
  pub validate : Context → Str → M W Done
  pub reload : Context → Str → M W Done

-- Dependencies of service.go, with what it calls directly: ids.NewDeployID, time.Now,
-- caddy.WriteStubIfMissing, os.Remove and os.Rename.
pub record Dependencies (W : Type 0) : Type 0 where
  pub caddyfile_path : Str
  pub driver : Driver W
  pub store : Store W
  pub capture : Context → Str → M W Env
  pub generate : Str → List Service → M W Done
  pub reloader : Reloader W
  pub wait : Context → Str → ReadinessSpec → ℤ → M W Done
  pub new_deploy_id : W → Str × W
  pub now : W → Time × W
  pub write_stub_if_missing : Str → M W Done
  pub os_remove : Str → M W Done
  pub os_rename : Str → Str → M W Done
