-- ===== src/Deploy/Constructor.antt =====
-- internal/deploy/service.go, newServiceDeployer: the dependencies are there, and the probe is filled in.
use decloud.Base.{ℤ, String, Str, Option, none, some, List}
use decloud.Errors.{Error, Result, ok, err, errorf, end, lit}
use decloud.Exec.{M}
use decloud.Registry.Types.{Env, ReadinessSpec, Service, Time}
use decloud.Deploy.Interface.{Context, Done, Driver, Store, Reloader, Dependencies}

abbrev pub Probe : Type 0 → Type 0
Probe W = Context → Str → ReadinessSpec → ℤ → M W Done

-- The dependencies as the constructor gets them: none is nil. The writers are left out; the last five
-- fields are functions of the program.
pub record Given (W : Type 0) : Type 0 where
  pub caddyfile_path : Str
  pub store : Option (Store W)
  pub driver : Option (Driver W)
  pub generate : Option (Str → List Service → M W Done)
  pub reloader : Option (Reloader W)
  pub probe : Option (Probe W)
  pub capture : Context → Str → M W Env
  pub new_deploy_id : W → Str × W
  pub now : W → Time × W
  pub write_stub_if_missing : Str → M W Done
  pub os_remove : Str → M W Done
  pub os_rename : Str → Str → M W Done

abbrev nil_error : String → Error
nil_error text = errorf (lit text end)

module _ {W : Type 0} (new_http_probe : Driver W → Probe W) where
  abbrev probe_of : Driver W → Option (Probe W) → Probe W
  probe_of driver none = new_http_probe driver
  probe_of driver (some probe) = probe

  unfoldable pub new_service_deployer : Given W → Result (Dependencies W)
  new_service_deployer given = elim given.store [
    | none ↦ err (nil_error "deploy: nil Store")
    | some store ↦ elim given.driver [
      | none ↦ err (nil_error "deploy: nil Driver")
      | some driver ↦ elim given.generate [
        | none ↦ err (nil_error "deploy: nil Generator")
        | some generate ↦ elim given.reloader [
          | none ↦ err (nil_error "deploy: nil Reloader")
          | some reloader ↦ ok (record {
            caddyfile_path = given.caddyfile_path;
            driver = driver;
            store = store;
            capture = given.capture;
            generate = generate;
            reloader = reloader;
            wait = probe_of driver given.probe;
            new_deploy_id = given.new_deploy_id;
            now = given.now;
            write_stub_if_missing = given.write_stub_if_missing;
            os_remove = given.os_remove;
            os_rename = given.os_rename;
          })
        ]
      ]
    ]
  ]
