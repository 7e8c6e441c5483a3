-- ===== src/Cli/Production.antt =====
-- buildProductionDeployer, buildProductionLifecycle and buildProductionCaddyManager of
-- internal/cli/deploy_service.go: the parts of the program, put together over one system.
pub mod Laws
pub mod Caddyfile
use decloud.Base.{ℕ, suc, ◌+◌, ◌/◌, ℤ, Str, codes, Option, none, some, List}
use decloud.Errors.{Error, Result, ok, err, sentinel, err_readiness}
use decloud.Exec.{M}
use decloud.Registry.Types.{ReadinessSpec, Time}
use decloud.Registry.Files.{Toml}
use decloud.Registry.Store.{fs_store}
use decloud.Os.{Files}
use decloud.Config.{Paths}
use decloud.Ids
use decloud.Docker.Cli.{Shell, cli_driver}
use decloud.Envcap.Capture.{Bash}
use decloud.Envcap.Capture
use decloud.Caddy.Stub.{write_stub_if_missing, generate}
use decloud.Caddy.Reloader.{cli_reloader}
use decloud.Caddy.Manager.{ManagerConfig}
use decloud.Deploy.Interface.{Context, Done, Driver, Dependencies}
use decloud.Deploy.Constructor.{Given, new_service_deployer}
use decloud.Deploy.Readiness.{Prober, interval_of, timeout_of}
use decloud.Deploy.Readiness
use decloud.Cli.StatusCommand.{Console}

-- What the program runs on: the docker command, the files, the TOML codec, the shell, the network
-- and the select of the readiness probe, the clock, random bytes, and the terminal.
pub record System (W : Type 0) : Type 0 where
  pub shell : Shell W
  pub files : Files W
  pub toml : Toml
  pub bash : Bash W
  pub round_trip : Context → Str → M W ℕ
  pub pause : Context → ℕ → M W Done
  pub clock : W → Time
  pub random : W → List ℕ × W
  pub console : Console W

module _ {W : Type 0} (sys : System W) where
  -- NewHTTPProbe, in a context.
  abbrev pub prober : Context → Prober W
  prober c = record {
    container_ip = (cli_driver sys.shell).container_ip c;
    round_trip = sys.round_trip c;
    now = sys.clock;
    pause = sys.pause c;
  }

  -- More rounds than intervals fit into the timeout.
  abbrev pub rounds : ReadinessSpec → ℕ
  rounds spec = timeout_of spec / interval_of spec + 1

  -- Rounds do not run out, so the result for that case is arbitrary.
  abbrev pub ended : W → Option (Result Done × W) → Result Done × W
  ended w none = (err (sentinel err_readiness), w)
  ended w (some r) = r

  unfoldable pub wait_ready : Context → Str → ReadinessSpec → ℤ → M W Done
  wait_ready c name spec port w =
      ended w (Readiness.wait (prober c) (suc (rounds spec)) name spec port w)

  abbrev dated : W → List ℕ × W → Str × W
  dated w (bytes, w') = (Ids.new_deploy_id (sys.clock w) bytes, w')

  -- What buildProductionDeployer and buildProductionLifecycle give to the constructor.
  abbrev given : Paths → Given W
  given paths = record {
    caddyfile_path = paths.caddyfile_path;
    store = some (fs_store sys.files sys.toml paths);
    driver = some (cli_driver sys.shell);
    generate = some (generate sys.files);
    reloader = some (cli_reloader (cli_driver sys.shell) paths.caddy_dir);
    probe = none;
    capture = Capture.capture sys.bash;
    new_deploy_id = λ w. dated w (sys.random w);
    now = λ w. (sys.clock w, w);
    write_stub_if_missing = write_stub_if_missing sys.files;
    os_remove = sys.files.remove;
    os_rename = sys.files.rename;
  }

  -- The constructor's driver is the one that the probe runs on.
  unfoldable pub build_production : Paths → Result (Dependencies W)
  build_production paths = new_service_deployer (λ driver. wait_ready) (given paths)

  unfoldable pub production : Paths → Dependencies W
  production paths = record {
    caddyfile_path = paths.caddyfile_path;
    driver = cli_driver sys.shell;
    store = fs_store sys.files sys.toml paths;
    capture = Capture.capture sys.bash;
    generate = generate sys.files;
    reloader = cli_reloader (cli_driver sys.shell) paths.caddy_dir;
    wait = wait_ready;
    new_deploy_id = λ w. dated w (sys.random w);
    now = λ w. (sys.clock w, w);
    write_stub_if_missing = write_stub_if_missing sys.files;
    os_remove = sys.files.remove;
    os_rename = sys.files.rename;
  }

  -- buildProductionCaddyManager
  unfoldable pub production_manager : Paths → ManagerConfig W
  production_manager paths = record {
    driver = cli_driver sys.shell;
    caddy_dir = paths.caddy_dir;
    caddyfile_path = paths.caddyfile_path;
    write_stub_if_missing = write_stub_if_missing sys.files;
  }
