-- ===== src/Cli/Commands.antt =====
-- internal/cli and cmd/decloud: each command's RunE over the production parts, and main. The
-- parsing of the command line is Cobra's.
use decloud.Base.{ℕ, Str, Option, none, some}
use decloud.Errors.{Result, ok, err, error_text}
use decloud.Exec.{M}
use decloud.Config.{Paths, new_paths}
use decloud.Docker.Types.{LogsOptions}
use decloud.Deploy.Interface.{Done}
use decloud.Deploy.Service.{deploy}
use decloud.Deploy.Lifecycle.{
  unregister, start, stop, restart, status, status_all, logs, caddy_reload,
}
use decloud.Caddy.Manager.{up, down}
use decloud.Logging.{init, Sink}
use decloud.Cli.ExitCodes.{exit_code_for}
use decloud.Cli.DeployCommand.{Flags, run_deploy_service}
use decloud.Cli.StatusCommand.{run_status_one, run_status_all}
use decloud.Cli.Production.{System, production, production_manager}

-- A command that Cobra has parsed, with its arguments and flags.
pub data Command : Type 0 where
  deploy_service : Flags → Str → Command
  unregister_cmd start_cmd stop_cmd restart_cmd : Str → Command
  status_cmd : Option Str → Command
  logs_cmd : Str → LogsOptions → Command
  caddy_up caddy_down caddy_reload_cmd : Command

module _ {W : Type 0} (sys : System W) where
  -- RunE of each command; the production factories do not fail.
  abbrev run_deploy : Paths → Flags → Str → M W Done
  run_deploy paths = run_deploy_service sys.files (deploy (production sys paths))

  abbrev run_unregister : Paths → Str → M W Done
  run_unregister paths = unregister (production sys paths)

  abbrev run_start : Paths → Str → M W Done
  run_start paths = start (production sys paths)

  abbrev run_stop : Paths → Str → M W Done
  run_stop paths = stop (production sys paths)

  abbrev run_restart : Paths → Str → M W Done
  run_restart paths = restart (production sys paths)

  abbrev run_status : Paths → Option Str → M W Done
  run_status paths (some name) = run_status_one sys.console (status (production sys paths) name)
  run_status paths none = run_status_all sys.console (status_all (production sys paths))

  abbrev run_logs : Paths → Str → LogsOptions → M W Done
  run_logs paths = logs (production sys paths)

  abbrev run_caddy_up : Paths → M W Done
  run_caddy_up paths = up (production_manager sys paths)

  abbrev run_caddy_down : Paths → M W Done
  run_caddy_down paths = down (production_manager sys paths)

  abbrev run_caddy_reload : Paths → M W Done
  run_caddy_reload paths = caddy_reload (production sys paths)

  unfoldable pub run_command : Paths → Command → M W Done
  run_command paths (deploy_service flags source) = run_deploy paths flags source
  run_command paths (unregister_cmd name) = run_unregister paths name
  run_command paths (start_cmd name) = run_start paths name
  run_command paths (stop_cmd name) = run_stop paths name
  run_command paths (restart_cmd name) = run_restart paths name
  run_command paths (status_cmd name) = run_status paths name
  run_command paths (logs_cmd name opts) = run_logs paths name opts
  run_command paths caddy_up = run_caddy_up paths
  run_command paths caddy_down = run_caddy_down paths
  run_command paths caddy_reload_cmd = run_caddy_reload paths

  -- PersistentPreRunE, which does not fail, and RunE.
  abbrev logged : Result Sink × W → W
  logged (_, w) = w

  unfoldable pub execute : Str → Str → Command → M W Done
  execute log_variable config_root command w =
      run_command (new_paths config_root) command
        (logged (init sys.files log_variable config_root w))

  abbrev reported : Done × W → W
  reported (_, w) = w

  abbrev exit_with : Result Done × W → ℕ × W
  exit_with (ok _, w) = (exit_code_for none, w)
  exit_with (err e, w) = (exit_code_for (some e), reported (sys.console.warn (error_text e) w))

  -- main: the exit code of the process.
  unfoldable pub main : Str → Str → Command → W → ℕ × W
  main log_variable config_root command w = exit_with (execute log_variable config_root command w)
