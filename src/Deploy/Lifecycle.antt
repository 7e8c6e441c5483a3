-- ===== src/Deploy/Lifecycle.antt =====
-- internal/deploy/lifecycle.go: Unregister, Stop, Start, Restart, Status, StatusAll, Logs and
-- CaddyReload.
pub mod Laws
use decloud.Base.{Str, String, codes, ◌&&◌, not, List, [], ◌∷◌, if◌then◌else◌, str_eq}
use decloud.Errors.{
  Error, sentinel, errorf, end, lit, str, wrap, Result, ok, err, error_is, error_text, wrap_text,
  err_run, err_not_found, err_secrets_missing, err_container_not_found,
}
use decloud.Exec.{M, pure, raise, attempt, or_fail, ◌>>=◌, ◌>>◌}
use decloud.Registry.Types.{Service, Time}
use decloud.Docker.Types.{RunRequest, InspectResult, LogsOptions}
use decloud.Ids.{container_name}
use decloud.Deploy.Interface.{caller, Done, Dependencies}
use decloud.Deploy.Requests.{network_name, to_volume_mounts}
use decloud.Deploy.Service.{regenerate_and_reload}

pub record Status : Type 0 where
  pub name : Str
  pub container_id : Str
  pub container_name : Str
  pub state : Str
  pub last_deploy_id : Str
  pub last_deployed_at : Time
  pub error_detail : Str

-- fmt.Errorf("%w: <verb> %s: %w", ErrRun, containerName, err)
abbrev pub run_error : String → Str → Error → Error
run_error verb container e = errorf (
    wrap (sentinel err_run) (lit ": " (lit verb (lit " " (str container (lit ": " (wrap e end)))))))

-- A row with nothing but a name and a state.
abbrev pub bare_status : Str → Str → Str → Status
bare_status name state detail = record {
  name = name;
  container_id = [];
  container_name = [];
  state = state;
  last_deploy_id = [];
  last_deployed_at = 0;
  error_detail = detail;
}

-- The `switch state` of Status.
unfoldable pub shown_state : Str → Str
unfolding str_eq
shown_state s = if str_eq s (codes "exited") then codes "stopped" else s

module _ {W : Type 0} (d : Dependencies W) where
  abbrev after_load : Result Service → M W Done
  after_load (ok _) = pure tt
  after_load (err e) =
      if error_is e err_secrets_missing then pure tt else raise (wrap_text "loading service" e)

  unfoldable pub unregister : Str → M W Done
  unregister name = do
    loaded ← attempt (d.store.load caller name)
    after_load loaded
    attempt (d.driver.stop caller (container_name name) 10)
    attempt (d.driver.remove caller (container_name name))
    or_fail (wrap_text "deleting registry entry") (d.store.delete caller name)
    regenerate_and_reload d

  abbrev stop_error : Str → Error → Error
  stop_error container e =
      if error_is e err_container_not_found
      then wrap_text "stopping container" (sentinel err_not_found)
      else run_error "stop" container e

  unfoldable pub stop : Str → M W Done
  stop name =
      or_fail (stop_error (container_name name)) (d.driver.stop caller (container_name name) 10)

  abbrev pub start_request : Str → Service → RunRequest
  start_request name prev = record {
    name = container_name name;
    service = name;
    image = prev.config.build.image_ref;
    network = network_name;
    env = prev.secrets.env;
    restart = prev.config.run.restart;
    port = prev.config.run.port;
    volumes = to_volume_mounts prev.config.run.mounts;
  }

  unfoldable pub run_again : Str → Service → M W Done
  run_again name prev = do
    or_fail (run_error "run" (container_name name)) (d.driver.run caller (start_request name prev))
    pure tt

  -- The `switch inspect.State` of Start.
  unfoldable pub start_from : Str → Str → Service → M W Done
  start_from state name prev =
      if str_eq state (codes "running")
      then pure tt
      else if str_eq state (codes "exited")
      then or_fail (run_error "start" (container_name name))
          (d.driver.start caller (container_name name))
      else run_again name prev

  unfoldable pub start : Str → M W Done
  start name = do
    prev ← or_fail (wrap_text "loading service") (d.store.load caller name)
    inspected ←
        or_fail (run_error "inspect" (container_name name))
          (d.driver.inspect caller (container_name name))
    start_from inspected.state name prev

  abbrev after_stop : Result Done → M W Done
  after_stop (ok _) = pure tt
  after_stop (err e) = if not (error_is e err_not_found) then raise e else pure tt

  unfoldable pub restart : Str → M W Done
  restart name = do stopped ← attempt (stop name); after_stop stopped; start name

  abbrev pub status_of : Str → Service → InspectResult → Status
  status_of name prev inspected = record {
    name = prev.config.name;
    container_id = inspected.container_id;
    container_name = container_name name;
    state = shown_state inspected.state;
    last_deploy_id = prev.config.state.last_deploy_id;
    last_deployed_at = prev.config.last_deployed_at;
    error_detail = [];
  }

  abbrev status_loaded : Str → Result Service → M W Status
  status_loaded name (err e) =
      if error_is e err_secrets_missing
      then pure (bare_status name (codes "config-only") [])
      else raise (wrap_text "loading service" e)
  status_loaded name (ok prev) = do
    inspected ←
        or_fail (run_error "inspect" (container_name name))
          (d.driver.inspect caller (container_name name))
    pure (status_of name prev inspected)

  unfoldable pub status : Str → M W Status
  status name = do loaded ← attempt (d.store.load caller name); status_loaded name loaded

  -- One round of the loop of StatusAll: the row of a name, in front of the rows that follow.
  abbrev add_row : Str → Result Status → List Status → List Status
  add_row name (ok st) rows = st ∷ rows
  add_row name (err e) rows =
      if error_is e err_not_found
      then rows
      else bare_status name (codes "error") (error_text e) ∷ rows

  unfoldable pub status_rows : List Str → M W (List Status)
  status_rows [] = pure []
  status_rows (name ∷ names) = do
    st ← attempt (status name)
    rows ← status_rows names
    pure (add_row name st rows)

  unfoldable pub status_all : M W (List Status)
  status_all = do
    names ← or_fail (wrap_text "listing services") (d.store.list_names caller)
    status_rows names

  abbrev logs_error : Str → Error → Error
  logs_error container e =
      if error_is e err_container_not_found
      then wrap_text "logs" (sentinel err_not_found)
      else run_error "logs" container e

  unfoldable pub logs : Str → LogsOptions → M W Done
  logs name opts =
      or_fail (logs_error (container_name name)) (d.driver.logs caller (container_name name) opts)

  unfoldable pub caddy_reload : M W Done
  caddy_reload = regenerate_and_reload d
