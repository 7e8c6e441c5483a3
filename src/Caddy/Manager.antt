-- ===== src/Caddy/Manager.antt =====
-- internal/caddy/manager.go: Up, Down and IsRunning of the decloud-caddy container. The lines that
-- they print are left out.
pub mod Laws
use decloud.Base.{
  ℕ, pos, Str, String, codes, Bool, true, false, ◌||◌, List, [], ◌∷◌, if◌then◌else◌, str_eq,
  contains,
}
use decloud.Errors.{
  Error, sentinel, errorf, end, lit, quoted, wrap, Result, ok, err, error_is, error_text, wrap_step,
  err_caddy_up, err_caddy_down, err_container_not_found,
}
use decloud.Exec.{M, pure, raise, attempt, or_fail, ◌>>=◌, ◌>>◌}
use decloud.Docker.Types.{PortMap, VolumeMount, RunOptions, InspectResult}
use decloud.Deploy.Interface.{caller, Done, Driver}

-- ContainerName, NetworkName and DefaultImage
abbrev pub caddy_container : Str
caddy_container = codes "decloud-caddy"

abbrev pub caddy_network : Str
caddy_network = codes "decloud"

abbrev pub default_image : Str
default_image = codes "caddy:2"

-- ManagerConfig, with WriteStubIfMissing.
pub record ManagerConfig (W : Type 0) : Type 0 where
  pub driver : Driver W
  pub caddy_dir : Str
  pub caddyfile_path : Str
  pub write_stub_if_missing : Str → M W Done

abbrev port_map : String → ℕ → String → PortMap
port_map bind port proto = record {
  host_bind = codes bind;
  host_port = pos port;
  container_port = pos port;
  proto = codes proto;
}

unfoldable pub is_ports_bound_err : Error → Bool
unfolding error_text contains
is_ports_bound_err e =
    contains (error_text e) (codes "address already in use")
    || contains (error_text e) (codes "port is already allocated")

unfoldable pub ports_bound : Error
ports_bound = errorf (
    wrap (sentinel err_caddy_up) (
      lit
        ": ports 80/443 already in use; if you ran the M1.0 install, run 'systemctl disable --now caddy && systemctl mask caddy' or 'apt-get remove -y caddy' to make the change persistent"
        end))

abbrev unexpected : Str → Error
unexpected state =
    errorf (wrap (sentinel err_caddy_up) (lit ": unexpected container state " (quoted state end)))

module _ {W : Type 0} (m : ManagerConfig W) where
  unfoldable pub run_opts : RunOptions
  run_opts = record {
    name = caddy_container;
    service = codes "caddy";
    image = default_image;
    network = caddy_network;
    restart = codes "unless-stopped";
    ports =
        port_map "0.0.0.0" 80 "tcp"
        ∷ port_map "[::]" 80 "tcp"
        ∷ port_map "0.0.0.0" 443 "tcp"
        ∷ port_map "[::]" 443 "tcp"
        ∷ port_map "0.0.0.0" 443 "udp"
        ∷ port_map "[::]" 443 "udp"
        ∷ [];
    volumes =
        record {
          source = m.caddy_dir;
          target = codes "/etc/caddy";
          read_only = true;
          is_named = false;
        }
        ∷ record {
          source = codes "decloud_caddy_data";
          target = codes "/data";
          read_only = false;
          is_named = true;
        }
        ∷ record {
          source = codes "decloud_caddy_config";
          target = codes "/config";
          read_only = false;
          is_named = true;
        }
        ∷ [];
    labels = (codes "decloud.managed", codes "caddy") ∷ [];
    env = [];
  }

  abbrev run_error : Error → Error
  run_error e = if is_ports_bound_err e then ports_bound else wrap_step err_caddy_up "docker run" e

  -- What follows the switch of Up: the container is absent.
  unfoldable pub pull_and_run : M W Done
  pull_and_run = do
    or_fail (wrap_step err_caddy_up "image pull") (m.driver.image_pull caller default_image)
    or_fail run_error (m.driver.run_with_options caller run_opts)
    pure tt

  -- The switch of Up.
  unfoldable pub up_from : Str → M W Done
  up_from state =
      if str_eq state (codes "running")
      then pure tt
      else if str_eq state (codes "exited")
      then or_fail (wrap_step err_caddy_up "start") (m.driver.start caller caddy_container)
      else if str_eq state (codes "absent")
      then pull_and_run
      else raise (unexpected state)

  unfoldable pub up : M W Done
  up = do
    or_fail (wrap_step err_caddy_up "network ensure") (m.driver.network_ensure caller caddy_network)
    or_fail (wrap_step err_caddy_up "stub write") (m.write_stub_if_missing m.caddyfile_path)
    inspected ← or_fail (wrap_step err_caddy_up "inspect") (m.driver.inspect caller caddy_container)
    up_from inspected.state

  -- An error that is not that of an absent container is returned.
  abbrev unless_absent : String → Result Done → M W Done
  unless_absent step (ok _) = pure tt
  unless_absent step (err e) =
      if error_is e err_container_not_found
      then pure tt
      else raise (wrap_step err_caddy_down step e)

  unfoldable pub down : M W Done
  down = do
    stopped ← attempt (m.driver.stop caller caddy_container 10)
    unless_absent "stop" stopped
    removed ← attempt (m.driver.remove caller caddy_container)
    unless_absent "remove" removed

  unfoldable pub is_running : M W Bool
  is_running = do
    inspected ← m.driver.inspect caller caddy_container
    pure (str_eq inspected.state (codes "running"))
