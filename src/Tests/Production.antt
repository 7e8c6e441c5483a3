-- ===== src/Tests/Production.antt =====
-- Runs of the flags, of the production probe and of the reloader on concrete inputs.
use decloud.Base.{
  ℕ, suc, ◌+◌, ◌^◌, ◌≤◌, ◌<◌, ◌≡◌, ◌≢◌, ◌↔◌, refl, ◌⊎◌, pos, Str, codes, true, false, some, List,
  [], ◌∷◌, ◌++◌, All, Any, arith, str_eq, contains_byte, has_prefix, split, if◌then◌else◌, ltb,
}
use decloud.Base.Split.{join}
use decloud.Base.Path.{is_abs, clean, clean_parts, path_join}
use decloud.Registry.Mount.{
  parse_mount_string, validate_mount, find_duplicate_target, duplicate_from, seen_at,
}
use decloud.Base.Path.Clean.{IsName, render}
use decloud.Errors.{ok, err, is_ok}
use decloud.Registry.Types.{ReadinessSpec}
use decloud.Os.{Files}
use decloud.Deploy.Interface.{caller}
use decloud.Deploy.Requests.{Request, readiness_spec}
use decloud.Deploy.Readiness.{Prober, attempt_probe, probe_once, interval_of, timeout_of, wait}
use decloud.Deploy.Readiness.Laws.{HasClock}
use decloud.Deploy.Readiness.Live.{BecomesReady, wait_succeeds, IsInt64, readiness_spec-IsInt64}
use decloud.Config.{new_paths}
use decloud.Config.Laws.{is_not_name-IsName}
use decloud.Docker.Cli.{Ran, cli_driver, container_ip}
use decloud.Envcap.Capture.{missing}
use decloud.Cli.DeployCommand.{
  Flags, check_flags, parse_mount_flags, parse_each, port_required, request_from, absolute,
  resolve_env_file,
}
use decloud.Cli.DeployCommand.Laws.{IsRequest, request_from-IsRequest}
use decloud.Cli.ExitCodes.{exit_ok}
use decloud.Cli.Commands.{start_cmd, deploy_service, execute, main}
use decloud.Cli.MainExit.{failures, main_exits, Verdict, refused_flags_exit}
use decloud.Cli.Production.{System, prober, rounds, wait_ready}
use decloud.Cli.Production.Laws.{wait_ready-wait}
use decloud.Cli.Production.Caddyfile.{execs, exec_caddy-execs}
use decloud.Caddy.Reloader.{translate_path, outside, exec_caddy}
use decloud.Caddy.Reloader.Laws.{container_names, translate_path-cases}
use decloud.Tests.Host.{blog, refused}
use decloud.Tests.Registry.{one_file, root, root-IsName}

-- A service that answers from the third second on: a world is a clock, and a request takes two
-- seconds.
abbrev late : Prober ℕ
late = record {
  container_ip = λ c w. (ok (codes "172.18.0.2"), w);
  round_trip = λ u w. (if ltb w 3_000_000_000 then err refused else ok 204, w + 2_000_000_000);
  now = λ w. w;
  pause = λ n w. (ok tt, w + n);
}

late-HasClock : HasClock late
late-HasClock = record {
  ip_later = λ c w. omega arith;
  trip_later = λ u w. omega arith;
  pause_later = λ n w h. omega arith;
}

late_quick :
    (container path : Str) (w : ℕ)
    → late.now (attempt_probe late container path blog.port w).1 ≤ late.now w + 2_000_000_000
unfolding attempt_probe probe_once str_eq
late_quick container path w = ground arith

late-BecomesReady :
    BecomesReady late
      (codes "decloud-blog")
      (codes "/healthz")
      blog.port
      3_000_000_000
      2_000_000_000
late-BecomesReady = record {
  ip = codes "172.18.0.2";
  ip_found = λ e. ground (arith, e);
  has_ip = λ w h. refl;
  status = 204;
  status_passes = (omega arith, omega arith);
  answers = λ w h. ground (arith, h);
  is_quick = λ w. late_quick (codes "decloud-blog") (codes "/healthz") w;
  not_cancelled = λ n w. refl;
}

abbrev patient : ReadinessSpec
patient = record {
  kind = codes "http";
  http_path = codes "/healthz";
  timeout_secs = pos 5;
  interval_secs = pos 1;
}

wait_succeeds_example :
    (w : ℕ) × (wait late 7 (codes "decloud-blog") patient blog.port 0 ≡ some (ok tt, w))
wait_succeeds_example =
    wait_succeeds late late-HasClock (codes "decloud-blog") (codes "/healthz") blog.port
      3_000_000_000 2_000_000_000 late-BecomesReady patient 6 0 refl (omega arith) (omega arith)

readiness_spec-IsInt64_example :
    IsInt64 (readiness_spec blog).timeout_secs
    × (timeout_of (readiness_spec blog) < 2 ^ 63)
    × (interval_of (readiness_spec blog) ≡ 1_000_000_000)
readiness_spec-IsInt64_example = readiness_spec-IsInt64 blog (omega arith)

abbrev no_answer : Ran
no_answer = record { failure = some refused; stdout = []; stderr = [] }

abbrev still_files : Files ℕ
still_files = record {
  read_file = λ p w. (err refused, w);
  stat_perm = λ p w. (err refused, w);
  mkdir_all = λ p m w. (err refused, w);
  chmod = λ p m w. (err refused, w);
  remove = λ p w. (err refused, w);
  rename = λ p q w. (err refused, w);
  read_dir = λ p w. (err refused, w);
  create_temp = λ d n w. (err refused, w);
  write = λ p s w. (err refused, w);
  close = λ p w. (err refused, w);
  write_file = λ p m s w. (err refused, w);
  open_append = λ p m w. (err refused, w);
  getwd = λ w. (ok (codes "/root"), w);
  now = λ w. (w, w);
}

-- A system in which nothing answers and time stands still but in a pause.
abbrev still : System ℕ
still = record {
  shell = record {
    docker = λ c args w. (no_answer, w);
    unmarshal = λ s. err refused;
    is_ip = λ s. false;
  };
  files = still_files;
  toml = one_file;
  bash = record { stat = λ p w. (missing, w); env = λ c args w. (no_answer, w) };
  round_trip = λ c u w. (err refused, w);
  pause = λ c n w. (ok tt, w + n);
  clock = λ w. w;
  random = λ w. ([], w);
  console = record { print = λ s w. (tt, w); flush = λ rows w. (ok tt, w); warn = λ s w. (tt, w) };
}

still_ip : (c : Str) (w : ℕ) → w ≤ ((cli_driver still.shell).container_ip caller c w).1
unfolding cli_driver container_ip
still_ip c w = omega arith

still-HasClock : HasClock (prober still caller)
still-HasClock = record {
  ip_later = λ c w. still_ip c w;
  trip_later = λ u w. omega arith;
  pause_later = λ n w h. omega arith;
}

wait_ready-wait_example :
    wait
      (prober still caller)
      (suc (rounds still patient))
      (codes "decloud-blog")
      patient
      blog.port
      0
    ≡ some (wait_ready still caller (codes "decloud-blog") patient blog.port 0)
wait_ready-wait_example =
    wait_ready-wait still caller still-HasClock (codes "decloud-blog") patient blog.port 0

-- Flags without a port, and flags with all that is needed.
abbrev portless : Flags
portless = record {
  name = codes "blog";
  hosts = codes "blog.example.com" ∷ [];
  port = pos 0;
  env_file = [];
  mounts = codes "/srv/blog:/data:ro" ∷ [];
  readiness_path = [];
  readiness_timeout = pos 60_000_000_000;
  strategy = codes "recreate";
  dockerfile = [];
  no_compression = false;
}

abbrev complete : Flags
complete = record portless { port = pos 8080; mounts = [] }

portless_refused : check_flags portless ≡ err port_required
unfolding check_flags parse_mount_flags parse_each parse_mount_string validate_mount
    find_duplicate_target duplicate_from seen_at str_eq
portless_refused = refl

refused_flags_exit_example :
    Verdict portless (main still [] [] (deploy_service portless (codes "src")) 0).0
refused_flags_exit_example = refused_flags_exit still [] [] (codes "src") portless 0

still_cwd : (dir : Str) (w : ℕ) → (still_files.getwd w).0 ≡ ok dir → is_abs dir ≡ true
unfolding is_abs has_prefix
still_cwd dir w e = let here : codes "/root" ≡ dir = ground (arith, e) in rw (← here) refl

abbrev made : Request
made = record {
  name = codes "blog";
  source_dir = codes "/root/src/blog";
  dockerfile = codes "/root/src/blog/Dockerfile";
  hosts = codes "blog.example.com" ∷ [];
  port = pos 8080;
  env_file = [];
  mounts = [];
  readiness_path = [];
  readiness_timeout = pos 60_000_000_000;
  strategy = codes "recreate";
  disable_compression = false;
}

complete_request : (request_from still_files complete (codes "src/blog") 0).0 ≡ ok made
unfolding request_from check_flags parse_mount_flags parse_each find_duplicate_target duplicate_from
    seen_at absolute resolve_env_file path_join clean clean_parts split join is_abs has_prefix
    str_eq
complete_request = refl

request_from-IsRequest_example : IsRequest complete made
request_from-IsRequest_example =
    request_from-IsRequest still_files still_cwd complete (codes "src/blog") 0 made complete_request

caddy-IsName : All IsName (codes "opt" ∷ codes "caddy" ∷ [])
caddy-IsName =
    (root-IsName.0, (is_not_name-IsName (codes "caddy") (unfold contains_byte str_eq in refl), tt))

-- A path beside the directory, and the Caddyfile of the program.
translate_path-cases_example :
    ((F : List Str) × (root ≡ (codes "opt" ∷ codes "caddy" ∷ []) ++ F)
      × (translate_path (render (codes "opt" ∷ codes "caddy" ∷ [])) (render root)
          ≡ ok (render (container_names ++ F))))
    ⊎ (((F : List Str) → root ≢ (codes "opt" ∷ codes "caddy" ∷ []) ++ F)
        × (translate_path (render (codes "opt" ∷ codes "caddy" ∷ [])) (render root)
            ≡ err (outside (render root) (render (codes "opt" ∷ codes "caddy" ∷ [])))))
translate_path-cases_example =
    translate_path-cases (codes "opt" ∷ codes "caddy" ∷ []) root caddy-IsName root-IsName

exec_caddy-execs_example :
    (exec_caddy
        (cli_driver still.shell)
        (new_paths (render root)).caddy_dir
        caller
        (codes "reload")
        (new_paths (render root)).caddyfile_path
        0
      ≡ execs root root-IsName
          (cli_driver still.shell)
          caller
          (codes "reload")
          (codes "/etc/caddy/Caddyfile")
          0)
    × (exec_caddy
          (cli_driver still.shell)
          (new_paths (render root)).caddy_dir
          caller
          (codes "reload")
          ((new_paths (render root)).caddyfile_path ++ codes ".tmp")
          0
        ≡ execs root root-IsName
            (cli_driver still.shell)
            caller
            (codes "reload")
            (codes "/etc/caddy/Caddyfile.tmp")
            0)
exec_caddy-execs_example =
    exec_caddy-execs root root-IsName (cli_driver still.shell) caller (codes "reload") 0

main_exits_example :
    let r = main still [] [] (start_cmd (codes "blog")) 0 in
    let ran = execute still [] [] (start_cmd (codes "blog")) 0 in
    ((r.0 ≡ exit_ok) ↔ (is_ok ran.0 ≡ true)) × (r.0 ≢ exit_ok → Any (λ code. r.0 ≡ code) failures)
main_exits_example = main_exits still [] [] (start_cmd (codes "blog")) 0
