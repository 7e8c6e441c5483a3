-- ===== src/Tests/Readings.antt =====
-- Runs of the probe, of the readers of mounts and dumps, and of the exit codes on concrete inputs.
use decloud.Base.{
  ◌≡◌, ◌↔◌, refl, ℕ, ◌+◌, ◌*◌, ◌<◌, codes, true, false, Option, none, some, List, [], ◌∷◌, ◌++◌,
  All, arith, str_eq, contains_byte,
}
use decloud.Errors.{Error, sentinel, Result, ok, err, is_cancellation, canceled}
use decloud.Registry.Types.{Env, Mount, ReadinessSpec}
use decloud.Registry.Mount.{
  validate_mount, validate_mounts, seen_at, duplicate_from, find_duplicate_target,
  parse_mount_string, volume_name_re,
}
use decloud.Registry.Mount.Laws.{IsWellFormed, Distinct, validate_mounts_iff}
use decloud.Docker.Args.{format_volume}
use decloud.Envcap.Dump.{lookup}
use decloud.Envcap.Laws.{DistinctKeys, IsPrintable}
use decloud.Deploy.Interface.{Dependencies, Done, caller}
use decloud.Deploy.Requests.{whole_seconds, binade, to_volume_mount, readiness_spec}
use decloud.Deploy.Mounts.{
  parse_mount_string-format, parse_mount_string_sound, format_volume_ambiguous,
}
use decloud.Deploy.Service.{await_ready}
use decloud.Deploy.Readiness.{
  Prober, attempt_probe, interval_of, timeout_of, wait, wait_loop, probe_once,
}
use decloud.Deploy.Readiness.Laws.{HasClock, wait-Fate, Fate}
use decloud.Deploy.Readiness.Hung.{IsHung, hung_service_exit, timed_out}
use decloud.Cli.ExitCodes.{exit_code_for, exit_interrupted}
use decloud.Ids.{new_deploy_id}
use decloud.Ids.Format.{HasFormat, IsByte, new_deploy_id-HasFormat}
use decloud.Tests.Host.{blog, refused}

-- A world that is a clock: a request takes two seconds, and every address is known.
abbrev prober : Result ℕ → Prober ℕ
prober answer = record {
  container_ip = λ c w. (ok (codes "172.18.0.2"), w);
  round_trip = λ u w. (answer, w + 2_000_000_000);
  now = λ w. w;
  pause = λ n w. (ok tt, w + n);
}

prober-HasClock : (answer : Result ℕ) → HasClock (prober answer)
prober-HasClock answer = record {
  ip_later = λ c w. omega arith;
  trip_later = λ u w. omega arith;
  pause_later = λ n w h. omega arith;
}

abbrev hung : Prober ℕ
hung = prober (err timed_out)

abbrev answering : Prober ℕ
answering = prober (ok 204)

hung-IsHung : IsHung hung
hung-IsHung = record {
  ip = codes "172.18.0.2";
  ip_found = λ e. ground arith;
  has_ip = λ c w. refl;
  no_answer = λ u w. refl;
  not_cancelled = λ n w. refl;
}

abbrev spec : ReadinessSpec
spec = readiness_spec blog

short_spec : timeout_of spec < 2 * interval_of spec
unfolding whole_seconds binade
short_spec = omega arith

-- The fraction of this many nanoseconds is rounded up to the next second.
rounded_up : whole_seconds 16_777_216_999_999_999 ≡ 16_777_217
unfolding whole_seconds binade
rounded_up = refl

answered_at_once :
    wait answering 1 (codes "decloud-blog") spec blog.port 0 ≡ some (ok tt, 2_000_000_000)
unfolding wait wait_loop attempt_probe probe_once str_eq
answered_at_once = refl

wait-Fate_example :
    Fate answering
      (codes "decloud-blog")
      spec.http_path
      blog.port
      (interval_of spec)
      (timeout_of spec)
      (ok tt)
      2_000_000_000
wait-Fate_example =
    wait-Fate answering 1 (codes "decloud-blog") spec blog.port 0 2_000_000_000 (ok tt)
      answered_at_once

abbrev ran_out : Option (Result Done × ℕ) → Result Done × ℕ
ran_out none = (ok tt, 0)
ran_out (some r) = r

-- Every dependency comes through but the probe of a service that hangs.
abbrev hanging : Dependencies ℕ
hanging = record {
  caddyfile_path = [];
  driver = record {
    build = λ c r w. (ok [], w);
    run = λ c r w. (ok [], w);
    stop = λ c n s w. (ok tt, w);
    start = λ c n w. (ok tt, w);
    remove = λ c n w. (ok tt, w);
    inspect = λ c n w. (err refused, w);
    logs = λ c n o w. (ok tt, w);
    network_ensure = λ c n w. (ok tt, w);
    container_ip = λ c n w. (ok [], w);
    image_pull = λ c n w. (ok tt, w);
    run_with_options = λ c o w. (ok [], w);
    exec = λ c o w. (record { result = ok tt; stderr = [] }, w);
  };
  store = record {
    load = λ c n w. (err refused, w);
    save = λ c s w. (ok tt, w);
    delete_orphan_config = λ c n w. (ok tt, w);
    list = λ c w. (ok [], w);
    delete = λ c n w. (ok tt, w);
    list_names = λ c w. (ok [], w);
  };
  capture = λ c p w. (ok [], w);
  generate = λ p s w. (ok tt, w);
  reloader = record { validate = λ c p w. (ok tt, w); reload = λ c p w. (ok tt, w) };
  wait = λ c n s p w. ran_out (wait hung 3 n s p w);
  new_deploy_id = λ w. ([], w);
  now = λ w. (w, w);
  write_stub_if_missing = λ p w. (ok tt, w);
  os_remove = λ p w. (ok tt, w);
  os_rename = λ p q w. (ok tt, w);
}

hung_wait :
    wait hung 3 (codes "decloud-blog") spec blog.port 0
    ≡ some (hanging.wait caller (codes "decloud-blog") spec blog.port 0)
unfolding wait wait_loop attempt_probe probe_once str_eq whole_seconds binade
hung_wait = refl

hung_service_exit_example :
    (e : Error) × ((await_ready hanging (codes "decloud-blog") blog none 0).0 ≡ err e)
    × (exit_code_for (some e) ≡ exit_interrupted)
hung_service_exit_example =
    hung_service_exit hung (prober-HasClock (err timed_out)) hung-IsHung hanging blog none
      (codes "decloud-blog") 2 0 short_spec hung_wait

abbrev data_mount : Mount
data_mount = record {
  host_path = codes "blog_data";
  container_path = codes "/data";
  read_only = true;
}

abbrev etc_mount : Mount
etc_mount = record {
  host_path = codes "/srv/etc";
  container_path = codes "/etc/blog";
  read_only = false;
}

data_mount_valid : validate_mount data_mount ≡ none
unfolding validate_mount volume_name_re str_eq
data_mount_valid = refl

data_mount_plain :
    (contains_byte b':' data_mount.host_path ≡ false)
    × (contains_byte b':' data_mount.container_path ≡ false)
unfolding contains_byte
data_mount_plain = (refl, refl)

parse_mount_string-format_example :
    parse_mount_string (format_volume (to_volume_mount data_mount)) ≡ ok data_mount
parse_mount_string-format_example =
    parse_mount_string-format data_mount data_mount_plain.0 data_mount_plain.1 data_mount_valid

parsed_mount : parse_mount_string (codes "/srv/etc:/etc/blog") ≡ ok etc_mount
unfolding parse_mount_string validate_mount str_eq
parsed_mount = refl

parse_mount_string_sound_example :
    (format_volume (to_volume_mount etc_mount) ≡ codes "/srv/etc:/etc/blog")
    × (validate_mount etc_mount ≡ none)
parse_mount_string_sound_example =
    parse_mount_string_sound (codes "/srv/etc:/etc/blog") etc_mount parsed_mount

format_volume_ambiguous_example :
    let plain : Mount = record {
      host_path = codes "blog_data";
      container_path = codes "/data" ++ codes ":ro";
      read_only = false;
    } in
    (validate_mount plain ≡ none)
    × (format_volume (to_volume_mount plain) ≡ format_volume (to_volume_mount data_mount))
format_volume_ambiguous_example =
    format_volume_ambiguous (codes "blog_data") (codes "/data") data_mount_valid

validate_mounts_iff_example :
    (validate_mounts (data_mount ∷ etc_mount ∷ []) (codes "blog") (codes "blog.config.toml") ≡ none)
    ↔ (All IsWellFormed (data_mount ∷ etc_mount ∷ []) × Distinct (data_mount ∷ etc_mount ∷ []))
validate_mounts_iff_example =
    validate_mounts_iff (data_mount ∷ etc_mount ∷ []) (codes "blog") (codes "blog.config.toml")

abbrev doubled : List Mount
doubled = data_mount ∷ etc_mount ∷ data_mount ∷ []

doubled_found : find_duplicate_target doubled ≡ some (0, 2)
unfolding find_duplicate_target duplicate_from seen_at str_eq
doubled_found = refl

abbrev set_env : Env
set_env = (codes "PATH", codes "/bin") ∷ (codes "TOKEN", codes "a=b") ∷ []

set_env-Printable : IsPrintable set_env × DistinctKeys set_env
unfolding contains_byte lookup str_eq
set_env-Printable = ((refl, refl, refl, (refl, refl, refl, tt)), (refl, (refl, tt)))

canceled_is_cancellation : is_cancellation (sentinel canceled) ≡ true
unfolding is_cancellation
canceled_is_cancellation = refl

new_deploy_id-HasFormat_example :
    HasFormat (new_deploy_id 0 (171 ∷ 0 ∷ 255 ∷ []))
    × ((other : List ℕ)
        → All IsByte other
        → new_deploy_id 0 (171 ∷ 0 ∷ 255 ∷ []) ≡ new_deploy_id 0 other
        → (171 ∷ 0 ∷ 255 ∷ []) ≡ other)
new_deploy_id-HasFormat_example =
    new_deploy_id-HasFormat 0 (171 ∷ 0 ∷ 255 ∷ []) refl
      (ground arith, (ground arith, (ground arith, tt)))
