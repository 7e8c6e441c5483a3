-- ===== src/Tests/Host.antt =====
-- A small host for the tests: a world is the container of each name, and the rest of the
-- environment answers as it is told. What it does is what the laws of Deploy/Host.antt ask.
use decloud.Base.{
  ◌≡◌, refl, inl, inr, pos, Str, codes, true, false, Option, none, some, Option-cases, [], ◌∷◌,
  arith, if◌then◌else◌, str_eq, str_eq_refl,
}
use decloud.Errors.{
  Error, Result, ok, err, is_ok, sentinel, errorf, lit, end, err_container_not_found, err_not_found,
}
use decloud.Exec.{M}
use decloud.Registry.Types.{Service}
use decloud.Docker.Types.{RunRequest, InspectResult}
use decloud.Deploy.Interface.{Context, caller, cleanup, Done, Dependencies}
use decloud.Deploy.Requests.{Request, registration}
use decloud.Deploy.Host.{Container, HasContainers, CleansUp, IsStopped, RefusesUsedNames}
use decloud.Deploy.Lifecycle.Laws.{TellsTruth, is_up}
use decloud.Deploy.Trace.Predicates.{LoadsByName}

abbrev pub World : Type 0
World = Str → Option Container

abbrev pub put : Str → Option Container → World → World
put n c w m = if str_eq n m then c else w m

abbrev pub empty : World
empty m = none

abbrev pub refused : Error
refused = errorf (lit "refused" end)

abbrev pub blog : Request
blog = record {
  name = codes "blog";
  source_dir = codes "/src/blog";
  dockerfile = codes "Dockerfile";
  hosts = codes "blog.example.com" ∷ [];
  port = pos 8080;
  env_file = [];
  mounts = [];
  readiness_path = [];
  readiness_timeout = pos 1_000_000_000;
  strategy = codes "recreate";
  disable_compression = false;
}

-- A registration that an earlier deployment left under this name.
abbrev pub registered : Str → Service
registered n =
    let s = registration blog (codes "d1") (codes "blog:d1") [] 5 in
    record { config = record s.config { name = n }; secrets = s.secrets }

abbrev pub up : RunRequest → Option Container
up r = some (record { request = r; is_running = true })

abbrev pub state_of : Option Container → InspectResult
state_of none = record { container_id = []; state = codes "absent"; labels = [] }
state_of (some c) = record {
  container_id = codes "c1";
  state = if c.is_running then codes "running" else codes "exited";
  labels = (codes "decloud.service", c.request.service) ∷ [];
}

-- docker stop
abbrev halt : Option Container → Option Container
halt none = none
halt (some c) = some (record c { is_running = false })

-- docker rm refuses a container that runs.
abbrev removed : Str → Option Container → World → Result Done × World
removed n none w = (err (sentinel err_container_not_found), w)
removed n (some c) w = if c.is_running then (err refused, w) else (ok tt, put n none w)

-- docker run
abbrev pub run_free : Context → RunRequest → M World Str
run_free c r w = elim (w r.name) [
  | none ↦ (ok (codes "c1"), put r.name (up r) w)
  | some _ ↦ (err refused, w)
]

-- docker run that fails to start a container for the caller
abbrev pub run_stuck : Context → RunRequest → M World Str
run_stuck caller r w =
    (err refused, put r.name (some (record { request = r; is_running = false })) w)
run_stuck cleanup r w = run_free cleanup r w

abbrev pub start_known : Context → Str → M World Done
start_known c n w = elim (w n) [
  | none ↦ (err (sentinel err_container_not_found), w)
  | some k ↦ (ok tt, put n (some (record k { is_running = true })) w)
]

-- What the host answers.
pub record Answers : Type 0 where
  pub runs : Context → RunRequest → M World Str
  pub builds : Result Str
  pub loads : Str → Result Service
  pub waits : Result Done

abbrev pub host : Answers → Dependencies World
host a = record {
  caddyfile_path = codes "/etc/decloud/Caddyfile";
  driver = record {
    build = λ c r w. (a.builds, w);
    run = a.runs;
    stop = λ c n s w. (ok tt, put n (halt (w n)) w);
    start = start_known;
    remove = λ c n w. removed n (w n) w;
    inspect = λ c n w. (ok (state_of (w n)), w);
    logs = λ c n o w. (ok tt, w);
    network_ensure = λ c n w. (ok tt, w);
    container_ip = λ c n w. (ok (codes "172.18.0.2"), w);
    image_pull = λ c n w. (ok tt, w);
    run_with_options = λ c o w. (ok [], w);
    exec = λ c o w. (record { result = ok tt; stderr = [] }, w);
  };
  store = record {
    load = λ c n w. (a.loads n, w);
    save = λ c s w. (ok tt, w);
    delete_orphan_config = λ c n w. (ok tt, w);
    list = λ c w. (ok (registered (codes "blog") ∷ []), w);
    delete = λ c n w. (ok tt, w);
    list_names = λ c w. (ok (codes "blog" ∷ codes "shop" ∷ []), w);
  };
  capture = λ c p w. (ok [], w);
  generate = λ p s w. (ok tt, w);
  reloader = record { validate = λ c p w. (ok tt, w); reload = λ c p w. (ok tt, w) };
  wait = λ c n s p w. (a.waits, w);
  new_deploy_id = λ w. (codes "d2", w);
  now = λ w. (7, w);
  write_stub_if_missing = λ p w. (ok tt, w);
  os_remove = λ p w. (ok tt, w);
  os_rename = λ p q w. (ok tt, w);
}

abbrev pub container : World → Str → Option Container
container w n = w n

pub put_same : (n : Str) (c : Option Container) (w : World) → put n c w n ≡ c
put_same n c w = ground (arith, str_eq_refl n)

halt-IsStopped : (c : Option Container) → IsStopped (halt c)
halt-IsStopped none = tt
halt-IsStopped (some c) = refl

removed_ok :
    (n : Str) (w : World) (c : Option Container)
    → w n ≡ c
    → is_ok (removed n c w).0 ≡ true
    → (removed n c w).1 n ≡ none
removed_ok n w none e h = e
removed_ok n w (some c) e h = ground (arith, h, put_same n none w)

removed_stopped :
    (n : Str) (w : World) (c : Option Container)
    → w n ≡ c
    → IsStopped c
    → (removed n c w).1 n ≡ none
removed_stopped n w none e h = e
removed_stopped n w (some c) e h = ground (arith, h, put_same n none w)

abbrev pub is_known : Str → Result Service
is_known n = ok (registered n)

abbrev pub is_unknown : Str → Result Service
is_unknown n = err (sentinel err_not_found)

-- A host on which everything comes through, but for the probe.
abbrev pub healthy : (Str → Result Service) → Result Done → Answers
healthy loads waits = record { runs = run_free; builds = ok []; loads = loads; waits = waits }

-- A host on which `docker run` leaves what it created.
abbrev pub stuck : Answers
stuck = record { runs = run_stuck; builds = ok []; loads = is_known; waits = ok tt }

module _ (loads : Str → Result Service) (waits : Result Done) where
  pub healthy-HasContainers : HasContainers (host (healthy loads waits)) container
  healthy-HasContainers = record {
    run_ok = λ c r w h. ground (arith, put_same r.name (up r) w);
    remove_ok = λ c n w h. removed_ok n w (w n) refl h;
    save_keeps = λ c s w n. refl;
    delete_keeps = λ c s w n. refl;
    list_keeps = λ c w n. refl;
    generate_keeps = λ p s w n. refl;
    stub_keeps = λ p w n. refl;
    os_remove_keeps = λ p w n. refl;
    rename_keeps = λ p q w n. refl;
    validate_keeps = λ c p w n. refl;
    reload_keeps = λ c p w n. refl;
    now_keeps = λ w n. refl;
    wait_keeps = λ c m s p w n. refl;
  }

  pub healthy-CleansUp : CleansUp (host (healthy loads waits)) container
  healthy-CleansUp = record {
    cleanup_stops = λ n s w. rw (put_same n (halt (w n)) w) (halt-IsStopped (w n));
    cleanup_removes = λ n w h. removed_stopped n w (w n) refl h;
    cleanup_runs = λ r w k h. ground arith;
  }

  running_up :
      (c : Option Container) → str_eq (state_of c).state (codes "running") ≡ true → is_up c ≡ true
  unfolding str_eq
  running_up none h = cc
  running_up (some c) h = elim (Option-cases (some c)) [
    | inl _ ↦ ground arith
    | inr _ ↦ ground arith
  ]

  pub healthy-TellsTruth : TellsTruth (host (healthy loads waits)) container
  healthy-TellsTruth = record {
    inspect_running = λ n w r h s. running_up (w n) (ground arith);
    start_ok = λ n w h. ground (arith, str_eq_refl n);
  }

pub stuck-RefusesUsedNames : RefusesUsedNames (host stuck) container
stuck-RefusesUsedNames r w c h = (ground arith, ground arith)

pub healthy-LoadsByName : (waits : Result Done) → LoadsByName (host (healthy is_known waits))
healthy-LoadsByName waits n w p h = ground arith
