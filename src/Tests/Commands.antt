-- ===== src/Tests/Commands.antt =====
-- Runs of the docker driver, of the decloud-caddy container, of the capture of an environment and of
-- the Caddyfile's rows on concrete inputs.
use decloud.Base.{
  ◌≡◌, refl, pos, Str, codes, Bool, true, false, none, some, List, [], ◌∷◌, arith, str_eq,
  contains_byte, if◌then◌else◌, trim_space,
}
use decloud.Errors.{Error, Result, ok, err, is_ok, error_is, err_caddy_up, wrap_step}
use decloud.Registry.Types.{Env}
use decloud.Docker.Types.{RunRequest, InspectResult, LogsOptions, ExecOptions}
use decloud.Docker.Args.{run_args, check_service}
use decloud.Docker.Cli.{Ran, Shell, cli_driver, run, inspect, command_error}
use decloud.Docker.Args.Order.{run_args-Perm}
use mathlib.Core.List.Perm
use decloud.Deploy.Interface.{Done, Dependencies, caller}
use decloud.Deploy.Requests.{run_request}
use decloud.Deploy.Service.{run_new}
use decloud.Cli.ExitCodes.{exit_code_for, exit_run_fail}
use decloud.Cli.DeployExit.{IsPlain, killed_run_exit}
use decloud.Caddy.Manager.{ManagerConfig, up, up_from, pull_and_run, down}
use decloud.Caddy.Manager.Laws.{Observes, up_runs}
use decloud.Envcap.Dump.{lookup, is_bash_internal, same_as}
use decloud.Envcap.Laws.{dump, DistinctKeys, IsPrintable}
use decloud.Envcap.Capture.{Bash, found, capture}
use decloud.Envcap.Capture.Laws.{capture_sees}
use decloud.Tests.Host.{blog, refused}

-- A shell that always leaves the same behind.
abbrev shell : Ran → Shell Done
shell ran = record {
  docker = λ c args w. (ran, w);
  unmarshal = λ s. ok (record { container_id = s; state = codes "running"; labels = [] });
  is_ip = λ s. true;
}

abbrev broken : Ran
broken = record { failure = some refused; stdout = []; stderr = codes "cannot connect" }

abbrev printed : Ran
printed = record { failure = none; stdout = codes "c1"; stderr = [] }

abbrev last_lines : LogsOptions
last_lines = record { follow = false; tail = pos 10 }

abbrev reload : ExecOptions
reload = record { container = codes "decloud-caddy"; cmd = codes "caddy" ∷ codes "reload" ∷ [] }

abbrev request : RunRequest
request = run_request blog (codes "decloud-blog:d2") []

abbrev run_failure : Error
run_failure = command_error "run" refused (codes "cannot connect")

run_broken : ((cli_driver (shell broken)).run caller request tt).0 ≡ err run_failure
unfolding cli_driver run run_args check_service str_eq contains_byte
run_broken = refl

abbrev shown : InspectResult
shown = record { container_id = codes "c1"; state = codes "running"; labels = [] }

inspect_printed : ((cli_driver (shell printed)).inspect caller (codes "a") tt).0 ≡ ok shown
unfolding cli_driver inspect trim_space
inspect_printed = refl

-- The driver that runs `docker`, with everything else of no account.
abbrev commanded : Dependencies Done
commanded = record {
  caddyfile_path = [];
  driver = cli_driver (shell broken);
  store = record {
    load = λ c n w. (err refused, w);
    save = λ c s w. (ok tt, w);
    delete_orphan_config = λ c n w. (ok tt, w);
    list = λ c w. (ok [], w);
    delete = λ c n w. (ok tt, w);
    list_names = λ c w. (ok [], w);
  };
  capture = λ c p w. (ok [], w);
  generate = λ p s w. (ok tt, w);
  reloader = record { validate = λ c p w. (ok tt, w); reload = λ c p w. (ok tt, w) };
  wait = λ c n s p w. (ok tt, w);
  new_deploy_id = λ w. ([], w);
  now = λ w. (7, w);
  write_stub_if_missing = λ p w. (ok tt, w);
  os_remove = λ p w. (ok tt, w);
  os_rename = λ p q w. (ok tt, w);
}

abbrev args_of : Result (List Str) → List Str
args_of (ok args) = args
args_of (err e) = []

request_args : run_args request ≡ ok (args_of (run_args request))
unfolding run_args check_service str_eq contains_byte
request_args = refl

refused-IsPlain : IsPlain refused
unfolding error_is
refused-IsPlain s = refl

killed_run_exit_example :
    (e : Error) × ((run_new commanded request none tt).0 ≡ err e)
    × (exit_code_for (some e) ≡ exit_run_fail)
killed_run_exit_example =
    killed_run_exit (shell broken) commanded (λ r w. refl) request none (args_of (run_args request))
      tt refused request_args refl refused-IsPlain

-- A world that is whether the decloud-caddy container runs; the network's call answers as told.
abbrev manager : Result Done → ManagerConfig Bool
manager network = record {
  driver = record {
    build = λ c r w. (ok [], w);
    run = λ c r w. (ok [], w);
    stop = λ c n s w. (ok tt, w);
    start = λ c n w. (ok tt, true);
    remove = λ c n w. (ok tt, false);
    inspect = λ c n w. (
      ok (record {
        container_id = [];
        state = if w then codes "running" else codes "absent";
        labels = [];
      }),
      w,
    );
    logs = λ c n o w. (ok tt, w);
    network_ensure = λ c n w. (network, w);
    container_ip = λ c n w. (ok [], w);
    image_pull = λ c n w. (ok tt, w);
    run_with_options = λ c o w. (ok [], true);
    exec = λ c o w. (record { result = ok tt; stderr = [] }, w);
  };
  caddy_dir = codes "/etc/decloud/caddy";
  caddyfile_path = codes "/etc/decloud/caddy/Caddyfile";
  write_stub_if_missing = λ p w. (ok tt, w);
}

abbrev state_name : Bool → Str
state_name w = if w then codes "running" else codes "absent"

state_name-running : (w : Bool) → w ≡ str_eq (state_name w) (codes "running")
unfolding str_eq
state_name-running true = refl
state_name-running false = refl

manager-Observes : Observes (manager (ok tt)) (λ w n. w) (λ w n. w)
manager-Observes = record {
  inspect_ok = λ n w r h. ground (arith, state_name-running w);
  start_ok = λ n w h. refl;
  run_ok = λ o w h. refl;
  remove_ok = λ n w h. refl;
  remove_absent = λ n w e h k. refl;
}

up_ok : is_ok (up (manager (ok tt)) false).0 ≡ true
unfolding up up_from pull_and_run str_eq
up_ok = refl

up_runs_example : (up (manager (ok tt)) false).1 ≡ true
up_runs_example = up_runs (manager (ok tt)) (λ w n. w) (λ w n. w) manager-Observes false up_ok

down_ok : is_ok (down (manager (ok tt)) true).0 ≡ true
unfolding down
down_ok = refl

up-refused :
    (up (manager (err refused)) false).0 ≡ err (wrap_step err_caddy_up "network ensure" refused)
unfolding up
up-refused = refl

-- A script that sets TOKEN.
abbrev before : Env
before = (codes "PATH", codes "/bin") ∷ []

abbrev after : Env
after = (codes "PATH", codes "/bin") ∷ (codes "TOKEN", codes "a=b") ∷ []

abbrev script : Str
script = codes "/srv/env.sh"

-- A world that counts the shells that ran: the first prints the one, the others the other.
abbrev bash : Bash Bool
bash = record {
  stat = λ p w. (found false, w);
  env = λ c args w. (
    record { failure = none; stdout = if w then dump after else dump before; stderr = [] },
    true,
  );
}

before-after-IsPrintable :
    (IsPrintable before × DistinctKeys before) × (IsPrintable after × DistinctKeys after)
unfolding contains_byte lookup str_eq
before-after-IsPrintable = (
  ((refl, refl, refl, tt), (refl, tt)),
  ((refl, refl, refl, (refl, refl, refl, tt)), (refl, (refl, tt))),
)

script_named : str_eq script [] ≡ false
unfolding str_eq
script_named = refl

capture_sees_example :
    (env : Env) × (capture bash caller script false ≡ (ok env, true))
    × ((k : Str)
        → lookup k env ≡ elim (lookup k after) [
          | none ↦ none
          | some v ↦
              if is_bash_internal k
              then none
              else if same_as (lookup k before) v
              then none
              else some v
        ])
capture_sees_example =
    capture_sees bash caller script before after false false true true script_named refl
      (refl, refl, refl, before-after-IsPrintable.0.0, before-after-IsPrintable.0.1)
      (refl, refl, refl, before-after-IsPrintable.1.0, before-after-IsPrintable.1.1)

-- The variables of a service, in the order in which a map gave them.
abbrev ordered : RunRequest
ordered = record request { env = (codes "A", codes "1") ∷ (codes "B", codes "2") ∷ [] }

abbrev reordered : Env
reordered = (codes "B", codes "2") ∷ (codes "A", codes "1") ∷ []

ordered-DistinctKeys : DistinctKeys ordered.env
unfolding lookup str_eq
ordered-DistinctKeys = (refl, (refl, tt))

run_args-Perm_example : run_args ordered ≡ run_args (record ordered { env = reordered })
run_args-Perm_example =
    run_args-Perm ordered reordered (Perm.swap (codes "B", codes "2") (codes "A", codes "1") [])
      ordered-DistinctKeys
