-- ===== src/Tests/Deploys.antt =====
-- internal/deploy run on the hosts of Tests/Host.antt: the theorems on deployments and on the
-- life-cycle commands, applied.
use decloud.Base.{
  ◌≡◌, refl, Option, Str, codes, true, false, none, some, List, [], ◌∷◌, All, str_eq,
}
use decloud.Errors.{
  Error, sentinel, errorf, lit, wrap, end, wrap_both, Result, ok, err, is_ok, error_is,
  is_cancellation, canceled, err_readiness, err_not_found, err_run, err_build,
}
use decloud.Registry.Types.{Service, Env}
use decloud.Ids.{container_name, image_ref}
use decloud.Docker.Args.{get_or_empty}
use decloud.Docker.Types.{BuildRequest, InspectResult}
use decloud.Deploy.Interface.{Dependencies, caller}
use decloud.Deploy.Requests.{run_request}
use decloud.Deploy.Failures.{foreign_error}
use decloud.Deploy.Service.{
  service_label, capture_env, load_previous, build_image, prepare, clear_orphan, clear_old, run_new,
  await_ready, save_registration, install_caddyfile, regenerate_and_reload, publish, activate,
  deploy,
}
use decloud.Deploy.Lifecycle.{Status, start, start_from, run_again, status_of, status, status_rows}
use decloud.Deploy.Trace.{Call, traced}
use decloud.Deploy.Trace.Predicates.{Touches, IsHarmless}
use decloud.Deploy.Trace.Own.{deploy-Touches}
use decloud.Deploy.Trace.Order.{deploy_unprepared, deploy_foreign}
use decloud.Deploy.Trace.Success.{Succeeded, deploy-Succeeded}
use decloud.Deploy.Rollback.{run_new_blocked}
use decloud.Cli.ExitCodes.{exit_code_for, exit_build_fail}
use decloud.Cli.DeployExit.{ReachesBuild, cancelled_build_exit}
use decloud.Docker.Cli.{Shell, cli_driver, build}
use decloud.Tests.Host.{
  World, Answers, host, state_of, healthy, stuck, container, empty, put, up, blog, registered,
  refused, run_free, is_known, is_unknown, put_same, stuck-RefusesUsedNames, healthy-LoadsByName,
}

abbrev old : Service
old = registered (codes "blog")

abbrev own_name : Str
own_name = container_name blog.name

abbrev new_image : Str
new_image = image_ref blog.name (codes "d2")

abbrev new_up : World
new_up = put own_name (up (run_request blog new_image [])) empty

-- A probe that never succeeds.
abbrev unready : Answers
unready = healthy is_known (err (wrap_both err_readiness refused))

abbrev fresh : Answers
fresh = healthy is_unknown (ok tt)

fresh-deploy-ok : (deploy (traced (host fresh)) blog (empty, [])).0 ≡ ok tt
unfolding deploy prepare capture_env load_previous build_image activate clear_old clear_orphan
    str_eq run_new publish await_ready save_registration regenerate_and_reload install_caddyfile
    error_is
fresh-deploy-ok = refl

deploy-Succeeded_example :
    Succeeded (host fresh) blog (deploy (traced (host fresh)) blog (empty, [])).1.1
deploy-Succeeded_example = deploy-Succeeded (host fresh) blog empty fresh-deploy-ok

deploy-Touches_example :
    All (Touches own_name) (deploy (traced (host unready)) blog (empty, [])).1.1
deploy-Touches_example =
    deploy-Touches (host unready) blog (healthy-LoadsByName unready.waits) empty

-- The container's name is taken by a container of another service.
abbrev taken : World
taken = put own_name (up (record (run_request blog new_image []) { service = codes "shop" })) empty

abbrev foreign : InspectResult
foreign = record {
  container_id = codes "c1";
  state = codes "running";
  labels = (codes "decloud.service", codes "shop") ∷ [];
}

abbrev prepared : Result (Str × Env × Option Service) × (World × List Call)
prepared = prepare (traced (host fresh)) blog (taken, [])

prepared_fresh : prepared ≡ (ok (codes "d2", [], none), (taken, prepared.1.1))
unfolding prepare capture_env load_previous build_image str_eq error_is
prepared_fresh = refl

inspect_taken : (host fresh).driver.inspect caller own_name taken ≡ (ok foreign, taken)
unfolding container_name str_eq
inspect_taken = refl

foreign_not_own :
    (str_eq foreign.state (codes "absent") ≡ false)
    × (str_eq (service_label foreign) blog.name ≡ false)
unfolding str_eq get_or_empty
foreign_not_own = (refl, refl)

abbrev refusal : Error
refusal = foreign_error own_name (service_label foreign) blog.name

deploy_foreign_example :
    (error_is refusal err_run ≡ true)
    × ((deploy (traced (host fresh)) blog (taken, [])).0 ≡ err refusal)
    × All IsHarmless (deploy (traced (host fresh)) blog (taken, [])).1.1
deploy_foreign_example =
    deploy_foreign (host fresh) blog taken taken taken prepared.1.1 (codes "d2") [] foreign
      prepared_fresh inspect_taken foreign_not_own.0 foreign_not_own.1

-- A build whose context is cancelled.
abbrev build_canceled : Error
build_canceled = errorf (lit "docker build: " (wrap (sentinel canceled) end))

abbrev interrupted : Answers
interrupted = record {
  runs = run_free;
  builds = err build_canceled;
  loads = is_known;
  waits = ok tt;
}

-- The `docker` command under a cancelled context.
abbrev stopped : Shell World
stopped = record {
  docker = λ c args w. (record { failure = some (sentinel canceled); stdout = []; stderr = [] }, w);
  unmarshal = λ s. err refused;
  is_ip = λ s. false;
}

prepare-interrupted :
    (prepare (traced (host interrupted)) blog (empty, [])).0
    ≡ err (wrap_both err_build build_canceled)
unfolding prepare capture_env load_previous build_image str_eq error_is
prepare-interrupted = refl

deploy_unprepared_example :
    ((deploy (traced (host interrupted)) blog (empty, [])).0
      ≡ err (wrap_both err_build build_canceled))
    × All IsHarmless (deploy (traced (host interrupted)) blog (empty, [])).1.1
deploy_unprepared_example = deploy_unprepared (host interrupted) blog empty prepare-interrupted

stopped_build :
    (r : BuildRequest) (w : World)
    → (host interrupted).driver.build caller r w ≡ (cli_driver stopped).build caller r w
unfolding cli_driver build
stopped_build r w = refl

interrupted-ReachesBuild : ReachesBuild (host interrupted) blog empty empty
unfolding capture_env load_previous str_eq error_is
interrupted-ReachesBuild = (refl, refl, refl, refl)

cancelled_build_exit_example :
    (e : Error) × ((deploy (host interrupted) blog empty).0 ≡ err e)
    × (is_cancellation e ≡ true)
    × (exit_code_for (some e) ≡ exit_build_fail)
cancelled_build_exit_example =
    cancelled_build_exit stopped (host interrupted) stopped_build blog empty empty
      interrupted-ReachesBuild (λ args. refl)

run_new_blocked_example :
    let r = run_new (host stuck) (run_request blog new_image []) (some old) empty in
    (is_ok r.0 ≡ false)
    × (container r.1 own_name
        ≡ some (record { request = run_request blog new_image []; is_running = false }))
run_new_blocked_example =
    run_new_blocked (host stuck) container blog old refl stuck-RefusesUsedNames new_image [] empty
      refl
      (put_same own_name
        (some (record { request = run_request blog new_image []; is_running = false })) empty)

abbrev calm : Dependencies World
calm = host (healthy is_known (ok tt))

start_ok : (start calm (codes "blog") empty).0 ≡ ok tt
unfolding start start_from run_again str_eq
start_ok = refl

abbrev two_names : List Str
two_names = codes "blog" ∷ codes "shop" ∷ []

abbrev rows : List Status
rows =
    status_of calm (codes "blog") (registered (codes "blog")) (state_of (new_up own_name))
    ∷ status_of calm (codes "shop") (registered (codes "shop")) (state_of none)
    ∷ []

rows_ok : (status_rows calm two_names new_up).0 ≡ ok rows
unfolding status_rows status container_name str_eq
rows_ok = refl

status_ok :
    (n : Str) (w : World) (e : Error)
    → (status calm n w).0 ≡ err e
    → error_is e err_not_found ≡ false
unfolding status
status_ok n w e h = cc
