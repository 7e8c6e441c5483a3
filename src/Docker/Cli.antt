-- ===== src/Docker/Cli.antt =====
-- internal/dockerdrv/cli_driver.go: the driver that runs the `docker` command. The command, the
-- decoder of encoding/json and net.ParseIP are parameters.
pub mod Laws
use decloud.Base.{
  ℕ, pos, not_positive, Str, String, codes, Bool, ◌||◌, Option, none, some, List, [], ◌∷◌, ◌++◌,
  if◌then◌else◌, str_eq, contains, to_lower, trim_space, itoa,
}
use decloud.Errors.{
  Error, sentinel, errorf, end, lit, str, quoted, wrap, Result, ok, err, err_container_not_found,
  err_no_bridge_ip,
}
use decloud.Exec.{M, pure, raise}
use decloud.Docker.Types.{
  BuildRequest, RunRequest, RunOptions, ExecOptions, InspectResult, LogsOptions,
}
use decloud.Docker.Args.{run_args, run_with_options_args}
use decloud.Deploy.Interface.{Context, Done, Driver, ExecReply}

-- What cmd.Run leaves behind: its error, and what the command wrote.
pub record Ran : Type 0 where
  pub failure : Option Error
  pub stdout : Str
  pub stderr : Str

-- cmdFactory with cmd.Run, json.Unmarshal of the output of `docker inspect`, and whether
-- net.ParseIP accepts a string.
pub record Shell (W : Type 0) : Type 0 where
  pub docker : Context → List Str → W → Ran × W
  pub unmarshal : Str → Result InspectResult
  pub is_ip : Str → Bool

unfoldable pub is_not_found : Str → Bool
unfolding contains to_lower
is_not_found stderr =
    contains (to_lower stderr) (codes "no such container")
    || contains (to_lower stderr) (codes "no such object")

-- fmt.Errorf("docker <what>: %w; stderr=%q", err, stderr)
abbrev pub command_error : String → Error → Str → Error
command_error what e stderr =
    errorf (lit "docker " (lit what (lit ": " (wrap e (lit "; stderr=" (quoted stderr end))))))

-- The error of a command on a container.
abbrev pub container_error : String → Error → Str → Error
container_error what e stderr =
    if is_not_found stderr then sentinel err_container_not_found else command_error what e stderr

abbrev pub inspect_format : Str
inspect_format =
    codes
      "{\"id\":{{json .Id}},\"state\":{{json .State.Status}},\"labels\":{{json .Config.Labels}}}"

abbrev ip_format : Str
ip_format = codes "{{ .NetworkSettings.Networks.decloud.IPAddress }}"

-- decloudIPv6Subnet
abbrev ipv6_subnet : Str
ipv6_subnet = codes "fd00:dec0:11d::/64"

abbrev pub absent : InspectResult
absent = record { container_id = []; state = codes "absent"; labels = [] }

unfoldable pub logs_args : Str → LogsOptions → List Str
unfolding itoa
logs_args name opts =
    codes "logs"
    ∷ ((if opts.follow then codes "-f" ∷ [] else [])
        ++ ((if not_positive opts.tail then [] else codes "--tail" ∷ itoa opts.tail ∷ [])
            ++ name ∷ []))

module _ {W : Type 0} (sh : Shell W) where
  -- A command that is only asked whether it fails.
  abbrev outcome : (Error → Str → Error) → Ran × W → Result Done × W
  outcome f (r, w) = elim r.failure [ none ↦ (ok tt, w) | some e ↦ (err (f e r.stderr), w) ]

  -- A command whose standard output is looked at.
  abbrev output :
      {A : Type 0} → (Error → Str → Result A) → (Str → Result A) → Ran × W → Result A × W
  output f g (r, w) = elim r.failure [ none ↦ (g r.stdout, w) | some e ↦ (f e r.stderr, w) ]

  unfoldable pub build : Context → BuildRequest → M W Str
  build c req w =
      output (λ e s. err (errorf (lit "docker build: " (wrap e end)))) (λ s. ok req.image_ref)
        (sh.docker c
          (codes "build"
            ∷ codes "-t"
            ∷ req.image_ref
            ∷ codes "-f"
            ∷ req.dockerfile
            ∷ req.source_dir
            ∷ [])
          w)

  -- The call of docker run, or the error before it.
  abbrev run_with : Context → Result (List Str) → M W Str
  run_with c (err e) w = (err e, w)
  run_with c (ok args) w =
      output (λ e s. err (command_error "run" e s)) (λ s. ok (trim_space s)) (sh.docker c args w)

  unfoldable pub run : Context → RunRequest → M W Str
  run c req = run_with c (run_args req)

  unfoldable pub run_with_options : Context → RunOptions → M W Str
  run_with_options c opts = run_with c (run_with_options_args opts)

  unfoldable pub stop : Context → Str → ℕ → M W Done
  stop c name grace w =
      outcome (container_error "stop")
        (sh.docker c (codes "stop" ∷ codes "-t" ∷ itoa (pos grace) ∷ name ∷ []) w)

  unfoldable pub start : Context → Str → M W Done
  start c name w = outcome (container_error "start") (sh.docker c (codes "start" ∷ name ∷ []) w)

  unfoldable pub remove : Context → Str → M W Done
  remove c name w = outcome (container_error "rm") (sh.docker c (codes "rm" ∷ name ∷ []) w)

  abbrev parsed : Str → Result InspectResult → Result InspectResult
  parsed out (ok r) = ok r
  parsed out (err e) =
      err (errorf (lit "docker inspect: parse output " (quoted out (lit ": " (wrap e end)))))

  unfoldable pub inspect : Context → Str → M W InspectResult
  inspect c name w =
      output (λ e s. if is_not_found s then ok absent else err (command_error "inspect" e s))
        (λ out. parsed out (sh.unmarshal (trim_space out)))
        (sh.docker c (codes "inspect" ∷ name ∷ codes "--format" ∷ inspect_format ∷ []) w)

  unfoldable pub logs : Context → Str → LogsOptions → M W Done
  logs c name opts w = outcome (container_error "logs") (sh.docker c (logs_args name opts) w)

  abbrev created : Context → Str → Ran × W → Result Done × W
  created c name (r, w) = elim r.failure [
    | none ↦ (ok tt, w)
    | some _ ↦ outcome (command_error "network create") (
        sh.docker c
          (codes "network"
            ∷ codes "create"
            ∷ codes "--ipv6"
            ∷ codes "--subnet"
            ∷ ipv6_subnet
            ∷ name
            ∷ [])
          w)
  ]

  unfoldable pub network_ensure : Context → Str → M W Done
  network_ensure c name w =
      created c name (sh.docker c (codes "network" ∷ codes "inspect" ∷ name ∷ []) w)

  abbrev address : Str → Result Str
  address ip =
      if str_eq ip []
      then err (sentinel err_no_bridge_ip)
      else if sh.is_ip ip
      then ok ip
      else err (sentinel err_no_bridge_ip)

  unfoldable pub container_ip : Context → Str → M W Str
  container_ip c name w =
      output (λ e s. err (container_error "inspect ip" e s)) (λ out. address (trim_space out))
        (sh.docker c (codes "inspect" ∷ name ∷ codes "--format" ∷ ip_format ∷ []) w)

  unfoldable pub image_pull : Context → Str → M W Done
  image_pull c ref w =
      outcome
        (λ e s.
          errorf
            (lit "docker pull " (str ref (lit ": " (wrap e (lit "; stderr=" (quoted s end)))))))
        (sh.docker c (codes "pull" ∷ ref ∷ []) w)

  abbrev replied : Ran × W → ExecReply × W
  replied (r, w) =
      (record { result = (outcome (container_error "exec") (r, w)).0; stderr = r.stderr }, w)

  unfoldable pub exec : Context → ExecOptions → W → ExecReply × W
  exec c opts w = replied (sh.docker c (codes "exec" ∷ opts.container ∷ opts.cmd) w)

  -- NewCLIDriver
  unfoldable pub cli_driver : Driver W
  cli_driver = record {
    build = build;
    run = run;
    stop = stop;
    start = start;
    remove = remove;
    inspect = inspect;
    logs = logs;
    network_ensure = network_ensure;
    container_ip = container_ip;
    image_pull = image_pull;
    run_with_options = run_with_options;
    exec = exec;
  }
