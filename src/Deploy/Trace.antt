-- ===== src/Deploy/Trace.antt =====
-- The calls of a deployment, for every environment: dependencies that write down each call before
-- they make it. The log holds the latest call first.
pub mod Predicates
pub mod Own
pub mod Order
pub mod Success
use decloud.Base.{ℕ, ℤ, Str, List, [], ◌∷◌, ◌++◌}
use decloud.Errors.{Result}
use decloud.Exec.{M}
use decloud.Registry.Types.{ReadinessSpec, Service}
use decloud.Docker.Types.{BuildRequest, RunRequest, RunOptions, ExecOptions, LogsOptions}
use decloud.Deploy.Interface.{Context, Driver, Store, Reloader, Dependencies}

pub data Call : Type 0 where
  build : Context → BuildRequest → Call
  run : Context → RunRequest → Call
  stop : Context → Str → ℕ → Call
  start : Context → Str → Call
  remove : Context → Str → Call
  inspect : Context → Str → Call
  logs : Context → Str → LogsOptions → Call
  network_ensure : Context → Str → Call
  container_ip : Context → Str → Call
  image_pull : Context → Str → Call
  run_with_options : Context → RunOptions → Call
  exec : Context → ExecOptions → Call
  load : Context → Str → Call
  save : Context → Service → Call
  delete_orphan_config : Context → Str → Call
  list : Context → Call
  delete : Context → Str → Call
  list_names : Context → Call
  capture : Context → Str → Call
  generate : Str → List Service → Call
  validate : Context → Str → Call
  reload : Context → Str → Call
  wait : Context → Str → ReadinessSpec → ℤ → Call
  new_deploy_id now : Call
  write_stub_if_missing : Str → Call
  os_remove : Str → Call
  os_rename : Str → Str → Call

abbrev pub logged : {W A : Type 0} → Call → M W A → W × List Call → Result A × (W × List Call)
logged c m (w, log) = let (r, w') = m w in (r, (w', c ∷ log))

abbrev pub logged_sure : {W A : Type 0} → Call → (W → A × W) → W × List Call → A × (W × List Call)
logged_sure c f (w, log) = let (a, w') = f w in (a, (w', c ∷ log))

module _ {W : Type 0} where
  abbrev traced_driver : Driver W → Driver (W × List Call)
  traced_driver d = record {
    build = λ c r. logged (build c r) (d.build c r);
    run = λ c r. logged (run c r) (d.run c r);
    stop = λ c n t. logged (stop c n t) (d.stop c n t);
    start = λ c n. logged (start c n) (d.start c n);
    remove = λ c n. logged (remove c n) (d.remove c n);
    inspect = λ c n. logged (inspect c n) (d.inspect c n);
    logs = λ c n o. logged (logs c n o) (d.logs c n o);
    network_ensure = λ c n. logged (network_ensure c n) (d.network_ensure c n);
    container_ip = λ c n. logged (container_ip c n) (d.container_ip c n);
    image_pull = λ c r. logged (image_pull c r) (d.image_pull c r);
    run_with_options = λ c o. logged (run_with_options c o) (d.run_with_options c o);
    exec = λ c o. logged_sure (exec c o) (d.exec c o);
  }

  abbrev traced_store : Store W → Store (W × List Call)
  traced_store s = record {
    load = λ c n. logged (load c n) (s.load c n);
    save = λ c v. logged (save c v) (s.save c v);
    delete_orphan_config = λ c n. logged (delete_orphan_config c n) (s.delete_orphan_config c n);
    list = λ c. logged (list c) (s.list c);
    delete = λ c n. logged (delete c n) (s.delete c n);
    list_names = λ c. logged (list_names c) (s.list_names c);
  }

  abbrev traced_reloader : Reloader W → Reloader (W × List Call)
  traced_reloader r = record {
    validate = λ c p. logged (validate c p) (r.validate c p);
    reload = λ c p. logged (reload c p) (r.reload c p);
  }

  abbrev pub traced : Dependencies W → Dependencies (W × List Call)
  traced d = record {
    caddyfile_path = d.caddyfile_path;
    driver = traced_driver d.driver;
    store = traced_store d.store;
    capture = λ c p. logged (capture c p) (d.capture c p);
    generate = λ p s. logged (generate p s) (d.generate p s);
    reloader = traced_reloader d.reloader;
    wait = λ c n s p. logged (wait c n s p) (d.wait c n s p);
    new_deploy_id = logged_sure new_deploy_id d.new_deploy_id;
    now = logged_sure now d.now;
    write_stub_if_missing = λ p. logged (write_stub_if_missing p) (d.write_stub_if_missing p);
    os_remove = λ p. logged (os_remove p) (d.os_remove p);
    os_rename = λ a b. logged (os_rename a b) (d.os_rename a b);
  }
