-- ===== src/Tests/Routed.antt =====
-- The Caddyfile and the list of services after a deployment on the file system in memory.
use decloud.Base.{◌≡◌, refl, Str, [], ◌∷◌, true, arith, List, inl, inr, sort, str_leb, str_eq}
use decloud.Errors.{Result, Result-cases, ok, err, is_ok, error_is}
use decloud.Registry.Types.{Service}
use decloud.Registry.Files.{write_atomic}
use decloud.Registry.Store.{
  validate_for_save, fs_store, load, load_config, load_each, list, list_names, config_names, save,
  write_secrets,
}
use decloud.Registry.Store.Listed.{Lists, list-Lists}
use decloud.Deploy.Service.{
  capture_env, load_previous, build_image, prepare, clear_orphan, clear_old, run_new, await_ready,
  save_registration, install_caddyfile, regenerate_and_reload, publish, activate, deploy,
}
use decloud.Caddy.Stub.{write_file_atomic, generate}
use decloud.Deploy.Caddyfile.Installed.{Regenerated, regenerate_and_reload-Regenerated}
use decloud.Deploy.Caddyfile.Current.{CoversRegistry, deploy_routed}
use decloud.Registry.Store.Held.{Readable}
use decloud.Tests.Host.{blog}
use decloud.Tests.Memory.{Disk, memory, memory-HasFiles, at, listed}
use decloud.Tests.Registry.{laid, empty}
use decloud.Tests.Enrolled.{
  blog_codec, paths, quiet, laid_caddy, quiet-IsOnFiles, quiet-LeavesFiles, deployed,
}

load_each_ok :
    (names : List Str) (w : Disk) → is_ok (load_each memory blog_codec paths names w).0 ≡ true
unfolding load_each
load_each_ok [] w = refl
load_each_ok (name ∷ names) w =
    ground (arith, load_each_ok names (load memory blog_codec paths name w).1)

list_ok : (w : Disk) → is_ok (list memory blog_codec paths w).0 ≡ true
unfolding list list_names
list_ok w = load_each_ok (sort str_leb (config_names (listed paths.services_dir w w))) w

install_ok :
    (services : List Service) (w : Disk) → is_ok (install_caddyfile quiet services w).0 ≡ true
unfolding install_caddyfile generate write_file_atomic
install_ok services w = refl

regenerate_ok : (w : Disk) → is_ok (regenerate_and_reload quiet w).0 ≡ true
unfolding regenerate_and_reload fs_store
regenerate_ok w = elim (Result-cases (list memory blog_codec paths w).0) [
  | inl (services, e) ↦ rw e (install_ok services (list memory blog_codec paths w).1)
  | inr (x, e) ↦ absurd (ground (arith, e, list_ok w))
]

quiet-ok : is_ok (deploy quiet blog empty).0 ≡ true
unfolding deploy prepare capture_env load_previous build_image activate clear_old clear_orphan
    str_eq run_new publish await_ready save_registration error_is fs_store load load_config save
    validate_for_save write_atomic write_secrets
quiet-ok = regenerate_ok _

regenerate_and_reload-Regenerated_example :
    Regenerated memory blog_codec at memory-HasFiles laid laid_caddy quiet quiet-IsOnFiles
      quiet-LeavesFiles deployed
      (regenerate_and_reload quiet deployed)
regenerate_and_reload-Regenerated_example =
    regenerate_and_reload-Regenerated memory blog_codec at memory-HasFiles laid laid_caddy quiet
      quiet-IsOnFiles quiet-LeavesFiles deployed

no_read_fails : (v : Disk) (name : Str) → Readable memory blog_codec paths at v name
no_read_fails v name =
    ((λ s e. rw e refl), (λ m e. rw e refl), (λ m e. rw e refl), (λ s e. rw e refl))

deploy_routed_example :
    (services : List Service) × CoversRegistry memory blog_codec at memory-HasFiles laid laid_caddy
      quiet quiet-IsOnFiles quiet-LeavesFiles services deployed
deploy_routed_example =
    deploy_routed memory blog_codec at memory-HasFiles laid laid_caddy quiet quiet-IsOnFiles
      quiet-LeavesFiles no_read_fails blog empty quiet-ok

abbrev or_nothing : Result (List Service) → List Service
or_nothing (ok services) = services
or_nothing (err e) = []

-- What List returns of that disk.
abbrev enrolled : List Service
enrolled = or_nothing (list memory blog_codec paths deployed).0

or_nothing-ok : (r : Result (List Service)) → is_ok r ≡ true → r ≡ ok (or_nothing r)
or_nothing-ok (ok services) h = refl
or_nothing-ok (err e) h = absurd (ground (arith, h))

enrolled-ok : (list memory blog_codec paths deployed).0 ≡ ok enrolled
enrolled-ok = or_nothing-ok (list memory blog_codec paths deployed).0 (list_ok deployed)

list-Lists_example : Lists memory blog_codec at memory-HasFiles laid deployed enrolled
list-Lists_example =
    list-Lists memory blog_codec at memory-HasFiles laid deployed enrolled enrolled-ok
