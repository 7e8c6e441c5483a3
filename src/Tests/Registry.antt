-- ===== src/Tests/Registry.antt =====
-- Runs of the store on the file system in memory.
use decloud.Base.{
  ◌≡◌, refl, sym, ap, subst, ◌∙◌, inr, Str, codes, true, false, some, List, [], ◌∷◌, ◌++◌, All,
  arith, if◌then◌else◌, str_eq, str_eq_iff, contains_byte,
}
use decloud.Errors.{Result, ok, err, is_ok}
use decloud.Os.Laws.{Apart}
use decloud.Registry.Types.{Service}
use decloud.Config.{new_paths}
use decloud.Base.Path.Clean.{IsName, render}
use decloud.Registry.Files.{Toml, value, strict_missing, config_path, write_atomic}
use decloud.Registry.Files.Atomic.{IsKept, write_atomic-IsWhole}
use decloud.Registry.Store.Layout.{IsLaidOut, config_dir-IsClean, config-IsKept_config}
use decloud.Registry.Store.{validate_for_save, load}
use decloud.Registry.Store.Held.{held, Looked, Readable, load-held}
use decloud.Registry.Store.Refines.{run, run-Step}
use decloud.Registry.Store.Change.{Step, IsSound, IsStorable, saving}
use decloud.Config.Laws.{is_not_name-IsName, new_paths-IsLaidOut}
use decloud.Tests.Host.{registered}
use decloud.Tests.Memory.{Disk, at, memory, memory-HasFiles}

-- The store under the default root, with a codec that knows one registration.
abbrev blog : Service
blog = registered (codes "blog")

abbrev pub one_file : Toml
one_file = record {
  marshal_config = λ c. ok (codes "config");
  marshal_secrets = λ s. ok (codes "secrets");
  decode_config = λ s. if str_eq s (codes "config") then value blog.config else strict_missing s;
  decode_secrets = λ s. if str_eq s (codes "secrets") then value blog.secrets else strict_missing s;
}

abbrev pub root : List Str
root = codes "opt" ∷ codes "decloud" ∷ []

pub root-IsName : All IsName root
root-IsName = (
  is_not_name-IsName (codes "opt") (unfold contains_byte str_eq in refl),
  (is_not_name-IsName (codes "decloud") (unfold contains_byte str_eq in refl), tt),
)

pub blog-IsName : IsName (codes "blog")
blog-IsName = is_not_name-IsName (codes "blog") (unfold contains_byte str_eq in refl)

abbrev pub laid :
    IsLaidOut
      (new_paths (render root))
      (root ++ codes "config" ∷ codes "services" ∷ [])
      (root ++ codes "secrets" ∷ [])
laid = new_paths-IsLaidOut root root-IsName

abbrev pub empty : Disk
empty = []

blog-IsStorable : IsStorable one_file blog
blog-IsStorable = (
  (refl, refl, refl, tt, tt, inr refl),
  (λ s e. ground (arith, e, str_eq_iff s (codes "config"))),
  (λ s e. ground (arith, e, str_eq_iff s (codes "secrets"))),
)

blog_complete : validate_for_save 7 blog ≡ ok blog
unfolding validate_for_save str_eq
blog_complete = refl

abbrev or_blog : Result Service → Service
or_blog (ok svc) = svc
or_blog (err e) = blog

blog-IsSound : IsSound one_file 7 (saving blog)
blog-IsSound svc e =
    subst (IsStorable one_file) (ap or_blog (sym blog_complete ∙ e)) blog-IsStorable

run-Step_example :
    Step 7
      (saving blog)
      (held memory one_file (new_paths (render root)) at empty)
      (run memory one_file at memory-HasFiles laid (saving blog) empty).0
      (held memory one_file
        (new_paths (render root))
        at
        (run memory one_file at memory-HasFiles laid (saving blog) empty).1)
run-Step_example =
    run-Step memory one_file at memory-HasFiles laid (saving blog) empty blog-IsName blog-IsSound

config-IsKept :
    IsKept
      (config_path (new_paths (render root)) (codes "blog"))
      (config_path (new_paths (render root)) (codes "blog"))
config-IsKept = config-IsKept_config laid (codes "blog") (codes "blog") blog-IsName blog-IsName

write_atomic-IsWhole_example :
    let path = config_path (new_paths (render root)) (codes "blog") in
    let r = write_atomic memory path 420 (codes "config") empty in
    (is_ok r.0 ≡ true → at r.1 path ≡ (some (codes "config"), some 420))
    × (is_ok r.0 ≡ false → at r.1 path ≡ at empty path)
    × ((q : Str) → IsKept path q → Apart q path → at r.1 q ≡ at empty q)
write_atomic-IsWhole_example =
    write_atomic-IsWhole memory at memory-HasFiles
      (config_path (new_paths (render root)) (codes "blog"))
      (config_dir-IsClean laid (codes "blog") blog-IsName) 420 (codes "config") empty (ground arith)
      config-IsKept

-- The disk after the registration is saved.
abbrev saved : Disk
saved = (run memory one_file at memory-HasFiles laid (saving blog) empty).1

load-held_example :
    let paths = new_paths (render root) in
    Looked memory one_file paths at
      (Readable memory one_file paths at saved (codes "blog"))
      (held memory one_file paths at saved (codes "blog"))
      saved
      (load memory one_file paths (codes "blog") saved)
load-held_example =
    load-held memory one_file (new_paths (render root)) at memory-HasFiles (codes "blog") saved
