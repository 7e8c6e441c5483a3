-- ===== src/Registry/Store/Listed.antt =====
-- internal/registry/store.go: List returns what the files of the registry hold.
use decloud.Base.{
  ◌≡◌, ◌≢◌, refl, sym, ap, subst, ◌⊎◌, ◌∙◌, inl, inr, Str, codes, true, Option-cases, some, List,
  [], ◌∷◌, ◌++◌, All, All-mono, Any, arith, str_leb, sort,
}
use decloud.Base.Order.{sort-Any}
use decloud.Errors.{Result-cases, ok, err, error_is, fs_not_exist}
use decloud.Registry.Types.{Service}
use decloud.Base.Path.Clean.{IsName, render}
use decloud.Os.{Files}
use decloud.Os.Laws.{Entry, HasFiles}
use decloud.Config.{Paths}
use decloud.Registry.Files.{Toml, config_path, secrets_dir_of, secrets_path}
use decloud.Registry.Store.{load, list_names, load_each, list, config_names}
use decloud.Registry.Store.Laws.{load-IsLoaded}
use decloud.Registry.Store.Layout.{IsLaidOut, config_path-render, config-IsName}
use decloud.Registry.Store.Held.{held, Readable, load-held}
use decloud.Registry.Store.Frame.{Same-held}
use decloud.Registry.Store.Names.{config_names-Any}

module _ {W : Type 0} (fs : Files W) (toml : Toml) {paths : Paths} {S T : List Str}
    (at : W → Str → Entry) (h : HasFiles fs at) (laid : IsLaidOut paths S T) where
  load_each_same : (names : List Str) (w : W) → (load_each fs toml paths names w).1 ≡ w
  unfolding load_each
  load_each_same [] w = refl
  load_each_same (name ∷ names) w =
      let same = (load-held fs toml paths at h name w).2 in
      ground (arith, same, load_each_same names w)

  list_names-held :
      (m : Str) (w : W)
      → held fs toml paths at (list_names fs toml paths w).1 m ≡ held fs toml paths at w m
  unfolding list_names
  list_names-held m w =
      let dir = paths.services_dir in
      let w1 = (fs.read_dir dir w).1 in
      let kept = Same-held fs toml at h laid m w w1 (
        ap (λ e. e.0) (h.read_dir_keeps dir (config_path paths m) w),
        ap (λ e. e.1) (h.read_dir_keeps dir (secrets_dir_of paths m) w),
        h.read_dir_keeps dir (secrets_path paths m) w,
      ) in
      ground (arith, kept)

  pub list-held :
      (m : Str) (w : W)
      → held fs toml paths at (list fs toml paths w).1 m ≡ held fs toml paths at w m
  unfolding list
  list-held m w = elim (Result-cases (list_names fs toml paths w).0) [
    | inr (x, e) ↦ ground (arith, list_names-held m w)
    | inl (names, e) ↦
        ground (arith, list_names-held m w, load_each_same names (list_names fs toml paths w).1)
  ]

  list_names_at : (q : Str) (w : W) → at (list_names fs toml paths w).1 q ≡ at w q
  unfolding list_names
  list_names_at q w = ground (arith, h.read_dir_keeps paths.services_dir q w)

  -- List changes no file.
  pub list_at : (q : Str) (w : W) → at (list fs toml paths w).1 q ≡ at w q
  unfolding list
  list_at q w = elim (Result-cases (list_names fs toml paths w).0) [
    | inr (x, e) ↦ ground (arith, list_names_at q w)
    | inl (names, e) ↦
        ground (arith, list_names_at q w, load_each_same names (list_names fs toml paths w).1)
  ]

  -- The list is what the registry holds: every service that is held under the name of a file, if no read
  -- of its files fails once the directory was read, and no other.
  abbrev pub Lists : W → List Service → Type 0
  Lists w services =
      ((name : Str) (svc : Service)
        → IsName name
        → Readable fs toml paths at (fs.read_dir paths.services_dir w).1 name
        → held fs toml paths at w name ≡ some svc
        → Any (λ s. s ≡ svc) services)
      × All (λ svc. held fs toml paths at w svc.config.name ≡ some svc) services

  -- One round of the loop of List.
  load_each-held :
      (name : Str) (names : List Str) (w : W) (services : List Service)
      → (load_each fs toml paths (name ∷ names) w).0 ≡ ok services
      → (rest : List Service) × ((load_each fs toml paths names w).0 ≡ ok rest)
        × (((services ≡ rest)
              × ((svc : Service)
                  → Readable fs toml paths at w name
                  → held fs toml paths at w name ≢ some svc))
            ⊎ ((svc : Service) × (services ≡ svc ∷ rest)
                × (svc.config.name ≡ name)
                × (held fs toml paths at w name ≡ some svc)))
  unfolding load_each
  load_each-held name names w services e =
      let (sound, complete, keeps) = load-held fs toml paths at h name w in
      elim (Result-cases (load_each fs toml paths names w).0) [
        | inr (x, q) ↦ absurd (ground (arith, e, q, keeps))
        | inl (rest, q) ↦ elim (Result-cases (load fs toml paths name w).0) [
          | inr (x, f) ↦ (
            rest,
            q,
            inl (
              ground (arith, e, q, keeps, f),
              (λ svc r there. ground (arith, f, complete r, there)),
            ),
          )
          | inl (svc, f) ↦ (
            rest,
            q,
            inr (
              svc,
              ground (arith, e, q, keeps, f),
              (load-IsLoaded fs toml paths name w svc f).0,
              sound svc f,
            ),
          )
        ]
      ]

  load_each_complete :
      (name : Str) (svc : Service) (names : List Str) (w : W) (services : List Service)
      → (load_each fs toml paths names w).0 ≡ ok services
      → Any (λ m. m ≡ name) names
      → Readable fs toml paths at w name
      → held fs toml paths at w name ≡ some svc
      → Any (λ s. s ≡ svc) services
  load_each_complete name svc [] w services e a r k = absurd a
  load_each_complete name svc (m ∷ names) w services e a r k =
      let (rest, q, shape) = load_each-held m names w services e in
      elim a [
        | inl same ↦
            let k' = subst (λ n. held fs toml paths at w n ≡ some svc) (sym same) k in
            let r' = subst (Readable fs toml paths at w) (sym same) r in
            elim shape [
              | inl (_, lost) ↦ absurd (lost svc r' k')
              | inr (s, eq, _, there) ↦ rw eq (inl (ground (arith, there, k')))
            ]
        | inr later ↦
            let there = load_each_complete name svc names w rest q later r k in
            elim shape [ inl (eq, _) ↦ rw eq there | inr (s, eq, _, _) ↦ rw eq (inr there) ]
      ]

  load_each_sound :
      (names : List Str) (w : W) (services : List Service)
      → (load_each fs toml paths names w).0 ≡ ok services
      → All (λ svc. held fs toml paths at w svc.config.name ≡ some svc) services
  load_each_sound [] w services e =
      let none_left : [] ≡ services = unfold load_each in ground (arith, e) in rw (← none_left) tt
  load_each_sound (name ∷ names) w services e =
      let (rest, q, shape) = load_each-held name names w services e in
      let ih = load_each_sound names w rest q in
      elim shape [
        | inl (eq, _) ↦ rw eq ih
        | inr (svc, eq, named, there) ↦ rw eq (ap (held fs toml paths at w) named ∙ there, ih)
      ]

  list_names_world : (w : W) → (fs.read_dir paths.services_dir w).1 ≡ (list_names fs toml paths w).1
  unfolding list_names
  list_names_world w = ground arith

  -- The names that are listed are those of the config files.
  list_names_complete :
      (name s : Str) (w : W) (names : List Str)
      → IsName name
      → (list_names fs toml paths w).0 ≡ ok names
      → (at w (config_path paths name)).0 ≡ some s
      → Any (λ m. m ≡ name) names
  unfolding list_names
  list_names_complete name s w names n e f =
      let file = name ++ codes ".toml" in
      let there : (at w (render (S ++ file ∷ []))).0 ≡ some s =
        ap (λ p. (at w p).0) (sym (config_path-render laid name n)) ∙ f in
      elim (Result-cases (fs.read_dir paths.services_dir w).0) [
        | inl (entries, q) ↦
            let same : sort str_leb (config_names entries) ≡ names = ground (arith, e, q) in
            let q' : (fs.read_dir (render S) w).0 ≡ ok entries =
              ap (λ p. (fs.read_dir p w).0) (sym laid.services_at) ∙ q in
            let listed =
              h.read_dir_lists S file s entries w laid.services_names (config-IsName name n) q'
                there in
            rw (← same) (
              sort-Any str_leb (λ m. m ≡ name) (config_names entries)
                (config_names-Any name entries listed))
        | inr (x, q) ↦
            let q' : (fs.read_dir (render S) w).0 ≡ err x =
              ap (λ p. (fs.read_dir p w).0) (sym laid.services_at) ∙ q in
            let gone : error_is x fs_not_exist ≡ true = ground (arith, e, q) in
            let nothing =
              h.read_dir_none S file x w laid.services_names (config-IsName name n) q' gone in
            absurd (ground (arith, nothing, there))
      ]

  -- A name under which a service is held has a config file.
  held-file :
      (name : Str) (svc : Service) (w : W)
      → held fs toml paths at w name ≡ some svc
      → (s : Str) × ((at w (config_path paths name)).0 ≡ some s)
  held-file name svc w e = elim (Option-cases (at w (config_path paths name)).0) [
    | inl q ↦ absurd (ground (arith, e, q))
    | inr p ↦ p
  ]

  -- When package os does what it documents (HasFiles) and the directories of the store are laid out
  -- (IsLaidOut), a List that succeeds returns what the registry holds: each service in the list is the one
  -- that is held under its name, and every service that is held under the name of a file is in the list,
  -- unless a read of its files fails.
  pub list-Lists :
      (w : W) (services : List Service) → (list fs toml paths w).0 ≡ ok services → Lists w services
  unfolding list
  list-Lists w services e =
      let w1 = (list_names fs toml paths w).1 in
      elim (Result-cases (list_names fs toml paths w).0) [
        | inr (x, q) ↦ absurd (ground (arith, e, q))
        | inl (names, q) ↦
            let each : (load_each fs toml paths names w1).0 ≡ ok services = ground (arith, e, q) in
            (
              (λ name svc n r k.
                  let (s, file) = held-file name svc w k in
                  load_each_complete name svc names w1 services each
                    (list_names_complete name s w names n q file)
                    (subst (λ v. Readable fs toml paths at v name) (list_names_world w) r)
                    (list_names-held name w ∙ k)),
              All-mono _ (λ svc. held fs toml paths at w svc.config.name ≡ some svc) services
                  (λ svc p. sym (list_names-held svc.config.name w) ∙ p)
                  (load_each_sound names w1 services each),
            )
      ]
