-- ===== src/Registry/Store/Layout.antt =====
-- internal/registry/store.go: configPath, secretsDir and secretsPath give each service files of its own.
use decloud.Base.{
  ℕ, ◌≡◌, ◌≢◌, refl, sym, ap, subst, ◌∙◌, ◌⊎◌, inl, inr, Str, codes, true, false, List, [], ◌∷◌,
  ◌++◌, All, arith, contains_byte, All-append,
}
use mathlib.Core.List.{append_assoc, append-nil, append_cancel_left, append_cancel_right}
use decloud.Base.Path.{path_join, dir_of}
use decloud.Base.Path.Clean.{
  IsName, render, render-injective, path_join-render, dir_of-render, render-below,
}
use decloud.Config.{Paths}
use decloud.Os.Laws.{IsDigit, IsClean, Apart, apart_sym, AtOrAbove}
use decloud.Registry.Files.{config_path, secrets_dir_of, secrets_path}
use decloud.Registry.Files.Atomic.{IsKept}

-- The directories of a store: clean absolute paths, neither inside the other.
pub record IsLaidOut (paths : Paths) (S T : List Str) : Type 0 where
  pub services_at : paths.services_dir ≡ render S
  pub secrets_at : paths.secrets_dir ≡ render T
  pub services_names : All IsName S
  pub secrets_names : All IsName T
  pub apart : (x y : List Str) → S ++ x ≢ T ++ y

pub contains_byte-append_right :
    (b : ℕ) (s t : Str) → contains_byte b t ≡ true → contains_byte b (s ++ t) ≡ true
unfolding contains_byte
contains_byte-append_right b [] t h = h
contains_byte-append_right b (a ∷ s) t h = ground (arith, contains_byte-append_right b s t)

pub contains_byte-append_none :
    (b : ℕ) (s t : Str)
    → contains_byte b s ≡ false
    → contains_byte b t ≡ false
    → contains_byte b (s ++ t) ≡ false
unfolding contains_byte
contains_byte-append_none b [] t h k = k
contains_byte-append_none b (a ∷ s) t h k = ground (arith, contains_byte-append_none b s t)

pub digits-contains_byte :
    (b : ℕ) (digits : Str)
    → (b ≡ b'/') ⊎ (b ≡ b'o')
    → All IsDigit digits
    → contains_byte b digits ≡ false
unfolding contains_byte
digits-contains_byte b [] h d = refl
digits-contains_byte b (a ∷ digits) h d = ground (arith, digits-contains_byte b digits h d.1)

o_in_name : (s : Str) → contains_byte b'o' s ≡ true → (s ≢ []) × (s ≢ codes ".") × (s ≢ codes "..")
o_in_name s h = (
  (λ e. unfold contains_byte in ground arith),
  (λ e. unfold contains_byte in ground arith),
  (λ e. unfold contains_byte in ground arith),
)

pub config-IsName : (n : Str) → IsName n → IsName (n ++ codes ".toml")
config-IsName n h =
    let (a, b, c) =
      o_in_name (n ++ codes ".toml")
        (contains_byte-append_right b'o' n (codes ".toml") (unfold contains_byte in refl)) in
    (contains_byte-append_none b'/' n (codes ".toml") h.0 (unfold contains_byte in refl), a, b, c)

pub env-IsName : IsName (codes "env.toml")
env-IsName =
    (unfold contains_byte in refl, (λ e. ground arith), (λ e. ground arith), (λ e. ground arith))

temp-IsName : (digits : Str) → All IsDigit digits → IsName (codes ".tmp-" ++ digits)
temp-IsName digits d = (
  contains_byte-append_none b'/' (codes ".tmp-") digits (unfold contains_byte in refl)
      (digits-contains_byte b'/' digits (inl refl) d),
  (λ e. ground arith),
  (λ e. ground arith),
  (λ e. ground arith),
)

config-temp : (n digits : Str) → All IsDigit digits → n ++ codes ".toml" ≢ codes ".tmp-" ++ digits
config-temp n digits d e =
    let left = contains_byte-append_right b'o' n (codes ".toml") (unfold contains_byte in refl) in
    let right =
      contains_byte-append_none b'o' (codes ".tmp-") digits (unfold contains_byte in refl)
        (digits-contains_byte b'o' digits (inr refl) d) in
    ground (arith, e, left, right)

env-temp : (digits : Str) → codes "env.toml" ≢ codes ".tmp-" ++ digits
env-temp digits e = ground arith

pub append_nonempty : {A : Type 0} (xs ys : List A) → ys ≢ [] → xs ++ ys ≢ []
append_nonempty [] ys h e = h e
append_nonempty (x ∷ xs) ys h e = ground arith

module _ {paths : Paths} {S T : List Str} (at : IsLaidOut paths S T) where
  services-All : (x : Str) → IsName x → All IsName (S ++ x ∷ [])
  services-All x h = All-append IsName S (x ∷ []) at.services_names (h, tt)

  secrets-All : (xs : List Str) → All IsName xs → All IsName (T ++ xs)
  secrets-All xs h = All-append IsName T xs at.secrets_names h

  pub config_path-render :
      (n : Str) → IsName n → config_path paths n ≡ render (S ++ (n ++ codes ".toml") ∷ [])
  unfolding config_path
  config_path-render n h =
      ap (λ d. path_join d (n ++ codes ".toml")) at.services_at
      ∙ path_join-render S (n ++ codes ".toml") at.services_names (config-IsName n h)

  pub secrets_dir_of-render : (n : Str) → IsName n → secrets_dir_of paths n ≡ render (T ++ n ∷ [])
  unfolding secrets_dir_of
  secrets_dir_of-render n h =
      ap (λ d. path_join d n) at.secrets_at ∙ path_join-render T n at.secrets_names h

  pub secrets_path-render :
      (n : Str) → IsName n → secrets_path paths n ≡ render (T ++ n ∷ codes "env.toml" ∷ [])
  unfolding secrets_path
  secrets_path-render n h =
      ap (λ d. path_join d (codes "env.toml")) (secrets_dir_of-render n h)
      ∙ path_join-render (T ++ n ∷ []) (codes "env.toml") (secrets-All (n ∷ []) (h, tt)) env-IsName
      ∙ ap render (append_assoc T (n ∷ []) (codes "env.toml" ∷ []))

  pub services-IsClean : IsClean paths.services_dir
  services-IsClean = (S, at.services_names, at.services_at)

  services_file : (x : Str) → IsName x → IsClean (render (S ++ x ∷ []))
  services_file x h = (S ++ x ∷ [], services-All x h, refl)

  secrets_file : (xs : List Str) → All IsName xs → IsClean (render (T ++ xs))
  secrets_file xs h = (T ++ xs, secrets-All xs h, refl)

  -- Paths under the two directories differ when the names behind do.
  services_differ :
      (x y : Str) → IsName x → IsName y → x ≢ y → render (S ++ x ∷ []) ≢ render (S ++ y ∷ [])
  services_differ x y h k n e =
      let same =
        append_cancel_left S (x ∷ []) (y ∷ [])
          (render-injective (S ++ x ∷ []) (S ++ y ∷ []) (services-All x h) (services-All y k) e) in
      n (ground (arith, same))

  services_apart :
      (x y : Str)
      → IsName x
      → IsName y
      → x ≢ y
      → Apart (render (S ++ x ∷ [])) (render (S ++ y ∷ []))
  services_apart x y h k n = (services_differ x y h k n, services_file x h, services_file y k)

  secrets_apart :
      (xs ys : List Str)
      → All IsName xs
      → All IsName ys
      → xs ≢ ys
      → Apart (render (T ++ xs)) (render (T ++ ys))
  secrets_apart xs ys h k n = (
    (λ e. n (
        append_cancel_left T xs ys
          (render-injective (T ++ xs) (T ++ ys) (secrets-All xs h) (secrets-All ys k) e))),
    secrets_file xs h,
    secrets_file ys k,
  )

  crossed :
      (x : Str) (ys : List Str)
      → IsName x
      → All IsName ys
      → Apart (render (S ++ x ∷ [])) (render (T ++ ys))
  crossed x ys h k = (
    (λ e.
        at.apart (x ∷ []) ys
          (render-injective (S ++ x ∷ []) (T ++ ys) (services-All x h) (secrets-All ys k) e)),
    services_file x h,
    secrets_file ys k,
  )

  -- What lies below the secrets directory is not at or above a path that does not run through it.
  pub not_above :
      (ys qs : List Str)
      → All IsName ys
      → ys ≢ []
      → All IsName qs
      → ((x : List Str) → qs ≢ (T ++ ys) ++ x)
      → ¬ AtOrAbove (render (T ++ ys)) (render qs)
  not_above ys qs h n k a above = elim above [
    | inl e ↦
        a []
          (render-injective qs (T ++ ys) k (secrets-All ys h) (sym e) ∙ sym (append-nil (T ++ ys)))
    | inr (rest, e) ↦
        let (x, q) =
          render-below (T ++ ys) qs rest (secrets-All ys h) k (append_nonempty T ys n) e in
        a x q
  ]

  -- The temporary files of writeAtomic.
  config_temp_at :
      (n digits : Str)
      → IsName n
      → All IsDigit digits
      → path_join (dir_of (config_path paths n)) (codes ".tmp-" ++ digits)
        ≡ render (S ++ (codes ".tmp-" ++ digits) ∷ [])
  config_temp_at n digits h d =
      ap (λ p. path_join (dir_of p) (codes ".tmp-" ++ digits)) (config_path-render n h)
      ∙ ap (λ p. path_join p (codes ".tmp-" ++ digits))
          (dir_of-render S (n ++ codes ".toml") at.services_names (config-IsName n h))
      ∙ path_join-render S (codes ".tmp-" ++ digits) at.services_names (temp-IsName digits d)

  secrets_temp_at :
      (n digits : Str)
      → IsName n
      → All IsDigit digits
      → path_join (dir_of (secrets_path paths n)) (codes ".tmp-" ++ digits)
        ≡ render (T ++ n ∷ (codes ".tmp-" ++ digits) ∷ [])
  secrets_temp_at n digits h d =
      ap (λ p. path_join (dir_of p) (codes ".tmp-" ++ digits))
        (secrets_path-render n h
          ∙ ap render (sym (append_assoc T (n ∷ []) (codes "env.toml" ∷ []))))
      ∙ ap (λ p. path_join p (codes ".tmp-" ++ digits))
          (dir_of-render (T ++ n ∷ []) (codes "env.toml") (secrets-All (n ∷ []) (h, tt)) env-IsName)
      ∙ path_join-render (T ++ n ∷ []) (codes ".tmp-" ++ digits) (secrets-All (n ∷ []) (h, tt))
          (temp-IsName digits d)
      ∙ ap render (append_assoc T (n ∷ []) ((codes ".tmp-" ++ digits) ∷ []))

  -- The paths of a service, and the directories of its files.
  pub config-IsClean : (n : Str) → IsName n → IsClean (config_path paths n)
  config-IsClean n h =
      subst IsClean (sym (config_path-render n h))
        (services_file (n ++ codes ".toml") (config-IsName n h))

  pub secrets_dir-IsClean : (n : Str) → IsName n → IsClean (secrets_dir_of paths n)
  secrets_dir-IsClean n h =
      subst IsClean (sym (secrets_dir_of-render n h)) (secrets_file (n ∷ []) (h, tt))

  pub secrets-IsClean : (n : Str) → IsName n → IsClean (secrets_path paths n)
  secrets-IsClean n h =
      subst IsClean (sym (secrets_path-render n h))
        (secrets_file (n ∷ codes "env.toml" ∷ []) (h, (env-IsName, tt)))

  pub config_dir-IsClean : (n : Str) → IsName n → IsClean (dir_of (config_path paths n))
  config_dir-IsClean n h = (
    S,
    at.services_names,
    ap dir_of (config_path-render n h)
        ∙ dir_of-render S (n ++ codes ".toml") at.services_names (config-IsName n h),
  )

  pub secrets_path_dir-IsClean : (n : Str) → IsName n → IsClean (dir_of (secrets_path paths n))
  secrets_path_dir-IsClean n h = (
    T ++ n ∷ [],
    secrets-All (n ∷ []) (h, tt),
    ap dir_of (
          secrets_path-render n h
          ∙ ap render (sym (append_assoc T (n ∷ []) (codes "env.toml" ∷ []))))
        ∙ dir_of-render (T ++ n ∷ []) (codes "env.toml") (secrets-All (n ∷ []) (h, tt)) env-IsName,
  )

  pub secrets_dir-outside :
      (m : Str) → IsName m → ¬ AtOrAbove (secrets_dir_of paths m) paths.services_dir
  secrets_dir-outside m h =
      rw (secrets_dir_of-render m h, at.services_at)
        (not_above (m ∷ []) S (h, tt) (λ e. ground (arith, e)) at.services_names
          (λ x e. at.apart [] ((m ∷ []) ++ x) (append-nil S ∙ e ∙ append_assoc T (m ∷ []) x)))

  pub secrets-outside : (m : Str) → IsName m → ¬ AtOrAbove (secrets_path paths m) paths.services_dir
  secrets-outside m h =
      rw (secrets_path-render m h, at.services_at)
        (not_above (m ∷ codes "env.toml" ∷ []) S (h, (env-IsName, tt)) (λ e. ground (arith, e))
          at.services_names
          (λ x e.
            at.apart [] ((m ∷ codes "env.toml" ∷ []) ++ x)
              (append-nil S ∙ e ∙ append_assoc T (m ∷ codes "env.toml" ∷ []) x)))

  module _ (m n : Str) (h : IsName m) (k : IsName n) where
    pub config-config : m ≢ n → Apart (config_path paths m) (config_path paths n)
    config-config a =
        rw (config_path-render m h, config_path-render n k)
          (services_apart (m ++ codes ".toml") (n ++ codes ".toml") (config-IsName m h)
            (config-IsName n k) (λ e. a (append_cancel_right m n (codes ".toml") e)))

    pub config-secrets_dir : Apart (config_path paths m) (secrets_dir_of paths n)
    config-secrets_dir =
        rw (config_path-render m h, secrets_dir_of-render n k)
          (crossed (m ++ codes ".toml") (n ∷ []) (config-IsName m h) (k, tt))

    pub config-secrets : Apart (config_path paths m) (secrets_path paths n)
    config-secrets =
        rw (config_path-render m h, secrets_path-render n k)
          (crossed (m ++ codes ".toml") (n ∷ codes "env.toml" ∷ []) (config-IsName m h)
            (k, (env-IsName, tt)))

    pub secrets-secrets_dir : Apart (secrets_path paths m) (secrets_dir_of paths n)
    secrets-secrets_dir =
        rw (secrets_path-render m h, secrets_dir_of-render n k)
          (secrets_apart (m ∷ codes "env.toml" ∷ []) (n ∷ []) (h, (env-IsName, tt)) (k, tt)
            (λ e. ground (arith, e)))

    pub secrets-secrets : m ≢ n → Apart (secrets_path paths m) (secrets_path paths n)
    secrets-secrets a =
        rw (secrets_path-render m h, secrets_path-render n k)
          (secrets_apart (m ∷ codes "env.toml" ∷ []) (n ∷ codes "env.toml" ∷ [])
            (h, (env-IsName, tt)) (k, (env-IsName, tt)) (λ e. a (ground (arith, e))))

    pub secrets_dir-secrets_dir : m ≢ n → Apart (secrets_dir_of paths m) (secrets_dir_of paths n)
    secrets_dir-secrets_dir a =
        rw (secrets_dir_of-render m h, secrets_dir_of-render n k)
          (secrets_apart (m ∷ []) (n ∷ []) (h, tt) (k, tt) (λ e. a (ground (arith, e))))

    pub secrets_dir-apart : m ≢ n → ¬ AtOrAbove (secrets_dir_of paths m) (secrets_dir_of paths n)
    secrets_dir-apart a =
        rw (secrets_dir_of-render m h, secrets_dir_of-render n k)
          (not_above (m ∷ []) (T ++ n ∷ []) (h, tt) (λ e. ground (arith, e))
            (secrets-All (n ∷ []) (k, tt))
            (λ x e. a (
              ground (
                arith,
                append_cancel_left T (n ∷ []) ((m ∷ []) ++ x) (e ∙ append_assoc T (m ∷ []) x),
              ))))

    pub secrets-apart : ¬ AtOrAbove (secrets_path paths m) (secrets_dir_of paths n)
    secrets-apart =
        rw (secrets_path-render m h, secrets_dir_of-render n k)
          (not_above (m ∷ codes "env.toml" ∷ []) (T ++ n ∷ []) (h, (env-IsName, tt))
            (λ e. ground (arith, e)) (secrets-All (n ∷ []) (k, tt))
            (λ x e. ground (
              arith,
              append_cancel_left T (n ∷ []) ((m ∷ codes "env.toml" ∷ []) ++ x)
                  (e ∙ append_assoc T (m ∷ codes "env.toml" ∷ []) x),
            )))

    -- No temporary file of a config is one of these files.
    pub config-IsKept_config : IsKept (config_path paths n) (config_path paths m)
    config-IsKept_config digits d =
        rw (config_temp_at n digits k d, config_path-render m h)
          (services_apart (m ++ codes ".toml") (codes ".tmp-" ++ digits) (config-IsName m h)
            (temp-IsName digits d) (config-temp m digits d))

    pub secrets_dir-IsKept_config : IsKept (config_path paths n) (secrets_dir_of paths m)
    secrets_dir-IsKept_config digits d =
        rw (config_temp_at n digits k d, secrets_dir_of-render m h)
          (apart_sym (render (S ++ (codes ".tmp-" ++ digits) ∷ [])) (render (T ++ m ∷ []))
            (crossed (codes ".tmp-" ++ digits) (m ∷ []) (temp-IsName digits d) (h, tt)))

    pub secrets-IsKept_config : IsKept (config_path paths n) (secrets_path paths m)
    secrets-IsKept_config digits d =
        rw (config_temp_at n digits k d, secrets_path-render m h)
          (apart_sym (render (S ++ (codes ".tmp-" ++ digits) ∷ []))
            (render (T ++ m ∷ codes "env.toml" ∷ []))
            (crossed (codes ".tmp-" ++ digits) (m ∷ codes "env.toml" ∷ []) (temp-IsName digits d)
              (h, (env-IsName, tt))))

    pub config-IsKept_secrets : IsKept (secrets_path paths n) (config_path paths m)
    config-IsKept_secrets digits d =
        rw (secrets_temp_at n digits k d, config_path-render m h)
          (crossed (m ++ codes ".toml") (n ∷ (codes ".tmp-" ++ digits) ∷ []) (config-IsName m h)
            (k, (temp-IsName digits d, tt)))

    pub secrets_dir-IsKept_secrets : IsKept (secrets_path paths n) (secrets_dir_of paths m)
    secrets_dir-IsKept_secrets digits d =
        rw (secrets_temp_at n digits k d, secrets_dir_of-render m h)
          (secrets_apart (m ∷ []) (n ∷ (codes ".tmp-" ++ digits) ∷ []) (h, tt)
            (k, (temp-IsName digits d, tt)) (λ e. ground (arith, e)))

    pub secrets-IsKept_secrets : IsKept (secrets_path paths n) (secrets_path paths m)
    secrets-IsKept_secrets digits d =
        rw (secrets_temp_at n digits k d, secrets_path-render m h)
          (secrets_apart (m ∷ codes "env.toml" ∷ []) (n ∷ (codes ".tmp-" ++ digits) ∷ [])
            (h, (env-IsName, tt)) (k, (temp-IsName digits d, tt))
            (λ e. env-temp digits (ground (arith, e))))
