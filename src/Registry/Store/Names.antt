-- ===== src/Registry/Store/Names.antt =====
-- internal/registry/store.go: ListNames finds the config file of a name.
use decloud.Base.{
  ◌≡◌, refl, ap, ◌∙◌, inl, inr, Str, codes, Bool, Bool-cases, true, false, not, ◌||◌, List, [], ◌∷◌,
  ◌++◌, Any, arith, str_eq, str_eq_iff, has_suffix, trim_suffix, contains_byte,
}
use decloud.Registry.Store.{config_names}
use decloud.Registry.Store.Layout.{contains_byte-append_right}
use decloud.Base.Suffix.{has_suffix-append, trim_suffix-append}

not_tmp : (n : Str) → has_suffix (n ++ codes ".toml") (codes ".tmp") ≡ false
unfolding has_suffix
not_tmp [] = unfold str_eq in refl
not_tmp (a ∷ n) =
    let o =
      contains_byte-append_right b'o' (a ∷ n) (codes ".toml") (unfold contains_byte in refl) in
    let no_o : contains_byte b'o' (codes ".tmp") ≡ false = unfold contains_byte in refl in
    ground (arith, not_tmp n, o, no_o, str_eq_iff ((a ∷ n) ++ codes ".toml") (codes ".tmp"))

pub config_names-Any :
    (n : Str) (entries : List (Str × Bool))
    → Any (λ e. e ≡ (n ++ codes ".toml", false)) entries
    → Any (λ m. m ≡ n) (config_names entries)
unfolding config_names
config_names-Any n [] h = absurd h
config_names-Any n ((m, d) ∷ entries) (inl e) =
    let same : m ≡ n ++ codes ".toml" = ap (λ x. x.0) e in
    let file : d ≡ false = ap (λ x. x.1) e in
    let name : trim_suffix m (codes ".toml") ≡ n =
      ap (λ x. trim_suffix x (codes ".toml")) same
      ∙ trim_suffix-append n (codes ".toml") (λ e. ground (arith, e)) in
    let ends : has_suffix m (codes ".toml") ≡ true =
      ap (λ x. has_suffix x (codes ".toml")) same ∙ has_suffix-append n (codes ".toml") in
    let kept : has_suffix m (codes ".tmp") ≡ false =
      ap (λ x. has_suffix x (codes ".tmp")) same ∙ not_tmp n in
    rw (file, ends, kept) (inl name)
config_names-Any n ((m, d) ∷ entries) (inr h) =
    let later = config_names-Any n entries h in
    elim (Bool-cases (d || (not (has_suffix m (codes ".toml")) || has_suffix m (codes ".tmp")))) [
      | inl e ↦ rw e later
      | inr e ↦ rw e (inr later)
    ]
