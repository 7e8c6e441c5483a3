-- ===== src/Caddy/Reloader/Laws.antt =====
-- internal/caddy/reloader.go: which paths on the host have a path in the container of Caddy.
use decloud.Base.{
  ◌≡◌, ◌≢◌, refl, sym, ap, subst, split, ◌∙◌, ◌⊎◌, inl, inr, Str, codes, Bool-cases, true, false,
  Option, none, some, List, [], ◌∷◌, ◌++◌, All, arith, if◌then◌else◌, contains_byte, has_prefix,
  str_eq, str_eq_iff, str_eq_refl,
}
use mathlib.Core.List.{append-nil, append_cancel_left}
use decloud.Base.Split.{join}
use decloud.Base.Path.{clean, clean_parts, path_join, is_abs, go_up, rel_elements, rel}
use decloud.Base.Path.Clean.{
  IsName, render, clean-render, clean-render-append, elements-render, render-injective,
}
use decloud.Errors.{ok, err}
use decloud.Caddy.Reloader.{outside, goes_up, translate_path}

-- Where one list of names leads from another: below it, or up at first.
abbrev Leads : List Str → List Str → Option (List Str) → Type 0
Leads D P r =
    ((F : List Str) × (P ≡ D ++ F) × (r ≡ some F))
    ⊎ (((F : List Str) → P ≢ D ++ F) × ((rest : List Str) × (r ≡ some (codes ".." ∷ rest))))

go_up-cons : (b : Str) (bs targ : List Str) → go_up (b ∷ bs) targ ≡ codes ".." ∷ go_up bs targ
unfolding go_up
go_up-cons b bs targ = refl

rel_elements-Leads : (D P : List Str) → All IsName D → All IsName P → Leads D P (rel_elements D P)
unfolding rel_elements go_up
rel_elements-Leads [] P h k = inl (P, refl, refl)
rel_elements-Leads (b ∷ bs) [] h k = inr ((λ F e. ground (arith, e)), (go_up bs [], refl))
rel_elements-Leads (b ∷ bs) (t ∷ ts) h k = elim (Bool-cases (str_eq t b)) [
  | inl e ↦
      let same = (str_eq_iff t b).0 e in
      elim (rel_elements-Leads bs ts h.1 k.1) [
        | inl (F, q, r) ↦ inl (F, ground (arith, same, q), ground (arith, e, r))
        | inr (n, (rest, r)) ↦ inr ((λ F q. n F (ground (arith, q))), (rest, ground (arith, e, r)))
      ]
  | inr e ↦ inr (
    (λ F q. ground (arith, q, str_eq_iff t b)),
    (go_up bs (t ∷ ts), ground (arith, e, str_eq_iff b (codes ".."), h.0.3)),
  )
]

goes_up-join_up : (rest : List Str) → goes_up (join (codes ".." ∷ rest) b'/') ≡ true
unfolding goes_up join str_eq has_prefix
goes_up-join_up [] = refl
goes_up-join_up (r ∷ rest) = refl

-- A name, alone or with a slash behind it, does not lead up.
goes_up-name : (q : Str) → IsName q → goes_up q ≡ false
unfolding goes_up has_prefix str_eq contains_byte
goes_up-name [] h = absurd (h.1 refl)
goes_up-name (a ∷ []) h = ground arith
goes_up-name (a ∷ b ∷ []) h = ground (arith, str_eq_iff (a ∷ b ∷ []) (codes ".."), h.3)
goes_up-name (a ∷ b ∷ c ∷ q) h = ground (arith, h.0)

goes_up-slash : (q r : Str) → IsName q → goes_up (q ++ (b'/' ∷ r)) ≡ false
unfolding goes_up has_prefix str_eq contains_byte
goes_up-slash [] r h = absurd (h.1 refl)
goes_up-slash (a ∷ []) r h = ground arith
goes_up-slash (a ∷ b ∷ []) r h = ground (arith, str_eq_iff (a ∷ b ∷ []) (codes ".."), h.3)
goes_up-slash (a ∷ b ∷ c ∷ q) r h = ground (arith, h.0)

goes_up-join : (q : Str) (qs : List Str) → IsName q → goes_up (join (q ∷ qs) b'/') ≡ false
unfolding join
goes_up-join q [] h = goes_up-name q h
goes_up-join q (r ∷ rs) h = goes_up-slash q (join (r ∷ rs) b'/') h

-- Rel of two clean absolute paths.
rel-render :
    (D P : List Str)
    → All IsName D
    → All IsName P
    → P ≢ D
    → rel (render D) (render P)
      ≡ (elim (rel_elements D P) [ none ↦ none | some es ↦ some (join es b'/') ])
unfolding rel
rel-render D P h k n =
    let apart : render P ≢ render D = λ e. n (render-injective P D k h e) in
    let based : str_eq (render D) (codes ".") ≡ false = unfold render str_eq in refl in
    let abs_d : is_abs (render D) ≡ true = unfold is_abs render has_prefix in refl in
    let abs_p : is_abs (render P) ≡ true = unfold is_abs render has_prefix in refl in
    ground (
      arith,
      clean-render D h,
      clean-render P k,
      based,
      abs_d,
      abs_p,
      apart,
      str_eq_iff (render P) (render D),
      elements-render D h,
      elements-render P k,
      str_eq_refl (codes "/"),
    )

etc_name : IsName (codes "etc")
etc_name = (
  unfold contains_byte in refl,
  (λ e. ground (arith, e)),
  (λ e. ground (arith, e)),
  (λ e. ground (arith, e)),
)

caddy_name : IsName (codes "caddy")
caddy_name = (
  unfold contains_byte in refl,
  (λ e. ground (arith, e)),
  (λ e. ground (arith, e)),
  (λ e. ground (arith, e)),
)

-- The container's view of the directory.
abbrev pub container_names : List Str
container_names = codes "etc" ∷ codes "caddy" ∷ []

container_path :
    (q : Str) (qs : List Str)
    → All IsName (q ∷ qs)
    → path_join (codes "/etc/caddy") (join (q ∷ qs) b'/') ≡ render (container_names ++ (q ∷ qs))
unfolding path_join str_eq
container_path q qs h =
    let start : render container_names ≡ codes "/etc/caddy" = unfold render join in refl in
    ap (λ d. clean (d ++ (b'/' ∷ join (q ∷ qs) b'/'))) (sym start)
    ∙ clean-render-append container_names q qs (etc_name, (caddy_name, tt)) h

All-suffix : (xs ys : List Str) → All IsName (xs ++ ys) → All IsName ys
All-suffix [] ys h = h
All-suffix (x ∷ xs) ys h = All-suffix xs ys h.1

-- The path of the directory itself.
rel_self : (D : List Str) → All IsName D → rel (render D) (render D) ≡ some (codes ".")
unfolding rel
rel_self D h = ground (arith, clean-render D h, str_eq_refl (render D))

itself : path_join (codes "/etc/caddy") (codes ".") ≡ render container_names
itself = unfold path_join render clean clean_parts split join has_prefix str_eq in refl

-- What translatePath makes of the relative path.
translate_path-rel :
    (D P : List Str) (r : Str)
    → All IsName D
    → All IsName P
    → rel (render D) (render P) ≡ some r
    → translate_path (render D) (render P) ≡ (
        if goes_up r
        then err (outside (render P) (render D))
        else ok (path_join (codes "/etc/caddy") r))
unfolding translate_path
translate_path-rel D P r h k e = ground (arith, clean-render D h, clean-render P k, e)

-- For a directory D and a path that are clean and absolute, translatePath gives a path exactly when
-- the path is D or below it, and then the same names below /etc/caddy; otherwise it fails with the error
-- that the path is outside the bind mount.
pub translate_path-cases :
    (D P : List Str)
    → All IsName D
    → All IsName P
    → ((F : List Str) × (P ≡ D ++ F)
        × (translate_path (render D) (render P) ≡ ok (render (container_names ++ F))))
      ⊎ (((F : List Str) → P ≢ D ++ F)
          × (translate_path (render D) (render P) ≡ err (outside (render P) (render D))))
translate_path-cases D P h k = elim (rel_elements-Leads D P h k) [
  | inl ([], e, r) ↦
      let same : P ≡ D = e ∙ append-nil D in
      let found : rel (render D) (render P) ≡ some (codes ".") = rw same (rel_self D h) in
      let below : goes_up (codes ".") ≡ false = unfold goes_up str_eq has_prefix in refl in
      inl ([], e, ground (arith, translate_path-rel D P (codes ".") h k found, below, itself))
  | inl (q ∷ qs, e, r) ↦
      let names : All IsName (q ∷ qs) = All-suffix D (q ∷ qs) (subst (All IsName) e k) in
      let strict : P ≢ D =
        λ z. ground (arith, append_cancel_left D (q ∷ qs) [] (sym e ∙ z ∙ sym (append-nil D))) in
      let step = rel-render D P h k strict in
      let found : rel (render D) (render P) ≡ some (join (q ∷ qs) b'/') = ground (arith, step, r) in
      inl (
        q ∷ qs,
        e,
        ground (
          arith,
          translate_path-rel D P (join (q ∷ qs) b'/') h k found,
          goes_up-join q qs names.0,
          container_path q qs names,
        ),
      )
  | inr (n, (rest, r)) ↦
      let step = rel-render D P h k (λ z. n [] (z ∙ sym (append-nil D))) in
      let up = join (codes ".." ∷ rest) b'/' in
      let found : rel (render D) (render P) ≡ some up = ground (arith, step, r) in
      inr (n, ground (arith, translate_path-rel D P up h k found, goes_up-join_up rest))
]
