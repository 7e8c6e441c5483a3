-- ===== src/Base/Path/Clean.antt =====
-- Clean absolute paths are lists of names, and Join, Dir and Clean act on those lists.
use mathlib.Core.Path.{◌≡◌, refl, sym, ap, ◌∙◌}
use mathlib.Core.Logic.{◌≢◌}
use mathlib.Core.Bool.{Bool, true, false}
use mathlib.Core.List.{List, [], ◌∷◌, ◌++◌, append_assoc, append-nil}
use native.Mathlib.Omega.{arith}
use Prim.Native.Nat.{ℕ}
use decloud.Base.Text.{Str, codes, str_eq, str_eq_iff, has_prefix, split, contains_byte}
use decloud.Base.Lists.{All}
use decloud.Base.Split.{join, split_lacking, split-append}
use decloud.Base.Path.{
  clean_step, clean_parts, rev_onto, clean, path_join, elements, to_last_slash, dir_of,
}

-- The name of an entry of a directory.
abbrev pub IsName : Str → Type 0
IsName s = (contains_byte b'/' s ≡ false) × (s ≢ []) × (s ≢ codes ".") × (s ≢ codes "..")

-- The clean absolute path of these names.
unfoldable pub render : List Str → Str
unfolding join
render ps = b'/' ∷ join ps b'/'

split-join :
    (p : Str) (ps : List Str) → All IsName (p ∷ ps) → split (join (p ∷ ps) b'/') b'/' ≡ p ∷ ps
unfolding join
split-join p [] h = split_lacking p b'/' h.0.0
split-join p (q ∷ ps) h =
    rw (split-append p (join (q ∷ ps) b'/') b'/' h.0.0) (ap (◌∷◌ p) (split-join q ps h.1))

split-join-append :
    (p : Str) (ps : List Str) (t : Str)
    → All IsName (p ∷ ps)
    → split (join (p ∷ ps) b'/' ++ (b'/' ∷ t)) b'/' ≡ (p ∷ ps) ++ split t b'/'
unfolding join
split-join-append p [] t h = split-append p t b'/' h.0.0
split-join-append p (q ∷ ps) t h =
    rw (append_assoc, split-append p (join (q ∷ ps) b'/' ++ (b'/' ∷ t)) b'/' h.0.0)
      (ap (◌∷◌ p) (split-join-append q ps t h.1))

clean_step-name : (r : Bool) (c : Str) (kept : List Str) → IsName c → clean_step r c kept ≡ c ∷ kept
clean_step-name r c kept h =
    ground
      (arith, str_eq_iff c [], str_eq_iff c (codes "."), str_eq_iff c (codes ".."), h.1, h.2, h.3)

clean_parts-append :
    (r : Bool) (ps qs kept : List Str)
    → All IsName ps
    → clean_parts r (ps ++ qs) kept ≡ clean_parts r qs (rev_onto ps kept)
unfolding clean_parts
clean_parts-append r [] qs kept h = refl
clean_parts-append r (p ∷ ps) qs kept h =
    ap (clean_parts r (ps ++ qs)) (clean_step-name r p kept h.0)
    ∙ clean_parts-append r ps qs (p ∷ kept) h.1

rev_onto-twice : (ps kept qs : List Str) → rev_onto (rev_onto ps kept) qs ≡ rev_onto kept (ps ++ qs)
rev_onto-twice [] kept qs = refl
rev_onto-twice (p ∷ ps) kept qs = rev_onto-twice ps (p ∷ kept) qs

rev_onto-onto : (ps qs : List Str) → ps ++ qs ≡ rev_onto (rev_onto ps []) qs
rev_onto-onto ps qs = sym (rev_onto-twice ps [] qs)

rooted : (s : Str) → has_prefix (b'/' ∷ s) (codes "/") ≡ true
unfolding has_prefix
rooted [] = refl
rooted (a ∷ s) = refl

-- Clean of a path that begins with a slash.
clean-rooted :
    (s : Str)
    → clean (b'/' ∷ s) ≡ b'/' ∷ join (rev_onto (clean_parts true (split s b'/') []) []) b'/'
unfolding clean
clean-rooted s = rw (rooted s) (unfold split clean_parts in refl)

clean_parts-names :
    (ps kept : List Str) → All IsName ps → clean_parts true ps kept ≡ rev_onto ps kept
unfolding clean_parts
clean_parts-names [] kept h = refl
clean_parts-names (p ∷ ps) kept h =
    ap (clean_parts true ps) (clean_step-name true p kept h.0) ∙ clean_parts-names ps (p ∷ kept) h.1

abbrev rendered : List Str → Str
rendered kept = b'/' ∷ join (rev_onto kept []) b'/'

-- What Clean makes of the parts behind a clean path.
pub clean-below :
    (ps : List Str) (t : Str)
    → All IsName ps
    → clean (render ps ++ (b'/' ∷ t))
      ≡ b'/' ∷ join (rev_onto (clean_parts true (split t b'/') (rev_onto ps [])) []) b'/'
unfolding render
clean-below [] t h = clean-rooted (b'/' ∷ t) ∙ (unfold join split clean_parts in refl)
clean-below (p ∷ ps) t h =
    clean-rooted (join (p ∷ ps) b'/' ++ (b'/' ∷ t))
    ∙ ap (λ parts. rendered (clean_parts true parts [])) (split-join-append p ps t h)
    ∙ ap rendered (clean_parts-append true (p ∷ ps) (split t b'/') [] h)

pub clean-render : (ps : List Str) → All IsName ps → clean (render ps) ≡ render ps
unfolding render
clean-render [] h = clean-rooted [] ∙ (unfold split clean_parts join in refl)
clean-render (p ∷ ps) h =
    clean-rooted (join (p ∷ ps) b'/')
    ∙ ap (λ parts. rendered (clean_parts true parts [])) (split-join p ps h)
    ∙ ap rendered (clean_parts-names (p ∷ ps) [] h)
    ∙ ap (λ qs. b'/' ∷ join qs b'/') (rev_onto-twice (p ∷ ps) [] [] ∙ append-nil (p ∷ ps))

-- Join of a clean path and names.
pub clean-render-append :
    (ps : List Str) (q : Str) (qs : List Str)
    → All IsName ps
    → All IsName (q ∷ qs)
    → clean (render ps ++ (b'/' ∷ join (q ∷ qs) b'/')) ≡ render (ps ++ (q ∷ qs))
unfolding render
clean-render-append ps q qs h k =
    clean-below ps (join (q ∷ qs) b'/') h
    ∙ ap (λ parts. rendered (clean_parts true parts (rev_onto ps []))) (split-join q qs k)
    ∙ ap rendered (clean_parts-names (q ∷ qs) (rev_onto ps []) k)
    ∙ ap (λ r. b'/' ∷ join r b'/')
        (rev_onto-twice (q ∷ qs) (rev_onto ps []) []
          ∙ ap (rev_onto (rev_onto ps [])) (append-nil (q ∷ qs))
          ∙ sym (rev_onto-onto ps (q ∷ qs)))

pub path_join-render :
    (ps : List Str) (q : Str)
    → All IsName ps
    → IsName q
    → path_join (render ps) q ≡ render (ps ++ q ∷ [])
unfolding path_join
path_join-render ps q h k =
    unfold render str_eq in
    (ap (λ t. clean (render ps ++ (b'/' ∷ t))) (unfold join in refl)
      ∙ clean-render-append ps q [] h (k, tt))

join-nonempty : (p : Str) (ps : List Str) → p ≢ [] → join (p ∷ ps) b'/' ≢ []
unfolding join
join-nonempty p [] h = h
join-nonempty [] (q ∷ ps) h = absurd (h refl)
join-nonempty (a ∷ p) (q ∷ ps) h = λ e. ground arith

elements-cons : (s : Str) → s ≢ [] → elements (b'/' ∷ s) ≡ split s b'/'
unfolding elements
elements-cons [] h = absurd (h refl)
elements-cons (a ∷ s) h = refl

pub elements-render : (ps : List Str) → All IsName ps → elements (render ps) ≡ ps
unfolding elements render
elements-render [] h = unfold join in refl
elements-render (p ∷ ps) h =
    elements-cons (join (p ∷ ps) b'/') (join-nonempty p ps h.0.1) ∙ split-join p ps h

pub render-injective :
    (ps qs : List Str) → All IsName ps → All IsName qs → render ps ≡ render qs → ps ≡ qs
render-injective ps qs h k e = sym (elements-render ps h) ∙ ap elements e ∙ elements-render qs k

to_last_slash-lacking : (b : Str) → contains_byte b'/' b ≡ false → to_last_slash b ≡ []
unfolding to_last_slash contains_byte
to_last_slash-lacking [] h = refl
to_last_slash-lacking (a ∷ b) h = ground (arith, to_last_slash-lacking b)

append-nonempty : (x : Str) (a : ℕ) → (b : ℕ) × (r : Str) × (x ++ (a ∷ []) ≡ b ∷ r)
append-nonempty [] a = (a, [], refl)
append-nonempty (b ∷ x) a = (b, x ++ (a ∷ []), refl)

to_last_slash-append :
    (x b : Str) → contains_byte b'/' b ≡ false → to_last_slash (x ++ (b'/' ∷ b)) ≡ x ++ (b'/' ∷ [])
unfolding to_last_slash
to_last_slash-append [] b h = rw (to_last_slash-lacking b h) refl
to_last_slash-append (a ∷ x) b h =
    let (c, r, e) = append-nonempty x b'/' in ground (arith, to_last_slash-append x b h)

join-append :
    (p : Str) (ps : List Str) (q : Str)
    → join ((p ∷ ps) ++ q ∷ []) b'/' ≡ join (p ∷ ps) b'/' ++ (b'/' ∷ q)
unfolding join
join-append p [] q = refl
join-append p (r ∷ ps) q = rw append_assoc (ap (λ t. p ++ (b'/' ∷ t)) (join-append r ps q))

pub dir_of-render :
    (ps : List Str) (q : Str)
    → All IsName ps
    → IsName q
    → dir_of (render (ps ++ q ∷ [])) ≡ render ps
unfolding dir_of
dir_of-render [] q h k =
    let one : render (q ∷ []) ≡ b'/' ∷ q = unfold render join in refl in
    let root : render [] ≡ b'/' ∷ [] = unfold render join in refl in
    ap (λ t. clean (to_last_slash t)) one
    ∙ ap clean (to_last_slash-append [] q k.0)
    ∙ ap clean (sym root)
    ∙ clean-render [] tt
dir_of-render (p ∷ ps) q h k =
    let apart : render ((p ∷ ps) ++ q ∷ []) ≡ render (p ∷ ps) ++ (b'/' ∷ q) =
      unfold render in ap (◌∷◌ b'/') (join-append p ps q) in
    let cut = to_last_slash-append (render (p ∷ ps)) q k.0 in
    let end : clean_parts true (split [] b'/') (rev_onto (p ∷ ps) []) ≡ rev_onto (p ∷ ps) [] =
      unfold split clean_parts in refl in
    let whole : b'/' ∷ join (p ∷ ps) b'/' ≡ render (p ∷ ps) = unfold render in refl in
    ap (λ t. clean (to_last_slash t)) apart
    ∙ ap clean cut
    ∙ clean-below (p ∷ ps) [] h
    ∙ ap rendered end
    ∙ ap (λ qs. b'/' ∷ join qs b'/') (rev_onto-twice (p ∷ ps) [] [] ∙ append-nil (p ∷ ps))
    ∙ whole

append-nonempty_left : (x : Str) (a : ℕ) (r : Str) → x ++ (a ∷ r) ≢ []
append-nonempty_left [] a r e = ground arith
append-nonempty_left (b ∷ x) a r e = ground arith

-- A path inside a directory other than the root.
pub render-below :
    (ps qs : List Str) (rest : Str)
    → All IsName ps
    → All IsName qs
    → ps ≢ []
    → render qs ≡ render ps ++ (b'/' ∷ rest)
    → (x : List Str) × (qs ≡ ps ++ x)
render-below [] qs rest h k n e = absurd (n refl)
render-below (p ∷ ps) qs rest h k n e =
    let inside : elements (render (p ∷ ps) ++ (b'/' ∷ rest))
        ≡ split (join (p ∷ ps) b'/' ++ (b'/' ∷ rest)) b'/' =
      unfold render in
      elements-cons (join (p ∷ ps) b'/' ++ (b'/' ∷ rest))
        (append-nonempty_left (join (p ∷ ps) b'/') b'/' rest) in
    (
      split rest b'/',
      sym (elements-render qs k) ∙ ap elements e ∙ inside ∙ split-join-append p ps rest h,
    )

-- Text after the last element.
pub render-append_last :
    (ps : List Str) (q s : Str) → render (ps ++ q ∷ []) ++ s ≡ render (ps ++ (q ++ s) ∷ [])
unfolding render
render-append_last [] q s = unfold join in refl
render-append_last (p ∷ ps) q s =
    ap (λ t. b'/' ∷ (t ++ s)) (join-append p ps q)
    ∙ ap (◌∷◌ b'/')
        (append_assoc (join (p ∷ ps) b'/') (b'/' ∷ q) s ∙ sym (join-append p ps (q ++ s)))
