-- ===== src/Tests/Memory.antt =====
-- A file system in memory, with what os documents of it.
use decloud.Base.{
  ℕ, ◌≡◌, ◌≢◌, refl, sym, ap, ◌∙◌, inl, inr, Str, codes, true, false, Option, none, some, List, [],
  ◌∷◌, ◌++◌, All, All-append, Any, Bool, Bool-cases, ◌&&◌, arith, if◌then◌else◌, str_eq, str_eq_iff,
  str_eq_refl,
}
use decloud.Base.Path.{path_join, dir_of, elements}
use decloud.Errors.{Error, Result, ok, err, sentinel, fs_not_exist}
use decloud.Base.Path.Clean.{IsName, render, dir_of-render, elements-render}
use decloud.Deploy.Interface.{Done}
use decloud.Os.{Files}
use decloud.Os.Laws.{Entry, IsDigit, IsClean, Apart, HasFiles}

-- The latest entry of a path comes first.
abbrev pub Disk : Type 0
Disk = List (Str × Entry)

abbrev put : Str → Entry → Disk → Disk
put p e w = (p, e) ∷ w

abbrev pub at : Disk → Str → Entry
at [] q = (none, none)
at ((p, e) ∷ w) q = let rest = at w q in if str_eq q p then e else rest

abbrev is_file : Entry → Bool
is_file (some s, m) = true
is_file (none, m) = false

abbrev last_of : List Str → Str
last_of [] = []
last_of (p ∷ []) = p
last_of (p ∷ q ∷ ps) = last_of (q ∷ ps)

-- The files of a directory of the disk, by the paths of the second disk.
abbrev pub listed : Str → Disk → Disk → List (Str × Bool)
listed dir disk [] = []
listed dir disk ((p, e) ∷ w) =
    let rest = listed dir disk w in
    if is_file (at disk p) && str_eq (dir_of p) dir
    then (last_of (elements p), false) ∷ rest
    else rest

abbrev read : Str → Disk → Option Str → Result Str × Disk
read p disk (some s) = (ok s, disk)
read p disk none = (err (sentinel fs_not_exist), disk)

abbrev perm : Disk → Option ℕ → Result ℕ × Disk
perm disk (some m) = (ok m, disk)
perm disk none = (err (sentinel fs_not_exist), disk)

abbrev made : ℕ → Entry → Entry
made mode (s, none) = (s, some mode)
made mode (s, some m) = (s, some m)

-- The star at the end of a pattern, as a digit.
abbrev numbered : Str → Str
numbered [] = []
numbered (c ∷ []) = b'1' ∷ []
numbered (c ∷ d ∷ cs) = c ∷ numbered (d ∷ cs)

abbrev gone : Entry → Result Done
gone (none, none) = err (sentinel fs_not_exist)
gone (some s, m) = ok tt
gone (none, some m) = ok tt

abbrev pub memory : Files Disk
memory = record {
  read_file = λ p w. read p w (at w p).0;
  stat_perm = λ p w. perm w (at w p).1;
  mkdir_all = λ p m w. (ok tt, put p (made m (at w p)) w);
  chmod = λ p m w. (ok tt, put p ((at w p).0, some m) w);
  remove = λ p w. (gone (at w p), put p (none, none) w);
  rename = λ p q w. (ok tt, put q (at w p) (put p (none, none) w));
  read_dir = λ p w. (ok (listed p w w), w);
  create_temp = λ d n w.
      (ok (path_join d (numbered n)), put (path_join d (numbered n)) (some [], some 384) w);
  write = λ p s w. (ok tt, put p (some s, (at w p).1) w);
  close = λ p w. (ok tt, w);
  write_file = λ p m s w. (ok tt, put p (some s, some m) w);
  open_append = λ p m w. (ok tt, w);
  getwd = λ w. (ok (codes "/root"), w);
  now = λ w. (7, w);
}

numbered-star : (s : Str) → numbered (s ++ codes "*") ≡ s ++ (b'1' ∷ [])
numbered-star [] = refl
numbered-star (c ∷ []) = refl
numbered-star (c ∷ d ∷ cs) = ap (◌∷◌ c) (numbered-star (d ∷ cs))

put-other : (p q : Str) (e : Entry) (w : Disk) → q ≢ p → at (put p e w) q ≡ at w q
put-other p q e w n = ground (arith, str_eq_iff q p)

put-same : (p : Str) (e : Entry) (w : Disk) → at (put p e w) p ≡ e
put-same p e w = ground (arith, str_eq_iff p p)

one-IsDigit : IsDigit b'1'
one-IsDigit = (ground arith, ground arith)

created :
    (d prefix t : Str) (w : Disk)
    → IsClean d
    → (memory.create_temp d (prefix ++ codes "*") w).0 ≡ ok t
    → (digits : Str) × All IsDigit digits
      × (t ≡ path_join d (prefix ++ digits))
      × ((at (memory.create_temp d (prefix ++ codes "*") w).1 t).0 ≡ some [])
      × ((q : Str) → Apart q t → at (memory.create_temp d (prefix ++ codes "*") w).1 q ≡ at w q)
created d prefix t w clean e =
    let file = path_join d (numbered (prefix ++ codes "*")) in
    let same : file ≡ t = ground (arith, e) in
    (
      b'1' ∷ [],
      (one-IsDigit, tt),
      sym same ∙ ap (path_join d) (ap (λ x. x) (numbered-star prefix)),
      rw (← same) (ap (λ x. x.0) (put-same file (some [], some 384) w)),
      (λ q n. put-other file q (some [], some 384) w (λ z. n.0 (z ∙ same))),
    )

last_of-append : (ps : List Str) (q : Str) → last_of (ps ++ q ∷ []) ≡ q
last_of-append [] q = refl
last_of-append (p ∷ []) q = refl
last_of-append (p ∷ r ∷ ps) q = last_of-append (r ∷ ps) q

-- A file of the disk is among those listed, once its path is reached.
listed-Any :
    (dir : List Str) (name s : Str) (disk w : Disk)
    → All IsName dir
    → IsName name
    → (at disk (render (dir ++ name ∷ []))).0 ≡ some s
    → (at w (render (dir ++ name ∷ []))).0 ≡ some s
    → Any (λ e. e ≡ (name, false)) (listed (render dir) disk w)
listed-Any dir name s disk [] h k e f = absurd (ground (arith, f))
listed-Any dir name s disk ((p, x) ∷ w) h k e f =
    let path = render (dir ++ name ∷ []) in
    elim (Bool-cases (str_eq path p)) [
      | inl q ↦
          let same = (str_eq_iff path p).0 q in
          let inside : str_eq (dir_of p) (render dir) ≡ true =
            ground (arith, same, dir_of-render dir name h k, str_eq_refl (render dir)) in
          let there : is_file (at disk p) ≡ true = ground (arith, same, e) in
          let base : last_of (elements p) ≡ name =
            ap last_of (
              ap elements (sym same)
              ∙ elements-render (dir ++ name ∷ []) (All-append IsName dir (name ∷ []) h (k, tt)))
            ∙ last_of-append dir name in
          rw (there, inside) (inl (ap (λ b. (b, false)) base))
      | inr q ↦
          let later = listed-Any dir name s disk w h k e (ground (arith, f, q)) in
          elim (Bool-cases (is_file (at disk p) && str_eq (dir_of p) (render dir))) [
            | inl c ↦ rw c (inr later)
            | inr c ↦ rw c later
          ]
    ]

found :
    (dir : List Str) (name s : Str) (entries : List (Str × Bool)) (w : Disk)
    → All IsName dir
    → IsName name
    → (memory.read_dir (render dir) w).0 ≡ ok entries
    → (at w (render (dir ++ name ∷ []))).0 ≡ some s
    → Any (λ e. e ≡ (name, false)) entries
found dir name s entries w h k e f =
    let same : listed (render dir) w w ≡ entries = ground (arith, e) in
    rw (← same) (listed-Any dir name s w w h k f f)

read-same : (p : Str) (w : Disk) (s : Option Str) → (read p w s).1 ≡ w
read-same p w (some s) = refl
read-same p w none = refl

read-ok : (p : Str) (w : Disk) (s : Option Str) (t : Str) → (read p w s).0 ≡ ok t → s ≡ some t
read-ok p w (some s) t e = ground (arith, e)
read-ok p w none t e = absurd (ground (arith, e))

perm-same : (w : Disk) (m : Option ℕ) → (perm w m).1 ≡ w
perm-same w (some m) = refl
perm-same w none = refl

perm-ok : (w : Disk) (m : Option ℕ) (n : ℕ) → (perm w m).0 ≡ ok n → m ≡ some n
perm-ok w (some m) n e = ground (arith, e)
perm-ok w none n e = absurd (ground (arith, e))

perm-none : (w : Disk) (m : Option ℕ) (x : Error) → (perm w m).0 ≡ err x → m ≡ none
perm-none w (some m) x e = absurd (ground (arith, e))
perm-none w none x e = refl

renamed : (p q r : Str) (w : Disk) → r ≢ p → r ≢ q → at (memory.rename p q w).1 r ≡ at w r
renamed p q r w n m =
    put-other q r (at w p) (put p (none, none) w) m ∙ put-other p r (none, none) w n

pub memory-HasFiles : HasFiles memory at
memory-HasFiles = record {
  read_keeps = λ p w. read-same p w (at w p).0;
  read_ok = λ p s w e. read-ok p w (at w p).0 s e;
  stat_keeps = λ p w. perm-same w (at w p).1;
  stat_ok = λ p m w e. perm-ok w (at w p).1 m e;
  stat_gone = λ p x w e f. perm-none w (at w p).1 x e;
  read_dir_keeps = λ p q w. refl;
  read_dir_lists = found;
  read_dir_none = λ dir name x w a b e f. absurd (ground (arith, e));
  mkdir_content = λ p q m w. ground (arith, str_eq_iff q p);
  mkdir_perm = λ p q m w c d n. put-other p q (made m (at w p)) w (λ e. n (inl e));
  chmod_content = λ p q m w. ground (arith, str_eq_iff q p);
  chmod_other = λ p q m w n. put-other p q ((at w p).0, some m) w n.0;
  chmod_ok = λ p m w bits e. put-same p ((at w p).0, some m) w;
  remove_other = λ p q w n. put-other p q (none, none) w n.0;
  remove_ok = λ p w e. put-same p (none, none) w;
  remove_err = λ p w x e. ground (arith, put-same p (none, none) w);
  rename_other = λ p q r s w n m e. renamed p q r w n.0 m.0;
  rename_apart = λ p q r w n m a b. renamed p q r w n.0 m.0;
  rename_ok = λ p q w e. put-same q (at w p) (put p (none, none) w);
  rename_err = λ p q r w e. ground arith;
  create_ok = created;
  create_err = λ d pattern q w e. ground arith;
  write_other = λ t q s w n. put-other t q (some s, (at w t).1) w n.0;
  write_ok = λ t s w e f. ap (λ x. x.0) (put-same t (some s, (at w t).1) w);
  close_keeps = λ t q w. refl;
  write_file_other = λ p q m s w n. put-other p q (some s, some m) w n.0;
  now_keeps = λ q w. refl;
}
