-- ===== src/Base/Path.antt =====
-- The package path/filepath on byte strings, as the program calls it: Clean, Join, Dir, IsAbs and
-- Rel. On Unix, the package path is the same.
pub mod Clean
use decloud.Base.Tests.{◌==◌, if◌then◌else◌}
use decloud.Base.Text.{Str, codes, str_eq, has_prefix, split}
use decloud.Base.Split.{join}
use mathlib.Core.Bool.{Bool, true, false, not, ◌&&◌, ◌||◌}
use mathlib.Core.Option.{Option, none, some}
use mathlib.Core.List.{List, [], ◌∷◌, ◌++◌}

-- One element of a path that filepath.Clean reads, onto what it keeps, the latest first.
abbrev pub clean_step : Bool → Str → List Str → List Str
clean_step rooted c kept =
    if str_eq c [] || str_eq c (codes ".")
    then kept
    else if not (str_eq c (codes ".."))
    then c ∷ kept
    else elim kept [
      | [] ↦ if rooted then [] else c ∷ []
      | k ∷ ks ↦ if str_eq k (codes "..") then c ∷ k ∷ ks else ks
    ]

unfoldable pub clean_parts : Bool → List Str → List Str → List Str
unfolding str_eq
clean_parts rooted [] kept = kept
clean_parts rooted (c ∷ cs) kept = clean_parts rooted cs (clean_step rooted c kept)

abbrev pub rev_onto : List Str → List Str → List Str
rev_onto [] ys = ys
rev_onto (x ∷ xs) ys = rev_onto xs (x ∷ ys)

-- filepath.Clean
unfoldable pub clean : Str → Str
unfolding clean_parts has_prefix split join str_eq
clean p =
    let rooted = has_prefix p (codes "/") in
    let body = join (rev_onto (clean_parts rooted (split p b'/') []) []) b'/' in
    if rooted then b'/' ∷ body else if str_eq body [] then codes "." else body

-- filepath.Join of two elements
unfoldable pub path_join : Str → Str → Str
unfolding clean str_eq
path_join a b =
    if str_eq a [] then (if str_eq b [] then [] else clean b) else clean (a ++ (b'/' ∷ b))

-- A path up to its last slash, that slash included.
unfoldable pub to_last_slash : Str → Str
to_last_slash [] = []
to_last_slash (a ∷ s) =
    let rest = to_last_slash s in
    elim rest [ [] ↦ if a == b'/' then a ∷ [] else [] | b ∷ r ↦ a ∷ b ∷ r ]

-- filepath.Dir
unfoldable pub dir_of : Str → Str
unfolding clean to_last_slash
dir_of p = clean (to_last_slash p)

-- filepath.Join
unfoldable pub join_all : List Str → Str
unfolding clean join str_eq
join_all [] = []
join_all (e ∷ es) =
    let rest = join_all es in if str_eq e [] then rest else clean (join (e ∷ es) b'/')

-- filepath.IsAbs
unfoldable pub is_abs : Str → Bool
unfolding has_prefix
is_abs p = has_prefix p (codes "/")

-- The elements of a path that Clean returned; "/" has none.
unfoldable pub elements : Str → List Str
unfolding split
elements [] = []
elements (a ∷ s) =
    if a == b'/' then (elim s [ [] ↦ [] | b ∷ t ↦ split (b ∷ t) b'/' ]) else split (a ∷ s) b'/'

-- `..` for each element of a path, and the other path behind them.
unfoldable pub go_up : List Str → List Str → List Str
go_up [] targ = targ
go_up (b ∷ bs) targ = codes ".." ∷ go_up bs targ

-- The loop of filepath.Rel over both paths, and what it makes of the elements that are left: none is
-- the error, for a base that goes up from where the paths part.
unfoldable pub rel_elements : List Str → List Str → Option (List Str)
unfolding str_eq go_up
rel_elements [] targ = some targ
rel_elements (b ∷ bs) [] = some (go_up (b ∷ bs) [])
rel_elements (b ∷ bs) (t ∷ ts) =
    let rest = rel_elements bs ts in
    if str_eq t b
    then rest
    else if str_eq b (codes "..")
    then none
    else some (go_up (b ∷ bs) (t ∷ ts))

-- filepath.Rel; none is its error.
unfoldable pub rel : Str → Str → Option Str
unfolding clean rel_elements elements is_abs join str_eq
rel base targ =
    let b = clean base in
    let t = clean targ in
    if str_eq t b
    then some (codes ".")
    else let from = if str_eq b (codes ".") then [] else b in
      if not (str_eq (if is_abs from then codes "/" else []) (if is_abs t then codes "/" else []))
      then none
      else elim (rel_elements (elements from) (elements t)) [
        | none ↦ none
        | some es ↦ some (join es b'/')
      ]
