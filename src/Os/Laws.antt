-- ===== src/Os/Laws.antt =====
-- Documented behaviour of the package `os`, by what is at each path: the content of a file and the
-- permission bits.
use decloud.Base.{
  ℕ, ◌≤◌, ◌<◌, ◌≡◌, ◌≢◌, sym, ◌⊎◌, Str, codes, true, false, Option, none, some, Bool, List, [], ◌∷◌,
  ◌++◌, All, Any,
}
use decloud.Base.Path.{path_join}
use decloud.Base.Path.Clean.{IsName, render}
use decloud.Errors.{Error, ok, err, is_ok, error_is, fs_not_exist}
use decloud.Os.{Files}

-- What is at a path: the content, if it is a file, and the permission bits, if there is anything.
abbrev pub Entry : Type 0
Entry = Option Str × Option ℕ

abbrev pub IsDigit : ℕ → Type 0
IsDigit b = (b'0' ≤ b) × (b ≤ b'9')

-- A directory that holds this path, or the path itself.
abbrev pub AtOrAbove : Str → Str → Type 0
AtOrAbove q p = (q ≡ p) ⊎ ((rest : Str) × (p ≡ q ++ (b'/' ∷ rest)))

-- A clean absolute path: another spelling of it is not one.
abbrev pub IsClean : Str → Type 0
IsClean p = (ps : List Str) × All IsName ps × (p ≡ render ps)

-- Two clean absolute paths that differ.
abbrev pub Apart : Str → Str → Type 0
Apart q p = (q ≢ p) × IsClean q × IsClean p

pub apart_sym : (q p : Str) → Apart q p → Apart p q
apart_sym q p (n, c, d) = ((λ e. n (sym e)), d, c)

-- A read changes nothing, and what it returns is what is there; it may fail all the same. A call that
-- changes files may fail, and then changes none. MkdirAll touches the path and the directories above it.
-- CreateTemp makes an empty file whose name has digits in the place of the star. A call on one clean path
-- leaves another as it is; so does the rename of a file, and any rename what is not below its two paths.
pub record HasFiles {W : Type 0} (fs : Files W) (at : W → Str → Entry) : Type 0 where
  pub read_keeps : (p : Str) (w : W) → (fs.read_file p w).1 ≡ w
  pub read_ok : (p s : Str) (w : W) → (fs.read_file p w).0 ≡ ok s → (at w p).0 ≡ some s
  pub stat_keeps : (p : Str) (w : W) → (fs.stat_perm p w).1 ≡ w
  pub stat_ok : (p : Str) (m : ℕ) (w : W) → (fs.stat_perm p w).0 ≡ ok m → (at w p).1 ≡ some m
  pub stat_gone :
      (p : Str) (e : Error) (w : W)
      → (fs.stat_perm p w).0 ≡ err e
      → error_is e fs_not_exist ≡ true
      → (at w p).1 ≡ none
  pub read_dir_keeps : (p q : Str) (w : W) → at (fs.read_dir p w).1 q ≡ at w q
  pub read_dir_lists :
      (dir : List Str) (name s : Str) (entries : List (Str × Bool)) (w : W)
      → All IsName dir
      → IsName name
      → (fs.read_dir (render dir) w).0 ≡ ok entries
      → (at w (render (dir ++ name ∷ []))).0 ≡ some s
      → Any (λ e. e ≡ (name, false)) entries
  pub read_dir_none :
      (dir : List Str) (name : Str) (e : Error) (w : W)
      → All IsName dir
      → IsName name
      → (fs.read_dir (render dir) w).0 ≡ err e
      → error_is e fs_not_exist ≡ true
      → (at w (render (dir ++ name ∷ []))).0 ≡ none
  pub mkdir_content : (p q : Str) (m : ℕ) (w : W) → (at (fs.mkdir_all p m w).1 q).0 ≡ (at w q).0
  pub mkdir_perm :
      (p q : Str) (m : ℕ) (w : W)
      → IsClean p
      → IsClean q
      → ¬ AtOrAbove q p
      → at (fs.mkdir_all p m w).1 q ≡ at w q
  pub chmod_content : (p q : Str) (m : ℕ) (w : W) → (at (fs.chmod p m w).1 q).0 ≡ (at w q).0
  pub chmod_other : (p q : Str) (m : ℕ) (w : W) → Apart q p → at (fs.chmod p m w).1 q ≡ at w q
  pub chmod_ok :
      (p : Str) (m : ℕ) (w : W)
      → m < 512
      → is_ok (fs.chmod p m w).0 ≡ true
      → at (fs.chmod p m w).1 p ≡ ((at w p).0, some m)
  pub remove_other : (p q : Str) (w : W) → Apart q p → at (fs.remove p w).1 q ≡ at w q
  pub remove_ok :
      (p : Str) (w : W) → is_ok (fs.remove p w).0 ≡ true → at (fs.remove p w).1 p ≡ (none, none)
  pub remove_err :
      (p : Str) (w : W) (e : Error)
      → (fs.remove p w).0 ≡ err e
      → (at (fs.remove p w).1 p ≡ at w p) × (error_is e fs_not_exist ≡ true → at w p ≡ (none, none))
  pub rename_other :
      (p q r s : Str) (w : W)
      → Apart r p
      → Apart r q
      → (at w p).0 ≡ some s
      → at (fs.rename p q w).1 r ≡ at w r
  pub rename_apart :
      (p q r : Str) (w : W)
      → Apart r p
      → Apart r q
      → ¬ AtOrAbove p r
      → ¬ AtOrAbove q r
      → at (fs.rename p q w).1 r ≡ at w r
  pub rename_ok :
      (p q : Str) (w : W) → is_ok (fs.rename p q w).0 ≡ true → at (fs.rename p q w).1 q ≡ at w p
  pub rename_err :
      (p q r : Str) (w : W) → is_ok (fs.rename p q w).0 ≡ false → at (fs.rename p q w).1 r ≡ at w r
  pub create_ok :
      (dir prefix t : Str) (w : W)
      → IsClean dir
      → (fs.create_temp dir (prefix ++ codes "*") w).0 ≡ ok t
      → (digits : Str) × All IsDigit digits
        × (t ≡ path_join dir (prefix ++ digits))
        × ((at (fs.create_temp dir (prefix ++ codes "*") w).1 t).0 ≡ some [])
        × ((q : Str) → Apart q t → at (fs.create_temp dir (prefix ++ codes "*") w).1 q ≡ at w q)
  pub create_err :
      (dir pattern q : Str) (w : W)
      → is_ok (fs.create_temp dir pattern w).0 ≡ false
      → at (fs.create_temp dir pattern w).1 q ≡ at w q
  pub write_other : (t q s : Str) (w : W) → Apart q t → at (fs.write t s w).1 q ≡ at w q
  pub write_ok :
      (t s : Str) (w : W)
      → (at w t).0 ≡ some []
      → is_ok (fs.write t s w).0 ≡ true
      → (at (fs.write t s w).1 t).0 ≡ some s
  pub close_keeps : (t q : Str) (w : W) → at (fs.close t w).1 q ≡ at w q
  pub write_file_other :
      (p q : Str) (m : ℕ) (s : Str) (w : W) → Apart q p → at (fs.write_file p m s w).1 q ≡ at w q
  pub now_keeps : (q : Str) (w : W) → at (fs.now w).1 q ≡ at w q
