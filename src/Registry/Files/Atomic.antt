-- ===== src/Registry/Files/Atomic.antt =====
-- internal/registry/store.go: writeAtomic writes a file whole or not at all.
use decloud.Base.{
  ℕ, ◌<◌, ◌≡◌, sym, subst, inl, inr, Str, codes, true, false, some, ◌++◌, All, arith,
}
use decloud.Base.Path.{path_join, dir_of}
use decloud.Errors.{Result, Result-cases, is_ok}
use decloud.Os.{Files}
use decloud.Os.Laws.{Entry, IsDigit, IsClean, Apart, HasFiles}
use decloud.Registry.Files.{write_atomic}

-- A clean path that no temporary file beside this path has.
abbrev pub IsKept : Str → Str → Type 0
IsKept path q =
    (digits : Str)
    → All IsDigit digits
    → Apart q (path_join (dir_of path) (codes ".tmp-" ++ digits))

module _ {W : Type 0} (fs : Files W) (at : W → Str → Entry) (h : HasFiles fs at) (path : Str)
    (clean : IsClean (dir_of path)) (mode : ℕ) (content : Str) where
  abbrev created : W → Result Str × W
  created w = fs.create_temp (dir_of path) (codes ".tmp-*") w

  pub write_atomic_other :
      (q : Str) (w : W)
      → IsKept path q
      → Apart q path
      → at (write_atomic fs path mode content w).1 q ≡ at w q
  unfolding write_atomic
  write_atomic_other q w k n = elim (Result-cases (created w).0) [
    | inr (x, e) ↦ ground (arith, h.create_err (dir_of path) (codes ".tmp-*") q w)
    | inl (t, e) ↦
        let (digits, d, named, empty, others) =
          h.create_ok (dir_of path) (codes ".tmp-") t w clean e in
        let apart = subst (Apart q) (sym named) (k digits d) in
        let w1 = (created w).1 in
        let w2 = (fs.write t content w1).1 in
        let w3 = (fs.close t w2).1 in
        let w4 = (fs.chmod t mode w3).1 in
        let w5 = (fs.rename t path w4).1 in
        ground (
          arith,
          others q apart,
          h.write_other t q content w1 apart,
          h.write_ok t content w1 empty,
          h.close_keeps t t w2,
          h.chmod_content t t mode w3,
          h.close_keeps t q w2,
          h.chmod_other t q mode w3 apart,
          h.rename_other t path q content w4 apart n,
          h.remove_other t q w3 apart,
          h.remove_other t q w4 apart,
          h.remove_other t q w5 apart,
        )
  ]

  pub write_atomic_err :
      (w : W)
      → IsKept path path
      → is_ok (write_atomic fs path mode content w).0 ≡ false
      → at (write_atomic fs path mode content w).1 path ≡ at w path
  unfolding write_atomic
  write_atomic_err w k n = elim (Result-cases (created w).0) [
    | inr (x, e) ↦ ground (arith, h.create_err (dir_of path) (codes ".tmp-*") path w)
    | inl (t, e) ↦
        let (digits, d, named, empty, others) =
          h.create_ok (dir_of path) (codes ".tmp-") t w clean e in
        let apart = subst (Apart path) (sym named) (k digits d) in
        let w1 = (created w).1 in
        let w2 = (fs.write t content w1).1 in
        let w3 = (fs.close t w2).1 in
        let w4 = (fs.chmod t mode w3).1 in
        let w5 = (fs.rename t path w4).1 in
        ground (
          arith,
          others path apart,
          h.write_other t path content w1 apart,
          h.close_keeps t path w2,
          h.chmod_other t path mode w3 apart,
          h.rename_err t path path w4,
          h.remove_other t path w3 apart,
          h.remove_other t path w4 apart,
          h.remove_other t path w5 apart,
        )
  ]

  pub write_atomic_ok :
      (w : W)
      → mode < 512
      → IsKept path path
      → is_ok (write_atomic fs path mode content w).0 ≡ true
      → at (write_atomic fs path mode content w).1 path ≡ (some content, some mode)
  unfolding write_atomic
  write_atomic_ok w bits k n = elim (Result-cases (created w).0) [
    | inr (x, e) ↦ ground (arith, h.create_err (dir_of path) (codes ".tmp-*") path w)
    | inl (t, e) ↦
        let (digits, d, named, empty, others) =
          h.create_ok (dir_of path) (codes ".tmp-") t w clean e in
        let apart = subst (Apart path) (sym named) (k digits d) in
        let w1 = (created w).1 in
        let w2 = (fs.write t content w1).1 in
        let w3 = (fs.close t w2).1 in
        let w4 = (fs.chmod t mode w3).1 in
        let w5 = (fs.rename t path w4).1 in
        ground (
          arith,
          h.write_ok t content w1 empty,
          h.close_keeps t t w2,
          h.chmod_content t t mode w3,
          h.chmod_ok t mode w3 bits,
          h.rename_ok t path w4,
        )
  ]

  -- When package os does what it documents (HasFiles), the path and its directory are clean absolute
  -- paths, the mode is one of permission bits and the path is not that of a temporary file beside it, writeAtomic leaves at the path the whole content with the mode if it succeeds, and what was
  -- there if it fails; and what is at any other clean path that is no temporary file beside it stays.
  pub write_atomic-IsWhole :
      (w : W)
      → mode < 512
      → IsKept path path
      → let r = write_atomic fs path mode content w in
        (is_ok r.0 ≡ true → at r.1 path ≡ (some content, some mode))
        × (is_ok r.0 ≡ false → at r.1 path ≡ at w path)
        × ((q : Str) → IsKept path q → Apart q path → at r.1 q ≡ at w q)
  write_atomic-IsWhole w bits k = (
    write_atomic_ok w bits k,
    write_atomic_err w k,
    (λ q kept other. write_atomic_other q w kept other),
  )
