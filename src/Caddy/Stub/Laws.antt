-- ===== src/Caddy/Stub/Laws.antt =====
-- internal/caddy/stub.go and internal/caddy/generator.go: what they leave in the files.
use decloud.Base.{
  ℕ, ◌≡◌, sym, subst, ◌⊎◌, inl, inr, Str, codes, true, some, ◌++◌, All, List, arith, Bool-cases,
}
use decloud.Base.Path.{path_join, dir_of}
use decloud.Errors.{Result, Result-cases, is_ok, error_is, fs_not_exist}
use decloud.Registry.Types.{Service}
use decloud.Os.{Files}
use decloud.Os.Laws.{Entry, IsDigit, IsClean, Apart, HasFiles}
use decloud.Caddy.Generator.{render}
use decloud.Caddy.Stub.{
  write_stub_if_missing, write_file_atomic, generate, mode_644, mode_755, stub_body,
}

-- A clean path that no temporary file beside this path has.
abbrev pub IsKept : Str → Str → Type 0
IsKept path q =
    (digits : Str)
    → All IsDigit digits
    → Apart q (path_join (dir_of path) (codes ".caddyfile-" ++ digits))

module _ {W : Type 0} (fs : Files W) (at : W → Str → Entry) (h : HasFiles fs at) (path : Str)
    (clean : IsClean (dir_of path)) where
  -- The world once the directory is there.
  abbrev pub made : W → W
  made w = (fs.mkdir_all (dir_of path) mode_755 w).1

  module _ (content : Str) where
    abbrev created : W → Result Str × W
    created w = fs.create_temp (dir_of path) (codes ".caddyfile-*") (made w)

    write_file_atomic_other :
        (q : Str) (w : W)
        → IsKept path q
        → Apart q path
        → at (write_file_atomic fs path content w).1 q ≡ at (made w) q
    unfolding write_file_atomic
    write_file_atomic_other q w k n = elim (Result-cases (created w).0) [
      | inr (x, e) ↦ ground (arith, h.create_err (dir_of path) (codes ".caddyfile-*") q (made w))
      | inl (t, e) ↦
          let (digits, d, named, empty, others) =
            h.create_ok (dir_of path) (codes ".caddyfile-") t (made w) clean e in
          let apart = subst (Apart q) (sym named) (k digits d) in
          let w1 = (created w).1 in
          let w2 = (fs.write t content w1).1 in
          let w3 = (fs.close t w2).1 in
          let w4 = (fs.chmod t mode_644 w3).1 in
          ground (
            arith,
            others q apart,
            h.write_other t q content w1 apart,
            h.close_keeps t q w2,
            h.chmod_other t q mode_644 w3 apart,
            h.write_ok t content w1 empty,
            h.close_keeps t t w2,
            h.chmod_content t t mode_644 w3,
            h.rename_other t path q content w4 apart n,
            h.remove_other t q w3 apart,
            h.remove_other t q w4 apart,
          )
    ]

    write_file_atomic_ok :
        (w : W)
        → is_ok (write_file_atomic fs path content w).0 ≡ true
        → at (write_file_atomic fs path content w).1 path ≡ (some content, some mode_644)
    unfolding write_file_atomic
    write_file_atomic_ok w n = elim (Result-cases (created w).0) [
      | inr (x, e) ↦ absurd (ground (arith, n, e))
      | inl (t, e) ↦
          let (digits, d, named, empty, others) =
            h.create_ok (dir_of path) (codes ".caddyfile-") t (made w) clean e in
          let w1 = (created w).1 in
          let w2 = (fs.write t content w1).1 in
          let w3 = (fs.close t w2).1 in
          let w4 = (fs.chmod t mode_644 w3).1 in
          ground (
            arith,
            n,
            e,
            h.write_ok t content w1 empty,
            h.close_keeps t t w2,
            h.chmod_content t t mode_644 w3,
            h.chmod_ok t mode_644 w3 (ground arith),
            h.rename_ok t path w4,
          )
    ]

  pub generate_ok :
      (services : List Service) (w : W)
      → is_ok (generate fs path services w).0 ≡ true
      → at (generate fs path services w).1 path ≡ (some (render services), some mode_644)
  unfolding generate
  generate_ok services = write_file_atomic_ok (render services)

  pub generate_other :
      (services : List Service) (q : Str) (w : W)
      → IsKept path q
      → Apart q path
      → at (generate fs path services w).1 q ≡ at (made w) q
  unfolding generate
  generate_other services = write_file_atomic_other (render services)

  -- A file that is there stays.
  pub write_stub_if_missing_there :
      (m : ℕ) (w : W) → (at w path).1 ≡ some m → (write_stub_if_missing fs path w).1 ≡ w
  unfolding write_stub_if_missing
  write_stub_if_missing_there m w there = elim (Result-cases (fs.stat_perm path w).0) [
    | inl (n, e) ↦ ground (arith, e, h.stat_keeps path w)
    | inr (x, e) ↦ elim (Bool-cases (error_is x fs_not_exist)) [
      | inl gone ↦ absurd (ground (arith, there, h.stat_gone path x w e gone))
      | inr other ↦ ground (arith, e, other, h.stat_keeps path w)
    ]
  ]

  pub write_stub_if_missing_other :
      (q : Str) (w : W)
      → Apart q path
      → (at (write_stub_if_missing fs path w).1 q ≡ at w q)
        ⊎ (at (write_stub_if_missing fs path w).1 q ≡ at (made w) q)
  unfolding write_stub_if_missing
  write_stub_if_missing_other q w n = elim (Result-cases (fs.stat_perm path w).0) [
    | inl (m, e) ↦ inl (ground (arith, e, h.stat_keeps path w))
    | inr (x, e) ↦ elim (Bool-cases (error_is x fs_not_exist)) [
      | inr other ↦ inl (ground (arith, e, other, h.stat_keeps path w))
      | inl gone ↦ inr (
          ground (
            arith,
            e,
            gone,
            h.stat_keeps path w,
            h.write_file_other path q mode_644 stub_body (made w) n,
          ))
    ]
  ]
