-- ===== src/Exec.antt =====
-- Methods that act on the world and may fail: what was done before a failure stays done, so the
-- world comes back beside the error too.
pub mod Triple
use decloud.Errors.{Error, Result, ok, err}

abbrev pub M {ℓ} : Type 0 → Type ℓ → Type ℓ
M W A = W → Result A × W

module _ {W : Type 0} {A : Type 0} where
  abbrev pub pure : A → M W A
  pure a w = (ok a, w)

  abbrev succeed : A × W → Result A × W
  succeed (a, w) = (ok a, w)

  -- A call that cannot fail.
  abbrev pub sure : (W → A × W) → M W A
  sure f w = succeed (f w)

  -- return err
  abbrev pub raise : Error → M W A
  raise e w = (err e, w)

  -- The result of a call whose error is looked at and not returned.
  abbrev caught : Result A × W → Result (Result A) × W
  caught (r, w) = (ok r, w)

  abbrev pub attempt : M W A → M W (Result A)
  attempt m w = caught (m w)

  abbrev pub rewrap : (Error → Error) → Result A × W → Result A × W
  rewrap f (ok a, w) = (ok a, w)
  rewrap f (err e, w) = (err (f e), w)

  -- if err != nil { return f(err) }
  abbrev pub or_fail : (Error → Error) → M W A → M W A
  or_fail f m w = rewrap f (m w)

module _ {W : Type 0} {A B : Type 0} where
  abbrev pub continue : (A → M W B) → Result A × W → Result B × W
  continue f (ok a, w) = f a w
  continue f (err e, w) = (err e, w)

  infixl 5 ◌>>=◌ ◌>>◌
  abbrev pub ◌>>=◌ : M W A → (A → M W B) → M W B
  ◌>>=◌ m f w = continue f (m w)

  abbrev pub ◌>>◌ : M W A → M W B → M W B
  ◌>>◌ m n w = continue (λ _. n) (m w)
