-- ===== src/Exec/Triple.antt =====
-- Hoare triples for methods: what holds of the world after a result, and after an error.
use decloud.Base.{◌≡◌, refl, arith}
use decloud.Errors.{Error, Result, ok, err}
use decloud.Exec.{M, continue, ◌>>=◌}

module _ {S : Type 0} where
  abbrev pub Outcome :
      {A : Type 0} → (A → S → Type 0) → (Error → S → Type 0) → Result A × S → Type 0
  Outcome Q F (ok a, s) = Q a s
  Outcome Q F (err e, s) = F e s

  abbrev pub Triple :
      {A : Type 0} → (S → Type 0) → M S A → (A → S → Type 0) → (Error → S → Type 0) → Type 0
  Triple P m Q F = (s : S) → P s → Outcome Q F (m s)

  module _ {A B : Type 0} (P : S → Type 0) (Q : A → S → Type 0) (R : B → S → Type 0)
      (F : Error → S → Type 0) where
    Outcome-continue :
        (f : A → M S B) (r : Result A × S)
        → Outcome Q F r
        → ((a : A) → Triple (Q a) (f a) R F)
        → Outcome R F (continue f r)
    Outcome-continue f (ok a, s) h k = k a s h
    Outcome-continue f (err e, s) h k = h

    pub Triple-bind :
        (m : M S A) (f : A → M S B)
        → Triple P m Q F
        → ((a : A) → Triple (Q a) (f a) R F)
        → Triple P (m >>= f) R F
    Triple-bind m f h k s p = Outcome-continue f (m s) (h s p) k

  -- What an outcome says when the result is known.
  pub Outcome-ok :
      {A : Type 0} (Q : A → S → Type 0) (F : Error → S → Type 0) (r : Result A × S) (a : A)
      → Outcome Q F r
      → r.0 ≡ ok a
      → Q a r.1
  Outcome-ok Q F (ok b, s) a h e = ground arith
  Outcome-ok Q F (err x, s) a h e = cc

  pub Outcome-mono :
      {A : Type 0} (Q R : A → S → Type 0) (F : Error → S → Type 0) (r : Result A × S)
      → ((a : A) (s : S) → Q a s → R a s)
      → Outcome Q F r
      → Outcome R F r
  Outcome-mono Q R F (ok a, s) k h = k a s h
  Outcome-mono Q R F (err e, s) k h = h

  Outcome-any : {A : Type 0} (r : Result A × S) → Outcome (λ _ _. Unit {0}) (λ _ _. Unit {0}) r
  Outcome-any (ok a, s) = tt
  Outcome-any (err e, s) = tt

  -- Nothing is claimed of any outcome.
  pub Triple_any :
      {A : Type 0} (P : S → Type 0) (m : M S A) → Triple P m (λ _ _. Unit {0}) (λ _ _. Unit {0})
  Triple_any P m s p = Outcome-any (m s)

-- A predicate of the world that a method keeps, whatever its result.
abbrev pub Preserves : {S : Type 0} {A : Type 0} → (S → Type 0) → M S A → Type 0
Preserves {S} {A} I m = (s : S) → I s → I (m s).1

pub Outcome-of :
    {W A : Type 0} (Q : A → W → Type 0) (F : Error → W → Type 0) (r : Result A × W)
    → ((a : A) → r.0 ≡ ok a → Q a r.1)
    → ((e : Error) → r.0 ≡ err e → F e r.1)
    → Outcome Q F r
Outcome-of Q F (ok a, w) h k = h a refl
Outcome-of Q F (err e, w) h k = k e refl

pub Outcome-same :
    {W A : Type 0} (I : W → Type 0) (r : Result A × W) → I r.1 → Outcome (λ _. I) (λ _. I) r
Outcome-same I (ok a, w) h = h
Outcome-same I (err e, w) h = h

pub Outcome-world :
    {W A : Type 0} (I : W → Type 0) (r : Result A × W) → Outcome (λ _. I) (λ _. I) r → I r.1
Outcome-world I (ok a, w) h = h
Outcome-world I (err e, w) h = h
