-- ===== src/Deploy/Lifecycle/Laws.antt =====
-- internal/deploy/lifecycle.go: what the life-cycle commands do on every branch.
use decloud.Base.{
  ◌≡◌, refl, ◌⊎◌, inl, inr, Bool, true, false, Str, codes, Option, none, some, List, [], ◌∷◌, arith,
  str_eq, Bool-cases,
}
use decloud.Errors.{Error, ok, err, is_ok, Result-cases, error_is, error_text, err_not_found}
use decloud.Docker.Types.{InspectResult}
use decloud.Ids.{container_name}
use decloud.Deploy.Interface.{Dependencies, caller}
use decloud.Deploy.Host.{Container, HasContainers}
use decloud.Deploy.Trace.Predicates.{LoadsByName}
use decloud.Deploy.Lifecycle.{
  Status, start, status, status_rows, run_again, start_from, bare_status,
}

abbrev pub names_of : List Status → List Str
names_of [] = []
names_of (s ∷ rows) = s.name ∷ names_of rows

-- The container exists and runs.
abbrev pub is_up : Option Container → Bool
is_up none = false
is_up (some c) = c.is_running

-- The names in one list are among those of another, in their order.
abbrev pub InOrder : List Str → List Str → Type 0
InOrder [] names = Unit
InOrder (n ∷ ns) [] = ⊥
InOrder (n ∷ ns) (m ∷ ms) = ((n ≡ m) × InOrder ns ms) ⊎ InOrder (n ∷ ns) ms

InOrder-skip : (m : Str) (ns ms : List Str) → InOrder ns ms → InOrder ns (m ∷ ms)
InOrder-skip m [] ms h = tt
InOrder-skip m (n ∷ ns) ms h = inr h

module _ {W : Type 0} (d : Dependencies W) where
  -- StatusAll never fails after the names were listed: a broken service becomes a row.
  pub status_rows_total : (names : List Str) (w : W) → is_ok (status_rows d names w).0 ≡ true
  unfolding status_rows
  status_rows_total [] w = refl
  status_rows_total (n ∷ ns) w = ground (arith, status_rows_total ns (status d n w).1)

  status-name :
      LoadsByName d → (n : Str) (w : W) (st : Status) → (status d n w).0 ≡ ok st → st.name ≡ n
  unfolding status
  status-name named n w st h = grind (arith, named n w)

  -- If the store gives registrations the name that they are asked for, the names in the rows of
  -- StatusAll are among the names that were listed, in their order.
  pub status_rows-InOrder :
      LoadsByName d
      → (names : List Str) (w : W) (rows : List Status) → (status_rows d names w).0 ≡ ok rows
      → InOrder (names_of rows) names
  unfolding status_rows
  status_rows-InOrder named [] w rows h = ground arith
  status_rows-InOrder named (n ∷ ns) w rows h =
      let st = status d n w in
      elim (Result-cases (status_rows d ns st.1).0) [
        | inr (x, e) ↦ absurd (ground (arith, status_rows_total ns st.1))
        | inl (rs, e) ↦
            let rest = status_rows-InOrder named ns st.1 rs e in
            elim (Result-cases st.0) [
              | inl (s, q) ↦
                  let row : s ∷ rs ≡ rows = ground arith in
                  rw (← row) (inl (status-name named n w s q, rest))
              | inr (x, q) ↦ elim (Bool-cases (error_is x err_not_found)) [
                | inl gone ↦
                    let row : rs ≡ rows = ground arith in
                    rw (← row) (InOrder-skip n (names_of rs) ns rest)
                | inr broken ↦
                    let row : bare_status n (codes "error") (error_text x) ∷ rs ≡ rows =
                      ground arith in
                    rw (← row) (inl (refl, rest))
              ]
            ]
      ]

  -- If the store gives registrations the name that they are asked for and no service disappears after
  -- the listing, StatusAll has one row for each name, in the order of the names, errors included.
  status_rows-names :
      LoadsByName d
      → ((n : Str) (w : W) (e : Error)
          → (status d n w).0 ≡ err e
          → error_is e err_not_found ≡ false)
      → (names : List Str) (w : W) (rows : List Status) → (status_rows d names w).0 ≡ ok rows
      → names_of rows ≡ names
  unfolding status_rows
  status_rows-names named present [] w rows h = ground arith
  status_rows-names named present (n ∷ ns) w rows h =
      let st = status d n w in
      elim (Result-cases (status_rows d ns st.1).0) [
        | inr (x, e) ↦ absurd (ground (arith, status_rows_total ns st.1))
        | inl (rs, e) ↦
            let rest = status_rows-names named present ns st.1 rs e in
            elim (Result-cases st.0) [
              | inl (s, q) ↦
                  let row : s ∷ rs ≡ rows = ground arith in
                  rw (← row) (cc (status-name named n w s q, rest))
              | inr (x, q) ↦
                  let row : bare_status n (codes "error") (error_text x) ∷ rs ≡ rows =
                    ground (arith, present n w x q) in
                  rw (← row) (cc rest)
            ]
      ]

-- What docker tells of a container is so, and `docker start` that succeeds leaves it running.
pub record TellsTruth {W : Type 0} (d : Dependencies W) (container : W → Str → Option Container)
    : Type 0 where
  pub inspect_running :
      (n : Str) (w : W) (r : InspectResult)
      → (d.driver.inspect caller n w).0 ≡ ok r
      → str_eq r.state (codes "running") ≡ true
      → is_up (container (d.driver.inspect caller n w).1 n) ≡ true
  pub start_ok :
      (n : Str) (w : W)
      → is_ok (d.driver.start caller n w).0 ≡ true
      → is_up (container (d.driver.start caller n w).1 n) ≡ true

module _ {W : Type 0} (d : Dependencies W) (container : W → Str → Option Container)
    (h : HasContainers d container) (t : TellsTruth d container) where
  -- If docker's calls do what docker documents (HasContainers, TellsTruth), a Start that succeeds leaves
  -- the service's container running, whichever state it was in.
  start_runs :
      (name : Str) (w : W)
      → is_ok (start d name w).0 ≡ true
      → is_up (container (start d name w).1 (container_name name)) ≡ true
  unfolding start start_from run_again
  start_runs name w o = grind (arith, h.run_ok, t.inspect_running, t.start_ok)
