-- ===== src/Dpdk/Calls.antt =====
-- Sequences of driver calls that end at the first failure: as methods make them, statement by statement,
-- and as one list of steps. `fails` says which call fails after which calls; a log has the newest first.
use virtual_service_gateway.Common.{
  ◌≡◌, refl, Bool, true, false, not, List, [], ◌∷◌, ◌++◌, Bool-cases, inl, inr, if◌then◌else◌,
}

-- A call that is made, a call that ends the sequence where it fails, and a refusal.
pub data Step (C : Type 0) : Type 0 where
  note : C → Step C
  need : C → Step C
  refuse : Step C

-- The next statements, unless the method has returned a failure.
abbrev pub and_then {ℓ} : {A : Type ℓ} → A × Bool → (A → A × Bool) → A × Bool
and_then (log, true) k = k log
and_then (log, false) k = (log, false)

pub and_then-ap {ℓ} :
    {A : Type ℓ} (r : A × Bool) (k k' : A → A × Bool)
    → ((log : A) → k log ≡ k' log)
    → and_then r k ≡ and_then r k'
and_then-ap (log, true) k k' h = h log
and_then-ap (log, false) k k' h = refl

module _ {C : Type 0} (fails : List C → C → Bool) where
  -- A call whose failure makes the method return one.
  unfoldable pub attempt : C → List C → List C × Bool
  attempt call log = (call ∷ log, not (fails log call))

  -- The steps in order, up to and with the first that fails.
  abbrev pub issue : List (Step C) → List C → List C × Bool
  issue [] log = (log, true)
  issue (note call ∷ steps) log = issue steps (call ∷ log)
  issue (need call ∷ steps) log =
      if fails log call then (call ∷ log, false) else issue steps (call ∷ log)
  issue (refuse ∷ steps) log = (log, false)

  pub issue-append :
      (xs ys : List (Step C)) (log : List C)
      → issue (xs ++ ys) log ≡ and_then (issue xs log) (issue ys)
  issue-append [] ys log = refl
  issue-append (note call ∷ xs) ys log = issue-append xs ys (call ∷ log)
  issue-append (need call ∷ xs) ys log = elim (Bool-cases (fails log call)) [
    | inl e ↦ rw (e, issue) refl
    | inr e ↦ rw (e, issue) (issue-append xs ys (call ∷ log))
  ]
  issue-append (refuse ∷ xs) ys log = refl

  pub attempt-issue :
      (call : C) (steps : List (Step C)) (log : List C)
      → and_then (attempt call log) (issue steps) ≡ issue (need call ∷ steps) log
  unfolding attempt
  attempt-issue call steps log = elim (Bool-cases (fails log call)) [
    | inl e ↦ rw (e, issue) refl
    | inr e ↦ rw (e, issue) refl
  ]
