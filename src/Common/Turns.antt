-- ===== src/Common/Turns.antt =====
-- Schedules that give each thread enough turns: threads that work off a cost at each of their own moves end.
use Prim.Native.Nat.{ℕ, zero, suc, ◌+◌, ◌-◌, ◌≤◌, ◌<◌}
use mathlib.Core.Path.{◌≡◌, ap}
use mathlib.Core.List.{List, [], ◌∷◌}
use mathlib.Core.Logic.{inl, inr}
use mathlib.Core.Option.{none, some}
use native.Mathlib.Omega.{arith}
use virtual_service_gateway.Common.Lists.{get_elem?, set, All}
use virtual_service_gateway.Common.Tests.{Option-cases, ◌==◌, if◌then◌else◌}
use virtual_service_gateway.Common.Threads.{move_thread, run_threads}

-- How often a schedule names a position.
abbrev pub turns : ℕ → List ℕ → ℕ
turns k [] = 0
turns k (i ∷ is) = (if i == k then 1 else 0) + turns k is

module _ {T : Type 0} (cost : T → ℕ) where
  -- Each of the threads, whose positions count from `k`, has as many turns in the schedule as it costs.
  abbrev pub Enough : ℕ → List T → List ℕ → Type 0
  Enough k [] schedule = Unit
  Enough k (t ∷ ts) schedule = (cost t ≤ turns k schedule) × Enough (suc k) ts schedule

  Enough-before :
      (k i : ℕ) (ts : List T) (is : List ℕ) → i < k → Enough k ts (i ∷ is) → Enough k ts is
  Enough-before k i [] is lt h = tt
  Enough-before k i (t ∷ ts) is lt h =
      (ground (arith, h.0), Enough-before (suc k) i ts is (omega arith) h.1)

  Enough-out :
      (k i j : ℕ) (ts : List T) (is : List ℕ)
      → i ≡ k + j
      → get_elem? ts j ≡ none
      → Enough k ts (i ∷ is)
      → Enough k ts is
  Enough-out k i j [] is at out h = tt
  Enough-out k i zero (t ∷ ts) is at out h = absurd (cc out)
  Enough-out k i (suc j) (t ∷ ts) is at out h =
      (ground (arith, h.0), Enough-out (suc k) i j ts is (omega arith) out h.1)

  Enough-set :
      (k i j : ℕ) (ts : List T) (is : List ℕ) (t t' : T)
      → i ≡ k + j
      → get_elem? ts j ≡ some t
      → cost t' ≤ cost t - 1
      → Enough k ts (i ∷ is)
      → Enough k (set ts j t') is
  Enough-set k i j [] is t t' at e le h = tt
  Enough-set k i zero (u ∷ ts) is t t' at e le h =
      let same : u ≡ t = cc e in
      let less : cost u ≤ turns k (i ∷ is) = h.0 in
      (ground (arith, ap cost same), Enough-before (suc k) i ts is (omega arith) h.1)
  Enough-set k i (suc j) (u ∷ ts) is t t' at e le h =
      (ground (arith, h.0), Enough-set (suc k) i j ts is t t' (omega arith) e le h.1)

  Enough-nil : (k : ℕ) (ts : List T) → Enough k ts [] → All (λ t. cost t ≤ 0) ts
  Enough-nil k [] h = tt
  Enough-nil k (t ∷ ts) h = (h.0, Enough-nil (suc k) ts h.1)

  -- In states that satisfy a predicate, which every move keeps, each move of a thread works off its cost.
  module _ {S : Type 0} (step : S → T → S × T) (I : S → Type 0)
      (stays : (s : S) (t : T) → I s → I (step s t).0)
      (works : (s : S) (t : T) → I s → cost (step s t).1 ≤ cost t - 1) where
    move_thread-Enough :
        (s : S) (ts : List T) (i : ℕ) (is : List ℕ)
        → I s
        → Enough 0 ts (i ∷ is)
        → let (s', ts') = move_thread step (s, ts) i in I s' × Enough 0 ts' is
    unfolding move_thread
    move_thread-Enough s ts i is p h = elim (Option-cases (get_elem? ts i)) [
      | inl e ↦ rw (e, move_thread) (p, Enough-out 0 i i ts is (omega arith) e h)
      | inr (t, e) ↦
          rw (e, move_thread)
            (stays s t p, Enough-set 0 i i ts is t (step s t).1 (omega arith) e (works s t p) h)
    ]

    -- Threads that have their turns are done, whoever moves when.
    pub run_threads-Enough :
        (s : S) (ts : List T) (schedule : List ℕ)
        → I s
        → Enough 0 ts schedule
        → let (s', ts') = run_threads step (s, ts) schedule in All (λ t. cost t ≤ 0) ts'
    unfolding run_threads
    run_threads-Enough s ts [] p h = Enough-nil 0 ts h
    run_threads-Enough s ts (i ∷ is) p h =
        let (s', ts') = move_thread step (s, ts) i in
        let (p', h') = move_thread-Enough s ts i is p h in run_threads-Enough s' ts' is p' h'
