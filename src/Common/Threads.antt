-- ===== src/Common/Threads.antt =====
-- Threads over a shared state, an atomic access at a time. A thread is what is left of its work; a schedule
-- is the list of the threads that move, by their positions, in any order.
use Prim.Native.Nat.{ℕ, zero, suc, ◌+◌}
use mathlib.Core.Path.{◌≡◌, refl, sym, ap, subst, subst₂, ◌∙◌}
use mathlib.Core.List.{List, [], ◌∷◌, ◌++◌}
use mathlib.Core.Logic.{inl, inr}
use mathlib.Core.Option.{none, some}
use native.Mathlib.Omega.{arith}
use virtual_service_gateway.Common.Lists.{
  get_elem?, set, replicate, set_self, set-set, get_elem?-set_self, lt-length_of_get_elem?, All,
  sum_by, All-set, All-get_elem?,
}
use virtual_service_gateway.Common.Tests.{Option-cases}

-- What the elements but one add to a sum.
pub sum_by-set :
    {A : Type 0} (w : A → ℕ) (xs : List A) (i : ℕ) (x : A)
    → get_elem? xs i ≡ some x
    → (rest : ℕ) × (sum_by w xs ≡ w x + rest) × ((y : A) → sum_by w (set xs i y) ≡ w y + rest)
sum_by-set w [] i x e = absurd (cc e)
sum_by-set w (a ∷ xs) zero x e =
    let same : a ≡ x = cc e in (sum_by w xs, ap (λ b. w b + sum_by w xs) same, λ y. refl)
sum_by-set w (a ∷ xs) (suc i) x e =
    let (rest, whole, other) = sum_by-set w xs i x e in
    (w a + rest, omega (arith, whole), λ y. omega (arith, other y))

pub All-map {ℓ} :
    {A : Type 0} {P Q : A → Type ℓ} (xs : List A) → ((x : A) → P x → Q x) → All P xs → All Q xs
All-map [] f h = h
All-map (x ∷ xs) f h = (f x h.0, All-map xs f h.1)

pub All-both {ℓ} :
    {A : Type 0} (P Q : A → Type ℓ) (xs : List A) → All P xs → All Q xs → All (λ x. P x × Q x) xs
All-both P Q [] h k = tt
All-both P Q (x ∷ xs) h k = ((h.0, k.0), All-both P Q xs h.1 k.1)

module _ {S T : Type 0} (step : S → T → S × T) where
  -- A move of one thread; a position without a thread moves nothing.
  unfoldable pub move_thread : S × List T → ℕ → S × List T
  move_thread (s, ts) i = elim (get_elem? ts i) [
    | none ↦ (s, ts)
    | some t ↦ let (s', t') = step s t in (s', set ts i t')
  ]

  unfoldable pub run_threads : S × List T → List ℕ → S × List T
  run_threads sys [] = sys
  run_threads sys (i ∷ is) = run_threads (move_thread sys i) is

  -- A relation between the shared state and what all threads have left to do, that each move keeps.
  module _ (w : T → ℕ) (Q : S → ℕ → Type 0)
      (keep : (s : S) (t : T) (rest : ℕ)
        → Q s (w t + rest)
        → let (s', t') = step s t in Q s' (w t' + rest)) where
    move_thread-keeps :
        (s : S) (ts : List T) (i : ℕ)
        → Q s (sum_by w ts)
        → let (s', ts') = move_thread (s, ts) i in Q s' (sum_by w ts')
    unfolding move_thread
    move_thread-keeps s ts i h = elim (Option-cases (get_elem? ts i)) [
      | inl e ↦ rw (e, move_thread) h
      | inr (t, e) ↦
          let (rest, whole, other) = sum_by-set w ts i t e in
          let t' = (step s t).1 in
          rw (e, move_thread)
            (subst (Q (step s t).0) (sym (other t')) (keep s t rest (subst (Q s) whole h)))
    ]

    pub run_threads-keeps :
        (s : S) (ts : List T) (schedule : List ℕ)
        → Q s (sum_by w ts)
        → let (s', ts') = run_threads (s, ts) schedule in Q s' (sum_by w ts')
    unfolding run_threads
    run_threads-keeps s ts [] h = h
    run_threads-keeps s ts (i ∷ schedule) h =
        let (s', ts') = move_thread (s, ts) i in
        run_threads-keeps s' ts' schedule (move_thread-keeps s ts i h)

    -- A predicate of each thread and the shared state, that the thread's own moves keep and that no move
    -- takes from another thread.
    module _ (P : S → T → Type 0)
        (own : (s : S) (t : T) (rest : ℕ)
          → Q s (w t + rest)
          → P s t
          → let (s', t') = step s t in P s' t')
        (others : (s : S) (t : T) (rest : ℕ)
          → Q s (w t + rest)
          → (u : T) → P s u
          → P (step s t).0 u) where
      move_thread-All :
          (s : S) (ts : List T) (i : ℕ)
          → Q s (sum_by w ts)
          → All (P s) ts
          → let (s', ts') = move_thread (s, ts) i in All (P s') ts'
      unfolding move_thread
      move_thread-All s ts i h p = elim (Option-cases (get_elem? ts i)) [
        | inl e ↦ rw (e, move_thread) p
        | inr (t, e) ↦
            let (rest, whole, other) = sum_by-set w ts i t e in
            let h' = subst (Q s) whole h in
            rw (e, move_thread)
              (All-set (P (step s t).0) ts i (step s t).1 (All-map ts (others s t rest h') p)
                (own s t rest h' (All-get_elem? (P s) ts i t p e)))
      ]

      pub run_threads-All :
          (s : S) (ts : List T) (schedule : List ℕ)
          → Q s (sum_by w ts)
          → All (P s) ts
          → let (s', ts') = run_threads (s, ts) schedule in All (P s') ts'
      unfolding run_threads
      run_threads-All s ts [] h p = p
      run_threads-All s ts (i ∷ schedule) h p =
          let (s', ts') = move_thread (s, ts) i in
          run_threads-All s' ts' schedule (move_thread-keeps s ts i h) (move_thread-All s ts i h p)

-- A relation between the shared state and two measures of what all threads have left to do.
module _ {S T : Type 0} (step : S → T → S × T) (w v : T → ℕ) (Q : S → ℕ → ℕ → Type 0)
    (keep : (s : S) (t : T) (m n : ℕ)
      → Q s (w t + m) (v t + n)
      → let (s', t') = step s t in Q s' (w t' + m) (v t' + n)) where
  move_thread-keeps_both :
      (s : S) (ts : List T) (i : ℕ)
      → Q s (sum_by w ts) (sum_by v ts)
      → let (s', ts') = move_thread step (s, ts) i in Q s' (sum_by w ts') (sum_by v ts')
  unfolding move_thread
  move_thread-keeps_both s ts i h = elim (Option-cases (get_elem? ts i)) [
    | inl e ↦ rw (e, move_thread) h
    | inr (t, e) ↦
        let (m, whole, other) = sum_by-set w ts i t e in
        let (n, whole', other') = sum_by-set v ts i t e in
        let t' = (step s t).1 in
        rw (e, move_thread)
          (subst₂ (Q (step s t).0) (sym (other t')) (sym (other' t'))
            (keep s t m n (subst₂ (Q s) whole whole' h)))
  ]

  pub run_threads-keeps_both :
      (s : S) (ts : List T) (schedule : List ℕ)
      → Q s (sum_by w ts) (sum_by v ts)
      → let (s', ts') = run_threads step (s, ts) schedule in Q s' (sum_by w ts') (sum_by v ts')
  unfolding run_threads
  run_threads-keeps_both s ts [] h = h
  run_threads-keeps_both s ts (i ∷ schedule) h =
      let (s', ts') = move_thread step (s, ts) i in
      run_threads-keeps_both s' ts' schedule (move_thread-keeps_both s ts i h)

-- One thread that has several turns in a row.
module _ {S T : Type 0} (step : S → T → S × T) where
  abbrev pub repeat : ℕ → S × T → S × T
  repeat zero (s, t) = (s, t)
  repeat (suc n) (s, t) = repeat n (step s t)

  pub run_threads-append :
      (sys : S × List T) (first then_on : List ℕ)
      → run_threads step sys (first ++ then_on)
        ≡ run_threads step (run_threads step sys first) then_on
  unfolding run_threads
  run_threads-append sys [] then_on = refl
  run_threads-append sys (i ∷ is) then_on = run_threads-append (move_thread step sys i) is then_on

  move_thread_lem :
      (s : S) (ts : List T) (i : ℕ) (t : T)
      → get_elem? ts i ≡ some t
      → move_thread step (s, ts) i ≡ (let (s', t') = step s t in (s', set ts i t'))
  unfolding move_thread
  move_thread_lem s ts i t e = rw (e, move_thread) refl

  pub run_threads-alone :
      (n : ℕ) (s : S) (ts : List T) (i : ℕ) (t : T)
      → get_elem? ts i ≡ some t
      → run_threads step (s, ts) (replicate n i)
        ≡ (let (s', t') = repeat n (s, t) in (s', set ts i t'))
  unfolding run_threads
  run_threads-alone zero s ts i t e = ap (λ us. (s, us)) (sym (set_self ts i t e))
  run_threads-alone (suc n) s ts i t e =
      let (s', t') = step s t in
      let (s'', t'') = repeat n (s', t') in
      let here = get_elem?-set_self ts i t' (lt-length_of_get_elem? ts i t e) in
      ap (λ sys. run_threads step sys (replicate n i)) (move_thread_lem s ts i t e)
      ∙ run_threads-alone n s' (set ts i t') i t' here
      ∙ ap (λ us. (s'', us)) (set-set ts i t' t'')
