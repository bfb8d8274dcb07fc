-- ===== src/Common/Writes.antt =====
-- The writes of a thread to a shared state, performed without a break.
use Prim.Native.Nat.{ℕ, ◌+◌}
use mathlib.Core.Path.{◌≡◌, refl, subst}
use mathlib.Core.List.{List, [], ◌∷◌, ◌++◌}
use native.Mathlib.Omega.{arith}
use virtual_service_gateway.Common.Lists.{sum_by}

module _ {S A : Type 0} (perform : A → S → S) where
  abbrev pub perform_all : List A → S → S
  perform_all [] s = s
  perform_all (a ∷ writes) s = perform_all writes (perform a s)

  pub perform_all-append :
      (xs ys : List A) (s : S) → perform_all (xs ++ ys) s ≡ perform_all ys (perform_all xs s)
  perform_all-append [] ys s = refl
  perform_all-append (x ∷ xs) ys s = perform_all-append xs ys (perform x s)

  -- A relation between the state and what is still to be added, that each write keeps.
  pub perform_all-keeps :
      (adds : A → ℕ) (Q : S → ℕ → Type 0)
      → ((a : A) (s : S) (rest : ℕ) → Q s (adds a + rest) → Q (perform a s) rest)
      → (writes : List A) (s : S) (rest : ℕ) → Q s (sum_by adds writes + rest)
      → Q (perform_all writes s) rest
  perform_all-keeps adds Q keep [] s rest h =
      let e : 0 + rest ≡ rest = omega arith in subst (Q s) e h
  perform_all-keeps adds Q keep (a ∷ writes) s rest h =
      let e : adds a + sum_by adds writes + rest ≡ adds a + (sum_by adds writes + rest) =
        omega arith in
      perform_all-keeps adds Q keep writes (perform a s) rest (keep a s _ (subst (Q s) e h))
