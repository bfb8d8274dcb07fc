-- ===== src/Common/Maps.antt =====
-- `std::unordered_map` with numeric keys, as an association list in the map's iteration order. The order
-- itself is unspecified in C++; only `insert` of a new key and `erase` change it.
use Prim.Native.Nat.{ℕ, ◌+◌}
use mathlib.Core.Path.{◌≡◌, refl}
use mathlib.Core.List.{List, [], ◌∷◌}
use mathlib.Core.Logic.{inl, inr}
use mathlib.Core.Option
use mathlib.Core.Option.{Option, none, some}
use native.Mathlib.Omega.{arith}
use virtual_service_gateway.Common.Tests.{◌==◌, if◌then◌else◌, Bool-cases}
use virtual_service_gateway.Common.Lists.{length, All, sum_by}

module _ {ℓ} {V : Type ℓ} where
  -- `find(key)`.
  unfoldable pub lookup : ℕ → List (ℕ × V) → Option V
  lookup k [] = none
  lookup k ((j, v) ∷ m) = if j == k then some v else lookup k m

  -- `map[key] = v`.
  unfoldable pub insert : ℕ → V → List (ℕ × V) → List (ℕ × V)
  insert key value [] = (key, value) ∷ []
  insert key value ((other, held) ∷ rest) =
      if other == key then (key, value) ∷ rest else (other, held) ∷ insert key value rest

  -- A change made through the pointer that `find(key)` gave.
  unfoldable pub modify : ℕ → (V → V) → List (ℕ × V) → List (ℕ × V)
  modify k f [] = []
  modify k f ((j, w) ∷ m) = if j == k then (j, f w) ∷ m else (j, w) ∷ modify k f m

  -- `erase(key)`.
  unfoldable pub erase : ℕ → List (ℕ × V) → List (ℕ × V)
  erase k [] = []
  erase k ((j, w) ∷ m) = if j == k then m else (j, w) ∷ erase k m

  -- No key occurs twice.
  abbrev pub IsMap : List (ℕ × V) → Type ℓ
  IsMap [] = Unit
  IsMap ((k, v) ∷ m) = (lookup k m ≡ none) × IsMap m

module _ {ℓ} {V : Type ℓ} where
  pub lookup-insert :
      (key j : ℕ) (value : V) (m : List (ℕ × V))
      → lookup j (insert key value m) ≡ (if key == j then some value else lookup j m)
  unfolding lookup insert
  lookup-insert key j value [] = refl
  lookup-insert key j value ((other, held) ∷ m) = ground (arith, lookup-insert key j value m)

  pub lookup-modify :
      (k j : ℕ) (f : V → V) (m : List (ℕ × V))
      → lookup j (modify k f m) ≡ (if k == j then Option.map f (lookup j m) else lookup j m)
  unfolding lookup modify
  lookup-modify k j f [] = ground arith
  lookup-modify k j f ((i, w) ∷ m) = ground (arith, lookup-modify k j f m)

  pub lookup-erase :
      (k j : ℕ) (m : List (ℕ × V))
      → IsMap m
      → lookup j (erase k m) ≡ (if k == j then none else lookup j m)
  unfolding lookup erase
  lookup-erase k j [] h = ground arith
  lookup-erase k j ((i, w) ∷ m) h = ground (arith, lookup-erase k j m h.1)

  pub insert-IsMap : (k : ℕ) (v : V) (m : List (ℕ × V)) → IsMap m → IsMap (insert k v m)
  unfolding lookup insert
  insert-IsMap k v [] h = (refl, tt)
  insert-IsMap k v ((i, w) ∷ m) h = ground (arith, insert-IsMap k v m h.1, lookup-insert k i v m)

  pub modify-IsMap : (k : ℕ) (f : V → V) (m : List (ℕ × V)) → IsMap m → IsMap (modify k f m)
  unfolding lookup modify
  modify-IsMap k f [] h = tt
  modify-IsMap k f ((i, w) ∷ m) h = ground (arith, modify-IsMap k f m h.1, lookup-modify k i f m)

  pub erase-IsMap : (k : ℕ) (m : List (ℕ × V)) → IsMap m → IsMap (erase k m)
  unfolding lookup erase
  erase-IsMap k [] h = tt
  erase-IsMap k ((i, w) ∷ m) h = ground (arith, erase-IsMap k m h.1, lookup-erase k i m h.1)

  -- The number of keys.
  pub length-insert :
      (k : ℕ) (v : V) (m : List (ℕ × V)) → lookup k m ≡ none → length (insert k v m) ≡ length m + 1
  unfolding lookup insert
  length-insert k v [] h = refl
  length-insert k v ((i, w) ∷ m) h = ground (arith, length-insert k v m)

  pub length-modify : (k : ℕ) (f : V → V) (m : List (ℕ × V)) → length (modify k f m) ≡ length m
  unfolding modify
  length-modify k f [] = refl
  length-modify k f ((i, w) ∷ m) = ground (arith, length-modify k f m)

  -- A fact about all entries is kept by each operation.
  pub All-insert {κ} :
      (P : ℕ × V → Type κ) (k : ℕ) (v : V) (m : List (ℕ × V))
      → All P m
      → P (k, v)
      → All P (insert k v m)
  unfolding insert
  All-insert P k v [] h p = (p, tt)
  All-insert P k v ((i, w) ∷ m) h p = elim (Bool-cases (i == k)) [
    | inl e ↦ rw e (p, h.1)
    | inr e ↦ rw e (h.0, All-insert P k v m h.1 p)
  ]

  pub All-modify {κ} :
      (P : ℕ × V → Type κ) (k : ℕ) (f : V → V) (m : List (ℕ × V))
      → All P m
      → ((j : ℕ) (v : V) → P (j, v) → P (j, f v))
      → All P (modify k f m)
  unfolding modify
  All-modify P k f [] h p = tt
  All-modify P k f ((i, w) ∷ m) h p = elim (Bool-cases (i == k)) [
    | inl e ↦ rw e (p i w h.0, h.1)
    | inr e ↦ rw e (h.0, All-modify P k f m h.1 p)
  ]

  pub All-erase {κ} : (P : ℕ × V → Type κ) (k : ℕ) (m : List (ℕ × V)) → All P m → All P (erase k m)
  unfolding erase
  All-erase P k [] h = tt
  All-erase P k ((i, w) ∷ m) h = elim (Bool-cases (i == k)) [
    | inl e ↦ rw e h.1
    | inr e ↦ rw e (h.0, All-erase P k m h.1)
  ]

  -- Each entry of a map is found under its key, also in a larger map that agrees with it.
  pub All-lookup :
      (whole m : List (ℕ × V))
      → ((k : ℕ) (v : V) → lookup k m ≡ some v → lookup k whole ≡ some v)
      → IsMap m
      → All (λ e. lookup e.0 whole ≡ some e.1) m
  unfolding lookup
  All-lookup whole [] sub h = tt
  All-lookup whole ((i, w) ∷ m) sub h =
      (sub i w (ground arith), All-lookup whole m (λ k v e. sub k v (ground arith)) h.1)

  -- A measure summed over the entries, under each operation.
  pub sum_by-insert :
      (w : ℕ × V → ℕ) (k : ℕ) (v : V) (m : List (ℕ × V))
      → lookup k m ≡ none
      → sum_by w (insert k v m) ≡ sum_by w m + w (k, v)
  unfolding lookup insert
  sum_by-insert w k v [] h = omega arith
  sum_by-insert w k v ((i, u) ∷ m) h = ground (arith, sum_by-insert w k v m)

  pub sum_by-erase :
      (w : ℕ × V → ℕ) (k : ℕ) (m : List (ℕ × V)) (v : V)
      → lookup k m ≡ some v
      → sum_by w (erase k m) + w (k, v) ≡ sum_by w m
  unfolding lookup erase
  sum_by-erase w k [] v h = cc
  sum_by-erase w k ((i, u) ∷ m) v h = ground (arith, sum_by-erase w k m v)

  pub sum_by-modify :
      (w : ℕ × V → ℕ) (k : ℕ) (f : V → V) (m : List (ℕ × V)) (v : V)
      → lookup k m ≡ some v
      → sum_by w (modify k f m) + w (k, v) ≡ sum_by w m + w (k, f v)
  unfolding lookup modify
  sum_by-modify w k f [] v h = cc
  sum_by-modify w k f ((i, u) ∷ m) v h = ground (arith, sum_by-modify w k f m v)

  pub erase_absent : (k : ℕ) (m : List (ℕ × V)) → lookup k m ≡ none → erase k m ≡ m
  unfolding lookup erase
  erase_absent k [] h = refl
  erase_absent k ((i, w) ∷ m) h = ground (arith, erase_absent k m)
