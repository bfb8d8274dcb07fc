-- ===== src/Dpi/Sorting.antt =====
-- A sort that meets what `load_signatures` relies on: insertion by falling priority.
use mathlib.Core.List.{Perm}
use mathlib.Core.List.Perm
use virtual_service_gateway.Common.{
  ℕ, ◌≤◌, List, [], ◌∷◌, arith, All, leb, leb→le, if◌then◌else◌, Bool-cases, inl, inr,
}
use virtual_service_gateway.Dpi.Signature.{DpiSignature}
use virtual_service_gateway.Dpi.Loader.{IsSorted, Sorter}

insert_signature : DpiSignature → List DpiSignature → List DpiSignature
insert_signature s [] = s ∷ []
insert_signature s (t ∷ sigs) =
    if leb t.priority s.priority then s ∷ t ∷ sigs else t ∷ insert_signature s sigs

pub insertion_sort : List DpiSignature → List DpiSignature
unfolding insert_signature
insertion_sort [] = []
insertion_sort (s ∷ sigs) = insert_signature s (insertion_sort sigs)

insert-perm :
    (s : DpiSignature) (sigs : List DpiSignature) → Perm (insert_signature s sigs) (s ∷ sigs)
unfolding insert_signature
insert-perm s [] = Perm.refl (s ∷ [])
insert-perm s (t ∷ sigs) = elim (Bool-cases (leb t.priority s.priority)) [
  | inl e ↦ rw e (Perm.refl (s ∷ t ∷ sigs))
  | inr e ↦ rw e (Perm.trans (Perm.cons t (insert-perm s sigs)) (Perm.swap s t sigs))
]

pub sort-perm : (sigs : List DpiSignature) → Perm (insertion_sort sigs) sigs
unfolding insertion_sort
sort-perm [] = Perm.refl []
sort-perm (s ∷ sigs) =
    Perm.trans (insert-perm s (insertion_sort sigs)) (Perm.cons s (sort-perm sigs))

All-insert_signature :
    (n : ℕ) (s : DpiSignature) (sigs : List DpiSignature)
    → s.priority ≤ n
    → All (λ t. t.priority ≤ n) sigs
    → All (λ t. t.priority ≤ n) (insert_signature s sigs)
unfolding insert_signature
All-insert_signature n s [] h hs = (h, tt)
All-insert_signature n s (t ∷ sigs) h hs = ground (arith, All-insert_signature n s sigs h hs.1)

All-weaken :
    (m n : ℕ) (sigs : List DpiSignature)
    → m ≤ n
    → All (λ t. t.priority ≤ m) sigs
    → All (λ t. t.priority ≤ n) sigs
All-weaken m n [] h hs = tt
All-weaken m n (s ∷ sigs) h hs = (omega arith, All-weaken m n sigs h hs.1)

insert-IsSorted :
    (s : DpiSignature) (sigs : List DpiSignature)
    → IsSorted sigs
    → IsSorted (insert_signature s sigs)
unfolding insert_signature
insert-IsSorted s [] h = (tt, tt)
insert-IsSorted s (t ∷ sigs) h = elim (Bool-cases (leb t.priority s.priority)) [
  | inl e ↦ rw e ((leb→le _ _ e, All-weaken t.priority s.priority sigs (leb→le _ _ e) h.0), h)
  | inr e ↦
      rw e (All-insert_signature t.priority s sigs (ground arith) h.0, insert-IsSorted s sigs h.1)
]

pub sort-IsSorted : (sigs : List DpiSignature) → IsSorted (insertion_sort sigs)
unfolding insertion_sort
sort-IsSorted [] = tt
sort-IsSorted (s ∷ sigs) = insert-IsSorted s (insertion_sort sigs) (sort-IsSorted sigs)

unfoldable pub insertion_sorter : Sorter
unfolding insertion_sort
insertion_sorter = record {
  sort = insertion_sort;
  sort-perm = sort-perm;
  sort-IsSorted = sort-IsSorted;
}
