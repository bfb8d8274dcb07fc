-- ===== src/Dpi/Updates.antt =====
-- The signature table under `update_signature` and `remove_signature`.
use virtual_service_gateway.Common.{
  ℕ, ◌≡◌, ◌≢◌, refl, List, [], ◌∷◌, Option, none, some, arith, ◌==◌, if◌then◌else◌,
}
use virtual_service_gateway.Common.Faults.{ok}
use virtual_service_gateway.Dpi.Signature.{ClassificationResult, DpiSignature, ResultName, value}
use virtual_service_gateway.Dpi.Matcher.{match_signatures}
use virtual_service_gateway.Dpi.Classifier.{
  DpiClassifier, replace_signature, update_signature, erase_signature, remove_signature,
}

-- The first signature with an id.
unfoldable pub find_signature : ℕ → List DpiSignature → Option DpiSignature
find_signature id [] = none
find_signature id (s ∷ sigs) = if s.signature_id == id then some s else find_signature id sigs

-- No id occurs twice.
abbrev pub IsUnique : List DpiSignature → Type 0
IsUnique [] = Unit
IsUnique (s ∷ sigs) = (find_signature s.signature_id sigs ≡ none) × IsUnique sigs

find-replace :
    (sig : DpiSignature) (j : ℕ) (sigs : List DpiSignature)
    → find_signature j (replace_signature sig sigs)
      ≡ (if sig.signature_id == j then some sig else find_signature j sigs)
unfolding find_signature replace_signature
find-replace sig j [] = refl
find-replace sig j (s ∷ sigs) = ground (arith, find-replace sig j sigs)

replace-IsUnique :
    (sig : DpiSignature) (sigs : List DpiSignature)
    → IsUnique sigs
    → IsUnique (replace_signature sig sigs)
unfolding find_signature replace_signature
replace-IsUnique sig [] h = (refl, tt)
replace-IsUnique sig (s ∷ sigs) h =
    ground (arith, replace-IsUnique sig sigs h.1, find-replace sig s.signature_id sigs)

find-erase :
    (id j : ℕ) (sigs : List DpiSignature)
    → IsUnique sigs
    → find_signature j (erase_signature id sigs) ≡ (if id == j then none else find_signature j sigs)
unfolding find_signature erase_signature
find-erase id j [] h = ground arith
find-erase id j (s ∷ sigs) h = ground (arith, find-erase id j sigs h.1)

erase-IsUnique :
    (id : ℕ) (sigs : List DpiSignature) → IsUnique sigs → IsUnique (erase_signature id sigs)
unfolding find_signature erase_signature
erase-IsUnique id [] h = tt
erase-IsUnique id (s ∷ sigs) h =
    ground (arith, erase-IsUnique id sigs h.1, find-erase id s.signature_id sigs h.1)

-- On a table with unique ids, an update stores the signature under its id and a removal leaves none
-- under the id; both leave what every other id finds, and the ids unique.
pub signature_table :
    (d : DpiClassifier) (sig : DpiSignature) (id j : ℕ)
    → IsUnique d.signatures
    → (find_signature j (update_signature d sig).signatures
        ≡ (if sig.signature_id == j then some sig else find_signature j d.signatures))
      × (find_signature j (remove_signature d id).signatures
          ≡ (if id == j then none else find_signature j d.signatures))
      × IsUnique (update_signature d sig).signatures
      × IsUnique (remove_signature d id).signatures
unfolding update_signature remove_signature
signature_table d sig id j h = (
  find-replace sig j d.signatures,
  find-erase id j d.signatures h,
  replace-IsUnique sig d.signatures h,
  erase-IsUnique id d.signatures h,
)

match-replace_new :
    (sig : DpiSignature) (sigs : List DpiSignature) (bytes : List ℕ) (len : ℕ)
    (c : ClassificationResult)
    → find_signature sig.signature_id sigs ≡ none
    → match_signatures sigs bytes len ≡ ok c
    → c ≢ 0
    → match_signatures (replace_signature sig sigs) bytes len ≡ ok c
unfolding find_signature replace_signature match_signatures
match-replace_new sig [] bytes len c new e h = absurd (h (ground arith))
match-replace_new sig (s ∷ sigs) bytes len c new e h =
    ground (arith, match-replace_new sig sigs bytes len c)

-- A signature with a new id is matched last, whatever its priority: a payload that the table
-- matches to a known class keeps its class after the update.
pub update_signature_priority_ignored :
    (d : DpiClassifier) (sig : DpiSignature) (bytes : List ℕ) (len : ℕ) (c : ClassificationResult)
    → find_signature sig.signature_id d.signatures ≡ none
    → match_signatures d.signatures bytes len ≡ ok c
    → c ≢ value ResultName.unknown
    → match_signatures (update_signature d sig).signatures bytes len ≡ ok c
unfolding update_signature
update_signature_priority_ignored d sig bytes len c new e h =
    match-replace_new sig d.signatures bytes len c new e h
