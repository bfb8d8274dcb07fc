-- ===== src/Dpi/Loader.antt =====
-- `DPIClassifier::load_signatures` of src/dpi/classifier_pipeline.cpp. The file is its bytes, or
-- nothing where it cannot be opened.
use mathlib.Core.List.{Perm}
use virtual_service_gateway.Common.{
  ℕ, ◌≤◌, Bool, true, false, List, [], ◌∷◌, ◌++◌, Option, none, some, All, ◌==◌, if◌then◌else◌,
}
use virtual_service_gateway.Dpi.Signature.{DpiSignature}
use virtual_service_gateway.Dpi.Classifier.{DpiClassifier}
use virtual_service_gateway.Dpi.Parser.{parse_line}

-- Earlier signatures have the higher priority, or the same.
abbrev pub IsSorted : List DpiSignature → Type 0
IsSorted [] = Unit
IsSorted (s ∷ sigs) = All (λ t. t.priority ≤ s.priority) sigs × IsSorted sigs

-- `std::sort` by falling priority. It is not stable: which of the orderings by priority it gives is
-- left to the implementation.
pub record Sorter : Type 0 where
  pub sort : List DpiSignature → List DpiSignature
  pub sort-perm : (sigs : List DpiSignature) → Perm (sort sigs) sigs
  pub sort-IsSorted : (sigs : List DpiSignature) → IsSorted (sort sigs)

-- `std::getline` to the end: a last line may lack its newline, and nothing follows a last newline.
unfoldable pub cons_line : ℕ → List (List ℕ) → List (List ℕ)
cons_line c [] = (c ∷ []) ∷ []
cons_line c (l ∷ ls) = (c ∷ l) ∷ ls

unfoldable pub get_lines : List ℕ → List (List ℕ)
get_lines [] = []
get_lines (c ∷ cs) = let rest = get_lines cs in if c == b'\n' then [] ∷ rest else cons_line c rest

-- `line.empty() || line[0] == '#'`.
unfoldable pub is_skipped : List ℕ → Bool
is_skipped [] = true
is_skipped (c ∷ cs) = c == b'#'

-- What one round of the loop pushes.
unfoldable pub line_signature : List ℕ → List DpiSignature
line_signature line =
    if is_skipped line then [] else elim (parse_line line) [ none ↦ [] | some sig ↦ sig ∷ [] ]

unfoldable pub push_lines : List DpiSignature → List (List ℕ) → List DpiSignature
push_lines sigs [] = sigs
push_lines sigs (line ∷ lines) = push_lines (sigs ++ line_signature line) lines

unfoldable pub load_signatures : Sorter → DpiClassifier → Option (List ℕ) → DpiClassifier × Bool
load_signatures sorter d none = (d, false)
load_signatures sorter d (some text) =
    (record d { signatures = sorter.sort (push_lines d.signatures (get_lines text)) }, true)
