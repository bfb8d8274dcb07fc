-- ===== src/Dpi/Classifier.antt =====
-- The methods of `DPIClassifier` in src/dpi/classifier_pipeline.cpp but for loading. One that changes
-- the classifier returns it. `rand()` and the measured time are arguments.
use virtual_service_gateway.Common.{
  ℕ, ◌%◌, Bool, false, not, List, [], ◌∷◌, Option, none, some, replicate, set, get_elem?, add64,
  u32_mod, ltb, ◌==◌, if◌then◌else◌,
}
use virtual_service_gateway.Common.Faults.{
  Result, ok, fault, out_of_bounds, division_by_zero, ◌>>=◌,
}
use virtual_service_gateway.Dpi.Signature.{
  ClassificationResult, DpiSignature, DpiGuardrails, ResultName, value,
}
use virtual_service_gateway.Dpi.Matcher.{match_signatures}

pub record DpiClassifier : Type 0 where
  pub signatures : List DpiSignature
  pub guardrails : DpiGuardrails
  pub degraded : Bool
  pub classification_counts : List ℕ

unfoldable pub new_classifier : DpiGuardrails → DpiClassifier
new_classifier guardrails = record {
  signatures = [];
  guardrails = guardrails;
  degraded = false;
  classification_counts = replicate 16 0;
}

-- `is_degraded() && (rand() % guardrails_.sample_rate) != 0`.
unfoldable pub sampled_out : DpiClassifier → ℕ → Result Bool
sampled_out d random =
    if d.degraded
    then (if d.guardrails.sample_rate == 0
        then fault division_by_zero
        else ok (not (random % d.guardrails.sample_rate == 0)))
    else ok false

-- `classification_counts_[(int)result] += 1`.
unfoldable pub count_result : DpiClassifier → ClassificationResult → Result DpiClassifier
count_result d result = elim (get_elem? d.classification_counts result) [
  | none ↦ fault out_of_bounds
  | some n ↦
      ok (record d { classification_counts = set d.classification_counts result (add64 n 1) })
]

-- What follows the search: the timeout check and the counter.
unfoldable pub conclude :
    DpiClassifier → ClassificationResult → ℕ → Result (DpiClassifier × ClassificationResult)
conclude d result elapsed_us =
    if ltb d.guardrails.timeout_us (elapsed_us % u32_mod)
    then ok (record d { degraded = d.guardrails.degradation_enabled }, value ResultName.unknown)
    else if result == value ResultName.unknown
    then ok (d, result)
    else (count_result d result >>= λ counted. ok (counted, result))

-- `payload` is null or points to the listed bytes.
unfoldable pub classify :
    DpiClassifier → Option (List ℕ) → ℕ → ℕ → ℕ → Result (DpiClassifier × ClassificationResult)
classify d none len random elapsed_us = ok (d, value ResultName.unknown)
classify d (some payload) len random elapsed_us =
    if len == 0
    then ok (d, value ResultName.unknown)
    else (sampled_out d random >>= λ skip.
        if skip
        then ok (d, value ResultName.unknown)
        else (match_signatures d.signatures payload len >>= λ result. conclude d result elapsed_us))

-- `*it = sig` at the first signature with the id, else `push_back`.
unfoldable pub replace_signature : DpiSignature → List DpiSignature → List DpiSignature
replace_signature sig [] = sig ∷ []
replace_signature sig (s ∷ sigs) =
    if s.signature_id == sig.signature_id then sig ∷ sigs else s ∷ replace_signature sig sigs

unfoldable pub update_signature : DpiClassifier → DpiSignature → DpiClassifier
update_signature d sig = record d { signatures = replace_signature sig d.signatures }

-- `erase` of the first signature with the id.
unfoldable pub erase_signature : ℕ → List DpiSignature → List DpiSignature
erase_signature signature_id [] = []
erase_signature signature_id (s ∷ sigs) =
    if s.signature_id == signature_id then sigs else s ∷ erase_signature signature_id sigs

unfoldable pub remove_signature : DpiClassifier → ℕ → DpiClassifier
remove_signature d signature_id = record d {
  signatures = erase_signature signature_id d.signatures;
}

unfoldable pub get_classification_count : DpiClassifier → ClassificationResult → ℕ
get_classification_count d classification =
    elim (get_elem? d.classification_counts classification) [ none ↦ 0 | some n ↦ n ]

unfoldable pub set_guardrails : DpiClassifier → DpiGuardrails → DpiClassifier
set_guardrails d guardrails = record d { guardrails = guardrails; degraded = false }

-- `heuristic_classify`; no method of the class calls it.
unfoldable pub heuristic_classify : List ℕ → ℕ → ClassificationResult
heuristic_classify payload len =
    if ltb len 4 then value ResultName.unknown else value ResultName.unknown
