-- ===== src/Dpi/Shared/Calls.antt =====
-- `classify` of src/dpi/classifier_pipeline.cpp, cut at its accesses to what threads change: the flag `degraded_`,
-- which the sampling test loads and a timeout stores, and the counts. Signatures and guardrails are not changed
-- meanwhile; the search reads nothing else, and has a turn of its own.
use virtual_service_gateway.Common.{
  ℕ, Bool, List, [], ◌∷◌, ◌++◌, Option, none, some, ◌==◌, if◌then◌else◌,
}
use virtual_service_gateway.Common.Faults.{Fault, Result, ok, fault}
use virtual_service_gateway.Dpi.Signature.{ClassificationResult, ResultName, value}
use virtual_service_gateway.Dpi.Matcher.{match_signatures}
use virtual_service_gateway.Dpi.Classifier.{DpiClassifier, sampled_out, conclude}

-- The arguments of a call, with what `rand()` and the clock give it.
pub record ClassifyCall : Type 0 where
  pub payload : Option (List ℕ)
  pub len : ℕ
  pub random : ℕ
  pub elapsed_us : ℕ

-- Where a thread stands, with the calls that are left and the results so far: at the beginning of a call, before the
-- search, before the timeout check and the counter, past its calls, or stopped by a fault.
pub data ClassifyTask : Type 0 where
  entering : ClassifyCall → List ClassifyCall → List ClassificationResult → ClassifyTask
  searching :
      (bytes : List ℕ) → ClassifyCall → List ClassifyCall → List ClassificationResult → ClassifyTask
  concluding :
      ClassificationResult
      → ClassifyCall
      → List ClassifyCall
      → List ClassificationResult
      → ClassifyTask
  returned : List ClassificationResult → ClassifyTask
  stopped : Fault → List ClassificationResult → ClassifyTask

unfoldable pub next_call : List ClassifyCall → List ClassificationResult → ClassifyTask
next_call [] results = returned results
next_call (c ∷ cs) results = entering c cs results

unfoldable pub after_sampling :
    Result Bool
    → List ℕ
    → ClassifyCall
    → List ClassifyCall
    → List ClassificationResult
    → ClassifyTask
after_sampling (ok skip) bytes c cs results =
    if skip
    then next_call cs (results ++ value ResultName.unknown ∷ [])
    else searching bytes c cs results
after_sampling (fault e) bytes c cs results = stopped e results

unfoldable pub after_search :
    Result ClassificationResult
    → ClassifyCall
    → List ClassifyCall
    → List ClassificationResult
    → ClassifyTask
after_search (ok result) c cs results = concluding result c cs results
after_search (fault e) c cs results = stopped e results

unfoldable pub after_conclusion :
    DpiClassifier
    → Result (DpiClassifier × ClassificationResult)
    → List ClassifyCall
    → List ClassificationResult
    → DpiClassifier × ClassifyTask
after_conclusion d (ok (d', result)) cs results = (d', next_call cs (results ++ result ∷ []))
after_conclusion d (fault e) cs results = (d, stopped e results)

unfoldable pub enter :
    DpiClassifier
    → Option (List ℕ)
    → ClassifyCall
    → List ClassifyCall
    → List ClassificationResult
    → ClassifyTask
enter d none c cs results = next_call cs (results ++ value ResultName.unknown ∷ [])
enter d (some bytes) c cs results =
    if c.len == 0
    then next_call cs (results ++ value ResultName.unknown ∷ [])
    else after_sampling (sampled_out d c.random) bytes c cs results

unfoldable pub classify_step : DpiClassifier → ClassifyTask → DpiClassifier × ClassifyTask
classify_step d (entering c cs results) = (d, enter d c.payload c cs results)
classify_step d (searching bytes c cs results) =
    (d, after_search (match_signatures d.signatures bytes c.len) c cs results)
classify_step d (concluding result c cs results) =
    after_conclusion d (conclude d result c.elapsed_us) cs results
classify_step d (returned results) = (d, returned results)
classify_step d (stopped e results) = (d, stopped e results)
