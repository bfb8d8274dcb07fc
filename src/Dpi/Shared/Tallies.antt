-- ===== src/Dpi/Shared/Tallies.antt =====
-- Every class that some thread reports is counted exactly once, however the calls interleave.
use virtual_service_gateway.Common.{
  ℕ, ◌+◌, ◌%◌, ◌<◌, ◌≡◌, ◌≢◌, refl, sym, ap, subst, Bool, true, false, List, [], ◌∷◌, ◌++◌, map,
  Option, none, some, inl, inr, Bool-cases, sum_by, sum_by-append, arith, u64_mod, ◌==◌,
  if◌then◌else◌,
}
use virtual_service_gateway.Common.Faults.{Result, ok, fault}
use virtual_service_gateway.Common.Threads.{run_threads, run_threads-keeps}
use virtual_service_gateway.Dpi.Signature.{ClassificationResult, ResultName, value}
use virtual_service_gateway.Dpi.Matcher.{match_signatures}
use virtual_service_gateway.Dpi.Classifier.{
  DpiClassifier, sampled_out, conclude, get_classification_count,
}
use virtual_service_gateway.Dpi.Counts.{conclude-Counted}
use virtual_service_gateway.Dpi.Shared.Calls.{
  ClassifyCall, ClassifyTask, entering, searching, concluding, returned, stopped, next_call,
  after_sampling, after_search, after_conclusion, enter, classify_step,
}

abbrev pub results_of : ClassifyTask → List ClassificationResult
results_of (entering c cs results) = results
results_of (searching bytes c cs results) = results
results_of (concluding result c cs results) = results
results_of (returned results) = results
results_of (stopped e results) = results

module _ (class : ClassificationResult) where
  abbrev pub tally : List ClassificationResult → ℕ
  tally results = sum_by (λ r. if r == class then 1 else 0) results

  -- How often a thread has reported the class.
  abbrev pub reports : ClassifyTask → ℕ
  reports t = tally (results_of t)

  module _ (known : class ≢ value ResultName.unknown) (start : ℕ) where
    next_call-reports :
        (cs : List ClassifyCall) (results : List ClassificationResult)
        → results_of (next_call cs results) ≡ results
    unfolding next_call
    next_call-reports [] results = refl
    next_call-reports (c ∷ cs) results = refl

    unknown-reports :
        (cs : List ClassifyCall) (results : List ClassificationResult)
        → reports (next_call cs (results ++ value ResultName.unknown ∷ [])) ≡ tally results
    unknown-reports cs results = ground (
      arith,
      known,
      ap tally (next_call-reports cs (results ++ value ResultName.unknown ∷ [])),
      sum_by-append (λ r. if r == class then 1 else 0) results (value ResultName.unknown ∷ []),
    )

    after_sampling-reports :
        (skip : Result Bool) (bytes : List ℕ) (c : ClassifyCall) (cs : List ClassifyCall)
        (results : List ClassificationResult)
        → reports (after_sampling skip bytes c cs results) ≡ tally results
    unfolding after_sampling
    after_sampling-reports (ok true) bytes c cs results = unknown-reports cs results
    after_sampling-reports (ok false) bytes c cs results = refl
    after_sampling-reports (fault e) bytes c cs results = refl

    enter-reports :
        (d : DpiClassifier) (payload : Option (List ℕ)) (c : ClassifyCall) (cs : List ClassifyCall)
        (results : List ClassificationResult)
        → reports (enter d payload c cs results) ≡ tally results
    unfolding enter
    enter-reports d none c cs results = unknown-reports cs results
    enter-reports d (some bytes) c cs results = elim (Bool-cases (c.len == 0)) [
      | inl e ↦ rw e (unknown-reports cs results)
      | inr e ↦ rw e (after_sampling-reports (sampled_out d c.random) bytes c cs results)
    ]

    after_search-reports :
        (found : Result ClassificationResult) (c : ClassifyCall) (cs : List ClassifyCall)
        (results : List ClassificationResult)
        → reports (after_search found c cs results) ≡ tally results
    unfolding after_search
    after_search-reports (ok result) c cs results = refl
    after_search-reports (fault e) c cs results = refl

    abbrev IsTallied : DpiClassifier → ℕ → Type 0
    IsTallied d n = get_classification_count d class ≡ (start + n) % u64_mod

    after_conclusion-IsTallied :
        (d : DpiClassifier) (result elapsed_us : ℕ)
        (r : Result (DpiClassifier × ClassificationResult)) (cs : List ClassifyCall)
        (results : List ClassificationResult) (rest : ℕ)
        → conclude d result elapsed_us ≡ r
        → IsTallied d (tally results + rest)
        → let (d', t') = after_conclusion d r cs results in IsTallied d' (reports t' + rest)
    unfolding after_conclusion
    after_conclusion-IsTallied d result elapsed_us (ok (d', c)) cs results rest e h =
        let counted = (conclude-Counted d d' result c elapsed_us e).0 class in
        ground (
          arith,
          h,
          known,
          counted,
          ap tally (next_call-reports cs (results ++ c ∷ [])),
          sum_by-append (λ r. if r == class then 1 else 0) results (c ∷ []),
        )
    after_conclusion-IsTallied d result elapsed_us (fault e) cs results rest same h = h

    classify_step-IsTallied :
        (d : DpiClassifier) (t : ClassifyTask) (rest : ℕ)
        → IsTallied d (reports t + rest)
        → let (d', t') = classify_step d t in IsTallied d' (reports t' + rest)
    unfolding classify_step
    classify_step-IsTallied d (entering c cs results) rest h =
        subst (λ n. IsTallied d (n + rest)) (sym (enter-reports d c.payload c cs results)) h
    classify_step-IsTallied d (searching bytes c cs results) rest h =
        let found = match_signatures d.signatures bytes c.len in
        subst (λ n. IsTallied d (n + rest)) (sym (after_search-reports found c cs results)) h
    classify_step-IsTallied d (concluding result c cs results) rest h =
        after_conclusion-IsTallied d result c.elapsed_us (conclude d result c.elapsed_us) cs results
          rest refl h
    classify_step-IsTallied d (returned results) rest h = h
    classify_step-IsTallied d (stopped e results) rest h = h

    no_reports :
        (programs : List (List ClassifyCall))
        → sum_by reports (map (λ cs. next_call cs []) programs) ≡ 0
    no_reports [] = refl
    no_reports (cs ∷ programs) =
        omega (arith, no_reports programs, ap tally (next_call-reports cs []))

-- Threads that classify payloads with one classifier, in any interleaving: the counter of a known class is at any
-- moment what it was, below 2^64, and one more, modulo 2^64, for each call that has reported the class.
pub interleaved_classifications :
    (class : ClassificationResult) (d : DpiClassifier) (programs : List (List ClassifyCall))
    (schedule : List ℕ)
    → class ≢ value ResultName.unknown
    → get_classification_count d class < u64_mod
    → let (d', ts') =
        run_threads classify_step (d, map (λ cs. next_call cs []) programs) schedule in
      get_classification_count d' class
      ≡ (get_classification_count d class + sum_by (reports class) ts') % u64_mod
interleaved_classifications class d programs schedule known small =
    let start = get_classification_count d class in
    run_threads-keeps classify_step (reports class) (IsTallied class known start)
      (classify_step-IsTallied class known start) d (map (λ cs. next_call cs []) programs) schedule
      (omega (arith, small, no_reports class known start programs))
