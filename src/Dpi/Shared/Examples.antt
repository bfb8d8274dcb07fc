-- ===== src/Dpi/Shared/Examples.antt =====
-- Two threads that classify payloads with one classifier, one of which runs into the timeout.
use virtual_service_gateway.Common.{
  ℕ, ◌+◌, ◌%◌, ◌≡◌, refl, true, List, [], ◌∷◌, map, some, sum_by, arith, u64_mod,
}
use virtual_service_gateway.Common.Threads.{run_threads, move_thread}
use virtual_service_gateway.Dpi.Matcher.{
  match_signatures, signature_hits, search_from, bytes_equal, list_eq,
}
use virtual_service_gateway.Dpi.Classifier.{
  DpiClassifier, new_classifier, update_signature, replace_signature, sampled_out, conclude,
  count_result, get_classification_count,
}
use virtual_service_gateway.Dpi.Examples.{with_http, request}
use virtual_service_gateway.Dpi.Shared.Calls.{
  ClassifyCall, ClassifyTask, returned, next_call, after_sampling, after_search, after_conclusion,
  enter, classify_step,
}
use virtual_service_gateway.Dpi.Shared.Tallies.{reports, interleaved_classifications}

abbrev quick : ClassifyCall
quick = record { payload = some request; len = 14; random = 3; elapsed_us = 40 }

abbrev late : ClassifyCall
late = record { payload = some request; len = 14; random = 3; elapsed_us = 101 }

abbrev programs : List (List ClassifyCall)
programs = (quick ∷ quick ∷ []) ∷ (late ∷ []) ∷ []

-- The second call of the first thread is sampled out, since the other thread has run into the timeout meanwhile.
abbrev turns_taken : List ℕ
turns_taken = 0 ∷ 1 ∷ 0 ∷ 1 ∷ 0 ∷ 1 ∷ 0 ∷ 0 ∷ []

abbrev system : DpiClassifier × List ClassifyTask
system = run_threads classify_step (with_http, map (λ cs. next_call cs []) programs) turns_taken

test_system :
    (system.1 ≡ returned (1 ∷ 0 ∷ []) ∷ returned (0 ∷ []) ∷ [])
    × (system.0.degraded ≡ true)
    × (get_classification_count system.0 1 ≡ 1)
unfolding run_threads move_thread classify_step next_call after_sampling after_search
    after_conclusion enter sampled_out conclude count_result get_classification_count
    update_signature replace_signature new_classifier match_signatures signature_hits search_from
    bytes_equal list_eq
test_system = (refl, refl, refl)

interleaved_classifications_example :
    get_classification_count system.0 1
    ≡ (get_classification_count with_http 1 + sum_by (reports 1) system.1) % u64_mod
unfolding get_classification_count update_signature new_classifier
interleaved_classifications_example =
    interleaved_classifications 1 with_http programs turns_taken (omega arith) (omega arith)
