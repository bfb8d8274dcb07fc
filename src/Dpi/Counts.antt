-- ===== src/Dpi/Counts.antt =====
-- What a classification that is reported rests on, and what it counts.
use virtual_service_gateway.Common.{
  ℕ, ◌%◌, ◌+◌, ◌≤◌, ◌<◌, ◌≡◌, ◌≢◌, ◌∙◌, refl, sym, ap, subst, subst₂, Bool, false, List, Option,
  none, some, arith, length, get_elem?, get_elem?-set_self, get_elem?-set_ne,
  lt-length_of_get_elem?, Bool-cases, Option-cases, inl, inr, ◌==◌, u64_mod, u32_mod, add64,
  if◌then◌else◌, ltb, ◌&&◌, not,
}
use virtual_service_gateway.Common.Faults.{>>=-eq-ok, Result, ok, ◌>>=◌}
use virtual_service_gateway.Dpi.Signature.{ClassificationResult, ResultName, value}
use virtual_service_gateway.Dpi.Matcher.{match_signatures}
use virtual_service_gateway.Dpi.Classifier.{
  DpiClassifier, sampled_out, count_result, conclude, classify, get_classification_count,
}

-- `d'` has counted the class `c` in `d`, if it is known, and nothing else.
abbrev pub Counted : DpiClassifier → DpiClassifier → ClassificationResult → Type 0
Counted d d' c =
    (j : ℕ)
    → get_classification_count d' j ≡ (
        if not (c == 0) && (c == j)
        then (get_classification_count d j + 1) % u64_mod
        else get_classification_count d j)

count_result-Counted :
    (d d' : DpiClassifier) (c : ClassificationResult)
    → (c == 0) ≡ false
    → count_result d c ≡ ok d'
    → Counted d d' c
unfolding count_result get_classification_count
count_result-Counted d d' c known e j = elim (Option-cases (get_elem? d.classification_counts c)) [
  | inl absent ↦ ground arith
  | inr (n, found) ↦ ground (
    arith,
    get_elem?-set_self d.classification_counts c (add64 n 1)
        (lt-length_of_get_elem? d.classification_counts c n found),
    get_elem?-set_ne d.classification_counts c j (add64 n 1),
  )
]

-- What a run that ends with a class shows.
pub record Reports (d : DpiClassifier) (payload : Option (List ℕ)) (len elapsed_us : ℕ)
    (d' : DpiClassifier) (c : ClassificationResult) : Type 0 where
  pub counted : Counted d d' c
  pub known :
      c ≢ value ResultName.unknown
      → (bytes : List ℕ) × (payload ≡ some bytes)
        × (match_signatures d.signatures bytes len ≡ ok c)
        × (elapsed_us % u32_mod ≤ d.guardrails.timeout_us)
        × (c < length d.classification_counts)

unchanged : (d : DpiClassifier) → Counted d d 0
unchanged d j = refl

-- A known class that was concluded is the result of the search, came in time and has a counter.
abbrev Timely : DpiClassifier → ℕ → ℕ → ClassificationResult → Type 0
Timely d result elapsed_us c =
    (c ≡ result)
    × (elapsed_us % u32_mod ≤ d.guardrails.timeout_us)
    × (c < length d.classification_counts)

count_result-in_list :
    (d d' : DpiClassifier) (c : ClassificationResult)
    → count_result d c ≡ ok d'
    → c < length d.classification_counts
unfolding count_result
count_result-in_list d d' c e = elim (Option-cases (get_elem? d.classification_counts c)) [
  | inl absent ↦ absurd (ground arith)
  | inr (n, found) ↦ lt-length_of_get_elem? d.classification_counts c n found
]

abbrev report : ClassificationResult → DpiClassifier → Result (DpiClassifier × ClassificationResult)
report result counted = ok (counted, result)

conclude_known :
    (d d' : DpiClassifier) (result c elapsed_us : ℕ)
    → (result == 0) ≡ false
    → (elapsed_us % u32_mod ≤ d.guardrails.timeout_us)
    → (count_result d result >>= report result) ≡ ok (d', c)
    → Counted d d' c × (c ≢ 0 → Timely d result elapsed_us c)
conclude_known d d' result c elapsed_us known timely e =
    let (counted, q, r) = >>=-eq-ok (count_result d result) (report result) (d', c) e in
    let same : counted ≡ d' = ground arith in
    let class : result ≡ c = ground arith in
    (
      subst₂ (λ x y. Counted d x y) same class (count_result-Counted d counted result known q),
      λ _. (
        sym class,
        timely,
        subst (λ k. k < length d.classification_counts) class
            (count_result-in_list d counted result q),
      ),
    )

pub conclude-Counted :
    (d d' : DpiClassifier) (result c elapsed_us : ℕ)
    → conclude d result elapsed_us ≡ ok (d', c)
    → Counted d d' c × (c ≢ 0 → Timely d result elapsed_us c)
unfolding conclude get_classification_count
conclude-Counted d d' result c elapsed_us e =
    elim (Bool-cases (ltb d.guardrails.timeout_us (elapsed_us % u32_mod))) [
      | inl late ↦ ((λ j. ground arith), λ h. ground arith)
      | inr timely ↦ elim (Bool-cases (result == 0)) [
        | inl zeroth ↦ ((λ j. ground arith), λ h. ground arith)
        | inr known ↦ conclude_known d d' result c elapsed_us known (ground arith) (ground arith)
      ]
    ]

module _ (d d' : DpiClassifier) (payload : Option (List ℕ)) (len elapsed_us : ℕ)
    (c : ClassificationResult) where
  unknown-Reports :
      ◌≡◌ {A = Result (DpiClassifier × ClassificationResult)} (ok (d, 0)) (ok (d', c))
      → Reports d payload len elapsed_us d' c
  unfolding get_classification_count
  unknown-Reports e = record { counted = λ j. ground arith; known = λ h. absurd (h (ground arith)) }

  matched-Reports :
      (bytes : List ℕ) (result : ClassificationResult)
      → payload ≡ some bytes
      → match_signatures d.signatures bytes len ≡ ok result
      → conclude d result elapsed_us ≡ ok (d', c)
      → Reports d payload len elapsed_us d' c
  matched-Reports bytes result here found e =
      let (counted, known) = conclude-Counted d d' result c elapsed_us e in
      record {
        counted = counted;
        known = λ h.
            let (same, timely, within) = known h in
            (bytes, here, found ∙ ap ok (sym same), timely, within);
      }

-- The rest of `classify` after the search, and after the sampling test.
abbrev after_search :
    DpiClassifier → ℕ → ClassificationResult → Result (DpiClassifier × ClassificationResult)
after_search d elapsed_us result = conclude d result elapsed_us

abbrev after_sampling :
    DpiClassifier → List ℕ → ℕ → ℕ → Bool → Result (DpiClassifier × ClassificationResult)
after_sampling d bytes len elapsed_us skip =
    if skip
    then ok (d, 0)
    else (match_signatures d.signatures bytes len >>= after_search d elapsed_us)

-- A run of `classify` that returns counts the class that it returns, and no other: the counter of a
-- known class goes up by one modulo 2^64, and an unknown result counts nothing. It returns a known
-- class only if the payload was there, that class is what its signatures match and has a counter,
-- and the measured time, modulo 2^32, was within the timeout.
pub classify-Reports :
    (d d' : DpiClassifier) (payload : Option (List ℕ)) (len random elapsed_us : ℕ)
    (c : ClassificationResult)
    → classify d payload len random elapsed_us ≡ ok (d', c)
    → Reports d payload len elapsed_us d' c
unfolding classify
classify-Reports d d' none len random elapsed_us c e = unknown-Reports d d' none len elapsed_us c e
classify-Reports d d' (some bytes) len random elapsed_us c e = elim (Bool-cases (len == 0)) [
  | inl empty ↦ unknown-Reports d d' (some bytes) len elapsed_us c (rw empty at e)
  | inr full ↦
      let (skip, _, q) =
        >>=-eq-ok (sampled_out d random) (after_sampling d bytes len elapsed_us) (d', c)
          (rw full at e) in
      elim (Bool-cases skip) [
        | inl s ↦ unknown-Reports d d' (some bytes) len elapsed_us c (rw s at q)
        | inr s ↦
            let (result, found, r) =
              >>=-eq-ok (match_signatures d.signatures bytes len) (after_search d elapsed_us)
                (d', c) (rw s at q) in
            matched-Reports d d' (some bytes) len elapsed_us c bytes result refl found r
      ]
]
