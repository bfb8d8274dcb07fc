-- ===== src/Dpi/Invariant.antt =====
-- The classifier's well-formedness: kept by every method on every path, and enough for `classify`
-- to run without undefined behaviour.
use virtual_service_gateway.Common.{
  ℕ, ◌%◌, ◌≤◌, ◌<◌, ◌≡◌, ◌≢◌, refl, Bool, true, false, List, [], ◌∷◌, Option, none, some, arith,
  All, length, set, length-set, All-set, get_elem?_in_range, Bool-cases, inl, inr, ◌==◌, ==_false,
  not, u64_mod, u32_mod, add64, ltb,
}
use virtual_service_gateway.Common.Faults.{Result, ok, ◌>>=◌}
use virtual_service_gateway.Dpi.Signature.{ClassificationResult, DpiSignature, DpiGuardrails}
use virtual_service_gateway.Dpi.Classifier.{
  DpiClassifier, new_classifier, sampled_out, count_result, conclude, classify, replace_signature,
  update_signature, erase_signature, remove_signature, set_guardrails,
}
use virtual_service_gateway.Dpi.FirstHit.{FirstHit, hit, miss, exhausted, match_signatures-FirstHit}

-- The class has a counter.
abbrev pub HasCounter : DpiSignature → Type 0
HasCounter s = s.classification < 16

pub record IsValid (d : DpiClassifier) : Type 0 where
  pub counters : length d.classification_counts ≡ 16
  pub words : All (λ n. n < u64_mod) d.classification_counts
  pub classes : All HasCounter d.signatures
  pub enabled : d.degraded ≡ true → d.guardrails.degradation_enabled ≡ true

-- If degraded mode can be entered, its sampling rate is not zero.
abbrev pub CanSample : DpiGuardrails → Type 0
CanSample g = g.degradation_enabled ≡ true → g.sample_rate ≢ 0

pub new_classifier-IsValid : (g : DpiGuardrails) → IsValid (new_classifier g)
unfolding new_classifier
new_classifier-IsValid g = record {
  counters = refl;
  words = omega arith;
  classes = tt;
  enabled = λ e. cc;
}

replace_signature-classes :
    (sig : DpiSignature) (sigs : List DpiSignature)
    → HasCounter sig
    → All HasCounter sigs
    → All HasCounter (replace_signature sig sigs)
unfolding replace_signature
replace_signature-classes sig [] h hs = (h, tt)
replace_signature-classes sig (s ∷ sigs) h hs =
    ground (arith, replace_signature-classes sig sigs h hs.1)

erase_signature-classes :
    (id : ℕ) (sigs : List DpiSignature)
    → All HasCounter sigs
    → All HasCounter (erase_signature id sigs)
unfolding erase_signature
erase_signature-classes id [] hs = tt
erase_signature-classes id (s ∷ sigs) hs = ground (arith, erase_signature-classes id sigs hs.1)

pub update_signature-IsValid :
    (d : DpiClassifier) (sig : DpiSignature)
    → HasCounter sig
    → IsValid d
    → IsValid (update_signature d sig)
unfolding update_signature
update_signature-IsValid d sig h v = record {
  counters = v.counters;
  words = v.words;
  classes = replace_signature-classes sig d.signatures h v.classes;
  enabled = v.enabled;
}

pub remove_signature-IsValid :
    (d : DpiClassifier) (id : ℕ) → IsValid d → IsValid (remove_signature d id)
unfolding remove_signature
remove_signature-IsValid d id v = record {
  counters = v.counters;
  words = v.words;
  classes = erase_signature-classes id d.signatures v.classes;
  enabled = v.enabled;
}

pub set_guardrails-IsValid :
    (d : DpiClassifier) (g : DpiGuardrails) → IsValid d → IsValid (set_guardrails d g)
unfolding set_guardrails
set_guardrails-IsValid d g v = record {
  counters = v.counters;
  words = v.words;
  classes = v.classes;
  enabled = λ e. cc;
}

-- A class that the search returns has a counter, as all classes of the signatures have.
FirstHit-HasCounter :
    {payload : List ℕ} {len c : ℕ} (sigs : List DpiSignature)
    → All HasCounter sigs
    → FirstHit payload len c sigs
    → c < 16
FirstHit-HasCounter [] hs (exhausted e) = omega arith
FirstHit-HasCounter (sig ∷ sigs) hs (hit h e) = omega arith
FirstHit-HasCounter (sig ∷ sigs) hs (miss n f) = FirstHit-HasCounter sigs hs.1 f

-- The run ends without a fault in a valid classifier with the same signatures and guardrails.
abbrev pub EndsValid : DpiClassifier → Result (DpiClassifier × ClassificationResult) → Type 0
EndsValid d r =
    (d' : DpiClassifier) × (c : ClassificationResult) × (r ≡ ok (d', c))
    × IsValid d'
    × (d'.signatures ≡ d.signatures)
    × (d'.guardrails ≡ d.guardrails)

conclude-EndsValid :
    (d : DpiClassifier) (c elapsed_us : ℕ)
    → c < 16
    → IsValid d
    → EndsValid d (conclude d c elapsed_us)
unfolding conclude count_result
conclude-EndsValid d c elapsed_us h v =
    elim (Bool-cases (ltb d.guardrails.timeout_us (elapsed_us % u32_mod))) [
      | inl late ↦ (
        record d { degraded = d.guardrails.degradation_enabled },
        0,
        rw late,
        record { counters = v.counters; words = v.words; classes = v.classes; enabled = λ e. e },
        refl,
        refl,
      )
      | inr timely ↦ elim (Bool-cases (c == 0)) [
        | inl zeroth ↦ (d, c, rw (timely, zeroth), v, refl, refl)
        | inr known ↦
            let (n, e) = get_elem?_in_range d.classification_counts c (omega (arith, v.counters)) in
            (
              record d { classification_counts = set d.classification_counts c (add64 n 1) },
              c,
              rw (timely, known, e, ◌>>=◌),
              record {
                counters = rw (length-set d.classification_counts c (add64 n 1)) v.counters;
                words =
                    All-set (λ k. k < u64_mod) d.classification_counts c (add64 n 1) v.words
                      (omega arith);
                classes = v.classes;
                enabled = v.enabled;
              },
              refl,
              refl,
            )
      ]
    ]

sampled_out-ok :
    (d : DpiClassifier) (random : ℕ)
    → CanSample d.guardrails
    → IsValid d
    → (skip : Bool) × (sampled_out d random ≡ ok skip)
unfolding sampled_out
sampled_out-ok d random can v = elim (Bool-cases d.degraded) [
  | inl e ↦ (
    not (random % d.guardrails.sample_rate == 0),
    rw (e, ==_false d.guardrails.sample_rate 0 (can (v.enabled e))),
  )
  | inr e ↦ (false, rw e)
]

-- On a valid classifier that can sample, `classify` of a null pointer or of `len` readable bytes
-- divides by no zero, reads and counts in bounds, and leaves a valid classifier with the same
-- signatures and guardrails.
pub classify-IsValid :
    (d : DpiClassifier) (payload : Option (List ℕ)) (len random elapsed_us : ℕ)
    → ((bytes : List ℕ) → payload ≡ some bytes → len ≤ length bytes)
    → CanSample d.guardrails
    → IsValid d
    → EndsValid d (classify d payload len random elapsed_us)
unfolding classify
classify-IsValid d none len random elapsed_us readable can v = (d, 0, refl, v, refl, refl)
classify-IsValid d (some bytes) len random elapsed_us readable can v =
    let (skip, sampled) = sampled_out-ok d random can v in
    let (c, found, first) =
      match_signatures-FirstHit bytes len d.signatures (readable bytes refl) in
    let (d', c', concluded, v', same, kept) =
      conclude-EndsValid d c elapsed_us (FirstHit-HasCounter d.signatures v.classes first) v in
    elim (Bool-cases (len == 0)) [
      | inl e ↦ (d, 0, rw e, v, refl, refl)
      | inr e ↦ elim (Bool-cases skip) [
        | inl s ↦ (d, 0, rw (e, sampled, ◌>>=◌, s), v, refl, refl)
        | inr s ↦ (d', c', rw (e, sampled, ◌>>=◌, s, found, ◌>>=◌) concluded, v', same, kept)
      ]
    ]
