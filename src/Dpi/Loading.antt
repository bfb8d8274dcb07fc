-- ===== src/Dpi/Loading.antt =====
-- What the classifier can do with the signatures that `load_signatures` has read from a text file.
use mathlib.Core.List.{Perm, Permᴰ}
use mathlib.Core.List.Perm
use mathlib.Core.Logic.{∥∥₁_elim}
use native.Mathlib.Bridge.{le_prop}
use virtual_service_gateway.Common.{
  ℕ, ◌%◌, ◌≤◌, ◌≡◌, ◌≢◌, subst, List, [], ◌∷◌, Option, some, arith, u32_mod, All, length, inl, inr,
  Bool-cases, ◌==◌, get_elem?_out_of_range, ==_false,
}
use virtual_service_gateway.Common.Faults.{ok, fault, out_of_bounds, ◌>>=◌}
use virtual_service_gateway.Dpi.Signature.{
  ClassificationResult, DpiSignature, DpiGuardrails, ResultName, value,
}
use virtual_service_gateway.Dpi.Matcher.{match_signatures}
use virtual_service_gateway.Dpi.Classifier.{
  DpiClassifier, new_classifier, sampled_out, count_result, conclude, classify,
}
use virtual_service_gateway.Dpi.Counts.{classify-Reports}
use virtual_service_gateway.Dpi.Loader.{Sorter, get_lines, push_lines, load_signatures}
use virtual_service_gateway.Dpi.TextClasses.{IsText, Printed, push_text-Printed}

Printed-prop : (sigs : List DpiSignature) → IsProp (All Printed sigs)
Printed-prop [] = hlevel
Printed-prop (s ∷ sigs) = hlevel (le_prop, Printed-prop sigs)

Printed-permᴰ : {xs ys : List DpiSignature} → Permᴰ xs ys → All Printed xs → All Printed ys
Printed-permᴰ Permᴰ.nil h = h
Printed-permᴰ (Permᴰ.cons e p) h = (subst Printed e h.0, Printed-permᴰ p h.1)
Printed-permᴰ (Permᴰ.swap e f) h = (subst Printed f h.1.0, (subst Printed e h.0, h.1.1))
Printed-permᴰ (Permᴰ.trans p q) h = Printed-permᴰ q (Printed-permᴰ p h)

Printed-perm : (xs ys : List DpiSignature) → Perm xs ys → All Printed xs → All Printed ys
Printed-perm xs ys p h = ∥∥₁_elim p (Printed-prop ys) (λ q. Printed-permᴰ q h)

match-Printed :
    (sigs : List DpiSignature) (bytes : List ℕ) (len : ℕ) (c : ClassificationResult)
    → All Printed sigs
    → match_signatures sigs bytes len ≡ ok c
    → c ≢ 0
    → 33 ≤ c
unfolding match_signatures
match-Printed [] bytes len c h e n = absurd (n (ground arith))
match-Printed (s ∷ sigs) bytes len c h e n = ground (arith, match-Printed sigs bytes len c h.1)

-- A new classifier that has loaded a text file.
abbrev pub loaded : Sorter → DpiGuardrails → List ℕ → DpiClassifier
loaded sorter g text = (load_signatures sorter (new_classifier g) (some text)).0

loaded-Printed :
    (sorter : Sorter) (g : DpiGuardrails) (text : List ℕ)
    → All IsText text
    → All Printed (loaded sorter g text).signatures
unfolding load_signatures new_classifier
loaded-Printed sorter g text h =
    Printed-perm (push_lines [] (get_lines text)) (sorter.sort (push_lines [] (get_lines text)))
      (Perm.symm (sorter.sort-perm (push_lines [] (get_lines text))))
      (push_text-Printed [] text h tt)

-- With the signatures of a text file alone, a run of `classify` that returns reports no class, for
-- any payload.
pub loaded_never_classifies :
    (sorter : Sorter) (g : DpiGuardrails) (text : List ℕ) (payload : Option (List ℕ))
    (len random elapsed_us : ℕ) (d' : DpiClassifier) (c : ClassificationResult)
    → All IsText text
    → classify (loaded sorter g text) payload len random elapsed_us ≡ ok (d', c)
    → c ≡ value ResultName.unknown
unfolding load_signatures new_classifier
loaded_never_classifies sorter g text payload len random elapsed_us d' c h e =
    elim (Bool-cases (c == 0)) [
      | inl z ↦ ground arith
      | inr nz ↦
          let (bytes, _, found, _, within) =
            (classify-Reports (loaded sorter g text) d' payload len random elapsed_us c e).known
              (ground arith) in
          let printed =
            match-Printed (loaded sorter g text).signatures bytes len c
              (loaded-Printed sorter g text h) found (ground arith) in
          absurd (omega (arith, printed, within))
    ]

conclude_no_counter :
    (d : DpiClassifier) (c : ClassificationResult) (elapsed_us : ℕ)
    → length d.classification_counts ≤ c
    → c ≢ 0
    → elapsed_us % u32_mod ≤ d.guardrails.timeout_us
    → conclude d c elapsed_us ≡ fault out_of_bounds
unfolding conclude count_result
conclude_no_counter d c elapsed_us past known timely =
    ground (arith, get_elem?_out_of_range d.classification_counts c)

-- With the signatures of a text file alone, where the signatures match a class for a payload that
-- is not empty, and the time, modulo 2^32, is within the timeout, `classify` counts at an index
-- past the end of its counters.
pub loaded_match_faults :
    (sorter : Sorter) (g : DpiGuardrails) (text bytes : List ℕ) (len random elapsed_us : ℕ)
    (c : ClassificationResult)
    → All IsText text
    → len ≢ 0
    → match_signatures (loaded sorter g text).signatures bytes len ≡ ok c
    → c ≢ value ResultName.unknown
    → elapsed_us % u32_mod ≤ g.timeout_us
    → classify (loaded sorter g text) (some bytes) len random elapsed_us ≡ fault out_of_bounds
unfolding classify sampled_out load_signatures new_classifier
loaded_match_faults sorter g text bytes len random elapsed_us c h full found known timely =
    let printed =
      match-Printed (loaded sorter g text).signatures bytes len c (loaded-Printed sorter g text h)
        found known in
    rw (==_false len 0 full, found, ◌>>=◌)
      (conclude_no_counter (loaded sorter g text) c elapsed_us (omega arith) known timely)
