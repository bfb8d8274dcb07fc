-- ===== src/Dpi/FirstHit.antt =====
-- `match_signatures` finds the first signature whose pattern occurs in its window, and reads no byte
-- past `len`.
use native.Mathlib.Decide.{ℕ_discrete}
use virtual_service_gateway.Common.{
  ℕ, zero, suc, ◌+◌, ◌-◌, ◌≤◌, ◌<◌, ◌≡◌, ◌∙◌, refl, sym, ap, subst, min, Bool, true, false, List,
  [], ◌∷◌, arith, length, take, drop, drop-drop, ◌⊎◌, inl, inr, ◌↔◌, leb, leb→le, le→leb,
  Bool-cases,
}
use virtual_service_gateway.Common.Faults.{Result, ok, ◌>>=◌}
use virtual_service_gateway.Dpi.Signature.{ClassificationResult, DpiSignature, ResultName, value}
use virtual_service_gateway.Dpi.Matcher.{
  list_eq, bytes_equal, search_from, signature_hits, match_signatures,
}
use virtual_service_gateway.Dpi.Occurrence.{list_eq_iff, Occurs, Occurs-StandsAt, StandsAt-Occurs}

-- The bytes in which a signature's pattern is sought: at most `depth` of them from `offset` on, all
-- before `len`.
abbrev pub window : List ℕ → ℕ → DpiSignature → List ℕ
window payload len sig = take (min sig.depth (len - sig.offset)) (drop sig.offset payload)

abbrev pub IsHit : List ℕ → ℕ → DpiSignature → Type 0
IsHit payload len sig = (sig.offset < len) × Occurs sig.pattern (window payload len sig)

-- The verdict of a decision procedure: it returned, and was right.
abbrev pub Decides {ℓ} : Type ℓ → Result Bool → Type ℓ
Decides P r = ((r ≡ ok true) × P) ⊎ ((r ≡ ok false) × (¬ P))

module _ (payload : List ℕ) (offset : ℕ) (pattern : List ℕ) where
  -- The pattern stands at one of the positions `i`, ..., `i + rounds - 1` behind `offset`.
  abbrev InRounds : ℕ → ℕ → Type 0
  InRounds i rounds =
      (j : ℕ) × (i ≤ j)
      × (j < i + rounds)
      × (take (length pattern) (drop j (drop offset payload)) ≡ pattern)

  bytes_equal_lem :
      (i : ℕ)
      → offset + i + length pattern ≤ length payload
      → Decides
          (take (length pattern) (drop i (drop offset payload)) ≡ pattern)
          (bytes_equal payload (offset + i) pattern)
  unfolding bytes_equal
  bytes_equal_lem i h =
      rw (le→leb _ _ h, ← drop-drop i offset payload)
        (elim (Bool-cases
          (list_eq (take (length pattern) (drop i (drop offset payload))) pattern)) [
            | inl e ↦ inl (ap ok e, (list_eq_iff _ _).0 e)
            | inr e ↦ inr (ap ok e, λ q. cc ((list_eq_iff _ _).1 q))
          ])

  search_from_lem :
      (i rounds : ℕ)
      → offset + i + rounds + length pattern ≤ length payload + 1
      → Decides (InRounds i rounds) (search_from payload offset pattern i rounds)
  unfolding search_from
  search_from_lem i zero h = inr (refl, λ (j, lo, hi, at). omega arith)
  search_from_lem i (suc rounds) h = elim (bytes_equal_lem i (omega arith)) [
    | inl (e, at) ↦ inl (rw e, (i, omega arith, omega arith, at))
    | inr (e, miss) ↦ elim (search_from_lem (i + 1) rounds (omega arith)) [
      | inl (r, (j, lo, hi, at)) ↦ inl (rw (e, ◌>>=◌) r, (j, omega arith, omega arith, at))
      | inr (r, none) ↦ inr (
        rw (e, ◌>>=◌) r,
        λ (j, lo, hi, at). elim (ℕ_discrete i j) [
          | yes same ↦ miss (
              subst (λ k. take (length pattern) (drop k (drop offset payload)) ≡ pattern) (sym same)
                at)
          | no other ↦ none (j, omega arith, omega arith, at)
        ],
      )
    ]
  ]

module _ (payload : List ℕ) (len : ℕ) (readable : len ≤ length payload) where
  module _ (sig : DpiSignature) where
    abbrev search_len : ℕ
    search_len = min sig.depth (len - sig.offset)

    abbrev pattern : List ℕ
    pattern = sig.pattern

    searched :
        sig.offset < len
        → length pattern ≤ search_len
        → Decides
            (IsHit payload len sig)
            (search_from payload sig.offset pattern 0 (search_len - length pattern + 1))
    searched inside fits =
        elim (search_from_lem payload sig.offset pattern 0 (search_len - length pattern + 1)
          (omega arith)) [
            | inl (e, (j, lo, hi, at)) ↦ inl (
              e,
              (
                inside,
                StandsAt-Occurs pattern (drop sig.offset payload) search_len j (omega arith, at),
              ),
            )
            | inr (e, none) ↦ inr (
              e,
              λ (_, occurs).
                  let (j, stands) =
                    Occurs-StandsAt pattern (drop sig.offset payload) search_len occurs in
                  none (j, omega arith, omega arith, stands.1),
            )
          ]

    too_short : ¬ (length pattern ≤ search_len) → ¬ IsHit payload len sig
    too_short short (_, occurs) =
        let (j, stands) = Occurs-StandsAt pattern (drop sig.offset payload) search_len occurs in
        short (omega arith)

    signature_hits_lem : Decides (IsHit payload len sig) (signature_hits payload len sig)
    unfolding signature_hits
    signature_hits_lem = elim (Bool-cases (leb len sig.offset)) [
      | inl past ↦ rw past (inr (refl, λ (inside, _). ground arith))
      | inr inside ↦ rw inside (elim (Bool-cases (leb (length pattern) search_len)) [
        | inl fits ↦ rw fits (searched (ground arith) (leb→le _ _ fits))
        | inr short ↦ rw short (inr (refl, too_short (λ h. ground arith)))
      ])
    ]

-- `c` is the class of the first signature of the list that hits, or unknown if none does.
pub data FirstHit (payload : List ℕ) (len : ℕ) (c : ClassificationResult)
    : List DpiSignature → Type 0 where
  hit :
      {sig : DpiSignature} {sigs : List DpiSignature}
      → IsHit payload len sig
      → c ≡ sig.classification
      → FirstHit payload len c (sig ∷ sigs)
  miss :
      {sig : DpiSignature} {sigs : List DpiSignature}
      → ¬ IsHit payload len sig
      → FirstHit payload len c sigs
      → FirstHit payload len c (sig ∷ sigs)
  exhausted : c ≡ value ResultName.unknown → FirstHit payload len c []

FirstHit-unique :
    (payload : List ℕ) (len : ℕ) (c c' : ClassificationResult) (sigs : List DpiSignature)
    → FirstHit payload len c sigs
    → FirstHit payload len c' sigs
    → c ≡ c'
FirstHit-unique payload len c c' [] (exhausted e) (exhausted e') = cc
FirstHit-unique payload len c c' (sig ∷ sigs) (hit h e) (hit h' e') = cc
FirstHit-unique payload len c c' (sig ∷ sigs) (hit h e) (miss n f) = absurd (n h)
FirstHit-unique payload len c c' (sig ∷ sigs) (miss n f) (hit h e) = absurd (n h)
FirstHit-unique payload len c c' (sig ∷ sigs) (miss n f) (miss n' f') =
    FirstHit-unique payload len c c' sigs f f'

-- With `len` readable bytes the search returns, without a fault, the class of the first signature
-- that hits.
pub match_signatures-FirstHit :
    (payload : List ℕ) (len : ℕ) (sigs : List DpiSignature)
    → len ≤ length payload
    → (c : ClassificationResult) × (match_signatures sigs payload len ≡ ok c)
      × FirstHit payload len c sigs
unfolding match_signatures
match_signatures-FirstHit payload len [] readable = (value ResultName.unknown, refl, exhausted refl)
match_signatures-FirstHit payload len (sig ∷ sigs) readable =
    elim (signature_hits_lem payload len readable sig) [
      | inl (e, h) ↦ (sig.classification, rw (e, ◌>>=◌), hit h refl)
      | inr (e, n) ↦
          let (c, r, f) = match_signatures-FirstHit payload len sigs readable in
          (c, rw (e, ◌>>=◌) r, miss n f)
    ]

-- `match_signatures` implements the first-hit relation: over `len` readable bytes it returns `c`
-- exactly when `c` is the class of the first signature whose pattern occurs in its window, or is
-- unknown and no pattern occurs.
pub match_signatures_iff :
    (payload : List ℕ) (len : ℕ) (sigs : List DpiSignature) (c : ClassificationResult)
    → len ≤ length payload
    → (match_signatures sigs payload len ≡ ok c) ↔ FirstHit payload len c sigs
match_signatures_iff payload len sigs c readable =
    let (c', e, f) = match_signatures-FirstHit payload len sigs readable in
    (
      λ r. let same : c' ≡ c = cc in subst (λ k. FirstHit payload len k sigs) same f,
      λ g. e ∙ ap ok (FirstHit-unique payload len c' c sigs f g),
    )
