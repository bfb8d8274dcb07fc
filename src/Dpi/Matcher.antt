-- ===== src/Dpi/Matcher.antt =====
-- `DPIClassifier::match_signatures` of src/dpi/classifier_pipeline.cpp. The payload is the list of
-- the readable bytes behind the pointer; a comparison that leaves them is a fault.
use virtual_service_gateway.Common.{
  ℕ, zero, suc, ◌+◌, ◌-◌, min, Bool, true, false, ◌&&◌, List, [], ◌∷◌, length, take, drop, leb,
  ◌==◌, if◌then◌else◌,
}
use virtual_service_gateway.Common.Faults.{Result, ok, fault, out_of_bounds, ◌>>=◌}
use virtual_service_gateway.Dpi.Signature.{ClassificationResult, DpiSignature, ResultName, value}

unfoldable pub list_eq : List ℕ → List ℕ → Bool
list_eq [] [] = true
list_eq [] (y ∷ ys) = false
list_eq (x ∷ xs) [] = false
list_eq (x ∷ xs) (y ∷ ys) = x == y && list_eq xs ys

-- `memcmp(payload + start, pattern, size) == 0`.
unfoldable pub bytes_equal : List ℕ → ℕ → List ℕ → Result Bool
bytes_equal payload start pattern =
    if leb (start + length pattern) (length payload)
    then ok (list_eq (take (length pattern) (drop start payload)) pattern)
    else fault out_of_bounds

-- The loop over `i`, with the number of rounds left.
unfoldable pub search_from : List ℕ → ℕ → List ℕ → ℕ → ℕ → Result Bool
search_from payload offset pattern i zero = ok false
search_from payload offset pattern i (suc rounds) =
    bytes_equal payload (offset + i) pattern >>= λ equal. elim equal [
      | true ↦ ok true
      | false ↦ search_from payload offset pattern (i + 1) rounds
    ]

-- The body of the loop over the signatures: whether the signature matches.
unfoldable pub signature_hits : List ℕ → ℕ → DpiSignature → Result Bool
signature_hits payload len sig =
    if leb len sig.offset
    then ok false
    else let search_len = min sig.depth (len - sig.offset) in
      if leb (length sig.pattern) search_len
      then search_from payload sig.offset sig.pattern 0 (search_len - length sig.pattern + 1)
      else ok false

unfoldable pub match_signatures : List DpiSignature → List ℕ → ℕ → Result ClassificationResult
match_signatures [] payload len = ok (value ResultName.unknown)
match_signatures (sig ∷ sigs) payload len = signature_hits payload len sig >>= λ hit. elim hit [
  | true ↦ ok sig.classification
  | false ↦ match_signatures sigs payload len
]
