-- ===== src/Dpdk/Bursts.antt =====
-- The bursts of `WorkerPipeline`: the static queue index, and what the loop's body does to the counters.
use native.Mathlib.Nat.{mod-lt, mod-eq_of_lt, mod-add-mod}
use virtual_service_gateway.Common.{
  ℕ, ◌+◌, ◌%◌, ◌≤◌, ◌<◌, ◌≡◌, refl, ◌∙◌, sym, ap, List, [], ◌∷◌, ◌++◌, arith, length,
  get_elem?_in_range, get_elem?_out_of_range, replicate, All, All-replicate, length-replicate,
}
use virtual_service_gateway.Common.Faults.{
  Result, ok, fault, out_of_bounds, ◌>>=◌, >>=-ap, >>=-assoc,
}
use virtual_service_gateway.Dpdk.Worker.{rx_burst}

-- The calls of `rx_burst` in the order in which the workers make them: each with its worker's queues.
unfoldable pub run_bursts : List (List ℕ) → ℕ → Result ℕ
run_bursts [] queue_idx = ok queue_idx
run_bursts (qs ∷ rest) queue_idx = rx_burst qs queue_idx >>= λ r. run_bursts rest r.0

-- A call in range moves the index to the next queue and receives nothing.
pub rx_burst_lem :
    (qs : List ℕ) (queue_idx : ℕ)
    → queue_idx < length qs
    → rx_burst qs queue_idx ≡ ok ((queue_idx + 1) % length qs, 0)
unfolding rx_burst
rx_burst_lem [] queue_idx h = absurd (omega arith)
rx_burst_lem (q ∷ qs) queue_idx h =
    let (queue, e) = get_elem?_in_range (q ∷ qs) queue_idx h in rw (e, rx_burst) refl

rx_burst_past :
    (qs : List ℕ) (queue_idx : ℕ)
    → 0 < length qs
    → length qs ≤ queue_idx
    → rx_burst qs queue_idx ≡ fault out_of_bounds
unfolding rx_burst
rx_burst_past [] queue_idx some_queue h = absurd (omega arith)
rx_burst_past (q ∷ qs) queue_idx some_queue h =
    rw (get_elem?_out_of_range (q ∷ qs) queue_idx h, rx_burst) refl

-- Where all workers have the same number of queues and the index starts in range, no interleaving
-- of their calls leaves the range, and the index goes round the queues by one for each call.
pub run_bursts_same :
    (n : ℕ) (calls : List (List ℕ)) (queue_idx : ℕ)
    → queue_idx < n
    → All (λ qs. length qs ≡ n) calls
    → run_bursts calls queue_idx ≡ ok ((queue_idx + length calls) % n)
unfolding run_bursts
run_bursts_same n [] queue_idx h same =
    ap ok (sym (mod-eq_of_lt (omega arith)) ∙ ap (λ k. k % n) (omega arith))
run_bursts_same n (qs ∷ calls) queue_idx h same =
    rw (rx_burst_lem qs queue_idx (omega (arith, same.0)), ◌>>=◌, same.0)
      (run_bursts_same n calls ((queue_idx + 1) % n) (mod-lt (queue_idx + 1) (omega (arith, h)))
          same.1
        ∙ ap ok (mod-add-mod (queue_idx + 1) n (length calls) ∙ ap (λ k. k % n) (omega arith)))

run_bursts-append :
    (xs ys : List (List ℕ)) (queue_idx : ℕ)
    → run_bursts (xs ++ ys) queue_idx ≡ (run_bursts xs queue_idx >>= run_bursts ys)
unfolding run_bursts
run_bursts-append [] ys queue_idx = refl
run_bursts-append (qs ∷ xs) ys queue_idx =
    >>=-ap (rx_burst qs queue_idx) (λ r. run_bursts-append xs ys r.0)
    ∙ sym (>>=-assoc (rx_burst qs queue_idx) (λ r. run_bursts xs r.0) (run_bursts ys))

-- Where one worker has fewer queues than another, and at least one, the shared index runs out of
-- range: as many calls of the other as the first has queues, then one call of the first.
pub run_bursts_different :
    (few many : List ℕ)
    → 0 < length few
    → length few < length many
    → run_bursts (replicate (length few) many ++ few ∷ []) 0 ≡ fault out_of_bounds
unfolding run_bursts
run_bursts_different few many some_queue less =
    let calls = replicate (length few) many in
    let first : run_bursts calls 0 ≡ ok (length few) =
      run_bursts_same (length many) calls 0 (omega arith)
        (All-replicate (λ qs. length qs ≡ length many) (length few) many refl)
      ∙ ap ok (
          ap (λ k. k % length many) (omega (arith, length-replicate (length few) many))
          ∙ mod-eq_of_lt less) in
    run_bursts-append calls (few ∷ []) 0
    ∙ rw (first, rx_burst_past few (length few) some_queue (omega arith), ◌>>=◌) refl
