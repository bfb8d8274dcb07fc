-- ===== src/Dpdk/Idle.antt =====
-- `worker_loop` as it stands: its `rx_burst` is a placeholder that receives nothing.
use native.Mathlib.Nat.{mod-lt, mod-eq_of_lt, mod-add-mod, add-mod_right}
use virtual_service_gateway.Common.{
  ℕ, zero, suc, ◌+◌, ◌%◌, ◌<◌, ◌≡◌, refl, sym, ◌∙◌, ap, List, [], ◌∷◌, arith, length,
}
use virtual_service_gateway.Common.Faults.{ok, ◌>>=◌}
use virtual_service_gateway.Dpdk.Worker.{PipelineStats, handle_burst, round, worker_loop}
use virtual_service_gateway.Dpdk.Bursts.{rx_burst_lem}

module _ {M : Type 0} (pkt_len : M → ℕ) (processors : List (List M → List M)) (array : List M)
    (rx_queues : List ℕ) where
  round-idle :
      (qs : List ℕ) (queue_idx : ℕ) (state : PipelineStats × List M)
      → queue_idx < length rx_queues
      → round pkt_len processors array rx_queues qs (queue_idx, state)
        ≡ ok ((queue_idx + length qs) % length rx_queues, state)
  unfolding round handle_burst
  round-idle [] queue_idx state h =
      ap (λ i. ok (i, state)) (sym (mod-eq_of_lt h) ∙ ap (λ k. k % length rx_queues) (omega arith))
  round-idle (q ∷ qs) queue_idx state h =
      rw (rx_burst_lem rx_queues queue_idx h, ◌>>=◌)
        (round-idle qs ((queue_idx + 1) % length rx_queues) state
            (mod-lt (queue_idx + 1) (omega (arith, h)))
          ∙ ap (λ i. ok (i, state))
              (mod-add-mod (queue_idx + 1) (length rx_queues) (length qs)
                ∙ ap (λ k. k % length rx_queues) (omega arith)))

  -- From an index in range of the worker's queues, any number of rounds ends without a fault, with the
  -- same queue index, and leaves the statistics and the freed packets as they were.
  pub worker_loop_idle :
      (rounds queue_idx : ℕ) (state : PipelineStats × List M)
      → queue_idx < length rx_queues
      → worker_loop pkt_len rounds processors array rx_queues (queue_idx, state)
        ≡ ok (queue_idx, state)
  unfolding worker_loop
  worker_loop_idle zero queue_idx state h = refl
  worker_loop_idle (suc rounds) queue_idx state h =
      let turn : round pkt_len processors array rx_queues rx_queues (queue_idx, state)
          ≡ ok (queue_idx, state) =
        round-idle rx_queues queue_idx state h
        ∙ ap (λ i. ok (i, state)) (add-mod_right queue_idx (length rx_queues) ∙ mod-eq_of_lt h) in
      rw (turn, ◌>>=◌) (worker_loop_idle rounds queue_idx state h)
