-- ===== src/Dpdk/Worker.antt =====
-- `WorkerPipeline` of src/dpdk/worker_pipeline.cpp. The mbuf type, the packet length and what a processor
-- does to a burst are parameters. `free_log` is the packets that `rte_pktmbuf_free` was called on.
use virtual_service_gateway.Common.{
  ℕ, zero, suc, ◌+◌, ◌%◌, List, [], ◌∷◌, ◌++◌, none, some, add64, length, get_elem?, take,
}
use virtual_service_gateway.Common.Faults.{Result, ok, fault, out_of_bounds, ◌>>=◌}

pub record PipelineStats : Type 0 where
  pub rx_pkts : ℕ
  pub rx_bytes : ℕ
  pub tx_pkts : ℕ
  pub tx_bytes : ℕ
  pub dropped_pkts : ℕ
  pub dropped_bytes : ℕ
  pub processing_errors : ℕ
  pub metering_updates : ℕ
  pub dpi_classifications : ℕ

-- The constructor's assignments.
unfoldable pub new_stats : PipelineStats
new_stats = record {
  rx_pkts = 0;
  rx_bytes = 0;
  tx_pkts = 0;
  tx_bytes = 0;
  dropped_pkts = 0;
  dropped_bytes = 0;
  processing_errors = 0;
  metering_updates = 0;
  dpi_classifications = 0;
}

-- `rx_burst`, with the static variable `queue_idx` that all workers share, on a worker with the
-- queues `rx_queues`: the next value of `queue_idx`, and the number of packets, which is always 0.
unfoldable pub rx_burst : List ℕ → ℕ → Result (ℕ × ℕ)
rx_burst [] queue_idx = ok (queue_idx, 0)
rx_burst (q ∷ qs) queue_idx = elim (get_elem? (q ∷ qs) queue_idx) [
  | none ↦ fault out_of_bounds
  | some queue ↦ ok ((queue_idx + 1) % length (q ∷ qs), 0)
]

module _ {ℓ} {M : Type ℓ} where
  -- `processors_` in their order.
  unfoldable pub process : List (List M → List M) → List M → List M
  process [] pkts = pkts
  process (f ∷ fs) pkts = process fs (f pkts)

  -- `tx_burst`: it frees the packets.
  unfoldable pub tx_burst : List M → List M → List M
  tx_burst [] free_log = free_log
  tx_burst (p ∷ ps) free_log = tx_burst ps (free_log ++ p ∷ [])

module _ {ℓ} {M : Type ℓ} (pkt_len : M → ℕ) where
  unfoldable pub add_bytes : ℕ → List M → ℕ
  add_bytes total [] = total
  add_bytes total (p ∷ ps) = add_bytes (add64 total (pkt_len p)) ps

  -- The body of `worker_loop` after `rx_burst`, on the packets received.
  unfoldable pub handle_burst :
      List (List M → List M) → List M → PipelineStats × List M → PipelineStats × List M
  handle_burst processors [] (stats, free_log) = (stats, free_log)
  handle_burst processors (p ∷ ps) (stats, free_log) =
      let nb_rx = length (p ∷ ps) in
      (
        record stats {
          rx_pkts = add64 stats.rx_pkts nb_rx;
          rx_bytes = add_bytes stats.rx_bytes (p ∷ ps);
          tx_pkts = add64 stats.tx_pkts nb_rx;
        },
        tx_burst (process processors (p ∷ ps)) free_log,
      )

  -- One round of `while (running_)`: the queues that are left, of the worker's `rx_queues`; `array` is
  -- what the array `pkts` holds.
  unfoldable pub round :
      List (List M → List M)
      → List M
      → List ℕ
      → List ℕ
      → ℕ × (PipelineStats × List M)
      → Result (ℕ × (PipelineStats × List M))
  round processors array rx_queues [] s = ok s
  round processors array rx_queues (q ∷ qs) (queue_idx, state) =
      rx_burst rx_queues queue_idx >>= λ r.
      round processors array rx_queues qs (r.0, handle_burst processors (take r.1 array) state)

  -- As many rounds as are made before `running_` is cleared.
  unfoldable pub worker_loop :
      ℕ
      → List (List M → List M)
      → List M
      → List ℕ
      → ℕ × (PipelineStats × List M)
      → Result (ℕ × (PipelineStats × List M))
  worker_loop zero processors array rx_queues s = ok s
  worker_loop (suc n) processors array rx_queues s =
      round processors array rx_queues rx_queues s >>= λ s'.
      worker_loop n processors array rx_queues s'
