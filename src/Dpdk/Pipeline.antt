-- ===== src/Dpdk/Pipeline.antt =====
-- A `WorkerPipeline` object of src/dpdk/worker_pipeline.cpp, with the methods on its members.
use virtual_service_gateway.Common.{ℕ, ◌<◌, ◌≡◌, refl, ap, ◌∙◌, List, [], ◌∷◌, ◌++◌, length}
use virtual_service_gateway.Common.Faults.{Result, ok, ◌>>=◌}
use virtual_service_gateway.Dpdk.Lifecycle.{WorkerThread, new_thread, stop}
use virtual_service_gateway.Dpdk.Worker.{PipelineStats, new_stats, process, worker_loop}
use virtual_service_gateway.Dpdk.Idle.{worker_loop_idle}

pub record WorkerPipeline (M : Type 0) : Type 0 where
  pub rx_queues : List ℕ
  pub worker_thread : WorkerThread
  pub stats : PipelineStats
  pub processors : List (List M → List M)

module _ {M : Type 0} where
  unfoldable pub new_pipeline : List ℕ → WorkerPipeline M
  new_pipeline rx_queues = record {
    rx_queues = rx_queues;
    worker_thread = new_thread;
    stats = new_stats;
    processors = [];
  }

  -- The destructor.
  unfoldable pub destroy : WorkerPipeline M → WorkerPipeline M
  destroy w = record w { worker_thread = stop w.worker_thread }

  unfoldable pub get_stats : WorkerPipeline M → PipelineStats
  get_stats w = w.stats

  unfoldable pub add_processor : WorkerPipeline M → (List M → List M) → WorkerPipeline M
  add_processor w processor = record w { processors = w.processors ++ processor ∷ [] }

  unfoldable pub add_processors : WorkerPipeline M → List (List M → List M) → WorkerPipeline M
  add_processors w [] = w
  add_processors w (f ∷ fs) = add_processors (add_processor w f) fs

  -- Rounds of the loop of the worker's thread, with the shared queue index and the freed packets.
  unfoldable pub work :
      (M → ℕ)
      → ℕ
      → List M
      → ℕ × List M
      → WorkerPipeline M
      → Result ((ℕ × List M) × WorkerPipeline M)
  work pkt_len rounds array (queue_idx, free_log) w =
      worker_loop pkt_len rounds w.processors array w.rx_queues (queue_idx, (w.stats, free_log))
      >>= λ r. ok ((r.0, r.1.1), record w { stats = r.1.0 })

  process-append :
      (fs gs : List (List M → List M)) (pkts : List M)
      → process (fs ++ gs) pkts ≡ process gs (process fs pkts)
  unfolding process
  process-append [] gs pkts = refl
  process-append (f ∷ fs) gs pkts = process-append fs gs (f pkts)

  -- The processors that are added take a burst after those before, in the order in which they are added.
  pub process-add_processors :
      (w : WorkerPipeline M) (fs : List (List M → List M)) (pkts : List M)
      → process (add_processors w fs).processors pkts ≡ process fs (process w.processors pkts)
  unfolding add_processors add_processor process
  process-add_processors w [] pkts = refl
  process-add_processors w (f ∷ fs) pkts =
      process-add_processors (add_processor w f) fs pkts
      ∙ ap (process fs) (process-append w.processors (f ∷ []) pkts)

  -- From an index in range of its queues, a pipeline works through any number of rounds without a change of
  -- itself, the shared index or the packets freed: its `rx_burst` receives nothing.
  pub work_idle :
      (pkt_len : M → ℕ) (rounds queue_idx : ℕ) (array free_log : List M) (w : WorkerPipeline M)
      → queue_idx < length w.rx_queues
      → work pkt_len rounds array (queue_idx, free_log) w ≡ ok ((queue_idx, free_log), w)
  unfolding work
  work_idle pkt_len rounds queue_idx array free_log w h =
      rw
        (
          worker_loop_idle pkt_len w.processors array w.rx_queues rounds queue_idx
              (w.stats, free_log) h,
          ◌>>=◌,
        )
        refl
