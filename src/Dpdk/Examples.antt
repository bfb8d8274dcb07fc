-- ===== src/Dpdk/Examples.antt =====
-- Small inputs of the DPDK layer, and instances of the theorems.
use virtual_service_gateway.Common.{
  Option, sym, take, drop, ◌-◌, ◌==◌, if◌then◌else◌, ◌++◌, take-append-drop, append-nil, ℕ, zero,
  suc, ◌≡◌, refl, Bool, true, false, List, [], ◌∷◌, none, some, arith, length, All, replicate,
}
use virtual_service_gateway.Common.Faults.{ok, fault, null_pointer, ◌>>=◌}
use virtual_service_gateway.Common.Threads.{move_thread, run_threads}
use virtual_service_gateway.Dpdk.Workers.{
  Workers, WorkerTask, worker_step, threads, IsInRange, IsStopped, workers-IsInRange, workers_stop,
}
use virtual_service_gateway.Dpdk.Mempool.{MempoolManager, new_manager, get_mempool, Init, run_inits}
use virtual_service_gateway.Dpdk.Pools.{get_mempool-run}
use virtual_service_gateway.Dpdk.PmdDriver.{
  PortConfig, EthCall, Log, PmdDriver, init_ports, rx_queue_setup,
}
use virtual_service_gateway.Dpdk.Calls.{issue, attempt}
use virtual_service_gateway.Dpdk.PmdDriver.{start_ports, promiscuous_enable, dev_start}
use virtual_service_gateway.Dpdk.Ports.{all_steps, init_ports_lem}
use virtual_service_gateway.Dpdk.Buffers.{Mbuf, process_batch, attach_metadata, extract_metadata}
use virtual_service_gateway.Dpdk.Batches.{
  has_userdata, all_userdata, fresh_metadata, stamped, process_batch_lem, attach-extract,
}
use virtual_service_gateway.Dpdk.RingQueue.{RteRing}
use virtual_service_gateway.Dpdk.Fifo.{put, get, ring_run, held, ring_run-held}

-- Pools are numbers; the creation for the node 1 fails once.
abbrev inits : List (Init ℕ)
inits = (2, 256, some 7) ∷ (1, 256, none) ∷ (1, 256, some 8) ∷ (2, 128, some 9) ∷ []

get_mempool-run_example :
    (m' : MempoolManager ℕ) × (run_inits new_manager inits ≡ ok m') × (get_mempool m' 2 ≡ some 9)
get_mempool-run_example =
    get_mempool-run inits new_manager 2
      (omega arith, (omega arith, (omega arith, (omega arith, tt))))

abbrev port : ℕ → PortConfig
port i = record {
  port_id = i;
  rxq_count = 2;
  txq_count = 1;
  mtu = 1500;
  promiscuous = true;
  jumbo_enabled = false;
}

abbrev driver : PmdDriver
driver = record { port_configs = []; eal_initialized = true }

-- The setup of the second receive queue of port 1 fails.
abbrev one_failure : Log → EthCall → Bool
one_failure log (rx_queue_setup (suc zero) (suc zero)) = true
one_failure log call = false

init_ports_lem_example : init_ports one_failure driver 2 (port 0 ∷ port 1 ∷ []) [] ≡ (
  record driver { port_configs = port 0 ∷ port 1 ∷ [] },
  issue one_failure (all_steps 2 (port 0 ∷ port 1 ∷ [])) [],
)
init_ports_lem_example =
    init_ports_lem one_failure driver 2 (port 0 ∷ port 1 ∷ []) [] refl (omega arith)

test_one_failure :
    (length (issue one_failure (all_steps 2 (port 0 ∷ port 1 ∷ [])) []).0 ≡ 9)
    × ((issue one_failure (all_steps 2 (port 0 ∷ port 1 ∷ [])) []).1 ≡ false)
test_one_failure = (refl, refl)

abbrev packet : Mbuf
packet = record {
  data_len = 64;
  pkt_len = 64;
  userdata = some (record {
    flow_id = 1;
    subscriber_id = 2;
    service_id = 3;
    ingress_port = 0;
    egress_port = 1;
    rx_timestamp_ns = 5;
    dpi_class = 0;
    qos_queue = 0;
    packet_bytes = 64;
    uplink = true;
  });
}

abbrev bare_packet : Mbuf
bare_packet = record { data_len = 64; pkt_len = 64; userdata = none }

abbrev mixed_batch : List (Option Mbuf)
mixed_batch = some packet ∷ some bare_packet ∷ []

process_batch_lem_example :
    process_batch (λ i. i) mixed_batch
    ≡ (if all_userdata mixed_batch then ok (stamped (λ i. i) 0 mixed_batch) else fault null_pointer)
process_batch_lem_example = process_batch_lem (λ i. i) mixed_batch ((λ e. cc e), ((λ e. cc e), tt))

test_mixed_batch : process_batch (λ i. i) mixed_batch ≡ fault null_pointer
test_mixed_batch = process_batch_lem_example

test_full_batch :
    process_batch (λ i. i) (some packet ∷ some packet ∷ [])
    ≡ ok (stamped (λ i. i) 0 (some packet ∷ some packet ∷ []))
test_full_batch =
    process_batch_lem (λ i. i) (some packet ∷ some packet ∷ []) ((λ e. cc e), ((λ e. cc e), tt))

test_attached :
    (attach_metadata (some packet) (some (fresh_metadata packet 7)) >>= λ q.
    ok (extract_metadata q (some (fresh_metadata packet 0))))
    ≡ (if has_userdata (some packet)
        then ok (some (fresh_metadata packet 7))
        else fault null_pointer)
test_attached = attach-extract packet (fresh_metadata packet 7) (fresh_metadata packet 0)

-- A ring as the list of its packets, with room for two.
abbrev pair_enqueue : List ℕ → ℕ → List ℕ × Bool
pair_enqueue [] n = (n ∷ [], true)
pair_enqueue (a ∷ []) n = (a ∷ n ∷ [], true)
pair_enqueue (a ∷ b ∷ r) n = (a ∷ b ∷ r, false)

abbrev pair_enqueue_burst : List ℕ → List ℕ → List ℕ × ℕ
pair_enqueue_burst [] ns = (take 2 ns, 2)
pair_enqueue_burst (a ∷ []) ns = (a ∷ take 1 ns, 1)
pair_enqueue_burst (a ∷ b ∷ r) ns = (a ∷ b ∷ r, 0)

abbrev pair_dequeue : List ℕ → List ℕ × Option ℕ
pair_dequeue [] = ([], none)
pair_dequeue (a ∷ r) = (r, some a)

pair_enqueued :
    (r : List ℕ) (n : ℕ) → (pair_enqueue r n).0 ≡ (if (pair_enqueue r n).1 then r ++ n ∷ [] else r)
pair_enqueued [] n = refl
pair_enqueued (a ∷ []) n = refl
pair_enqueued (a ∷ b ∷ r) n = refl

pair_burst_enqueued :
    (r ns : List ℕ) → (pair_enqueue_burst r ns).0 ≡ r ++ take (pair_enqueue_burst r ns).1 ns
pair_burst_enqueued [] ns = refl
pair_burst_enqueued (a ∷ []) ns = refl
pair_burst_enqueued (a ∷ b ∷ r) ns = sym (append-nil (a ∷ b ∷ r))

pair_dequeued :
    (r : List ℕ) → elim (pair_dequeue r).1 [ none ↦ [] | some m ↦ m ∷ [] ] ++ (pair_dequeue r).0 ≡ r
pair_dequeued [] = refl
pair_dequeued (a ∷ r) = refl

abbrev pair_ring : RteRing (List ℕ) ℕ
pair_ring = record {
  contents = λ r. r;
  sp_enqueue = pair_enqueue;
  sp_enqueue_burst = pair_enqueue_burst;
  sc_dequeue = pair_dequeue;
  sc_dequeue_burst = λ r n. (drop n r, take n r);
  is_empty = λ r. length r == 0;
  free_count = λ r. 2 - length r;
  enqueued = pair_enqueued;
  burst_enqueued = pair_burst_enqueued;
  dequeued = pair_dequeued;
  burst_dequeued = λ r n. take-append-drop n r;
}

test_ring_run :
    let (q', (taken, given)) = ring_run pair_ring (some []) (put 1 ∷ put 2 ∷ put 3 ∷ get ∷ []) in
    taken ≡ given ++ held pair_ring q'
test_ring_run = ring_run-held pair_ring (some []) (put 1 ∷ put 2 ∷ put 3 ∷ get ∷ [])

-- The second port does not start.
abbrev second_fails : Log → EthCall → Bool
second_fails log (dev_start (suc zero)) = true
second_fails log call = false

test_second_fails :
    start_ports second_fails (port 0 ∷ port 1 ∷ []) []
    ≡ (dev_start 1 ∷ promiscuous_enable 0 ∷ dev_start 0 ∷ [], false)
unfolding start_ports attempt
test_second_fails = refl

-- Two workers with two queues each; the thread that stops them sets the first flag while both are in their loops.
abbrev two_workers : Workers
two_workers = record { queue_idx = 0; running = true ∷ true ∷ [] }

abbrev configs : List (List ℕ)
configs = (0 ∷ 1 ∷ []) ∷ (2 ∷ 3 ∷ []) ∷ []

abbrev first_turns : List ℕ
first_turns = 0 ∷ 1 ∷ 0 ∷ 1 ∷ 0 ∷ 1 ∷ 2 ∷ 0 ∷ 1 ∷ 0 ∷ 2 ∷ []

abbrev system : Workers × List WorkerTask
system = run_threads worker_step (two_workers, threads 0 configs (0 ∷ 1 ∷ [])) first_turns

test_workers-IsInRange : All IsInRange system.1
test_workers-IsInRange =
    workers-IsInRange 2 two_workers configs (0 ∷ 1 ∷ []) first_turns (omega arith)
      (refl, (refl, tt))

workers_stop_example :
    All IsStopped (run_threads worker_step system (replicate 5 0 ++ replicate 5 1)).1
unfolding run_threads move_thread worker_step threads
workers_stop_example =
    workers_stop 2 two_workers configs (0 ∷ 1 ∷ []) first_turns (omega arith) (refl, (refl, tt))
      (replicate 5 0 ++ replicate 5 1) (refl, (refl, tt))
      (omega arith, (omega arith, (omega arith, tt)))
