-- ===== src/Analytics/Shared/Losses.antt =====
-- What the words of a shared flow say of one another at any moment, and the reports that read them.
use virtual_service_gateway.Common.{
  ℕ, ◌+◌, ◌-◌, ◌≤◌, ◌<◌, ◌≡◌, refl, List, [], ◌∷◌, ◌++◌, map, inl, inr, Option-cases, sum_by, arith,
  u64_mod, add32, get_elem?,
}
use virtual_service_gateway.Common.Faults.{Result, ok, fault}
use virtual_service_gateway.Common.Threads.{sum_by-set, run_threads, run_threads-keeps_both}
use virtual_service_gateway.Analytics.Flow.{FlowMetrics, FlowKpi, add_latency}
use virtual_service_gateway.Analytics.Reports.{loss_percent}
use virtual_service_gateway.Analytics.Shared.Tasks.{
  Access, add_packet, count_loss, count_latency, perform, Arrival, sample_accesses, accesses, Task,
  recording, load_losses, report_percent, advance, Program, record_samples, report, start_task,
}
use virtual_service_gateway.Analytics.Shared.Samples.{packets, adds, left, report_percent-left}

-- What a thread will add to a word, of packets that it has counted.
abbrev pub pending : (Access → ℕ) → List Access → ℕ
pending weight [] = 0
pending weight (add_packet ∷ writes) = pending weight writes - 1
pending weight (a ∷ writes) = weight a + pending weight writes

abbrev pub task_pending : (Access → ℕ) → Task → ℕ
task_pending weight (recording writes) = pending weight writes
task_pending weight other = 0

abbrev loss_weight : Access → ℕ
loss_weight count_loss = 1
loss_weight a = 0

abbrev latency_weight : Access → ℕ
latency_weight (count_latency bucket) = 1
latency_weight a = 0

abbrev pub samples_in : List ℕ → ℕ
samples_in buckets = sum_by (λ n. n) buckets

pub perform-packets :
    (a : Access) (m : FlowMetrics)
    → m.packet_count + adds packets a < u64_mod
    → (perform a m).packet_count ≡ m.packet_count + adds packets a
unfolding perform
perform-packets a m h = ground arith

module _ (read : FlowMetrics → ℕ) (weight : Access → ℕ)
    (law : (a : Access) (m : FlowMetrics) → read (perform a m) ≤ read m + weight a)
    (unmoved : (m : FlowMetrics) → read (perform add_packet m) ≤ read m)
    (shape : (a : Arrival) (writes : List Access)
      → pending weight writes ≡ 0
      → pending weight (sample_accesses a ++ writes) ≡ 0) where
  -- At most as much as there are packets, with what is pending, and packets that do not wrap.
  abbrev Covered : FlowMetrics → ℕ → ℕ → Type 0
  Covered m p n = (read m + p ≤ m.packet_count) × (m.packet_count + n < u64_mod)

  perform-Covered :
      (a : Access) (m : FlowMetrics) (writes : List Access) (p n : ℕ)
      → Covered m (pending weight (a ∷ writes) + p) (adds packets a + n)
      → Covered (perform a m) (pending weight writes + p) n
  perform-Covered add_packet m writes p n h =
      omega (arith, h, unmoved m, perform-packets add_packet m (omega (arith, h.1)))
  perform-Covered a m writes p n h =
      omega (arith, h, law a m, perform-packets a m (omega (arith, h.1)))

  report_percent-pending :
      (kpi : FlowKpi) (r : Result ℕ) → task_pending weight (report_percent kpi r) ≡ 0
  unfolding report_percent
  report_percent-pending kpi (ok percent) = refl
  report_percent-pending kpi (fault e) = refl

  advance-Covered :
      (m : FlowMetrics) (t : Task) (p n : ℕ)
      → Covered m (task_pending weight t + p) (left packets t + n)
      → let (m', t') = advance m t in Covered m' (task_pending weight t' + p) (left packets t' + n)
  unfolding advance
  advance-Covered m (recording []) p n h = h
  advance-Covered m (recording (a ∷ writes)) p n h =
      perform-Covered a m writes p (sum_by (adds packets) writes + n) (h.0, omega (arith, h.1))
  advance-Covered m (load_losses kpi) p n h =
      let r = loss_percent m.loss_count kpi.packet_count in
      omega (arith, h, report_percent-pending kpi r, report_percent-left packets kpi r)
  advance-Covered m t p n h = ground arith

  accesses-pending : (arrivals : List Arrival) → pending weight (accesses arrivals) ≡ 0
  unfolding accesses
  accesses-pending [] = refl
  accesses-pending (a ∷ rest) = shape a (accesses rest) (accesses-pending rest)

  starts-pending : (ps : List Program) → sum_by (task_pending weight) (map start_task ps) ≡ 0
  unfolding start_task
  starts-pending [] = refl
  starts-pending (record_samples arrivals ∷ ps) =
      omega (arith, accesses-pending arrivals, starts-pending ps)
  starts-pending (report kpi ∷ ps) = omega (arith, starts-pending ps)

  run_threads-Covered :
      (m : FlowMetrics) (ps : List Program) (schedule : List ℕ)
      → read m ≤ m.packet_count
      → m.packet_count + sum_by (left packets) (map start_task ps) < u64_mod
      → let (m', ts') = run_threads advance (m, map start_task ps) schedule in
        read m' ≤ m'.packet_count
  run_threads-Covered m ps schedule le small =
      let (m', ts') = run_threads advance (m, map start_task ps) schedule in
      let final =
        run_threads-keeps_both advance (task_pending weight) (left packets) Covered advance-Covered
          m (map start_task ps) schedule (omega (arith, le, starts-pending ps), small) in
      omega (arith, final.0)

perform-losses :
    (a : Access) (m : FlowMetrics) → (perform a m).loss_count ≤ m.loss_count + loss_weight a
unfolding perform
perform-losses a m = ground arith

samples_in-add_latency :
    (buckets : List ℕ) (b : ℕ) → samples_in (add_latency buckets b) ≤ samples_in buckets + 1
unfolding add_latency
samples_in-add_latency buckets b = elim (Option-cases (get_elem? buckets b)) [
  | inl e ↦ rw (e, add_latency) (omega arith)
  | inr (n, e) ↦
      let (rest, whole, other) = sum_by-set (λ k. k) buckets b n e in
      rw (e, add_latency) (omega (arith, whole, other (add32 n 1)))
]

perform-samples :
    (a : Access) (m : FlowMetrics)
    → samples_in (perform a m).latency_buckets ≤ samples_in m.latency_buckets + latency_weight a
unfolding perform
perform-samples (count_latency bucket) m = samples_in-add_latency m.latency_buckets bucket
perform-samples a m = ground arith

sample-losses :
    (a : Arrival) (writes : List Access)
    → pending loss_weight writes ≡ 0
    → pending loss_weight (sample_accesses a ++ writes) ≡ 0
unfolding sample_accesses
sample-losses a writes h = ground arith

sample-latencies :
    (a : Arrival) (writes : List Access)
    → pending latency_weight writes ≡ 0
    → pending latency_weight (sample_accesses a ++ writes) ≡ 0
unfolding sample_accesses
sample-latencies a writes h = ground arith

-- Threads that record samples of a flow and report it, at any moment of any interleaving: where the
-- flow had at most as many losses as packets, and at most as many samples in its buckets, this is so
-- still, as long as its packets and those to come stay below 2^64.
pub interleaved_losses :
    (m : FlowMetrics) (ps : List Program) (schedule : List ℕ)
    → m.loss_count ≤ m.packet_count
    → samples_in m.latency_buckets ≤ m.packet_count
    → m.packet_count + sum_by (left packets) (map start_task ps) < u64_mod
    → let (m', ts') = run_threads advance (m, map start_task ps) schedule in
      (m'.loss_count ≤ m'.packet_count) × (samples_in m'.latency_buckets ≤ m'.packet_count)
unfolding perform
interleaved_losses m ps schedule few_losses few_samples small = (
  run_threads-Covered (λ d. d.loss_count) loss_weight perform-losses (λ d. omega arith)
      sample-losses m ps schedule few_losses small,
  run_threads-Covered (λ d. samples_in d.latency_buckets) latency_weight perform-samples
      (λ d. omega arith) sample-latencies m ps schedule few_samples small,
)
