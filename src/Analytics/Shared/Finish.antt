-- ===== src/Analytics/Shared/Finish.antt =====
-- Threads at one flow finish within a bounded number of their own turns.
use virtual_service_gateway.Common.{
  ℕ, ◌+◌, ◌-◌, ◌≤◌, ◌≡◌, ◌∙◌, refl, List, [], ◌∷◌, inl, inr, Option-cases, All, length, length-set,
  arith, add32, get_elem?, lt-length_of_get_elem?,
}
use virtual_service_gateway.Common.Threads.{All-map, run_threads}
use virtual_service_gateway.Common.Turns.{Enough, run_threads-Enough}
use virtual_service_gateway.Common.Faults.{Result, ok, fault}
use virtual_service_gateway.Analytics.Flow.{FlowMetrics, FlowKpi, add_latency}
use virtual_service_gateway.Analytics.Reports.{loss_percent}
use virtual_service_gateway.Analytics.Shared.Tasks.{
  Access, count_latency, perform, Task, recording, load_packets, load_bytes, load_buckets,
  load_losses, reported, failed, report_percent, advance,
}

pub length-add_latency :
    (buckets : List ℕ) (b : ℕ) → length (add_latency buckets b) ≡ length buckets
unfolding add_latency
length-add_latency buckets b = elim (Option-cases (get_elem? buckets b)) [
  | inl e ↦ rw (e, add_latency) refl
  | inr (n, e) ↦ rw (e, add_latency) (length-set buckets b (add32 n 1))
]

abbrev pub buckets_of : FlowMetrics → ℕ
buckets_of m = length m.latency_buckets

perform-buckets : (a : Access) (m : FlowMetrics) → buckets_of (perform a m) ≡ buckets_of m
unfolding perform
perform-buckets (count_latency bucket) m = length-add_latency m.latency_buckets bucket
perform-buckets a m = ground arith

pub advance-buckets : (m : FlowMetrics) (t : Task) → buckets_of (advance m t).0 ≡ buckets_of m
unfolding advance
advance-buckets m (recording (a ∷ writes)) = perform-buckets a m
advance-buckets m t = ground arith

-- The turns that a thread needs at most, on ten buckets.
abbrev pub steps : Task → ℕ
steps (recording writes) = length writes
steps (load_packets kpi) = 14
steps (load_bytes kpi) = 13
steps (load_buckets kpi total bucket) = 10 - bucket + 2
steps (load_losses kpi) = 1
steps (reported kpi) = 0
steps (failed e) = 0

report_percent-steps : (kpi : FlowKpi) (r : Result ℕ) → steps (report_percent kpi r) ≤ 0
unfolding report_percent
report_percent-steps kpi (ok percent) = omega arith
report_percent-steps kpi (fault e) = omega arith

advance-steps :
    (m : FlowMetrics) (t : Task) → buckets_of m ≡ 10 → steps (advance m t).1 ≤ steps t - 1
unfolding advance
advance-steps m (load_losses kpi) ten =
    omega (arith, report_percent-steps kpi (loss_percent m.loss_count kpi.packet_count))
advance-steps m (load_buckets kpi total bucket) ten =
    elim (Option-cases (get_elem? m.latency_buckets bucket)) [
      | inl e ↦ ground (arith, e)
      | inr (n, e) ↦ ground (arith, e, lt-length_of_get_elem? m.latency_buckets bucket n e)
    ]
advance-steps m t ten = ground arith

-- A thread that has no access left.
abbrev pub IsDone : Task → Type 0
IsDone (recording writes) = writes ≡ []
IsDone (reported kpi) = Unit
IsDone (failed e) = Unit
IsDone other = ⊥

steps-IsDone : (t : Task) → steps t ≤ 0 → IsDone t
steps-IsDone (recording []) h = refl
steps-IsDone (recording (a ∷ writes)) h = absurd (omega arith)
steps-IsDone t h = ground arith

-- Threads that have their turns finish.
pub run_threads-IsDone :
    (m : FlowMetrics) (ts : List Task) (schedule : List ℕ)
    → buckets_of m ≡ 10
    → Enough steps 0 ts schedule
    → All IsDone (run_threads advance (m, ts) schedule).1
run_threads-IsDone m ts schedule ten enough =
    let (m', ts') = run_threads advance (m, ts) schedule in
    All-map ts' steps-IsDone (
      run_threads-Enough steps advance (λ d. buckets_of d ≡ 10) (λ d t e. advance-buckets d t ∙ e)
        advance-steps m ts schedule ten enough)
