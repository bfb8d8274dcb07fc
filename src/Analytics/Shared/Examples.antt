-- ===== src/Analytics/Shared/Examples.antt =====
-- Threads that record samples of a flow while others report it.
use virtual_service_gateway.Common.{
  ℕ, ◌≤◌, ◌<◌, ◌≡◌, refl, Bool, true, false, List, [], ◌∷◌, ◌++◌, map, some, All, arith, replicate,
  get_elem?,
}
use virtual_service_gateway.Common.Faults.{division_by_zero}
use virtual_service_gateway.Common.Threads.{move_thread, run_threads}
use virtual_service_gateway.Analytics.Flow.{
  FlowMetrics, FlowKpi, new_flow, latency_bucket, add_latency, add_sample,
}
use virtual_service_gateway.Analytics.Invariant.{IsFlow, new_flow-IsFlow, add_sample-IsFlow}
use virtual_service_gateway.Analytics.Reports.{loss_percent}
use virtual_service_gateway.Analytics.Shared.Tasks.{
  Arrival, sample_accesses, accesses, perform, Task, failed, reported, report_percent, advance,
  Program, record_samples, report, start_task, run_sequentially,
}
use virtual_service_gateway.Analytics.Shared.Finish.{IsDone}
use virtual_service_gateway.Analytics.Shared.Samples.{Word, HasWord, word, interleaved_samples}
use virtual_service_gateway.Analytics.Shared.Losses.{samples_in, interleaved_losses}
use virtual_service_gateway.Analytics.Shared.Sound.{Sound, interleaved_reports}
use virtual_service_gateway.Analytics.Shared.Stale.{stale_report_fails}

abbrev arrival : ℕ → ℕ → Bool → Arrival
arrival size latency lost = record {
  sample = record {
    flow_id = 0;
    subscriber_id = 1;
    service_id = 100;
    packet_size = size;
    latency_us = latency;
    packet_lost = lost;
    timestamp_ns = 0;
  };
  now = 5;
}

abbrev blank_kpi : FlowKpi
blank_kpi = record {
  flow_id = 0;
  subscriber_id = 0;
  service_id = 0;
  packet_count = 7;
  byte_count = 7;
  loss_percent = 7;
  rtt_us = 7;
  p50_latency_us = 7;
  p95_latency_us = 7;
  p99_latency_us = 7;
  jitter_us = 7;
  throughput_mbps = 7;
  start_time_ns = 7;
  end_time_ns = 7;
  duration_ms = 7;
}

-- A flow with one sample.
abbrev flow : FlowMetrics
flow = add_sample (arrival 100 33 false).sample 4 (new_flow 1)

flow-IsFlow : IsFlow flow
flow-IsFlow = add_sample-IsFlow (arrival 100 33 false).sample 4 (new_flow 1) (new_flow-IsFlow 1)

abbrev programs : List Program
programs =
    record_samples (arrival 60 12 true ∷ [])
    ∷ record_samples (arrival 1500 250 true ∷ [])
    ∷ report blank_kpi
    ∷ []

-- The report loads the packets before the two losses, and the losses after them.
abbrev turns_taken : List ℕ
turns_taken = 2 ∷ 0 ∷ 1 ∷ 1 ∷ 0 ∷ replicate 3 0 ++ replicate 3 1 ++ replicate 13 2

abbrev system : FlowMetrics × List Task
system = run_threads advance (flow, map start_task programs) turns_taken

test_too_many_losses :
    get_elem? system.1 2
    ≡ some (reported (record blank_kpi { packet_count = 1; byte_count = 1660; loss_percent = 200 }))
unfolding run_threads move_thread advance start_task accesses sample_accesses perform add_sample
    new_flow report_percent loss_percent add_latency latency_bucket
test_too_many_losses = refl

interleaved_samples_example :
    let (m, ts) = system in
    All IsDone ts
    × ((w : Word) → HasWord w flow → word w m ≡ word w (run_sequentially programs flow))
unfolding start_task accesses sample_accesses
interleaved_samples_example =
    interleaved_samples flow programs turns_taken flow-IsFlow
      (omega arith, (omega arith, (omega arith, tt)))

interleaved_losses_example :
    let (m, ts) = system in
    (m.loss_count ≤ m.packet_count) × (samples_in m.latency_buckets ≤ m.packet_count)
unfolding start_task accesses sample_accesses add_sample new_flow add_latency latency_bucket
interleaved_losses_example =
    interleaved_losses flow programs turns_taken (omega arith) (omega arith) (omega arith)

some_packets : 0 < flow.packet_count
unfolding add_sample new_flow
some_packets = omega arith

interleaved_reports_example : let (m, ts) = system in All (Sound flow m) ts
unfolding start_task accesses sample_accesses add_sample new_flow
interleaved_reports_example =
    interleaved_reports flow some_packets programs turns_taken (omega arith)

stale_report_fails_example :
    get_elem?
      (run_threads advance
        (
          new_flow 1,
          map start_task (record_samples (arrival 60 12 true ∷ []) ∷ report blank_kpi ∷ []),
        )
        (1 ∷ replicate 5 0 ++ replicate 13 1)).1
      1
    ≡ some (failed division_by_zero)
stale_report_fails_example = stale_report_fails 1 blank_kpi (arrival 60 12 true)
