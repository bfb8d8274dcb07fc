-- ===== src/Analytics/Examples.antt =====
-- Runs of the collector on small inputs, after tests/test_analytics.cpp, and instances of the theorems.
use virtual_service_gateway.Common.{
  ℕ, zero, suc, ◌≤◌, ◌≡◌, ◌≢◌, refl, ap, Bool, true, false, List, [], ◌∷◌, some, arith, All, length,
  get_elem?,
}
use virtual_service_gateway.Common.Faults.{ok}
use virtual_service_gateway.Analytics.Flow.{
  FlowMetrics, TelemetrySample, FlowKpi, ServiceKpi, new_flow,
}
use virtual_service_gateway.Analytics.Collector.{
  QoeCollector, new_flows, new_collector, is_expired, flush_expired_flows,
}
use virtual_service_gateway.Analytics.Reports.{get_all_flow_kpis, get_aggregated_telemetry}
use virtual_service_gateway.Analytics.Invariant.{IsValid, new_collector-IsValid}
use virtual_service_gateway.Analytics.Samples.{
  Recorded, run_samples, Measures, run_samples-Measures,
}
use virtual_service_gateway.Analytics.FlowKpi.{packets_of, losses_of, KpiAfter, get_flow_kpi-run}
use virtual_service_gateway.Analytics.Flush.{flush_sticky, returned}
use virtual_service_gateway.Analytics.Telemetry.{IsSampleOf, get_aggregated_telemetry_lem}

abbrev sample : ℕ → ℕ → Bool → TelemetrySample
sample flow latency lost = record {
  flow_id = flow;
  subscriber_id = 100;
  service_id = 10;
  packet_size = 1500;
  latency_us = latency;
  packet_lost = lost;
  timestamp_ns = 0;
}

abbrev blank_kpi : FlowKpi
blank_kpi = record {
  flow_id = 9;
  subscriber_id = 9;
  service_id = 9;
  packet_count = 9;
  byte_count = 9;
  loss_percent = 9;
  rtt_us = 9;
  p50_latency_us = 9;
  p95_latency_us = 9;
  p99_latency_us = 9;
  jitter_us = 9;
  throughput_mbps = 9;
  start_time_ns = 9;
  end_time_ns = 9;
  duration_ms = 9;
}

abbrev blank_service : ServiceKpi
blank_service = record {
  service_id = 9;
  total_flows = 9;
  total_bytes = 9;
  total_packets = 9;
  avg_loss_percent = 9;
  avg_rtt_us = 9;
  avg_throughput_mbps = 9;
  p50_loss = 9;
  p95_loss = 9;
  p99_loss = 9;
  window_start_ns = 9;
  window_end_ns = 9;
}

abbrev some_samples : List Recorded
some_samples =
    (sample 1 50 false, 10)
    ∷ (sample 0 500 false, 11)
    ∷ (sample 1 7 true, 12)
    ∷ (sample 7 7 true, 13)
    ∷ []

collector : QoeCollector
collector = new_collector 2 (λ i. i)

collector-IsValid : IsValid collector
unfolding collector
collector-IsValid = new_collector-IsValid 2 (λ i. i)

run_samples-Measures_example :
    (c' : QoeCollector) × (m' : FlowMetrics) × (run_samples collector some_samples ≡ ok c')
    × (get_elem? c'.flow_metrics 1 ≡ some m')
    × Measures 1 (new_flow 1) some_samples m'
    × IsValid c'
unfolding collector new_collector new_flows
run_samples-Measures_example =
    run_samples-Measures some_samples collector 1 (new_flow 1) collector-IsValid refl

get_flow_kpi-run_example :
    KpiAfter blank_kpi 2
      (λ i. i)
      some_samples
      1
      (λ kpi.
        (kpi.packet_count ≡ 2)
        × (kpi.byte_count ≡ 3000)
        × (kpi.loss_percent ≡ 50)
        × (kpi.loss_percent ≤ 100))
get_flow_kpi-run_example =
    get_flow_kpi-run blank_kpi 2 (λ i. i) some_samples 1 (omega arith) (omega arith) (omega arith)
      (omega arith)

-- `n` samples of a lost packet.
losses : ℕ → List Recorded
losses zero = []
losses (suc n) = (sample 1 50 true, 10) ∷ losses n

length-losses : (n : ℕ) → length (losses n) ≡ n
unfolding losses
length-losses zero = refl
length-losses (suc n) = ap suc (length-losses n)

packets_of-losses : (n : ℕ) → packets_of 1 (losses n) ≡ n
unfolding losses
packets_of-losses zero = refl
packets_of-losses (suc n) = omega (arith, packets_of-losses n)

losses_of-losses : (n : ℕ) → losses_of 1 (losses n) ≡ n
unfolding losses
losses_of-losses zero = refl
losses_of-losses (suc n) = omega (arith, losses_of-losses n)

flush_sticky_example :
    (c' : QoeCollector) × (m' : FlowMetrics) × (run_samples
        (flush_expired_flows collector 5 100).0
        some_samples
      ≡ ok c')
    × (get_elem? c'.flow_metrics 1 ≡ some m')
    × (m'.active ≡ false)
    × (m'.packet_count ≡ 2)
    × All (λ k. k.flow_id ≢ 1) (returned (get_all_flow_kpis blank_kpi c'))
unfolding collector new_collector new_flows new_flow is_expired
flush_sticky_example =
    flush_sticky blank_kpi collector 5 100 1 (new_flow 1) some_samples collector-IsValid refl refl

get_aggregated_telemetry_lem_example :
    (r : List TelemetrySample) × (get_aggregated_telemetry (sample 3 3 true) collector 1
      ≡ ok (some r))
    × (length r ≤ 1)
    × All (IsSampleOf collector.flow_metrics) r
unfolding collector new_collector new_flows
get_aggregated_telemetry_lem_example =
    get_aggregated_telemetry_lem (sample 3 3 true) collector 1 (omega arith) (omega arith)
