-- ===== src/Analytics/Flow.antt =====
-- `FlowMetrics`, `FlowKPI`, `ServiceKPI` and `TelemetrySample` of include/qoe_analytics.h, and the part of
-- `record_sample` that works on one flow.
use virtual_service_gateway.Common.{
  ℕ, ◌/◌, min, Bool, true, List, none, some, add32, add64, replicate, get_elem?, set, if◌then◌else◌,
}

pub record FlowMetrics : Type 0 where
  pub packet_count : ℕ
  pub byte_count : ℕ
  pub loss_count : ℕ
  pub latency_buckets : List ℕ
  pub start_time_ns : ℕ
  pub last_update_ns : ℕ
  pub active : Bool

pub record TelemetrySample : Type 0 where
  pub flow_id : ℕ
  pub subscriber_id : ℕ
  pub service_id : ℕ
  pub packet_size : ℕ
  pub latency_us : ℕ
  pub packet_lost : Bool
  pub timestamp_ns : ℕ

pub record FlowKpi : Type 0 where
  pub flow_id : ℕ
  pub subscriber_id : ℕ
  pub service_id : ℕ
  pub packet_count : ℕ
  pub byte_count : ℕ
  pub loss_percent : ℕ
  pub rtt_us : ℕ
  pub p50_latency_us : ℕ
  pub p95_latency_us : ℕ
  pub p99_latency_us : ℕ
  pub jitter_us : ℕ
  pub throughput_mbps : ℕ
  pub start_time_ns : ℕ
  pub end_time_ns : ℕ
  pub duration_ms : ℕ

pub record ServiceKpi : Type 0 where
  pub service_id : ℕ
  pub total_flows : ℕ
  pub total_bytes : ℕ
  pub total_packets : ℕ
  pub avg_loss_percent : ℕ
  pub avg_rtt_us : ℕ
  pub avg_throughput_mbps : ℕ
  pub p50_loss : ℕ
  pub p95_loss : ℕ
  pub p99_loss : ℕ
  pub window_start_ns : ℕ
  pub window_end_ns : ℕ

-- One round of the constructor's loop: `make_shared<FlowMetrics>()` clears the storage and runs the
-- member initialisers; the start time and ten buckets are assigned.
unfoldable pub new_flow : ℕ → FlowMetrics
new_flow start = record {
  packet_count = 0;
  byte_count = 0;
  loss_count = 0;
  latency_buckets = replicate 10 0;
  start_time_ns = start;
  last_update_ns = 0;
  active = true;
}

-- `std::min((uint32_t)9, sample.latency_us / 10)`.
unfoldable pub latency_bucket : ℕ → ℕ
latency_bucket latency_us = min 9 (latency_us / 10)

-- `if (bucket < size) latency_buckets[bucket] += 1`.
unfoldable pub add_latency : List ℕ → ℕ → List ℕ
add_latency buckets bucket = elim (get_elem? buckets bucket) [
  | none ↦ buckets
  | some n ↦ set buckets bucket (add32 n 1)
]

-- `record_sample` after the range check, on the metrics of the sample's flow.
unfoldable pub add_sample : TelemetrySample → ℕ → FlowMetrics → FlowMetrics
add_sample sample now m = record m {
  packet_count = add64 m.packet_count 1;
  byte_count = add64 m.byte_count sample.packet_size;
  last_update_ns = now;
  loss_count = if sample.packet_lost then add32 m.loss_count 1 else m.loss_count;
  latency_buckets = add_latency m.latency_buckets (latency_bucket sample.latency_us);
}
