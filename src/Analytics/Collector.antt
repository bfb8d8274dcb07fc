-- ===== src/Analytics/Collector.antt =====
-- The methods of `QoECollector` that change it. The shared pointers of `flow_metrics_` are never null and
-- never copied, so the vector is a list of metrics. Clock readings are arguments.
use virtual_service_gateway.Common.{
  ℕ, zero, suc, ◌+◌, Bool, false, List, [], ◌∷◌, none, some, add32, sub64, ltb, leb, get_elem?, set,
  if◌then◌else◌,
}
use virtual_service_gateway.Common.Faults.{Result, ok, fault, out_of_bounds}
use virtual_service_gateway.Analytics.Flow.{FlowMetrics, TelemetrySample, new_flow, add_sample}

pub record QoeCollector : Type 0 where
  pub flow_metrics : List FlowMetrics
  pub max_flows : ℕ

-- The constructor's loop; `clock i` is the clock's i-th reading.
unfoldable pub new_flows : (ℕ → ℕ) → ℕ → ℕ → List FlowMetrics
new_flows clock i zero = []
new_flows clock i (suc n) = new_flow (clock i) ∷ new_flows clock (i + 1) n

unfoldable pub new_collector : ℕ → (ℕ → ℕ) → QoeCollector
new_collector max_flows clock = record {
  flow_metrics = new_flows clock 0 max_flows;
  max_flows = max_flows;
}

unfoldable pub record_sample : QoeCollector → TelemetrySample → ℕ → Result QoeCollector
record_sample c sample now =
    if leb c.max_flows sample.flow_id
    then ok c
    else elim (get_elem? c.flow_metrics sample.flow_id) [
      | none ↦ fault out_of_bounds
      | some m ↦
          ok (record c {
            flow_metrics = set c.flow_metrics sample.flow_id (add_sample sample now m);
          })
    ]

-- `now - last_update > max_idle_ns` on `uint64_t`.
unfoldable pub is_expired : ℕ → ℕ → FlowMetrics → Bool
is_expired now max_idle_ns m = ltb max_idle_ns (sub64 now m.last_update_ns)

-- The loop of `flush_expired_flows`: the flows, and `flushed`.
unfoldable pub flush_from : ℕ → ℕ → ℕ → List FlowMetrics → List FlowMetrics × ℕ
flush_from now max_idle_ns flushed [] = ([], flushed)
flush_from now max_idle_ns flushed (m ∷ ms) =
    let expired = is_expired now max_idle_ns m in
    let (rest, total) =
      flush_from now max_idle_ns (if expired then add32 flushed 1 else flushed) ms in
    ((if expired then record m { active = false } else m) ∷ rest, total)

unfoldable pub flush_expired_flows : QoeCollector → ℕ → ℕ → QoeCollector × ℕ
flush_expired_flows c max_idle_ns now =
    let (flows, flushed) = flush_from now max_idle_ns 0 c.flow_metrics in
    (record c { flow_metrics = flows }, flushed)
