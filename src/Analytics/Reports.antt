-- ===== src/Analytics/Reports.antt =====
-- The methods of `QoECollector` that read it. A local variable that the source does not initialise is
-- an argument, `storage`.
use virtual_service_gateway.Common.{
  ℕ, zero, suc, ◌+◌, ◌/◌, ◌%◌, max, true, false, List, [], ◌∷◌, ◌++◌, Option, none, some, add32,
  add64, sub64, mul32, mul64, u32_mod, ltb, leb, length, get_elem?, if◌then◌else◌, ◌==◌,
}
use virtual_service_gateway.Common.Faults.{Result, ok, fault, division_by_zero, ◌>>=◌}
use virtual_service_gateway.Analytics.Flow.{FlowMetrics, TelemetrySample, FlowKpi, ServiceKpi}
use virtual_service_gateway.Analytics.Collector.{QoeCollector}

-- `total_samples += bucket.load()` over the buckets.
unfoldable pub total_samples : ℕ → List ℕ → ℕ
total_samples total [] = total
total_samples total (b ∷ bs) = total_samples (add64 total b) bs

-- `(loss_count * 100) / packet_count`: the product is of type `uint32_t`, the quotient is taken on
-- `uint64_t` and stored in 32 bits.
unfoldable pub loss_percent : ℕ → ℕ → Result ℕ
loss_percent loss_count packet_count =
    if packet_count == 0
    then fault division_by_zero
    else ok (mul32 loss_count 100 / packet_count % u32_mod)

unfoldable pub flow_kpi_of : FlowKpi → FlowMetrics → Result FlowKpi
flow_kpi_of kpi m =
    let counted : FlowKpi = record kpi {
      packet_count = m.packet_count;
      byte_count = m.byte_count;
    } in
    if ltb 0 (total_samples 0 m.latency_buckets)
    then (loss_percent m.loss_count m.packet_count >>= λ p.
        ok (record counted { loss_percent = p }))
    else ok counted

unfoldable pub get_flow_kpi : FlowKpi → QoeCollector → ℕ → Result FlowKpi
get_flow_kpi storage c flow_id = elim (get_elem? c.flow_metrics flow_id) [
  | none ↦ ok (record storage { flow_id = flow_id })
  | some m ↦ flow_kpi_of (record storage { flow_id = flow_id }) m
]

-- The loop of `get_all_flow_kpis` from index `i` on, over the flows that are left.
unfoldable pub all_kpis_from : FlowKpi → QoeCollector → ℕ → List FlowMetrics → Result (List FlowKpi)
all_kpis_from storage c i [] = ok []
all_kpis_from storage c i (m ∷ ms) =
    let rest = all_kpis_from storage c (i + 1) ms in
    if m.active
    then (get_flow_kpi storage c i >>= λ kpi. rest >>= λ kpis. ok (kpi ∷ kpis))
    else rest

unfoldable pub get_all_flow_kpis : FlowKpi → QoeCollector → Result (List FlowKpi)
get_all_flow_kpis storage c = all_kpis_from storage c 0 c.flow_metrics

-- The variables of the loop of `get_service_kpi`.
pub record Totals : Type 0 where
  pub kpi : ServiceKpi
  pub total_loss : ℕ
  pub total_packets : ℕ

unfoldable pub add_flow : Totals → FlowMetrics → Totals
add_flow t m = if ltb m.last_update_ns t.kpi.window_start_ns then t else record {
  kpi = record (t.kpi) {
    total_flows = add64 t.kpi.total_flows 1;
    total_packets = add64 t.kpi.total_packets m.packet_count;
    total_bytes = add64 t.kpi.total_bytes m.byte_count;
  };
  total_loss = add64 t.total_loss m.loss_count;
  total_packets = add64 t.total_packets m.packet_count;
}

unfoldable pub add_flows : Totals → List FlowMetrics → Totals
add_flows t [] = t
add_flows t (m ∷ ms) = add_flows (add_flow t m) ms

-- What `get_service_kpi` does after its loop.
unfoldable pub finish_kpi : Totals → ServiceKpi
finish_kpi t =
    if ltb 0 t.total_packets
    then record (t.kpi) { avg_loss_percent = mul64 t.total_loss 100 / t.total_packets % u32_mod }
    else t.kpi

-- `now` is the one clock reading of the call.
unfoldable pub get_service_kpi : ServiceKpi → QoeCollector → ℕ → ℕ → ℕ → ServiceKpi
get_service_kpi storage c service_id window_ns now =
    let opened : ServiceKpi = record storage {
      service_id = service_id;
      window_start_ns = sub64 now window_ns;
      window_end_ns = now;
    } in
    let start : Totals = record { kpi = opened; total_loss = 0; total_packets = 0 } in
    finish_kpi (add_flows start c.flow_metrics)

-- `std::max(1u, (uint32_t)(size / max_samples))`.
unfoldable pub sampling_interval : ℕ → ℕ → Result ℕ
sampling_interval size max_samples =
    if max_samples == 0 then fault division_by_zero else ok (max 1 (size / max_samples % u32_mod))

-- The loop of `get_aggregated_telemetry`, with fuel; nothing if the fuel runs out.
unfoldable pub aggregate_from :
    ℕ
    → TelemetrySample
    → List FlowMetrics
    → ℕ
    → ℕ
    → ℕ
    → List TelemetrySample
    → Option (List TelemetrySample)
aggregate_from zero storage flows interval max_samples i samples = none
aggregate_from (suc fuel) storage flows interval max_samples i samples = elim (get_elem? flows i) [
  | none ↦ some samples
  | some m ↦ elim (leb max_samples (length samples)) [
    | true ↦ some samples
    | false ↦ aggregate_from fuel storage flows interval max_samples (add32 i interval) (
        if m.active
        then samples ++ record storage { flow_id = i; timestamp_ns = m.last_update_ns } ∷ []
        else samples)
  ]
]

-- One round more than there are flows.
unfoldable pub get_aggregated_telemetry :
    TelemetrySample → QoeCollector → ℕ → Result (Option (List TelemetrySample))
get_aggregated_telemetry storage c max_samples =
    sampling_interval (length c.flow_metrics) max_samples >>= λ interval.
    ok (
      aggregate_from (suc (length c.flow_metrics)) storage c.flow_metrics interval max_samples 0 [])
