-- ===== src/Analytics/Service.antt =====
-- `get_service_kpi`: which flows it sums, and from what it starts.
use virtual_service_gateway.Common.{
  ℕ, ◌+◌, ◌%◌, ◌≡◌, ◌∙◌, refl, ap, List, [], ◌∷◌, arith, sum_by, u64_mod, sub64, ltb, if◌then◌else◌,
  Bool-cases, inl, inr,
}
use virtual_service_gateway.Analytics.Flow.{FlowMetrics, ServiceKpi}
use virtual_service_gateway.Analytics.Collector.{QoeCollector}
use virtual_service_gateway.Analytics.Reports.{
  Totals, add_flow, add_flows, finish_kpi, get_service_kpi,
}

abbrev relabel : ℕ → Totals → Totals
relabel s t = record t { kpi = record (t.kpi) { service_id = s } }

add_flow-relabel :
    (s : ℕ) (t : Totals) (m : FlowMetrics) → add_flow (relabel s t) m ≡ relabel s (add_flow t m)
unfolding add_flow
add_flow-relabel s t m = elim (Bool-cases (ltb m.last_update_ns t.kpi.window_start_ns)) [
  | inl e ↦ rw (e, relabel)
  | inr e ↦ rw (e, relabel)
]

add_flows-relabel :
    (s : ℕ) (t : Totals) (ms : List FlowMetrics)
    → add_flows (relabel s t) ms ≡ relabel s (add_flows t ms)
unfolding add_flows
add_flows-relabel s t [] = refl
add_flows-relabel s t (m ∷ ms) =
    ap (λ u. add_flows u ms) (add_flow-relabel s t m) ∙ add_flows-relabel s (add_flow t m) ms

-- 1 for a flow updated within the window, else 0; and a quantity of such a flow.
abbrev pub in_window : ℕ → (FlowMetrics → ℕ) → FlowMetrics → ℕ
in_window start measure m = if ltb m.last_update_ns start then 0 else measure m

-- The sums over the flows.
record Sums (t : Totals) (ms : List FlowMetrics) (r : Totals) : Type 0 where
  start : r.kpi.window_start_ns ≡ t.kpi.window_start_ns
  flows :
      r.kpi.total_flows % u64_mod
      ≡ (t.kpi.total_flows + sum_by (in_window t.kpi.window_start_ns (λ m. 1)) ms) % u64_mod
  packets :
      r.kpi.total_packets % u64_mod
      ≡ (t.kpi.total_packets + sum_by (in_window t.kpi.window_start_ns (λ m. m.packet_count)) ms)
        % u64_mod
  bytes :
      r.kpi.total_bytes % u64_mod
      ≡ (t.kpi.total_bytes + sum_by (in_window t.kpi.window_start_ns (λ m. m.byte_count)) ms)
        % u64_mod

Sums-cons :
    (t : Totals) (m : FlowMetrics) (ms : List FlowMetrics) (r : Totals)
    → Sums (add_flow t m) ms r
    → Sums t (m ∷ ms) r
unfolding add_flow
Sums-cons t m ms r h = elim (Bool-cases (ltb m.last_update_ns t.kpi.window_start_ns)) [
  | inl e ↦ record {
    start = ground (arith, h.start);
    flows = ground (arith, h.flows);
    packets = ground (arith, h.packets);
    bytes = ground (arith, h.bytes);
  }
  | inr e ↦ record {
    start = ground (arith, h.start);
    flows = ground (arith, h.flows);
    packets = ground (arith, h.packets);
    bytes = ground (arith, h.bytes);
  }
]

add_flows-Sums : (t : Totals) (ms : List FlowMetrics) → Sums t ms (add_flows t ms)
unfolding add_flows
add_flows-Sums t [] = record {
  start = refl;
  flows = omega arith;
  packets = omega arith;
  bytes = omega arith;
}
add_flows-Sums t (m ∷ ms) =
    Sums-cons t m ms (add_flows (add_flow t m) ms) (add_flows-Sums (add_flow t m) ms)

finish_kpi-relabel :
    (s : ℕ) (t : Totals) → finish_kpi (relabel s t) ≡ record (finish_kpi t) { service_id = s }
unfolding finish_kpi
finish_kpi-relabel s t = elim (Bool-cases (ltb 0 t.total_packets)) [
  | inl e ↦ rw (e, relabel)
  | inr e ↦ rw (e, relabel)
]

finish_kpi-totals :
    (t : Totals)
    → (finish_kpi t).total_flows ≡ t.kpi.total_flows
      × (finish_kpi t).total_packets ≡ t.kpi.total_packets
      × (finish_kpi t).total_bytes ≡ t.kpi.total_bytes
unfolding finish_kpi
finish_kpi-totals t = elim (Bool-cases (ltb 0 t.total_packets)) [
  | inl e ↦ rw e (refl, refl, refl)
  | inr e ↦ rw e (refl, refl, refl)
]

-- The service that is asked for selects no flow: the answers for two services differ in the echoed
-- id alone.
pub service_kpi_ignores_service :
    (storage : ServiceKpi) (c : QoeCollector) (service other window_ns now : ℕ)
    → get_service_kpi storage c other window_ns now
      ≡ record (get_service_kpi storage c service window_ns now) { service_id = other }
unfolding get_service_kpi
service_kpi_ignores_service storage c service other window_ns now =
    let start : Totals = record {
      kpi = record storage {
        service_id = service;
        window_start_ns = sub64 now window_ns;
        window_end_ns = now;
      };
      total_loss = 0;
      total_packets = 0;
    } in
    ap finish_kpi (add_flows-relabel other start c.flow_metrics)
    ∙ finish_kpi-relabel other (add_flows start c.flow_metrics)

-- The totals of a service KPI are the sums over the flows updated within the window, modulo 2^64,
-- on top of what the uninitialised local variable held.
pub get_service_kpi_totals :
    (storage : ServiceKpi) (c : QoeCollector) (service window_ns now : ℕ)
    → let k = get_service_kpi storage c service window_ns now in
      let start = sub64 now window_ns in
      (k.total_flows % u64_mod
        ≡ (storage.total_flows + sum_by (in_window start (λ m. 1)) c.flow_metrics) % u64_mod)
      × (k.total_packets % u64_mod
          ≡ (storage.total_packets + sum_by (in_window start (λ m. m.packet_count)) c.flow_metrics)
            % u64_mod)
      × (k.total_bytes % u64_mod
          ≡ (storage.total_bytes + sum_by (in_window start (λ m. m.byte_count)) c.flow_metrics)
            % u64_mod)
unfolding get_service_kpi
get_service_kpi_totals storage c service window_ns now =
    let start : Totals = record {
      kpi = record storage {
        service_id = service;
        window_start_ns = sub64 now window_ns;
        window_end_ns = now;
      };
      total_loss = 0;
      total_packets = 0;
    } in
    let sums = add_flows-Sums start c.flow_metrics in
    let (flows, packets, bytes) = finish_kpi-totals (add_flows start c.flow_metrics) in
    (
      ap (λ n. n % u64_mod) flows ∙ sums.flows,
      ap (λ n. n % u64_mod) packets ∙ sums.packets,
      ap (λ n. n % u64_mod) bytes ∙ sums.bytes,
    )
