-- ===== src/Analytics/Flush.antt =====
-- `flush_expired_flows`: which flows it marks, what it counts, and that a mark is never taken back.
use mathlib.Core.Option
use virtual_service_gateway.Common.{
  ℕ, zero, suc, ◌+◌, ◌%◌, ◌≡◌, ◌≢◌, ◌∙◌, refl, subst, true, false, List, [], ◌∷◌, some, arith,
  sum_by, u32_mod, u64_mod, add32, if◌then◌else◌, Bool-cases, inl, inr, get_elem?, All,
}
use virtual_service_gateway.Common.Faults.{>>=-eq-ok, Result, ok, fault}
use virtual_service_gateway.Analytics.Flow.{FlowMetrics, FlowKpi}
use virtual_service_gateway.Analytics.Collector.{
  QoeCollector, is_expired, flush_from, flush_expired_flows,
}
use virtual_service_gateway.Analytics.Reports.{
  loss_percent, flow_kpi_of, get_flow_kpi, all_kpis_from, get_all_flow_kpis,
}
use virtual_service_gateway.Analytics.Invariant.{IsValid, flush_expired_flows-IsValid}
use virtual_service_gateway.Analytics.FlowKpi.{packets_of}
use virtual_service_gateway.Analytics.Samples.{Recorded, run_samples, run_samples-Measures}

-- What a flush does to one flow.
abbrev pub flushed : ℕ → ℕ → FlowMetrics → FlowMetrics
flushed now max_idle m = if is_expired now max_idle m then record m { active = false } else m

flush_from-get :
    (now max_idle n j : ℕ) (ms : List FlowMetrics)
    → get_elem? (flush_from now max_idle n ms).0 j
      ≡ Option.map (flushed now max_idle) (get_elem? ms j)
unfolding flush_from
flush_from-get now max_idle n j [] = refl
flush_from-get now max_idle n zero (m ∷ ms) = refl
flush_from-get now max_idle n (suc j) (m ∷ ms) =
    flush_from-get now max_idle (if is_expired now max_idle m then add32 n 1 else n) j ms

flush_from-count :
    (now max_idle n : ℕ) (ms : List FlowMetrics)
    → (flush_from now max_idle n ms).1 % u32_mod
      ≡ (n + sum_by (λ m. if is_expired now max_idle m then 1 else 0) ms) % u32_mod
unfolding flush_from
flush_from-count now max_idle n [] = omega arith
flush_from-count now max_idle n (m ∷ ms) =
    ground
      (arith, flush_from-count now max_idle (if is_expired now max_idle m then add32 n 1 else n) ms)

-- A flush marks as inactive exactly the flows for which the time since the last update, modulo
-- 2^64, is longer than the limit, leaves the others as they are, and returns the number of these
-- flows modulo 2^32.
pub flush_expired_flows_lem :
    (c : QoeCollector) (max_idle now j : ℕ)
    → let (c', count) = flush_expired_flows c max_idle now in
      (get_elem? c'.flow_metrics j
        ≡ Option.map
            (λ m. if is_expired now max_idle m then record m { active = false } else m)
            (get_elem? c.flow_metrics j))
      × (count % u32_mod
          ≡ sum_by (λ m. if is_expired now max_idle m then 1 else 0) c.flow_metrics % u32_mod)
unfolding flush_expired_flows
flush_expired_flows_lem c max_idle now j = (
  flush_from-get now max_idle 0 j c.flow_metrics,
  flush_from-count now max_idle 0 c.flow_metrics ∙ omega arith,
)

get_flow_kpi-flow :
    (storage kpi : FlowKpi) (c : QoeCollector) (i : ℕ)
    → get_flow_kpi storage c i ≡ ok kpi
    → kpi.flow_id ≡ i
unfolding get_flow_kpi flow_kpi_of loss_percent
get_flow_kpi-flow storage kpi c i e = ground arith

-- The KPIs from index `i` on are not of an earlier flow, nor of the flow `i + j` if it is inactive.
kpis_from-skip :
    (storage : FlowKpi) (c : QoeCollector) (i f : ℕ) (ms : List FlowMetrics) (kpis : List FlowKpi)
    → ((j : ℕ) (m : FlowMetrics) → i + j ≡ f → get_elem? ms j ≡ some m → m.active ≡ false)
    → all_kpis_from storage c i ms ≡ ok kpis
    → All (λ k. k.flow_id ≢ f) kpis
unfolding all_kpis_from
kpis_from-skip storage c i f [] kpis h e =
    let eq : [] ≡ kpis = cc e in subst (All (λ k. k.flow_id ≢ f)) eq tt
kpis_from-skip storage c i f (m ∷ ms) kpis h e =
    let later : (j : ℕ) (m : FlowMetrics)
        → i + 1 + j ≡ f
        → get_elem? ms j ≡ some m
        → m.active ≡ false =
      λ j m eq g. h (suc j) m (omega arith) g in
    elim (Bool-cases m.active) [
      | inl on ↦
          let (kpi, e1, e2) = >>=-eq-ok (get_flow_kpi storage c i) _ kpis (rw on at e) in
          let (ks, e3, e4) = >>=-eq-ok (all_kpis_from storage c (i + 1) ms) _ kpis e2 in
          let apart : kpi.flow_id ≢ f = λ eq.
            absurd
              (cc (on, h 0 m (omega (arith, eq, get_flow_kpi-flow storage kpi c i e1)) refl)) in
          let eq : kpi ∷ ks ≡ kpis = cc e4 in
          subst (All (λ k. k.flow_id ≢ f)) eq
            (apart, kpis_from-skip storage c (i + 1) f ms ks later e3)
      | inr off ↦ kpis_from-skip storage c (i + 1) f ms kpis later (rw off at e)
    ]

-- The KPIs that a call returns; none where it fails.
abbrev pub returned : Result (List FlowKpi) → List FlowKpi
returned (ok kpis) = kpis
returned (fault e) = []

returned-All :
    (P : FlowKpi → Type 0) (r : Result (List FlowKpi))
    → ((kpis : List FlowKpi) → r ≡ ok kpis → All P kpis)
    → All P (returned r)
returned-All P (ok kpis) h = h kpis refl
returned-All P (fault e) h = tt

-- A flow of a valid collector that a flush marks as expired stays inactive whatever samples arrive
-- afterwards, its own included: the run returns, the flow's packets are counted modulo 2^64, and no
-- KPI that a call for all flows returns is of the flow.
pub flush_sticky :
    (storage : FlowKpi) (c : QoeCollector) (max_idle now f : ℕ) (m : FlowMetrics)
    (rs : List Recorded)
    → IsValid c
    → get_elem? c.flow_metrics f ≡ some m
    → is_expired now max_idle m ≡ true
    → (c' : QoeCollector) × (m' : FlowMetrics) × (run_samples
          (flush_expired_flows c max_idle now).0
          rs
        ≡ ok c')
      × (get_elem? c'.flow_metrics f ≡ some m')
      × (m'.active ≡ false)
      × (m'.packet_count ≡ (m.packet_count + packets_of f rs) % u64_mod)
      × All (λ k. k.flow_id ≢ f) (returned (get_all_flow_kpis storage c'))
unfolding get_all_flow_kpis
flush_sticky storage c max_idle now f m rs v h expired =
    let flushed_c = (flush_expired_flows c max_idle now).0 in
    let here : get_elem? flushed_c.flow_metrics f ≡ some (record m { active = false }) =
      (flush_expired_flows_lem c max_idle now f).0 ∙ rw (h, expired) refl in
    let (c', m', e, g, q, _) =
      run_samples-Measures rs flushed_c f (record m { active = false })
        (flush_expired_flows-IsValid c max_idle now v) here in
    (
      c',
      m',
      e,
      g,
      q.activity,
      q.packets,
      returned-All (λ k. k.flow_id ≢ f) (get_all_flow_kpis storage c')
          (λ kpis k.
            kpis_from-skip storage c' 0 f c'.flow_metrics kpis
              (λ j m0 eq g0. let same : j ≡ f = omega (arith, eq) in cc (same, g, g0, q.activity))
              k),
    )
