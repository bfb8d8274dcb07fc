-- ===== src/Analytics/Shared/Reports.antt =====
-- Reports of a flow that other threads record samples of.
use virtual_service_gateway.Common.{
  ℕ, suc, ◌+◌, ◌≡◌, ◌∙◌, refl, ap, subst, Bool, true, false, List, [], ◌∷◌, none, some, inl, inr,
  Bool-cases, length, arith, add64, get_elem?, ltb, if◌then◌else◌,
}
use virtual_service_gateway.Common.Faults.{Result, ok, fault, ◌>>=◌}
use virtual_service_gateway.Common.Threads.{repeat}
use virtual_service_gateway.Analytics.Flow.{FlowMetrics, FlowKpi}
use virtual_service_gateway.Analytics.Reports.{total_samples, loss_percent, flow_kpi_of}
use virtual_service_gateway.Analytics.Shared.Tasks.{
  Task, load_packets, load_bytes, load_buckets, load_losses, reported, failed, report_percent,
  advance,
}

-- A report's result as its thread's last state.
unfoldable pub outcome : Result FlowKpi → Task
outcome (ok kpi) = reported kpi
outcome (fault e) = failed e

-- What a report does with the buckets that are left.
unfoldable pub conclude_report : FlowMetrics → FlowKpi → ℕ → Task
conclude_report m kpi total =
    if ltb 0 total
    then report_percent kpi (loss_percent m.loss_count kpi.packet_count)
    else reported kpi

load_buckets-stop :
    (m : FlowMetrics) (kpi : FlowKpi) (total k : ℕ)
    → get_elem? m.latency_buckets k ≡ none
    → advance m (load_buckets kpi total k)
      ≡ (m, if ltb 0 total then load_losses kpi else reported kpi)
unfolding advance
load_buckets-stop m kpi total k e = rw e refl

load_losses-decide :
    (m : FlowMetrics) (kpi : FlowKpi) (some_samples : Bool)
    → repeat advance 1 (m, if some_samples then load_losses kpi else reported kpi) ≡ (
      m,
      if some_samples
          then report_percent kpi (loss_percent m.loss_count kpi.packet_count)
          else reported kpi,
    )
unfolding advance
load_losses-decide m kpi true = refl
load_losses-decide m kpi false = refl

load_buckets-end :
    (m : FlowMetrics) (kpi : FlowKpi) (total k : ℕ)
    → get_elem? m.latency_buckets k ≡ none
    → repeat advance 2 (m, load_buckets kpi total k) ≡ (m, conclude_report m kpi total)
unfolding conclude_report
load_buckets-end m kpi total k e =
    ap (repeat advance 1) (load_buckets-stop m kpi total k e)
    ∙ load_losses-decide m kpi (ltb 0 total)

load_buckets-next :
    (m : FlowMetrics) (kpi : FlowKpi) (total k b : ℕ)
    → get_elem? m.latency_buckets k ≡ some b
    → advance m (load_buckets kpi total k) ≡ (m, load_buckets kpi (add64 total b) (k + 1))
unfolding advance
load_buckets-next m kpi total k b e = rw e refl

load_buckets-rest :
    (m : FlowMetrics) (kpi : FlowKpi) (total k : ℕ) (bs : List ℕ)
    → ((j : ℕ) → get_elem? m.latency_buckets (k + j) ≡ get_elem? bs j)
    → repeat advance (suc (suc (length bs))) (m, load_buckets kpi total k)
      ≡ (m, conclude_report m kpi (total_samples total bs))
unfolding total_samples
load_buckets-rest m kpi total k [] h =
    let e : k + 0 ≡ k = omega arith in
    load_buckets-end m kpi total k (subst (λ j. get_elem? m.latency_buckets j ≡ none) e (h 0))
load_buckets-rest m kpi total k (b ∷ bs) h =
    let e : k + 0 ≡ k = omega arith in
    let shift : (j : ℕ) → k + suc j ≡ k + 1 + j = λ j. omega arith in
    ap (repeat advance (suc (suc (length bs)))) (
      load_buckets-next m kpi total k b
        (subst (λ j. get_elem? m.latency_buckets j ≡ some b) e (h 0)))
    ∙ load_buckets-rest m kpi (add64 total b) (k + 1) bs
        (λ j. subst (λ n. get_elem? m.latency_buckets n ≡ get_elem? bs j) (shift j) (h (suc j)))

-- A report that has its packets and runs on alone.
pub load_bytes-alone :
    (m : FlowMetrics) (kpi : FlowKpi)
    → repeat advance (suc (suc (suc (length m.latency_buckets)))) (m, load_bytes kpi) ≡ (
      m,
      conclude_report m
          (record kpi { byte_count = m.byte_count })
          (total_samples 0 m.latency_buckets),
    )
unfolding advance
load_bytes-alone m kpi =
    load_buckets-rest m (record kpi { byte_count = m.byte_count }) 0 0 m.latency_buckets
      (λ j. let e : 0 + j ≡ j = omega arith in ap (get_elem? m.latency_buckets) e)

report_percent-outcome :
    (kpi : FlowKpi) (r : Result ℕ)
    → report_percent kpi r ≡ outcome (r >>= λ p. ok (record kpi { loss_percent = p }))
unfolding report_percent outcome
report_percent-outcome kpi (ok percent) = refl
report_percent-outcome kpi (fault e) = refl

conclude_report-outcome :
    (m : FlowMetrics) (kpi : FlowKpi)
    → conclude_report m
        (record kpi { packet_count = m.packet_count; byte_count = m.byte_count })
        (total_samples 0 m.latency_buckets)
      ≡ outcome (flow_kpi_of kpi m)
unfolding outcome flow_kpi_of conclude_report
conclude_report-outcome m kpi = elim (Bool-cases (ltb 0 (total_samples 0 m.latency_buckets))) [
  | inl e ↦ rw e (
      report_percent-outcome
        (record kpi { packet_count = m.packet_count; byte_count = m.byte_count }) _)
  | inr e ↦ rw e refl
]

-- A report that no other thread interrupts ends, after as many turns as there are buckets and four, with what
-- `get_flow_kpi` returns for the flow, and leaves the flow as it is.
pub report_alone :
    (m : FlowMetrics) (kpi : FlowKpi)
    → repeat advance (suc (suc (suc (suc (length m.latency_buckets))))) (m, load_packets kpi)
      ≡ (m, outcome (flow_kpi_of kpi m))
unfolding advance
report_alone m kpi =
    load_bytes-alone m (record kpi { packet_count = m.packet_count })
    ∙ ap (λ t. (m, t)) (conclude_report-outcome m kpi)
