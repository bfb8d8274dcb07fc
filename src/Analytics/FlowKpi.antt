-- ===== src/Analytics/FlowKpi.antt =====
-- `get_flow_kpi` after a run of samples: what it reports, and when its loss percentage is one.
use native.Mathlib.Nat.{div-le_of_le-mul, le-div_iff_mul-le, div-mul-le_self}
use virtual_service_gateway.Common.{
  ℕ, zero, suc, ◌+◌, ◌*◌, ◌/◌, ◌%◌, ◌≤◌, ◌<◌, ◌≡◌, ◌∙◌, refl, ap, Bool, true, List, [], ◌∷◌, none,
  some, arith, All, inl, inr, length, get_elem?, sum_by, All-get_elem?, Bool-cases, u32_mod,
  u64_mod, ◌==◌, replicate, ap₂,
}
use virtual_service_gateway.Common.Faults.{ok}
use virtual_service_gateway.Analytics.Flow.{
  FlowMetrics, FlowKpi, TelemetrySample, new_flow, latency_bucket,
}
use virtual_service_gateway.Analytics.Collector.{QoeCollector, new_flows, new_collector}
use virtual_service_gateway.Analytics.Reports.{
  total_samples, loss_percent, flow_kpi_of, get_flow_kpi,
}
use virtual_service_gateway.Analytics.Invariant.{IsFlow, new_collector-IsValid}
use virtual_service_gateway.Analytics.Samples.{
  Recorded, run_samples, counts, sizes, Measures, run_samples-Measures, latency_bucket-lt,
}

pub total_samples-sum :
    (total : ℕ) (bs : List ℕ)
    → total < u64_mod
    → total_samples total bs ≡ (total + sum_by (λ b. b) bs) % u64_mod
unfolding total_samples
total_samples-sum total [] h = omega arith
total_samples-sum total (b ∷ bs) h =
    total_samples-sum ((total + b) % u64_mod) bs (omega arith) ∙ omega arith

-- With a sample counted and no wrap, the KPI has the flow's counts, and the quotient of the wrapped
-- product as its loss percentage.
flow_kpi_of_lem :
    (storage : FlowKpi) (m : FlowMetrics)
    → 0 < m.packet_count
    → 0 < sum_by (λ b. b) m.latency_buckets
    → sum_by (λ b. b) m.latency_buckets < u64_mod
    → flow_kpi_of storage m
      ≡ ok (record storage {
        packet_count = m.packet_count;
        byte_count = m.byte_count;
        loss_percent = m.loss_count * 100 % u32_mod / m.packet_count % u32_mod;
      })
unfolding flow_kpi_of loss_percent
flow_kpi_of_lem storage m some_packets some_samples small =
    ground (arith, total_samples-sum 0 m.latency_buckets (omega arith))

new_flows-get :
    (clock : ℕ → ℕ) (i n f : ℕ)
    → f < n
    → (start : ℕ) × (get_elem? (new_flows clock i n) f ≡ some (new_flow start))
unfolding new_flows
new_flows-get clock i zero f h = absurd (omega arith)
new_flows-get clock i (suc n) zero h = (clock i, refl)
new_flows-get clock i (suc n) (suc f) h = new_flows-get clock (i + 1) n f (omega arith)

pub get_elem?-le-sum :
    (bs : List ℕ) (b : ℕ) → elim (get_elem? bs b) [ none ↦ 0 | some n ↦ n ] ≤ sum_by (λ k. k) bs
get_elem?-le-sum [] b = omega arith
get_elem?-le-sum (x ∷ bs) zero = omega arith
get_elem?-le-sum (x ∷ bs) (suc b) = omega (arith, get_elem?-le-sum bs b)

pub sum-le-length :
    (bs : List ℕ) → All (λ n. n < u32_mod) bs → sum_by (λ k. k) bs ≤ length bs * u32_mod
sum-le-length [] h = omega arith
sum-le-length (x ∷ bs) h = omega (arith, sum-le-length bs h.1)

-- The run's samples, packets, bytes and losses of a flow.
abbrev pub packets_of : ℕ → List Recorded → ℕ
packets_of f rs = sum_by (counts f (λ s. true)) rs

abbrev pub bytes_of : ℕ → List Recorded → ℕ
bytes_of f rs = sum_by (sizes f) rs

abbrev pub losses_of : ℕ → List Recorded → ℕ
losses_of f rs = sum_by (counts f (λ s. s.packet_lost)) rs

counts-le :
    (f : ℕ) (test : TelemetrySample → Bool) (rs : List Recorded)
    → sum_by (counts f test) rs ≤ packets_of f rs
counts-le f test [] = omega arith
counts-le f test ((s, now) ∷ rs) = ground (arith, counts-le f test rs)

packets_of-le : (f : ℕ) (rs : List Recorded) → packets_of f rs ≤ length rs
packets_of-le f [] = omega arith
packets_of-le f ((s, now) ∷ rs) = ground (arith, packets_of-le f rs)

-- Where a flow has a sample, one of the ten buckets has one.
some_bucket :
    (f : ℕ) (rs : List Recorded)
    → 0 < packets_of f rs
    → (b : ℕ) × (b < 10) × (0 < sum_by (counts f (λ s. latency_bucket s.latency_us == b)) rs)
some_bucket f [] h = absurd (omega arith)
some_bucket f ((s, now) ∷ rs) h = elim (Bool-cases (s.flow_id == f)) [
  | inl e ↦ (latency_bucket s.latency_us, latency_bucket-lt s.latency_us, ground arith)
  | inr e ↦ let (b, lt, p) = some_bucket f rs (ground arith) in (b, lt, omega arith)
]

-- What the KPI holds for a flow with samples, the percentage as the code computes it.
record Shows (f : ℕ) (rs : List Recorded) (kpi : FlowKpi) : Type 0 where
  flow : kpi.flow_id ≡ f
  packets : kpi.packet_count ≡ packets_of f rs
  bytes : kpi.byte_count ≡ bytes_of f rs % u64_mod
  percent : kpi.loss_percent ≡ losses_of f rs * 100 % u32_mod / packets_of f rs

pub zero_bucket :
    (n b : ℕ) → ◌≡◌ {A = ℕ} (elim (get_elem? {A = ℕ} (replicate n 0) b) [ none ↦ 0 | some k ↦ k ]) 0
zero_bucket zero b = refl
zero_bucket (suc n) zero = refl
zero_bucket (suc n) (suc b) = zero_bucket n b

-- A quotient by a positive number fits where the dividend does.
percent_lem :
    (loss packets l p : ℕ)
    → loss ≡ l
    → packets ≡ p
    → loss * 100 % u32_mod / packets % u32_mod ≡ l * 100 % u32_mod / p
percent_lem loss packets l p e e' = ap₂ (λ x y. x * 100 % u32_mod / y % u32_mod) e e' ∙ omega arith

module _ (f : ℕ) (rs : List Recorded) (few : length rs < u32_mod) (seen : 0 < packets_of f rs)
    (start : ℕ) (m : FlowMetrics) (v : IsFlow m) (q : Measures f (new_flow start) rs m) where
  packets_eq : m.packet_count ≡ packets_of f rs
  unfolding new_flow
  packets_eq = omega (arith, q.packets, packets_of-le f rs)

  losses_eq : m.loss_count ≡ losses_of f rs
  unfolding new_flow
  losses_eq = omega (arith, q.losses, counts-le f (λ s. s.packet_lost) rs, packets_of-le f rs)

  bytes_eq : m.byte_count ≡ bytes_of f rs % u64_mod
  unfolding new_flow
  bytes_eq = omega (arith, q.bytes)

  samples_pos : 0 < sum_by (λ b. b) m.latency_buckets
  unfolding new_flow
  samples_pos =
      let (b, lt, p) = some_bucket f rs seen in
      omega (
        arith,
        q.buckets b lt,
        zero_bucket 10 b,
        counts-le f (λ s. latency_bucket s.latency_us == b) rs,
        packets_of-le f rs,
        get_elem?-le-sum m.latency_buckets b,
      )

  samples_small : sum_by (λ b. b) m.latency_buckets < u64_mod
  samples_small = omega (arith, sum-le-length m.latency_buckets v.bucket_words, v.buckets)

  measured_kpi :
      (storage : FlowKpi) (c : QoeCollector)
      → get_elem? c.flow_metrics f ≡ some m
      → (kpi : FlowKpi) × (get_flow_kpi storage c f ≡ ok kpi) × Shows f rs kpi
  unfolding get_flow_kpi
  measured_kpi storage c e = (
    record storage {
      flow_id = f;
      packet_count = m.packet_count;
      byte_count = m.byte_count;
      loss_percent = m.loss_count * 100 % u32_mod / m.packet_count % u32_mod;
    },
    rw (e, get_flow_kpi)
        (flow_kpi_of_lem (record storage { flow_id = f }) m (omega (arith, packets_eq)) samples_pos
          samples_small),
    record {
      flow = refl;
      packets = packets_eq;
      bytes = bytes_eq;
      percent = percent_lem m.loss_count m.packet_count _ _ losses_eq packets_eq;
    },
  )

wrapped_less : (x p : ℕ) → 0 < p → u32_mod ≤ x → p ≤ u32_mod → x % u32_mod / p < x / p
wrapped_less x p h lo hi =
    (le-div_iff_mul-le {x = suc (x % u32_mod / p)} {y = x} h).1
      (omega (arith, div-mul-le_self (x % u32_mod) p))

-- The KPI of a tracked flow after a run of samples on a new collector.
abbrev pub KpiAfter : FlowKpi → ℕ → (ℕ → ℕ) → List Recorded → ℕ → (FlowKpi → Type 0) → Type 0
KpiAfter storage max_flows clock rs f P =
    (c : QoeCollector) × (kpi : FlowKpi) × (run_samples (new_collector max_flows clock) rs ≡ ok c)
    × (get_flow_kpi storage c f ≡ ok kpi)
    × P kpi

module _ (storage : FlowKpi) (max_flows : ℕ) (clock : ℕ → ℕ) (rs : List Recorded) (f : ℕ)
    (tracked : f < max_flows) (few : length rs < u32_mod) (seen : 0 < packets_of f rs) where
  kpi_run : KpiAfter storage max_flows clock rs f (Shows f rs)
  unfolding new_collector
  kpi_run =
      let valid = new_collector-IsValid max_flows clock in
      let (start, here) = new_flows-get clock 0 max_flows f tracked in
      let (c, m, e, g, q, v) =
        run_samples-Measures rs (new_collector max_flows clock) f (new_flow start) valid here in
      let (kpi, k, shows) =
        measured_kpi f rs few seen start m (All-get_elem? IsFlow c.flow_metrics f m v.flows g) q
          storage c g in
      (c, kpi, e, k, shows)

  -- After a run of fewer than 2^32 samples on a new collector, the KPI of a tracked flow with
  -- samples and at most 42,949,672 losses has the flow's packets, its bytes modulo 2^64, and the
  -- whole percentage of its packets that were lost, which is at most 100.
  pub get_flow_kpi-run :
      losses_of f rs ≤ 42949672
      → KpiAfter storage max_flows clock rs f (λ kpi.
        (kpi.packet_count ≡ packets_of f rs)
        × (kpi.byte_count ≡ bytes_of f rs % u64_mod)
        × (kpi.loss_percent ≡ losses_of f rs * 100 / packets_of f rs)
        × (kpi.loss_percent ≤ 100))
  get_flow_kpi-run few_losses =
      let (c, kpi, e, k, s) = kpi_run in
      let exact : losses_of f rs * 100 % u32_mod ≡ losses_of f rs * 100 = omega arith in
      let percent : kpi.loss_percent ≡ losses_of f rs * 100 / packets_of f rs =
        s.percent ∙ ap (λ n. n / packets_of f rs) exact in
      let le = counts-le f (λ s. s.packet_lost) rs in
      (
        c,
        kpi,
        e,
        k,
        (
          s.packets,
          s.bytes,
          percent,
          rw percent (div-le_of_le-mul (packets_of f rs) (omega arith)),
        ),
      )

  -- After a run of fewer than 2^32 samples on a new collector, the KPI of a tracked flow with more
  -- than 42,949,672 losses has a loss percentage below the true one: the 32-bit product wraps.
  pub loss_percent_understated :
      42949672 < losses_of f rs
      → KpiAfter storage max_flows clock rs f
          (λ kpi. kpi.loss_percent < losses_of f rs * 100 / packets_of f rs)
  loss_percent_understated many =
      let (c, kpi, e, k, s) = kpi_run in
      (
        c,
        kpi,
        e,
        k,
        rw s.percent (
            wrapped_less (losses_of f rs * 100) (packets_of f rs) seen (omega arith)
              (omega (arith, packets_of-le f rs))),
      )
