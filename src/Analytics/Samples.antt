-- ===== src/Analytics/Samples.antt =====
-- A run of samples, flow by flow: what the metrics of a flow hold afterwards.
use virtual_service_gateway.Common.{
  ℕ, ◌+◌, ◌%◌, ◌<◌, ◌≡◌, ap, refl, Bool, true, ◌&&◌, List, [], ◌∷◌, none, some, arith, inl, inr,
  length, get_elem?, get_elem?-set_self, get_elem?-set_ne, sum_by, All-get_elem?, Bool-cases,
  Option-cases, u32_mod, u64_mod, add32, leb, ◌==◌, if◌then◌else◌, get_elem?_in_range,
  lt-length_of_get_elem?,
}
use virtual_service_gateway.Common.Faults.{Result, ok, ◌>>=◌}
use virtual_service_gateway.Analytics.Flow.{
  FlowMetrics, TelemetrySample, latency_bucket, add_latency, add_sample,
}
use virtual_service_gateway.Analytics.Collector.{QoeCollector, record_sample}
use virtual_service_gateway.Analytics.Invariant.{
  IsFlow, IsValid, add_sample-IsFlow, record_sample-IsValid,
}

-- A sample and the clock reading of its call.
abbrev pub Recorded : Type 0
Recorded = TelemetrySample × ℕ

unfoldable pub run_samples : QoeCollector → List Recorded → Result QoeCollector
run_samples c [] = ok c
run_samples c ((s, now) ∷ rs) = record_sample c s now >>= λ c'. run_samples c' rs

-- 1 for a sample of the flow that passes the test, else 0.
abbrev pub counts : ℕ → (TelemetrySample → Bool) → Recorded → ℕ
counts f test r = if r.0.flow_id == f && test r.0 then 1 else 0

abbrev pub sizes : ℕ → Recorded → ℕ
sizes f r = if r.0.flow_id == f then r.0.packet_size else 0

-- A bucket's count.
abbrev pub bucket_count : FlowMetrics → ℕ → ℕ
bucket_count m b = elim (get_elem? m.latency_buckets b) [ none ↦ 0 | some n ↦ n ]

-- The metrics `m'` are `m` after the run's samples of the flow `f`.
pub record Measures (f : ℕ) (m : FlowMetrics) (rs : List Recorded) (m' : FlowMetrics) : Type 0 where
  pub packets : m'.packet_count ≡ (m.packet_count + sum_by (counts f (λ s. true)) rs) % u64_mod
  pub bytes : m'.byte_count ≡ (m.byte_count + sum_by (sizes f) rs) % u64_mod
  pub losses : m'.loss_count ≡ (m.loss_count + sum_by (counts f (λ s. s.packet_lost)) rs) % u32_mod
  pub buckets :
      (b : ℕ)
      → b < 10
      → bucket_count m' b
        ≡ (bucket_count m b + sum_by (counts f (λ s. latency_bucket s.latency_us == b)) rs)
          % u32_mod
  pub activity : m'.active ≡ m.active

pub bucket-add_latency :
    (buckets : List ℕ) (k b : ℕ)
    → b < length buckets
    → elim (get_elem? (add_latency buckets k) b) [ none ↦ 0 | some n ↦ n ] ≡ (
        if k == b
        then (elim (get_elem? buckets b) [ none ↦ 0 | some n ↦ n ] + 1) % u32_mod
        else elim (get_elem? buckets b) [ none ↦ 0 | some n ↦ n ])
unfolding add_latency
bucket-add_latency buckets k b hb =
    let (n, here) = get_elem?_in_range buckets b hb in
    elim (Option-cases (get_elem? buckets k)) [
      | inl e ↦ ground (arith, e, here, ap (λ j. get_elem? buckets j))
      | inr (n, e) ↦ ground (
        arith,
        e,
        get_elem?-set_self buckets k (add32 n 1) (lt-length_of_get_elem? buckets k n e),
        get_elem?-set_ne buckets k b (add32 n 1),
      )
    ]

-- One step on one flow.
abbrev touched : TelemetrySample → ℕ → ℕ → FlowMetrics → FlowMetrics
touched s now f m = if s.flow_id == f then add_sample s now m else m

record_sample-get :
    (c c' : QoeCollector) (s : TelemetrySample) (now f : ℕ) (m : FlowMetrics)
    → IsValid c
    → record_sample c s now ≡ ok c'
    → get_elem? c.flow_metrics f ≡ some m
    → get_elem? c'.flow_metrics f ≡ some (touched s now f m)
unfolding record_sample
record_sample-get c c' s now f m v e h = elim (Bool-cases (leb c.max_flows s.flow_id)) [
  | inl past ↦ ground (arith, v.sized, lt-length_of_get_elem? c.flow_metrics f m h)
  | inr inside ↦
      let (m0, e0) = get_elem?_in_range c.flow_metrics s.flow_id (ground (arith, v.sized)) in
      ground (
        arith,
        e0,
        get_elem?-set_self c.flow_metrics s.flow_id (add_sample s now m0) (ground (arith, v.sized)),
        get_elem?-set_ne c.flow_metrics s.flow_id f (add_sample s now m0),
      )
]

pub latency_bucket-lt : (latency_us : ℕ) → latency_bucket latency_us < 10
unfolding latency_bucket
latency_bucket-lt latency_us = omega arith

touched-IsFlow :
    (s : TelemetrySample) (now f : ℕ) (m : FlowMetrics) → IsFlow m → IsFlow (touched s now f m)
touched-IsFlow s now f m v = elim (Bool-cases (s.flow_id == f)) [
  | inl e ↦ rw e (add_sample-IsFlow s now m v)
  | inr e ↦ rw e v
]

-- One sample, then the others.
Measures-cons :
    (s : TelemetrySample) (now f : ℕ) (m m' : FlowMetrics) (rs : List Recorded)
    → IsFlow m
    → Measures f (touched s now f m) rs m'
    → Measures f m ((s, now) ∷ rs) m'
unfolding add_sample
Measures-cons s now f m m' rs v h = record {
  packets = ground (arith, h.packets);
  bytes = ground (arith, h.bytes);
  losses = ground (arith, h.losses);
  buckets = λ b lt. ground (
    arith,
    h.buckets b lt,
    bucket-add_latency m.latency_buckets (latency_bucket s.latency_us) b (omega (arith, v.buckets)),
  );
  activity = ground (arith, h.activity);
}

pub small_buckets : (m : FlowMetrics) (b : ℕ) → IsFlow m → bucket_count m b < u32_mod
small_buckets m b v = elim (Option-cases (get_elem? m.latency_buckets b)) [
  | inl e ↦ rw (e, bucket_count) (omega arith)
  | inr (n, e) ↦
      rw (e, bucket_count) (All-get_elem? (λ k. k < u32_mod) m.latency_buckets b n v.bucket_words e)
]

-- On a valid collector any run of samples returns, leaves a valid collector, and adds to each flow
-- that is there exactly its own samples: packets and bytes modulo 2^64, losses and the count of each
-- of the ten latency buckets modulo 2^32. It leaves the flow's activity as it was.
pub run_samples-Measures :
    (rs : List Recorded) (c : QoeCollector) (f : ℕ) (m : FlowMetrics)
    → IsValid c
    → get_elem? c.flow_metrics f ≡ some m
    → (c' : QoeCollector) × (m' : FlowMetrics) × (run_samples c rs ≡ ok c')
      × (get_elem? c'.flow_metrics f ≡ some m')
      × Measures f m rs m'
      × IsValid c'
unfolding run_samples
run_samples-Measures [] c f m v h =
    let w : IsFlow m = All-get_elem? IsFlow c.flow_metrics f m v.flows h in
    (
      c,
      m,
      refl,
      h,
      record {
        packets = omega (arith, w.packets);
        bytes = omega (arith, w.bytes);
        losses = omega (arith, w.losses);
        buckets = λ b lt. omega (arith, small_buckets m b w);
        activity = refl;
      },
      v,
    )
run_samples-Measures ((s, now) ∷ rs) c f m v h =
    let w : IsFlow m = All-get_elem? IsFlow c.flow_metrics f m v.flows h in
    let (c1, e1, v1, _) = record_sample-IsValid c s now v in
    let (c', m', e, g, q, v') =
      run_samples-Measures rs c1 f (touched s now f m) v1
        (record_sample-get c c1 s now f m v e1 h) in
    (c', m', rw (e1, ◌>>=◌) e, g, Measures-cons s now f m m' rs w q, v')
