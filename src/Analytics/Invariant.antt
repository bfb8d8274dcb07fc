-- ===== src/Analytics/Invariant.antt =====
-- The collector's well-formedness: one metrics object for each flow, ten buckets in each, words in
-- range. The constructor establishes it and recording and flushing keep it.
use virtual_service_gateway.Common.{
  ℕ, zero, suc, ◌+◌, ◌<◌, ◌≡◌, ◌∙◌, refl, ap, List, [], ◌∷◌, arith, All, inl, inr, length,
  length-set, All-set, All-get_elem?, get_elem?_in_range, get_elem?, set, Bool-cases, Option-cases,
  u32_mod, u64_mod, add32, leb, if◌then◌else◌,
}
use virtual_service_gateway.Common.Faults.{ok}
use virtual_service_gateway.Analytics.Flow.{
  FlowMetrics, TelemetrySample, new_flow, latency_bucket, add_latency, add_sample,
}
use virtual_service_gateway.Analytics.Collector.{
  QoeCollector, new_flows, new_collector, record_sample, is_expired, flush_from,
  flush_expired_flows,
}

pub record IsFlow (m : FlowMetrics) : Type 0 where
  pub buckets : length m.latency_buckets ≡ 10
  pub bucket_words : All (λ n. n < u32_mod) m.latency_buckets
  pub packets : m.packet_count < u64_mod
  pub bytes : m.byte_count < u64_mod
  pub losses : m.loss_count < u32_mod

pub record IsValid (c : QoeCollector) : Type 0 where
  pub sized : length c.flow_metrics ≡ c.max_flows
  pub flows : All IsFlow c.flow_metrics

pub new_flow-IsFlow : (start : ℕ) → IsFlow (new_flow start)
unfolding new_flow
new_flow-IsFlow start = record {
  buckets = refl;
  bucket_words = omega arith;
  packets = omega arith;
  bytes = omega arith;
  losses = omega arith;
}

new_flows-valid :
    (clock : ℕ → ℕ) (i n : ℕ)
    → (length (new_flows clock i n) ≡ n) × All IsFlow (new_flows clock i n)
unfolding new_flows
new_flows-valid clock i zero = (refl, tt)
new_flows-valid clock i (suc n) =
    let (l, h) = new_flows-valid clock (i + 1) n in (ap suc l, (new_flow-IsFlow (clock i), h))

pub new_collector-IsValid :
    (max_flows : ℕ) (clock : ℕ → ℕ) → IsValid (new_collector max_flows clock)
unfolding new_collector
new_collector-IsValid n clock =
    let (l, h) = new_flows-valid clock 0 n in record { sized = l; flows = h }

add_latency-valid :
    (buckets : List ℕ) (b : ℕ)
    → All (λ n. n < u32_mod) buckets
    → (length (add_latency buckets b) ≡ length buckets)
      × All (λ n. n < u32_mod) (add_latency buckets b)
unfolding add_latency
add_latency-valid buckets b h = elim (Option-cases (get_elem? buckets b)) [
  | inl e ↦ rw (e, add_latency) (refl, h)
  | inr (n, e) ↦
      rw (e, add_latency)
        (
          length-set buckets b (add32 n 1),
          All-set (λ k. k < u32_mod) buckets b (add32 n 1) h (omega arith),
        )
]

pub add_sample-IsFlow :
    (s : TelemetrySample) (now : ℕ) (m : FlowMetrics) → IsFlow m → IsFlow (add_sample s now m)
unfolding add_sample
add_sample-IsFlow s now m v =
    let (l, h) = add_latency-valid m.latency_buckets (latency_bucket s.latency_us) v.bucket_words in
    record {
      buckets = l ∙ v.buckets;
      bucket_words = h;
      packets = omega arith;
      bytes = omega arith;
      losses = ground arith;
    }

-- On a valid collector `record_sample` indexes in bounds and leaves a valid collector of the same
-- size.
pub record_sample-IsValid :
    (c : QoeCollector) (s : TelemetrySample) (now : ℕ)
    → IsValid c
    → (c' : QoeCollector) × (record_sample c s now ≡ ok c')
      × IsValid c'
      × (c'.max_flows ≡ c.max_flows)
unfolding record_sample
record_sample-IsValid c s now v = elim (Bool-cases (leb c.max_flows s.flow_id)) [
  | inl past ↦ (c, rw past, v, refl)
  | inr inside ↦
      let (m, e) = get_elem?_in_range c.flow_metrics s.flow_id (ground (arith, v.sized)) in
      (
        record c { flow_metrics = set c.flow_metrics s.flow_id (add_sample s now m) },
        rw (inside, e),
        record {
          sized = length-set c.flow_metrics s.flow_id (add_sample s now m) ∙ v.sized;
          flows = All-set IsFlow c.flow_metrics s.flow_id (add_sample s now m) v.flows (
              add_sample-IsFlow s now m
                (All-get_elem? IsFlow c.flow_metrics s.flow_id m v.flows e));
        },
        refl,
      )
]

flush_from-valid :
    (now max_idle flushed : ℕ) (ms : List FlowMetrics)
    → All IsFlow ms
    → (length (flush_from now max_idle flushed ms).0 ≡ length ms)
      × All IsFlow (flush_from now max_idle flushed ms).0
unfolding flush_from
flush_from-valid now max_idle flushed [] h = (refl, tt)
flush_from-valid now max_idle flushed (m ∷ ms) h =
    let flushed' = if is_expired now max_idle m then add32 flushed 1 else flushed in
    let (l, hs) = flush_from-valid now max_idle flushed' ms h.1 in (ap suc l, (ground arith, hs))

pub flush_expired_flows-IsValid :
    (c : QoeCollector) (max_idle now : ℕ)
    → IsValid c
    → IsValid (flush_expired_flows c max_idle now).0
unfolding flush_expired_flows
flush_expired_flows-IsValid c max_idle now v =
    let (l, h) = flush_from-valid now max_idle 0 c.flow_metrics v.flows in
    record { sized = l ∙ v.sized; flows = h }
