-- ===== src/Analytics/Telemetry.antt =====
-- `get_aggregated_telemetry`: it returns, and what its samples are.
use native.Mathlib.Nat.{div-le_self}
use virtual_service_gateway.Common.{
  ℕ, zero, suc, ◌+◌, ◌/◌, ◌%◌, ◌≤◌, ◌<◌, ◌≡◌, refl, ap, max, true, false, List, [], ◌∷◌, ◌++◌, some,
  arith, All, All-append, u32_mod, add32, leb, ◌==◌, if◌then◌else◌, Bool-cases, Option-cases, inl,
  inr, length, length-append, get_elem?, lt-length_of_get_elem?,
}
use virtual_service_gateway.Common.Faults.{ok, ◌>>=◌}
use virtual_service_gateway.Analytics.Flow.{FlowMetrics, TelemetrySample}
use virtual_service_gateway.Analytics.Collector.{QoeCollector}
use virtual_service_gateway.Analytics.Reports.{
  sampling_interval, aggregate_from, get_aggregated_telemetry,
}

-- The sample is of an active flow, with the time of the flow's last update.
abbrev pub IsSampleOf : List FlowMetrics → TelemetrySample → Type 0
IsSampleOf flows s =
    (m : FlowMetrics) × (get_elem? flows s.flow_id ≡ some m)
    × (m.active ≡ true)
    × (s.timestamp_ns ≡ m.last_update_ns)

abbrev Bounded : List FlowMetrics → ℕ → List TelemetrySample → Type 0
Bounded flows max_samples samples = (length samples ≤ max_samples) × All (IsSampleOf flows) samples

abbrev next_samples :
    TelemetrySample → FlowMetrics → ℕ → List TelemetrySample → List TelemetrySample
next_samples storage m i samples =
    if m.active
    then samples ++ record storage { flow_id = i; timestamp_ns = m.last_update_ns } ∷ []
    else samples

next_samples-Bounded :
    (storage : TelemetrySample) (flows : List FlowMetrics) (m : FlowMetrics) (max_samples i : ℕ)
    (samples : List TelemetrySample)
    → get_elem? flows i ≡ some m
    → length samples < max_samples
    → All (IsSampleOf flows) samples
    → Bounded flows max_samples (next_samples storage m i samples)
next_samples-Bounded storage flows m max_samples i samples e room h = elim (Bool-cases m.active) [
  | inl on ↦
      let s = record storage { flow_id = i; timestamp_ns = m.last_update_ns } in
      rw (on, next_samples)
        (
          omega (arith, length-append samples (s ∷ [])),
          All-append (IsSampleOf flows) samples (s ∷ []) h ((m, e, on, refl), tt),
        )
  | inr off ↦ rw (off, next_samples) (omega arith, h)
]

-- One more unit of fuel than there are indices left is enough.
aggregate_from-returns :
    (fuel : ℕ) (storage : TelemetrySample) (flows : List FlowMetrics) (interval max_samples i : ℕ)
    (samples : List TelemetrySample)
    → 0 < interval
    → length flows + interval < u32_mod
    → 0 < fuel
    → length flows < fuel + i
    → Bounded flows max_samples samples
    → (r : List TelemetrySample) × (aggregate_from fuel storage flows interval max_samples i samples
        ≡ some r)
      × Bounded flows max_samples r
unfolding aggregate_from
aggregate_from-returns zero storage flows interval max_samples i samples pos small live enough b =
    absurd (omega arith)
aggregate_from-returns (suc fuel) storage flows interval max_samples i samples pos small live enough
      b =
    elim (Option-cases (get_elem? flows i)) [
      | inl e ↦ (samples, rw (e, aggregate_from) refl, b)
      | inr (m, e) ↦ elim (Bool-cases (leb max_samples (length samples))) [
        | inl full ↦ (samples, rw (e, full, aggregate_from) refl, b)
        | inr room ↦
            let inside = lt-length_of_get_elem? flows i m e in
            let (r, er, br) =
              aggregate_from-returns fuel storage flows interval max_samples (add32 i interval)
                (next_samples storage m i samples) pos small (omega arith) (omega arith)
                (next_samples-Bounded storage flows m max_samples i samples e (ground (arith, room))
                  b.1) in
            (r, rw (e, room, aggregate_from) er, br)
      ]
    ]

-- With fewer than 2^31 flows and a positive limit, `get_aggregated_telemetry` returns within one
-- round more than there are flows; it returns at most `max_samples` samples, each of an active flow
-- with the time of that flow's last update.
pub get_aggregated_telemetry_lem :
    (storage : TelemetrySample) (c : QoeCollector) (max_samples : ℕ)
    → 0 < max_samples
    → length c.flow_metrics < 2147483648
    → (r : List TelemetrySample) × (get_aggregated_telemetry storage c max_samples ≡ ok (some r))
      × (length r ≤ max_samples)
      × All (IsSampleOf c.flow_metrics) r
unfolding get_aggregated_telemetry sampling_interval
get_aggregated_telemetry_lem storage c max_samples pos small =
    let size = length c.flow_metrics in
    let interval = max 1 (size / max_samples % u32_mod) in
    let (r, e, b) =
      aggregate_from-returns (suc size) storage c.flow_metrics interval max_samples 0 []
        (omega arith) (omega (arith, div-le_self size max_samples)) (omega arith) (omega arith)
        (omega arith, tt) in
    let positive : (max_samples == 0) ≡ false = ground arith in
    (r, rw (positive, ◌>>=◌) (ap ok e), b.0, b.1)
