-- ===== src/Metering/Rollups.antt =====
-- `rollup`, `batch_rollup` and `check_threshold` against the counters that they read.
use virtual_service_gateway.Common.{
  ℕ, ◌<◌, ◌+◌, ◌%◌, ◌≡◌, ◌≢◌, ◌↔◌, refl, ap, subst, [], ◌∷◌, none, some, arith, sum_by, length, All,
  u64_mod, u32_mod, lookup, ltb, All-lookup, if◌then◌else◌, ◌&&◌, suc, lookup-modify, ◌==◌,
}
use virtual_service_gateway.Metering.Key.{counter_key}
use virtual_service_gateway.Metering.Counter.{
  UsageCounter, UsageRollup, empty_counter, open_rollup, fill_rollup,
}
use virtual_service_gateway.Metering.Meter.{
  UbbMeter, Counters, get_counter, rollup, batch_from, batch_rollup, check_threshold,
  get_total_usage, add_breach,
}
use virtual_service_gateway.Metering.Invariant.{IsValid, IsEntry}
use virtual_service_gateway.Metering.Totals.{entry_bytes, get_total_usage-sum}

-- The meter has a counter for the pair.
abbrev pub IsTracked : UbbMeter → ℕ → ℕ → Type 0
IsTracked m sub svc = lookup (counter_key sub svc) m.counters ≢ none

-- The usage in a rollup is that of a counter.
pub record Copies (r : UsageRollup) (c : UsageCounter) : Type 0 where
  pub up_bytes : r.uplink_bytes ≡ c.uplink_bytes
  pub down_bytes : r.downlink_bytes ≡ c.downlink_bytes
  pub up_packets : r.uplink_packets ≡ c.uplink_packets
  pub down_packets : r.downlink_packets ≡ c.downlink_packets

-- What `rollup` returns depends on the meter and the arguments alone exactly when the pair has a
-- counter: without one, the usage words are what the local variable's storage held before.
pub rollup_determined_iff :
    (m : UbbMeter) (sub svc period start end : ℕ)
    → ((storage storage' : UsageRollup)
        → rollup storage m sub svc period start end ≡ rollup storage' m sub svc period start end)
      ↔ IsTracked m sub svc
unfolding rollup open_rollup fill_rollup
rollup_determined_iff m sub svc period start end = (to, from)
  where
    filled : ℕ → UsageRollup
    filled n = record {
      subscriber_id = 0;
      service_id = 0;
      period_start_ns = 0;
      period_end_ns = 0;
      uplink_bytes = n;
      downlink_bytes = 0;
      uplink_packets = 0;
      downlink_packets = 0;
      sample_count = 0;
    }

    to :
        ((storage storage' : UsageRollup)
          → rollup storage m sub svc period start end ≡ rollup storage' m sub svc period start end)
        → IsTracked m sub svc
    to all e = ground (arith, all (filled 0) (filled 1))

    from :
        IsTracked m sub svc
        → (storage storage' : UsageRollup)
        → rollup storage m sub svc period start end ≡ rollup storage' m sub svc period start end
    from tracked storage storage' = ground arith

-- The rollup of a tracked pair, for a period of 64 bits, copies the counter that `get_counter`
-- returns; its period ends at the second clock reading and starts `period` before the first, modulo
-- 2^64; and it counts one sample.
pub rollup-get_counter :
    (storage : UsageRollup) (junk : UsageCounter) (m : UbbMeter) (sub svc period start end : ℕ)
    → IsTracked m sub svc
    → period < u64_mod
    → let r = rollup storage m sub svc period start end in
      Copies r (get_counter junk m sub svc)
      × (r.subscriber_id ≡ sub)
      × (r.service_id ≡ svc)
      × (r.period_end_ns ≡ end)
      × ((r.period_start_ns + period) % u64_mod ≡ start % u64_mod)
      × (r.sample_count ≡ 1)
unfolding rollup open_rollup fill_rollup get_counter
rollup-get_counter storage junk m sub svc period start end tracked small = ground arith

-- Two rollups report the same usage of the same pair.
pub record SameUsage (r s : UsageRollup) : Type 0 where
  pub subscriber : r.subscriber_id ≡ s.subscriber_id
  pub service : r.service_id ≡ s.service_id
  pub up_bytes : r.uplink_bytes ≡ s.uplink_bytes
  pub down_bytes : r.downlink_bytes ≡ s.downlink_bytes
  pub up_packets : r.uplink_packets ≡ s.uplink_packets
  pub down_packets : r.downlink_packets ≡ s.downlink_packets

batch_from-rollup :
    (storage : UsageRollup) (m : UbbMeter) (clock : ℕ → ℕ) (i period : ℕ) (cs : Counters)
    → All IsEntry cs
    → All (λ e. lookup e.0 m.counters ≡ some e.1) cs
    → All
        (λ r.
          (junk : UsageRollup) (start end : ℕ)
          → SameUsage r (rollup junk m r.subscriber_id r.service_id period start end))
        (batch_from storage clock i period cs)
unfolding batch_from rollup open_rollup fill_rollup
batch_from-rollup storage m clock i period [] h k = tt
batch_from-rollup storage m clock i period ((key, c) ∷ cs) h k = (
  λ junk start end.
      let e : lookup (counter_key c.subscriber_id c.service_id) m.counters ≡ some c =
        subst (λ j. lookup j m.counters ≡ some c) h.0.keyed k.0 in
      ground arith,
  batch_from-rollup storage m clock (i + 2) period cs h.1 k.1,
)

-- On a valid meter each rollup of a batch reports the usage that `rollup` reports for its pair.
pub batch_rollup-rollup :
    (storage : UsageRollup) (m : UbbMeter) (clock : ℕ → ℕ) (period : ℕ)
    → IsValid m
    → All
        (λ r.
          (junk : UsageRollup) (start end : ℕ)
          → SameUsage r (rollup junk m r.subscriber_id r.service_id period start end))
        (batch_rollup storage m clock period)
unfolding batch_rollup
batch_rollup-rollup storage m clock period v =
    batch_from-rollup storage m clock 0 period m.counters v.entries
      (All-lookup m.counters m.counters (λ k c e. e) v.unique)

batch_from-bytes :
    (storage : UsageRollup) (clock : ℕ → ℕ) (i period : ℕ) (cs : Counters)
    → sum_by (λ r. r.uplink_bytes + r.downlink_bytes) (batch_from storage clock i period cs)
      ≡ sum_by entry_bytes cs
unfolding batch_from fill_rollup
batch_from-bytes storage clock i period [] = refl
batch_from-bytes storage clock i period ((key, c) ∷ cs) =
    omega (arith, batch_from-bytes storage clock (i + 2) period cs)

length-batch_from :
    (storage : UsageRollup) (clock : ℕ → ℕ) (i period : ℕ) (cs : Counters)
    → length (batch_from storage clock i period cs) ≡ length cs
unfolding batch_from
length-batch_from storage clock i period [] = refl
length-batch_from storage clock i period (e ∷ cs) =
    ap suc (length-batch_from storage clock (i + 2) period cs)

-- A batch has one rollup for each counter, and its bytes add up to the total usage, modulo 2^64.
pub batch_rollup-total :
    (storage : UsageRollup) (m : UbbMeter) (clock : ℕ → ℕ) (period : ℕ)
    → (length (batch_rollup storage m clock period) ≡ length m.counters)
      × (sum_by (λ r. r.uplink_bytes + r.downlink_bytes) (batch_rollup storage m clock period)
            % u64_mod
          ≡ get_total_usage m)
unfolding batch_rollup
batch_rollup-total storage m clock period = (
  length-batch_from storage clock 0 period m.counters,
  omega (arith, batch_from-bytes storage clock 0 period m.counters, get_total_usage-sum m),
)

-- The alert: `check_threshold` reports true exactly when the pair's bytes, both directions added
-- modulo 2^64, exceed the threshold; only then the pair's breach count goes up by one modulo 2^32,
-- and no other counter and no other word of the pair's counter changes.
pub check_threshold_lem :
    (junk : UsageCounter) (m : UbbMeter) (sub svc threshold s v : ℕ)
    → let (m', exceeded) = check_threshold m sub svc threshold in
      let c = get_counter junk m sub svc in
      let d = get_counter junk m s v in
      (exceeded ≡ ltb threshold ((c.uplink_bytes + c.downlink_bytes) % u64_mod))
      × (get_counter junk m' s v ≡ (
          if exceeded && (counter_key sub svc == counter_key s v)
          then record d { threshold_breaches = (d.threshold_breaches + 1) % u32_mod }
          else d))
unfolding check_threshold get_counter empty_counter add_breach
check_threshold_lem junk m sub svc threshold s v = (
  ground arith,
  ground (arith, lookup-modify (counter_key sub svc) (counter_key s v) add_breach m.counters),
)
