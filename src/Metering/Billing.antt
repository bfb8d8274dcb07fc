-- ===== src/Metering/Billing.antt =====
-- The counters of a meter agree with the bill of its history.
use virtual_service_gateway.Common.{
  ℕ, ◌%◌, ◌<◌, ◌≡◌, ap₂, subst, Bool, true, ◌&&◌, List, [], ◌∷◌, Option, none, some, arith, u16_mod,
  u32_mod, u64_mod, ◌==◌, All, lookup, inl, inr, Bool-cases,
}
use mathlib.Core.Option
use virtual_service_gateway.Metering.Key.{counter_key, counter_key_injective}
use virtual_service_gateway.Metering.Counter.{UsageCounter, new_counter, empty_counter, add_usage}
use virtual_service_gateway.Metering.Meter.{
  UbbMeter, Counters, new_meter, check_threshold, get_counter, add_breach,
}
use virtual_service_gateway.Metering.Lookup.{
  counter_or_new, lookup-update_counter, lookup-reset_counter, lookup-check_threshold,
}
use virtual_service_gateway.Metering.Invariant.{IsValid, new_meter-IsValid}
use virtual_service_gateway.Metering.History.{
  Call, update, reset, check, step, run, InRange, step-IsValid, Tally, no_usage, add_to, bill,
  bill_all,
}

-- Of pairs in range, the packed keys are equal exactly when the pairs are.
pub same_key :
    (s v s' v' : ℕ)
    → s < u32_mod
    → v < u16_mod
    → s' < u32_mod
    → v' < u16_mod
    → (counter_key s v == counter_key s' v') ≡ (s == s' && v == v')
same_key s v s' v' hs hv hs' hv' = ground (arith, counter_key_injective s v s' v' hs hv hs' hv')

-- A counter, or its absence, shows a tally modulo the word size.
pub record Shows (o : Option UsageCounter) (t : Tally) : Type 0 where
  pub up_bytes : elim o [ none ↦ 0 | some c ↦ c.uplink_bytes ] ≡ t.up_bytes % u64_mod
  pub down_bytes : elim o [ none ↦ 0 | some c ↦ c.downlink_bytes ] ≡ t.down_bytes % u64_mod
  pub up_packets : elim o [ none ↦ 0 | some c ↦ c.uplink_packets ] ≡ t.up_packets % u64_mod
  pub down_packets : elim o [ none ↦ 0 | some c ↦ c.downlink_packets ] ≡ t.down_packets % u64_mod

-- The same of a counter that `get_counter` returned.
pub record Owes (c : UsageCounter) (t : Tally) : Type 0 where
  pub up_bytes : c.uplink_bytes ≡ t.up_bytes % u64_mod
  pub down_bytes : c.downlink_bytes ≡ t.down_bytes % u64_mod
  pub up_packets : c.uplink_packets ≡ t.up_packets % u64_mod
  pub down_packets : c.downlink_packets ≡ t.down_packets % u64_mod

Shows-add_usage :
    (cs : Counters) (sub svc bytes : ℕ) (uplink : Bool) (created now : ℕ) (t : Tally)
    → Shows (lookup (counter_key sub svc) cs) t
    → Shows
        (some (add_usage bytes uplink now (counter_or_new cs sub svc created)))
        (add_to t bytes uplink)
unfolding add_usage counter_or_new new_counter
Shows-add_usage cs sub svc bytes uplink created now t h = ground arith

Shows-add_breach :
    (o : Option UsageCounter) (t : Tally) → Shows o t → Shows (Option.map add_breach o) t
unfolding add_breach
Shows-add_breach o t h = ground arith

same_pair :
    (m : UbbMeter) (sub svc s v : ℕ) (t : Tally)
    → (sub == s && svc == v) ≡ true
    → Shows (lookup (counter_key s v) m.counters) t
    → Shows (lookup (counter_key sub svc) m.counters) t
same_pair m sub svc s v t e h =
    let es : s ≡ sub = ground arith in
    let ev : v ≡ svc = ground arith in
    subst (λ k. Shows (lookup k m.counters) t) (ap₂ counter_key es ev) h

step-Shows :
    (m : UbbMeter) (c : Call) (s v : ℕ) (t : Tally)
    → InRange c
    → s < u32_mod
    → v < u16_mod
    → IsValid m
    → Shows (lookup (counter_key s v) m.counters) t
    → Shows (lookup (counter_key s v) (step m c).counters) (bill s v t c)
unfolding step bill
step-Shows m (update sub svc bytes uplink created now) s v t r hs hv w h =
    rw
      (
        lookup-update_counter m sub svc bytes uplink created now (counter_key s v),
        same_key sub svc s v r.0 r.1 hs hv,
      )
      (elim (Bool-cases (sub == s && svc == v)) [
        | inl same ↦ rw same (
            Shows-add_usage m.counters sub svc bytes uplink created now t
              (same_pair m sub svc s v t same h))
        | inr other ↦ rw other h
      ])
step-Shows m (reset sub svc) s v t r hs hv w h =
    rw
      (
        lookup-reset_counter m sub svc (counter_key s v) w.unique,
        same_key sub svc s v r.0 r.1 hs hv,
      )
      (ground arith)
step-Shows m (check sub svc threshold) s v t r hs hv w h =
    rw (lookup-check_threshold m sub svc threshold (counter_key s v))
      (elim (Bool-cases (check_threshold m sub svc threshold).1) [
        | inl e ↦ rw e (elim (Bool-cases (counter_key sub svc == counter_key s v)) [
          | inl same ↦ rw same (Shows-add_breach _ t h)
          | inr other ↦ rw other h
        ])
        | inr e ↦ rw e h
      ])

run-Shows :
    (m : UbbMeter) (cs : List Call) (s v : ℕ) (t : Tally)
    → All InRange cs
    → s < u32_mod
    → v < u16_mod
    → IsValid m
    → Shows (lookup (counter_key s v) m.counters) t
    → Shows (lookup (counter_key s v) (run m cs).counters) (bill_all s v t cs)
unfolding run bill_all
run-Shows m [] s v t r hs hv w h = h
run-Shows m (c ∷ cs) s v t r hs hv w h =
    run-Shows (step m c) cs s v (bill s v t c) r.1 hs hv (step-IsValid m c r.0 w)
      (step-Shows m c s v t r.0 hs hv w h)

Owes-get_counter :
    (storage : UsageCounter) (m : UbbMeter) (s v : ℕ) (t : Tally)
    → Shows (lookup (counter_key s v) m.counters) t
    → Owes (get_counter storage m s v) t
unfolding get_counter empty_counter
Owes-get_counter storage m s v t h = ground arith

-- After any calls with arguments in range on a new meter, the counter that `get_counter` returns
-- for a pair of words in range holds the bill of the pair since its last reset, each word modulo
-- 2^64.
pub get_counter-run :
    (storage : UsageCounter) (max_subscribers : ℕ) (cs : List Call) (s v : ℕ)
    → All InRange cs
    → s < u32_mod
    → v < u16_mod
    → Owes (get_counter storage (run (new_meter max_subscribers) cs) s v) (bill_all s v no_usage cs)
unfolding new_meter lookup
get_counter-run storage max cs s v r hs hv =
    Owes-get_counter storage (run (new_meter max) cs) s v _
      (run-Shows (new_meter max) cs s v no_usage r hs hv (new_meter-IsValid max) (ground arith))
