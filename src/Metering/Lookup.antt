-- ===== src/Metering/Lookup.antt =====
-- What each operation does to the counter found under a key.
use virtual_service_gateway.Common.{
  ℕ, ◌≡◌, Bool, none, some, ◌==◌, if◌then◌else◌, arith, lookup, lookup-modify, lookup-insert,
  lookup-erase, IsMap,
}
use mathlib.Core.Option
use virtual_service_gateway.Metering.Key.{counter_key}
use virtual_service_gateway.Metering.Counter.{UsageCounter, new_counter, add_usage}
use virtual_service_gateway.Metering.Meter.{
  UbbMeter, Counters, ensure_counter, update_counter, reset_counter, check_threshold, add_breach,
}

-- The counter that an update works on.
unfoldable pub counter_or_new : Counters → ℕ → ℕ → ℕ → UsageCounter
counter_or_new counters sub svc created = elim (lookup (counter_key sub svc) counters) [
  | none ↦ new_counter sub svc created
  | some c ↦ c
]

pub lookup-ensure_counter :
    (cs : Counters) (sub svc created j : ℕ)
    → lookup j (ensure_counter cs sub svc created)
      ≡ (if counter_key sub svc == j then some (counter_or_new cs sub svc created) else lookup j cs)
unfolding ensure_counter counter_or_new
lookup-ensure_counter cs sub svc created j =
    ground (arith, lookup-insert (counter_key sub svc) j (new_counter sub svc created) cs)

pub lookup-update_counter :
    (m : UbbMeter) (sub svc bytes : ℕ) (uplink : Bool) (created now j : ℕ)
    → lookup j (update_counter m sub svc bytes uplink created now).counters ≡ (
        if counter_key sub svc == j
        then some (add_usage bytes uplink now (counter_or_new m.counters sub svc created))
        else lookup j m.counters)
unfolding update_counter
lookup-update_counter m sub svc bytes uplink created now j = ground (
  arith,
  lookup-modify (counter_key sub svc) j (add_usage bytes uplink now)
      (ensure_counter m.counters sub svc created),
  lookup-ensure_counter m.counters sub svc created j,
)

pub lookup-reset_counter :
    (m : UbbMeter) (sub svc j : ℕ)
    → IsMap m.counters
    → lookup j (reset_counter m sub svc).counters
      ≡ (if counter_key sub svc == j then none else lookup j m.counters)
unfolding reset_counter
lookup-reset_counter m sub svc j h = lookup-erase (counter_key sub svc) j m.counters h

pub lookup-check_threshold :
    (m : UbbMeter) (sub svc threshold j : ℕ)
    → let (m', exceeded) = check_threshold m sub svc threshold in
      lookup j m'.counters ≡ (
        if exceeded
        then (if counter_key sub svc == j
            then Option.map add_breach (lookup j m.counters)
            else lookup j m.counters)
        else lookup j m.counters)
unfolding check_threshold
lookup-check_threshold m sub svc threshold j =
    ground (arith, lookup-modify (counter_key sub svc) j add_breach m.counters)
