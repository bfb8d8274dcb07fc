-- ===== src/Metering/Meter.antt =====
-- The methods of `UBBMeter` in src/metering/ubb_meter.cpp. A method that changes the meter returns it.
-- A clock reading is an argument, one for each call of `now()` on the path; an uninitialised local
-- is an argument too, the `storage` in which it stands.
use virtual_service_gateway.Common.{
  ℕ, ◌+◌, Bool, true, false, List, [], ◌∷◌, none, some, add32, add64, ltb, lookup, insert, modify,
  erase, if◌then◌else◌,
}
use virtual_service_gateway.Metering.Key.{counter_key}
use virtual_service_gateway.Metering.Counter.{
  UsageCounter, UsageRollup, new_counter, empty_counter, add_usage, open_rollup, fill_rollup,
}

abbrev pub Counters : Type 0
Counters = List (ℕ × UsageCounter)

pub record UbbMeter : Type 0 where
  pub counters : Counters
  pub max_subscribers : ℕ

-- The constructor; the default of its argument is 1,000,000.
unfoldable pub new_meter : ℕ → UbbMeter
new_meter max_subscribers = record { counters = []; max_subscribers = max_subscribers }

-- The `if (it == counters_.end())` block of `update_counter`.
unfoldable pub ensure_counter : Counters → ℕ → ℕ → ℕ → Counters
ensure_counter counters subscriber_id service_id created = elim (lookup key counters) [
  | none ↦ insert key (new_counter subscriber_id service_id created) counters
  | some _ ↦ counters
]
  where
    key : ℕ
    key = counter_key subscriber_id service_id

-- `created` is read only if the pair has no counter yet, `now` always.
unfoldable pub update_counter : UbbMeter → ℕ → ℕ → ℕ → Bool → ℕ → ℕ → UbbMeter
update_counter m subscriber_id service_id bytes uplink created now = record m {
  counters =
      modify (counter_key subscriber_id service_id) (add_usage bytes uplink now)
        (ensure_counter m.counters subscriber_id service_id created);
}

unfoldable pub get_counter : UsageCounter → UbbMeter → ℕ → ℕ → UsageCounter
get_counter storage m subscriber_id service_id =
    elim (lookup (counter_key subscriber_id service_id) m.counters) [
      | none ↦ empty_counter storage subscriber_id service_id
      | some c ↦ c
    ]

unfoldable pub rollup : UsageRollup → UbbMeter → ℕ → ℕ → ℕ → ℕ → ℕ → UsageRollup
rollup storage m subscriber_id service_id rollup_period_ns now_start now_end =
    elim (lookup (counter_key subscriber_id service_id) m.counters) [
      | none ↦ opened
      | some c ↦ fill_rollup opened c
    ]
  where
    opened : UsageRollup
    opened = open_rollup storage subscriber_id service_id rollup_period_ns now_start now_end

-- The loop of `batch_rollup`. `clock i` is the i-th reading of the clock in the call, and `storage`
-- what the loop's local variable holds; every field of it is assigned.
unfoldable pub batch_from : UsageRollup → (ℕ → ℕ) → ℕ → ℕ → Counters → List UsageRollup
batch_from storage clock i rollup_period_ns [] = []
batch_from storage clock i rollup_period_ns ((_, c) ∷ counters) =
    fill_rollup
      (open_rollup storage c.subscriber_id c.service_id rollup_period_ns (clock i) (clock (i + 1)))
      c
    ∷ batch_from storage clock (i + 2) rollup_period_ns counters

unfoldable pub batch_rollup : UsageRollup → UbbMeter → (ℕ → ℕ) → ℕ → List UsageRollup
batch_rollup storage m clock rollup_period_ns =
    batch_from storage clock 0 rollup_period_ns m.counters

unfoldable pub reset_counter : UbbMeter → ℕ → ℕ → UbbMeter
reset_counter m subscriber_id service_id = record m {
  counters = erase (counter_key subscriber_id service_id) m.counters;
}

-- `counter->threshold_breaches += 1`.
unfoldable pub add_breach : UsageCounter → UsageCounter
add_breach c = record c { threshold_breaches = add32 c.threshold_breaches 1 }

unfoldable pub check_threshold : UbbMeter → ℕ → ℕ → ℕ → UbbMeter × Bool
check_threshold m subscriber_id service_id threshold_bytes = elim (lookup key m.counters) [
  | none ↦ (m, false)
  | some c ↦
      if ltb threshold_bytes (add64 c.uplink_bytes c.downlink_bytes)
      then (record m { counters = modify key add_breach m.counters }, true)
      else (m, false)
]
  where
    key : ℕ
    key = counter_key subscriber_id service_id

-- The loop of `get_total_usage`.
unfoldable pub total_from : ℕ → Counters → ℕ
total_from total [] = total
total_from total ((_, c) ∷ counters) =
    total_from (add64 (add64 total c.uplink_bytes) c.downlink_bytes) counters

unfoldable pub get_total_usage : UbbMeter → ℕ
get_total_usage m = total_from 0 m.counters
