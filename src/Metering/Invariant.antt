-- ===== src/Metering/Invariant.antt =====
-- The meter's well-formedness, which the constructor establishes and every method keeps.
use virtual_service_gateway.Common.{
  ℕ, ◌<◌, ◌≡◌, inl, inr, Bool, All, arith, u16_mod, u32_mod, u64_mod, IsMap, lookup, Option-cases,
  insert-IsMap, modify-IsMap, erase-IsMap, All-insert, All-modify, All-erase, Bool-cases, ltb,
  add64, modify,
}
use virtual_service_gateway.Metering.Key.{counter_key}
use virtual_service_gateway.Metering.Counter.{UsageCounter, new_counter, add_usage}
use virtual_service_gateway.Metering.Meter.{
  UbbMeter, Counters, new_meter, ensure_counter, update_counter, reset_counter, check_threshold,
  add_breach,
}

-- An entry of the map: its key is the packed pair of its counter, and every word is in range.
pub record IsCounter (k : ℕ) (c : UsageCounter) : Type 0 where
  pub keyed : k ≡ counter_key c.subscriber_id c.service_id
  pub subscriber : c.subscriber_id < u32_mod
  pub service : c.service_id < u16_mod
  pub up_bytes : c.uplink_bytes < u64_mod
  pub down_bytes : c.downlink_bytes < u64_mod
  pub up_packets : c.uplink_packets < u64_mod
  pub down_packets : c.downlink_packets < u64_mod
  pub breaches : c.threshold_breaches < u32_mod

abbrev pub IsEntry : ℕ × UsageCounter → Type 0
IsEntry e = IsCounter e.0 e.1

pub record IsValid (m : UbbMeter) : Type 0 where
  pub unique : IsMap m.counters
  pub entries : All IsEntry m.counters

pub new_meter-IsValid : (max : ℕ) → IsValid (new_meter max)
unfolding new_meter
new_meter-IsValid max = record { unique = tt; entries = tt }

new_counter-IsCounter :
    (sub svc created : ℕ)
    → sub < u32_mod
    → svc < u16_mod
    → IsCounter (counter_key sub svc) (new_counter sub svc created)
unfolding new_counter
new_counter-IsCounter sub svc created hs hv = ground arith

add_usage-IsCounter :
    (bytes : ℕ) (uplink : Bool) (now k : ℕ) (c : UsageCounter)
    → IsCounter k c
    → IsCounter k (add_usage bytes uplink now c)
unfolding add_usage
add_usage-IsCounter bytes uplink now k c h = ground arith

add_breach-IsCounter : (k : ℕ) (c : UsageCounter) → IsCounter k c → IsCounter k (add_breach c)
unfolding add_breach
add_breach-IsCounter k c h = ground arith

module _ (cs : Counters) (sub svc created : ℕ) (hs : sub < u32_mod) (hv : svc < u16_mod) where
  ensure_counter-IsMap : IsMap cs → IsMap (ensure_counter cs sub svc created)
  unfolding ensure_counter
  ensure_counter-IsMap h = elim (Option-cases (lookup (counter_key sub svc) cs)) [
    | inl e ↦ rw (e, ensure_counter) (insert-IsMap _ _ cs h)
    | inr (c, e) ↦ rw (e, ensure_counter) h
  ]

  ensure_counter-entries : All IsEntry cs → All IsEntry (ensure_counter cs sub svc created)
  unfolding ensure_counter
  ensure_counter-entries h = elim (Option-cases (lookup (counter_key sub svc) cs)) [
    | inl e ↦
        rw (e, ensure_counter)
          (All-insert IsEntry _ _ cs h (new_counter-IsCounter sub svc created hs hv))
    | inr (c, e) ↦ rw (e, ensure_counter) h
  ]

-- An update for a 32-bit subscriber and a 16-bit service keeps the meter valid.
pub update_counter-IsValid :
    (m : UbbMeter) (sub svc bytes : ℕ) (uplink : Bool) (created now : ℕ)
    → sub < u32_mod
    → svc < u16_mod
    → IsValid m
    → IsValid (update_counter m sub svc bytes uplink created now)
unfolding update_counter
update_counter-IsValid m sub svc bytes uplink created now hs hv v = record {
  unique = modify-IsMap _ _ _ (ensure_counter-IsMap m.counters sub svc created hs hv v.unique);
  entries =
      All-modify IsEntry _ _ _ (ensure_counter-entries m.counters sub svc created hs hv v.entries)
        (add_usage-IsCounter bytes uplink now);
}

pub reset_counter-IsValid :
    (m : UbbMeter) (sub svc : ℕ) → IsValid m → IsValid (reset_counter m sub svc)
unfolding reset_counter
reset_counter-IsValid m sub svc v = record {
  unique = erase-IsMap _ m.counters v.unique;
  entries = All-erase IsEntry _ m.counters v.entries;
}

breached-IsValid :
    (m : UbbMeter) (k : ℕ)
    → IsValid m
    → IsValid (record m { counters = modify k add_breach m.counters })
breached-IsValid m k v = record {
  unique = modify-IsMap k add_breach m.counters v.unique;
  entries = All-modify IsEntry k add_breach m.counters v.entries add_breach-IsCounter;
}

pub check_threshold-IsValid :
    (m : UbbMeter) (sub svc threshold : ℕ)
    → IsValid m
    → IsValid (check_threshold m sub svc threshold).0
unfolding check_threshold
check_threshold-IsValid m sub svc threshold v =
    elim (Option-cases (lookup (counter_key sub svc) m.counters)) [
      | inl e ↦ rw (e, check_threshold) v
      | inr (c, e) ↦ elim (Bool-cases (ltb threshold (add64 c.uplink_bytes c.downlink_bytes))) [
        | inl t ↦ rw (e, check_threshold) (rw t (breached-IsValid m _ v))
        | inr t ↦ rw (e, check_threshold) (rw t v)
      ]
    ]
