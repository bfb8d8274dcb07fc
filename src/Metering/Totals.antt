-- ===== src/Metering/Totals.antt =====
-- `get_total_usage` against the updates and resets that led to it.
use virtual_service_gateway.Common.{
  ℕ, ◌<◌, ◌+◌, ◌%◌, ◌≡◌, ◌∙◌, inl, inr, Bool, List, [], ◌∷◌, none, some, arith, sum_by, u64_mod,
  lookup, sum_by-insert, sum_by-erase, sum_by-modify, Option-cases, ==_refl, erase_absent,
}
use virtual_service_gateway.Metering.Key.{counter_key}
use virtual_service_gateway.Metering.Counter.{UsageCounter, new_counter, add_usage}
use virtual_service_gateway.Metering.Meter.{
  UbbMeter, Counters, new_meter, ensure_counter, update_counter, reset_counter, total_from,
  get_total_usage,
}
use virtual_service_gateway.Metering.Lookup.{counter_or_new, lookup-ensure_counter}
use virtual_service_gateway.Metering.History.{run, step}
use virtual_service_gateway.Metering.Order.{Packet, updates}

-- The bytes of one entry, both directions.
abbrev pub entry_bytes : ℕ × UsageCounter → ℕ
entry_bytes e = e.1.uplink_bytes + e.1.downlink_bytes

total_from-sum :
    (total : ℕ) (cs : Counters)
    → total < u64_mod
    → total_from total cs ≡ (total + sum_by entry_bytes cs) % u64_mod
unfolding total_from
total_from-sum total [] h = omega arith
total_from-sum total ((k, c) ∷ cs) h =
    total_from-sum ((((total + c.uplink_bytes) % u64_mod) + c.downlink_bytes) % u64_mod) cs
      (omega arith)
    ∙ omega arith

-- The loop's wrapped additions amount to one sum over the counters, reduced once at the end.
pub get_total_usage-sum :
    (m : UbbMeter) → get_total_usage m ≡ sum_by entry_bytes m.counters % u64_mod
unfolding get_total_usage
get_total_usage-sum m = total_from-sum 0 m.counters (omega arith) ∙ omega arith

ensure_counter-bytes :
    (cs : Counters) (sub svc created : ℕ)
    → sum_by entry_bytes (ensure_counter cs sub svc created) ≡ sum_by entry_bytes cs
unfolding ensure_counter new_counter
ensure_counter-bytes cs sub svc created = elim (Option-cases (lookup (counter_key sub svc) cs)) [
  | inl e ↦
      rw (e, ensure_counter)
        (omega (
          arith,
          sum_by-insert entry_bytes (counter_key sub svc) (new_counter sub svc created) cs e,
        ))
  | inr (c, e) ↦ rw (e, ensure_counter)
]

ensured :
    (cs : Counters) (sub svc created : ℕ)
    → lookup (counter_key sub svc) (ensure_counter cs sub svc created)
      ≡ some (counter_or_new cs sub svc created)
ensured cs sub svc created =
    rw (
      lookup-ensure_counter cs sub svc created (counter_key sub svc),
      ==_refl (counter_key sub svc),
    )

add_usage-bytes :
    (bytes : ℕ) (uplink : Bool) (now k : ℕ) (c : UsageCounter)
    → entry_bytes (k, add_usage bytes uplink now c) % u64_mod
      ≡ (entry_bytes (k, c) + bytes) % u64_mod
unfolding add_usage
add_usage-bytes bytes uplink now k c = ground arith

-- An update adds its bytes to the total, modulo 2^64, whichever pair and direction it is for.
pub total-update_counter :
    (m : UbbMeter) (sub svc bytes : ℕ) (uplink : Bool) (created now : ℕ)
    → get_total_usage (update_counter m sub svc bytes uplink created now)
      ≡ (get_total_usage m + bytes) % u64_mod
unfolding update_counter
total-update_counter m sub svc bytes uplink created now =
    let cs = ensure_counter m.counters sub svc created in
    let c = counter_or_new m.counters sub svc created in
    let k = counter_key sub svc in
    omega (
      arith,
      get_total_usage-sum m,
      get_total_usage-sum (update_counter m sub svc bytes uplink created now),
      ensure_counter-bytes m.counters sub svc created,
      add_usage-bytes bytes uplink now k c,
      sum_by-modify entry_bytes k (add_usage bytes uplink now) cs c
          (ensured m.counters sub svc created),
    )

-- A reset takes the pair's bytes out of the total, modulo 2^64, and nothing if it has no counter.
pub total-reset_counter :
    (m : UbbMeter) (sub svc : ℕ)
    → (get_total_usage (reset_counter m sub svc) + elim (lookup (counter_key sub svc) m.counters) [
      | none ↦ 0
      | some c ↦ c.uplink_bytes + c.downlink_bytes
    ])
        % u64_mod
      ≡ get_total_usage m
unfolding reset_counter
total-reset_counter m sub svc = elim (Option-cases (lookup (counter_key sub svc) m.counters)) [
  | inl e ↦
      rw (e, erase_absent (counter_key sub svc) m.counters e) (omega (arith, get_total_usage-sum m))
  | inr (c, e) ↦ rw e (
      omega (
        arith,
        get_total_usage-sum m,
        get_total_usage-sum (reset_counter m sub svc),
        sum_by-erase entry_bytes (counter_key sub svc) m.counters c e,
      ))
]

total_run :
    (m : UbbMeter) (ps : List Packet)
    → get_total_usage (run m (updates ps))
      ≡ (get_total_usage m + sum_by (λ p. p.bytes) ps) % u64_mod
unfolding run step
total_run m [] = omega (arith, get_total_usage-sum m)
total_run m (p ∷ ps) =
    let m' = update_counter m p.subscriber_id p.service_id p.bytes p.uplink p.created p.now in
    omega (
      arith,
      total_run m' ps,
      total-update_counter m p.subscriber_id p.service_id p.bytes p.uplink p.created p.now,
    )

-- A new meter that accounts some packets reports the sum of their bytes, modulo 2^64.
pub get_total_usage-run :
    (max_subscribers : ℕ) (ps : List Packet)
    → get_total_usage (run (new_meter max_subscribers) (updates ps))
      ≡ sum_by (λ p. p.bytes) ps % u64_mod
unfolding new_meter get_total_usage total_from
get_total_usage-run max ps = omega (arith, total_run (new_meter max) ps)
