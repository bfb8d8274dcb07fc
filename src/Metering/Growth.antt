-- ===== src/Metering/Growth.antt =====
-- How many counters a meter holds, and what `max_subscribers` has to do with it.
use virtual_service_gateway.Common.{
  ℕ, zero, suc, ◌<◌, ◌≤◌, ◌+◌, ◌≡◌, ◌∙◌, refl, Bool, true, List, [], ◌∷◌, none, some, arith, length,
  u32_mod, lookup, length-insert, length-modify,
}
use virtual_service_gateway.Metering.Key.{counter_key, counter_key_injective}
use virtual_service_gateway.Metering.Counter.{new_counter}
use virtual_service_gateway.Metering.Meter.{
  UbbMeter, Counters, new_meter, ensure_counter, update_counter,
}
use virtual_service_gateway.Metering.Lookup.{lookup-update_counter}
use virtual_service_gateway.Metering.History.{Call, update, run, step}

length-ensure_counter :
    (cs : Counters) (sub svc created : ℕ)
    → length (ensure_counter cs sub svc created)
      ≡ length cs + elim (lookup (counter_key sub svc) cs) [ none ↦ 1 | some _ ↦ 0 ]
unfolding ensure_counter
length-ensure_counter cs sub svc created =
    ground (arith, length-insert (counter_key sub svc) (new_counter sub svc created) cs)

length-update_counter :
    (m : UbbMeter) (sub svc bytes : ℕ) (uplink : Bool) (created now : ℕ)
    → length (update_counter m sub svc bytes uplink created now).counters
      ≡ length m.counters + elim (lookup (counter_key sub svc) m.counters) [ none ↦ 1 | some _ ↦ 0 ]
unfolding update_counter
length-update_counter m sub svc bytes uplink created now =
    length-modify _ _ _ ∙ length-ensure_counter m.counters sub svc created

-- One packet for each of the subscribers n - 1, ..., 0, on service 0.
abbrev pub one_each : ℕ → List Call
one_each zero = []
one_each (suc n) = update n 0 1 true 0 0 ∷ one_each n

length-one_each :
    (n : ℕ) (m : UbbMeter)
    → n ≤ u32_mod
    → ((i : ℕ) → i < n → lookup (counter_key i 0) m.counters ≡ none)
    → length (run m (one_each n)).counters ≡ length m.counters + n
unfolding run step
length-one_each zero m h free = omega arith
length-one_each (suc n) m h free =
    let m' = update_counter m n 0 1 true 0 0 in
    ground (
      arith,
      length-one_each n m' (omega arith) still_free,
      free n (omega arith),
      length-update_counter m n 0 1 true 0 0,
    )
  where
    still_free :
        (i : ℕ) → i < n → lookup (counter_key i 0) (update_counter m n 0 1 true 0 0).counters ≡ none
    still_free i lt = ground (
      arith,
      lookup-update_counter m n 0 1 true 0 0 (counter_key i 0),
      counter_key_injective n 0 i 0 (omega arith) (omega arith) (omega arith) (omega arith),
      free i (omega arith),
    )

-- `max_subscribers` bounds nothing: whatever it is, packets of n distinct subscribers (n at most
-- 2^32) leave n counters.
pub max_subscribers_unenforced :
    (max_subscribers n : ℕ)
    → n ≤ u32_mod
    → length (run (new_meter max_subscribers) (one_each n)).counters ≡ n
unfolding new_meter lookup
max_subscribers_unenforced max n h =
    length-one_each n (new_meter max) h (λ i lt. refl) ∙ omega arith
