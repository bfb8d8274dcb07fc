-- ===== src/Metering/Order.antt =====
-- Updates commute: only how much each pair used is remembered, not when.
use mathlib.Core.List.{Perm, Permᴰ}
use mathlib.Core.Logic.{∥∥₁_elim}
use virtual_service_gateway.Common.{
  ℕ, ◌<◌, ◌≡◌, ◌∙◌, refl, ap, ap₂, Bool, List, map, arith, All, u16_mod, u32_mod,
}
use virtual_service_gateway.Metering.Counter.{UsageCounter}
use virtual_service_gateway.Metering.Meter.{new_meter, get_counter}
use virtual_service_gateway.Metering.History.{
  Call, update, run, InRange, Tally, no_usage, bill, bill_all,
}
use virtual_service_gateway.Metering.Billing.{get_counter-run}

-- One packet to account: the arguments of `update_counter` and its clock readings.
pub record Packet : Type 0 where
  pub subscriber_id : ℕ
  pub service_id : ℕ
  pub bytes : ℕ
  pub uplink : Bool
  pub created : ℕ
  pub now : ℕ

abbrev pub as_update : Packet → Call
as_update p = update p.subscriber_id p.service_id p.bytes p.uplink p.created p.now

abbrev pub updates : List Packet → List Call
updates = map as_update

Tally-set : IsSet Tally
Tally-set = hlevel

bill_comm :
    (s v : ℕ) (t : Tally) (p q : Packet)
    → bill s v (bill s v t (as_update p)) (as_update q)
      ≡ bill s v (bill s v t (as_update q)) (as_update p)
unfolding bill
bill_comm s v t p q = ground arith

bill_all-permᴰ :
    (s v : ℕ) (t : Tally) {ps qs : List Packet}
    → Permᴰ ps qs
    → bill_all s v t (updates ps) ≡ bill_all s v t (updates qs)
unfolding bill_all
bill_all-permᴰ s v t Permᴰ.nil = refl
bill_all-permᴰ s v t (Permᴰ.cons {a = a} {b = b} {l₂ = l₂} e h) =
    bill_all-permᴰ s v (bill s v t (as_update a)) h
    ∙ ap (λ p. bill_all s v (bill s v t (as_update p)) (updates l₂)) e
bill_all-permᴰ s v t (Permᴰ.swap {a = a} {b = b} {a' = a'} {b' = b'} {l = l} e f) =
    ap (λ u. bill_all s v u (updates l)) (bill_comm s v t a b)
    ∙ ap₂ (λ x y. bill_all s v (bill s v (bill s v t (as_update x)) (as_update y)) (updates l)) f e
bill_all-permᴰ s v t (Permᴰ.trans h k) = bill_all-permᴰ s v t h ∙ bill_all-permᴰ s v t k

bill_all-perm :
    (s v : ℕ) (t : Tally) {ps qs : List Packet}
    → Perm ps qs
    → bill_all s v t (updates ps) ≡ bill_all s v t (updates qs)
bill_all-perm s v t h = ∥∥₁_elim h (Tally-set _ _) (bill_all-permᴰ s v t)

-- On a new meter, two orders of the same packets, with words in range, leave the same bytes and
-- packets in the counter that `get_counter` returns for a pair of words in range.
pub get_counter_order :
    (storage : UsageCounter) (max_subscribers : ℕ) (ps qs : List Packet) (s v : ℕ)
    → Perm ps qs
    → All InRange (updates ps)
    → All InRange (updates qs)
    → s < u32_mod
    → v < u16_mod
    → let c = get_counter storage (run (new_meter max_subscribers) (updates ps)) s v in
      let d = get_counter storage (run (new_meter max_subscribers) (updates qs)) s v in
      (c.uplink_bytes ≡ d.uplink_bytes)
      × (c.downlink_bytes ≡ d.downlink_bytes)
      × (c.uplink_packets ≡ d.uplink_packets)
      × (c.downlink_packets ≡ d.downlink_packets)
get_counter_order storage max ps qs s v perm rp rq hs hv = ground (
  arith,
  get_counter-run storage max (updates ps) s v rp hs hv,
  get_counter-run storage max (updates qs) s v rq hs hv,
  bill_all-perm s v no_usage perm,
)
