-- ===== src/Metering/History.antt =====
-- Sequences of calls on one `UBBMeter`, and the bill that they amount to.
use virtual_service_gateway.Common.{
  ℕ, ◌+◌, ◌<◌, Bool, ◌&&◌, List, [], ◌∷◌, u16_mod, u32_mod, ◌==◌, if◌then◌else◌, All,
}
use virtual_service_gateway.Metering.Meter.{
  UbbMeter, update_counter, reset_counter, check_threshold,
}
use virtual_service_gateway.Metering.Invariant.{
  IsValid, update_counter-IsValid, reset_counter-IsValid, check_threshold-IsValid,
}

-- A call with its arguments and its clock readings.
pub data Call : Type 0 where
  update : ℕ → ℕ → ℕ → Bool → ℕ → ℕ → Call
  reset : ℕ → ℕ → Call
  check : ℕ → ℕ → ℕ → Call

unfoldable pub step : UbbMeter → Call → UbbMeter
step m (update sub svc bytes uplink created now) = update_counter m sub svc bytes uplink created now
step m (reset sub svc) = reset_counter m sub svc
step m (check sub svc threshold) = (check_threshold m sub svc threshold).0

unfoldable pub run : UbbMeter → List Call → UbbMeter
run m [] = m
run m (c ∷ cs) = run (step m c) cs

-- The arguments have the widths of their C++ types.
abbrev pub InRange : Call → Type 0
InRange (update sub svc bytes uplink created now) = (sub < u32_mod) × (svc < u16_mod)
InRange (reset sub svc) = (sub < u32_mod) × (svc < u16_mod)
InRange (check sub svc threshold) = (sub < u32_mod) × (svc < u16_mod)

pub step-IsValid : (m : UbbMeter) (c : Call) → InRange c → IsValid m → IsValid (step m c)
unfolding step
step-IsValid m (update sub svc bytes uplink created now) h v =
    update_counter-IsValid m sub svc bytes uplink created now h.0 h.1 v
step-IsValid m (reset sub svc) h v = reset_counter-IsValid m sub svc v
step-IsValid m (check sub svc threshold) h v = check_threshold-IsValid m sub svc threshold v

-- Any calls with arguments in range keep a valid meter valid.
pub run-IsValid : (m : UbbMeter) (cs : List Call) → All InRange cs → IsValid m → IsValid (run m cs)
unfolding run
run-IsValid m [] h v = v
run-IsValid m (c ∷ cs) h v = run-IsValid (step m c) cs h.1 (step-IsValid m c h.0 v)

-- What a pair owes, in unbounded numbers.
pub record Tally : Type 0 where
  pub up_bytes : ℕ
  pub down_bytes : ℕ
  pub up_packets : ℕ
  pub down_packets : ℕ

abbrev pub no_usage : Tally
no_usage = record { up_bytes = 0; down_bytes = 0; up_packets = 0; down_packets = 0 }

abbrev pub add_to : Tally → ℕ → Bool → Tally
add_to t bytes uplink =
    if uplink
    then record t { up_bytes = t.up_bytes + bytes; up_packets = t.up_packets + 1 }
    else record t { down_bytes = t.down_bytes + bytes; down_packets = t.down_packets + 1 }

-- One call's effect on the bill of one pair: an update of the pair adds its bytes and a packet in
-- its direction, a reset of the pair clears the bill, and no other call touches it.
unfoldable pub bill : ℕ → ℕ → Tally → Call → Tally
bill s v t (update sub svc bytes uplink created now) =
    if sub == s && svc == v then add_to t bytes uplink else t
bill s v t (reset sub svc) = if sub == s && svc == v then no_usage else t
bill s v t (check sub svc threshold) = t

unfoldable pub bill_all : ℕ → ℕ → Tally → List Call → Tally
bill_all s v t [] = t
bill_all s v t (c ∷ cs) = bill_all s v (bill s v t c) cs
