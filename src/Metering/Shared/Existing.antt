-- ===== src/Metering/Shared/Existing.antt =====
-- Updates of a pair whose counter exists, while no thread erases it: every thread stays within what C++
-- defines, and no update is lost.
use virtual_service_gateway.Common.{ℕ, zero, ◌+◌, ◌≡◌, List, [], ◌∷◌, All, sum_by, if◌then◌else◌}
use virtual_service_gateway.Metering.Counter.{UsageCounter}
use virtual_service_gateway.Metering.Shared.Updates.{
  Word, up_bytes, down_bytes, up_packets, down_packets, adds, Owes,
}
use virtual_service_gateway.Metering.Shared.Slots.{
  Slot, points_to, Call, SlotTask, find_counter, load_pointer, access_counter, returned,
}

-- The pair's entry has its one counter.
abbrev pub existing : UsageCounter → Slot
existing c = record {
  cells = record { counter = c; owners = 1 } ∷ [];
  entry = points_to 0;
  node = 0;
}

-- What a call has to add to a word.
abbrev pub call_adds : Word → Call → ℕ
call_adds up_bytes u = if u.update.uplink then u.update.bytes else 0
call_adds down_bytes u = if u.update.uplink then 0 else u.update.bytes
call_adds up_packets u = if u.update.uplink then 1 else 0
call_adds down_packets u = if u.update.uplink then 0 else 1

-- What a thread has still to add to a word: the rest of its call, and the calls after it.
abbrev pub to_come : Word → SlotTask → ℕ
to_come w (find_counter u us) = call_adds w u + sum_by (call_adds w) us
to_come w (load_pointer node writes us) = sum_by (adds w) writes + sum_by (call_adds w) us
to_come w (access_counter node p a writes us) =
    adds w a + sum_by (adds w) writes + sum_by (call_adds w) us
to_come w other = 0

-- A thread that creates nothing, and refers to the entry and its counter.
abbrev pub IsAttached : SlotTask → Type 0
IsAttached (find_counter u us) = Unit
IsAttached (load_pointer zero writes us) = Unit
IsAttached (access_counter zero zero a writes us) = Unit
IsAttached returned = Unit
IsAttached other = ⊥

-- The state after a move on the existing counter: the counter's new value, with what each word owes.
abbrev Moves : UsageCounter → SlotTask → Slot × SlotTask → Type 0
Moves c t (s', t') =
    (c' : UsageCounter) × (s' ≡ existing c')
    × IsAttached t'
    × ((w : Word) (total rest : ℕ)
        → Owes w total c (to_come w t + rest)
        → Owes w total c' (to_come w t' + rest))

module _ (subscriber_id service_id : ℕ) where
  -- The whole state: all threads attached, and each word with what is still to come.
  abbrev Holds : (Word → ℕ) → Slot × List SlotTask → Type 0
  Holds total (s, ts) =
      (c : UsageCounter) × (s ≡ existing c)
      × All IsAttached ts
      × ((w : Word) → Owes w (total w) c (sum_by (to_come w) ts))
