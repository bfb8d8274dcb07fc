-- ===== src/Metering/Shared/Examples.antt =====
-- Two threads that update a counter while a third checks its threshold and a fourth rolls it up.
use virtual_service_gateway.Common.{
  ℕ, ◌≡◌, ◌+◌, ◌%◌, ◌<◌, refl, true, false, List, [], ◌∷◌, map, All, some, arith, u32_mod, u64_mod,
  sum_by, ◌++◌, replicate, get_elem?,
}
use virtual_service_gateway.Common.Threads.{move_thread, run_threads}
use virtual_service_gateway.Metering.Counter.{UsageCounter, UsageRollup, new_counter, open_rollup}
use virtual_service_gateway.Metering.Shared.Tasks.{
  Update, update_accesses, accesses, perform, Task, updating, rolled, answered, advance, Program,
  updates, check, roll, start_task, run_sequentially,
}
use virtual_service_gateway.Metering.Shared.Slots.{
  absent, SlotTask, points_to, Call, find_counter, erase_counter, release_erased, undefined,
  slot_step,
}
use virtual_service_gateway.Metering.Shared.Creation.{
  second_only, two_updates, first_update_lost, half_created_undefined, replaced_counter_undefined,
  erased_update_undefined,
}
use virtual_service_gateway.Metering.Shared.Updates.{
  Word, up_bytes, down_bytes, up_packets, down_packets, word, IsDone, interleaved_updates,
}
use virtual_service_gateway.Metering.Shared.Alerts.{
  alerts, Informed, Sampled, interleaved_checks, interleaved_rollups,
}

abbrev blank : UsageRollup
blank = record {
  subscriber_id = 0;
  service_id = 0;
  period_start_ns = 0;
  period_end_ns = 0;
  uplink_bytes = 9;
  downlink_bytes = 9;
  uplink_packets = 9;
  downlink_packets = 9;
  sample_count = 9;
}

abbrev up : ℕ → ℕ → Update
up bytes now = record { bytes = bytes; uplink = true; now = now }

abbrev down : ℕ → ℕ → Update
down bytes now = record { bytes = bytes; uplink = false; now = now }

abbrev programs : List Program
programs =
    updates (up 1000 10 ∷ [])
    ∷ updates (down 500 11 ∷ [])
    ∷ check 1200
    ∷ roll (open_rollup blank 1 100 5 12 13)
    ∷ []

-- The rollup reads the uplink bytes before and the packets after the updates; the check sees both.
abbrev turns_taken : List ℕ
turns_taken = 3 ∷ 0 ∷ 1 ∷ 1 ∷ 0 ∷ 2 ∷ 3 ∷ 1 ∷ 0 ∷ 2 ∷ 3 ∷ 3 ∷ 2 ∷ []

abbrev fresh : UsageCounter
fresh = new_counter 1 100 5

abbrev system : UsageCounter × List Task
system = run_threads advance (fresh, map start_task programs) turns_taken

-- The rollup shows an uplink packet without its bytes; the check sees the bytes of both.
test_torn_rollup :
    system.1
    ≡ updating []
      ∷ updating []
      ∷ answered 1200 true
      ∷ rolled (record (open_rollup blank 1 100 5 12 13) {
        uplink_bytes = 0;
        downlink_bytes = 500;
        uplink_packets = 1;
        downlink_packets = 1;
        sample_count = 1;
      })
      ∷ []
unfolding run_threads move_thread advance start_task accesses update_accesses perform new_counter
    open_rollup
test_torn_rollup = refl

abbrev fresh_words : (w : Word) → word w fresh < u64_mod
unfolding new_counter
fresh_words up_bytes = omega arith
fresh_words down_bytes = omega arith
fresh_words up_packets = omega arith
fresh_words down_packets = omega arith

interleaved_updates_example :
    let (c, ts) = system in
    All IsDone ts × ((w : Word) → word w c ≡ word w (run_sequentially programs fresh))
unfolding start_task accesses update_accesses
interleaved_updates_example =
    interleaved_updates fresh programs turns_taken fresh_words
      (omega arith, (omega arith, (omega arith, (omega arith, tt))))

interleaved_checks_example :
    let (c, ts) = system in
    All (Informed fresh c) ts
    × (c.threshold_breaches ≡ (fresh.threshold_breaches + sum_by alerts ts) % u32_mod)
unfolding start_task accesses update_accesses new_counter
interleaved_checks_example =
    interleaved_checks fresh programs turns_taken (omega arith) (omega arith)

interleaved_rollups_example : let (c, ts) = system in All (Sampled fresh c) ts
unfolding start_task accesses update_accesses new_counter
interleaved_rollups_example = interleaved_rollups fresh programs turns_taken (omega arith)

abbrev first_call : Call
first_call = record { update = up 1000 10; created = 9 }

abbrev second_call : Call
second_call = record { update = down 500 11; created = 8 }

first_update_lost_example :
    two_updates 1 100 first_call second_call (0 ∷ 1 ∷ replicate 13 0 ++ replicate 13 1)
    ≡ second_only 1 100 first_call second_call
first_update_lost_example = first_update_lost 1 100 first_call second_call

abbrev creators : List SlotTask
creators = find_counter second_call [] ∷ find_counter first_call [] ∷ []

half_created_undefined_example :
    get_elem?
      (run_threads
        (slot_step 1 100)
        (record { cells = []; entry = absent; node = 0 }, creators)
        (replicate 3 1 ++ replicate 2 0)).1
      0
    ≡ some undefined
half_created_undefined_example =
    half_created_undefined 1 100 [] 0 creators 1 0 first_call second_call [] [] refl refl
      (λ e. omega arith)

test_replaced_counter :
    get_elem?
      (two_updates 1 100 first_call second_call
        (0 ∷ 1 ∷ replicate 7 0 ++ replicate 4 1 ++ 0 ∷ [])).1
      0
    ≡ some undefined
test_replaced_counter = replaced_counter_undefined 1 100 first_call second_call

test_erased_update :
    (run_threads
      (slot_step 1 100)
      (
        record {
          cells = record { counter = fresh; owners = 1 } ∷ [];
          entry = points_to 0;
          node = 0;
        },
        find_counter first_call [] ∷ erase_counter ∷ [],
      )
      (0 ∷ 1 ∷ 0 ∷ [])).1
    ≡ undefined ∷ release_erased (some 0) ∷ []
test_erased_update = erased_update_undefined 1 100 fresh first_call []

abbrev call_lists : List (List Call)
call_lists = (first_call ∷ second_call ∷ []) ∷ (second_call ∷ []) ∷ []
