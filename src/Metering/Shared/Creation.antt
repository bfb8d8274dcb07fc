-- ===== src/Metering/Shared/Creation.antt =====
-- Threads that create, update and erase the counter of one pair: what goes wrong between them.
use virtual_service_gateway.Common.{
  ℕ, ◌≡◌, refl, Bool, true, false, List, [], ◌∷◌, ◌++◌, some, get_elem?, replicate, ◌≢◌, ◌∙◌, ap,
  none, ==_refl, length, set, get_elem?-set_self, get_elem?-set_ne, lt-length_of_get_elem?,
}
use virtual_service_gateway.Common.Threads.{
  move_thread, run_threads, repeat, run_threads-append, run_threads-alone,
}
use virtual_service_gateway.Metering.Counter.{UsageCounter, new_counter, add_usage}
use virtual_service_gateway.Metering.Shared.Tasks.{perform, update_accesses}
use virtual_service_gateway.Metering.Shared.Slots.{
  Cell, Slot, absent, null_entry, points_to, Call, SlotTask, find_counter, assign_entry,
  erase_counter, release_erased, returned, undefined, next_call, find_entry, subscript, pointer_of,
  acquire, release, dereference, write_cell, assign_pointer, slot_step,
}

abbrev pub no_entry : Slot
no_entry = record { cells = []; entry = absent; node = 0 }

module _ (subscriber_id service_id : ℕ) where
  abbrev pub call_of : Bool → ℕ → ℕ → ℕ → Call
  call_of uplink bytes now created = record {
    update = record { bytes = bytes; uplink = uplink; now = now };
    created = created;
  }

  -- A counter that was made for a call, after the call's update.
  abbrev pub updated : Call → UsageCounter
  updated a =
      add_usage a.update.bytes a.update.uplink a.update.now
        (new_counter subscriber_id service_id a.created)

  -- Both threads after their turns: the entry has the second counter, and the first one's is freed.
  abbrev pub second_only : Call → Call → Slot × List SlotTask
  second_only a b = (
    record {
      cells =
          record { counter = updated a; owners = 0 }
          ∷ record { counter = updated b; owners = 1 }
          ∷ [];
      entry = points_to 1;
      node = 0;
    },
    returned ∷ returned ∷ [],
  )

  -- Two threads with an update each, on a pair without an entry.
  abbrev pub two_updates : Call → Call → List ℕ → Slot × List SlotTask
  two_updates a b schedule =
      run_threads (slot_step subscriber_id service_id)
        (no_entry, find_counter a [] ∷ find_counter b [] ∷ []) schedule

  lost_by_direction :
      (x y : Bool) (k l i j p q : ℕ)
      → two_updates (call_of x k i p) (call_of y l j q) (0 ∷ 1 ∷ replicate 13 0 ++ replicate 13 1)
        ≡ second_only (call_of x k i p) (call_of y l j q)
  unfolding run_threads move_thread slot_step find_entry subscript pointer_of acquire release
      dereference write_cell assign_pointer next_call update_accesses perform add_usage
  lost_by_direction true true k l i j p q = refl
  lost_by_direction true false k l i j p q = refl
  lost_by_direction false true k l i j p q = refl
  lost_by_direction false false k l i j p q = refl

  -- Two threads that both find no entry for the pair, of which the first creates the counter and finishes its
  -- update before the second creates its own: both finish, the entry has the second's counter, with the second's
  -- bytes and packet alone, and the first one's counter is freed.
  pub first_update_lost :
      (a b : Call) → two_updates a b (0 ∷ 1 ∷ replicate 13 0 ++ replicate 13 1) ≡ second_only a b
  first_update_lost a b =
      lost_by_direction a.update.uplink b.update.uplink a.update.bytes b.update.bytes a.update.now
        b.update.now a.created b.created

  -- The three turns in which a thread finds no entry, makes a counter of its own, and makes the entry.
  entry_made :
      (cells : List Cell) (node : ℕ) (a : Call) (us : List Call)
      → repeat
          (slot_step subscriber_id service_id)
          3
          (record { cells = cells; entry = absent; node = node }, find_counter a us)
        ≡ (
          record {
            cells =
                cells
                ++ record { counter = new_counter subscriber_id service_id a.created; owners = 1 }
                  ∷ [];
            entry = null_entry;
            node = node;
          },
          assign_entry node (length cells) a us,
        )
  unfolding slot_step find_entry subscript
  entry_made cells node a us = refl

  null_dereference :
      (cells : List Cell) (node : ℕ)
      → dereference (record { cells = cells; entry = null_entry; node = node }) node ≡ none
  unfolding dereference pointer_of
  null_dereference cells node = rw (==_refl node) refl

  null_followed :
      (cells : List Cell) (node : ℕ) (b : Call) (vs : List Call)
      → repeat
          (slot_step subscriber_id service_id)
          2
          (record { cells = cells; entry = null_entry; node = node }, find_counter b vs)
        ≡ (record { cells = cells; entry = null_entry; node = node }, undefined)
  unfolding slot_step find_entry update_accesses
  null_followed cells node b vs = rw (null_dereference cells node, slot_step) refl

  -- Among any threads, on a pair without an entry, one thread's update makes the entry by `operator[]`, and before
  -- it has assigned its counter another thread's update takes two turns: the other finds the entry and follows
  -- its null pointer, which C++ leaves undefined.
  pub half_created_undefined :
      (cells : List Cell) (node : ℕ) (ts : List SlotTask) (i j : ℕ) (a b : Call) (us vs : List Call)
      → get_elem? ts i ≡ some (find_counter a us)
      → get_elem? ts j ≡ some (find_counter b vs)
      → i ≢ j
      → get_elem?
          (run_threads
            (slot_step subscriber_id service_id)
            (record { cells = cells; entry = absent; node = node }, ts)
            (replicate 3 i ++ replicate 2 j)).1
          j
        ≡ some undefined
  half_created_undefined cells node ts i j a b us vs first second apart =
      let step = slot_step subscriber_id service_id in
      let s : Slot = record { cells = cells; entry = absent; node = node } in
      let (s1, t1) = repeat step 3 (s, find_counter a us) in
      let made = ap (λ q. q.0) (entry_made cells node a us) in
      let waiting = get_elem?-set_ne ts i j t1 apart ∙ second in
      let ran =
        run_threads-append step (s, ts) (replicate 3 i) (replicate 2 j)
        ∙ ap (λ sys. run_threads step sys (replicate 2 j))
            (run_threads-alone step 3 s ts i (find_counter a us) first)
        ∙ run_threads-alone step 2 s1 (set ts i t1) j (find_counter b vs) waiting in
      let t2 = (repeat step 2 (s1, find_counter b vs)).1 in
      ap (λ sys. get_elem? sys.1 j) ran
      ∙ get_elem?-set_self (set ts i t1) j t2
          (lt-length_of_get_elem? (set ts i t1) j (find_counter b vs) waiting)
      ∙ ap (λ r. some (repeat step 2 (r, find_counter b vs)).1) made
      ∙ ap (λ q. some q.1) (null_followed _ node b vs)

  -- Two threads that both find no entry, of which the first has created the counter and loaded the entry's
  -- pointer for its first write when the second replaces the counter by its own: the first writes to a counter
  -- that is freed.
  pub replaced_counter_undefined :
      (a b : Call)
      → get_elem? (two_updates a b (0 ∷ 1 ∷ replicate 7 0 ++ replicate 4 1 ++ 0 ∷ [])).1 0
        ≡ some undefined
  unfolding run_threads move_thread slot_step find_entry subscript pointer_of acquire release
      dereference write_cell assign_pointer update_accesses
  replaced_counter_undefined a b = refl

  -- An entry that another thread erases after an update has found it, and before its first write: the update
  -- goes on through a reference to nothing.
  pub erased_update_undefined :
      (c : UsageCounter) (u : Call) (us : List Call)
      → (run_threads
          (slot_step subscriber_id service_id)
          (
            record {
              cells = record { counter = c; owners = 1 } ∷ [];
              entry = points_to 0;
              node = 0;
            },
            find_counter u us ∷ erase_counter ∷ [],
          )
          (0 ∷ 1 ∷ 0 ∷ [])).1
        ≡ undefined ∷ release_erased (some 0) ∷ []
  unfolding run_threads move_thread slot_step find_entry pointer_of dereference update_accesses
  erased_update_undefined c u us = refl
