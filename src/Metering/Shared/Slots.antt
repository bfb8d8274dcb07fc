-- ===== src/Metering/Shared/Slots.antt =====
-- `update_counter` and `reset_counter` of src/metering/ubb_meter.cpp on one pair, whose entry of the map
-- other threads create and erase meanwhile. `find`, the insertion by `operator[]` and `erase` are one step
-- each, as if the map were safe for concurrent use; the assignment to the entry's shared pointer, the
-- release of the pointer that it held, and the loads of it are steps of their own.
use virtual_service_gateway.Common.{
  ℕ, ◌+◌, ◌-◌, List, [], ◌∷◌, ◌++◌, Option, none, some, length, get_elem?, set, ◌==◌, if◌then◌else◌,
}
use virtual_service_gateway.Metering.Counter.{UsageCounter, new_counter}
use virtual_service_gateway.Metering.Shared.Tasks.{Access, perform, Update, update_accesses}

-- A counter that was made, with the number of shared pointers to it; without one it is freed.
pub record Cell : Type 0 where
  pub counter : UsageCounter
  pub owners : ℕ

-- The entry of the pair.
pub data Entry : Type 0 where
  absent : Entry
  null_entry : Entry
  points_to : ℕ → Entry

-- The counters that were made, by their positions, and the entry. A reference into the map is good as long as
-- the entry is not erased, which `node` tells.
pub record Slot : Type 0 where
  pub cells : List Cell
  pub entry : Entry
  pub node : ℕ

-- An update, with the clock reading for the time of creation.
pub record Call : Type 0 where
  pub update : Update
  pub created : ℕ

-- What is left of a thread's work: before `find`; with a new counter of its own before `operator[]`, before the
-- assignment, before the release of what the entry held, before the second `find`, and before it lets its own
-- pointer go; with a reference into the map and the writes that are left, before it loads the entry's pointer,
-- and with the pointer loaded, before the access; before `erase`, and before the release of what was erased;
-- or past its work. A thread that uses the end of the map, an entry that is gone, a null pointer or a freed
-- counter has left what C++ defines.
pub data SlotTask : Type 0 where
  find_counter : Call → List Call → SlotTask
  make_counter : Call → List Call → SlotTask
  insert_entry : (own : ℕ) → Call → List Call → SlotTask
  assign_entry : (node own : ℕ) → Call → List Call → SlotTask
  release_old : (old : Option ℕ) (own : ℕ) → Call → List Call → SlotTask
  find_inserted : (own : ℕ) → Call → List Call → SlotTask
  leave_scope : (node own : ℕ) → Call → List Call → SlotTask
  load_pointer : (node : ℕ) → List Access → List Call → SlotTask
  access_counter : (node pointer : ℕ) → Access → List Access → List Call → SlotTask
  erase_counter : SlotTask
  release_erased : (old : Option ℕ) → SlotTask
  returned : SlotTask
  undefined : SlotTask

unfoldable pub next_call : List Call → SlotTask
next_call [] = returned
next_call (u ∷ us) = find_counter u us

unfoldable pub find_entry : Entry → (missing found : SlotTask) → SlotTask
find_entry absent missing found = missing
find_entry null_entry missing found = found
find_entry (points_to p) missing found = found

-- `operator[]` makes an entry with a null pointer where there is none.
unfoldable pub subscript : Entry → Entry
subscript absent = null_entry
subscript null_entry = null_entry
subscript (points_to p) = points_to p

unfoldable pub pointer_of : Entry → Option ℕ
pointer_of absent = none
pointer_of null_entry = none
pointer_of (points_to p) = some p

unfoldable pub acquire : List Cell → ℕ → List Cell
acquire cells p = elim (get_elem? cells p) [
  | none ↦ cells
  | some cell ↦ set cells p (record cell { owners = cell.owners + 1 })
]

unfoldable pub release : List Cell → Option ℕ → List Cell
release cells none = cells
release cells (some p) = elim (get_elem? cells p) [
  | none ↦ cells
  | some cell ↦ set cells p (record cell { owners = cell.owners - 1 })
]

-- The pointer of the entry that a reference refers to: none where the entry is gone or the pointer is null.
unfoldable pub dereference : Slot → ℕ → Option ℕ
dereference s node = if s.node == node then pointer_of s.entry else none

-- An access to a counter that is not freed.
unfoldable pub write_cell : Slot → ℕ → Access → SlotTask → Slot × SlotTask
write_cell s p a next = elim (get_elem? s.cells p) [
  | none ↦ (s, undefined)
  | some cell ↦ if cell.owners == 0 then (s, undefined) else (
    record s { cells = set s.cells p (record cell { counter = perform a cell.counter }) },
    next,
  )
]

-- `counters_[key] = counter` through the reference that `operator[]` has returned.
unfoldable pub assign_pointer : Slot → ℕ → ℕ → Call → List Call → Slot × SlotTask
assign_pointer s node own u us =
    if s.node == node
    then (
      record s { cells = acquire s.cells own; entry = points_to own },
      release_old (pointer_of s.entry) own u us,
    )
    else (s, undefined)

module _ (subscriber_id service_id : ℕ) where
  unfoldable pub slot_step : Slot → SlotTask → Slot × SlotTask
  slot_step s (find_counter u us) = (
    s,
    find_entry s.entry (make_counter u us) (load_pointer s.node (update_accesses u.update) us),
  )
  slot_step s (make_counter u us) = (
    record s {
      cells =
          s.cells
          ++ record { counter = new_counter subscriber_id service_id u.created; owners = 1 } ∷ [];
    },
    insert_entry (length s.cells) u us,
  )
  slot_step s (insert_entry own u us) =
      (record s { entry = subscript s.entry }, assign_entry s.node own u us)
  slot_step s (assign_entry node own u us) = assign_pointer s node own u us
  slot_step s (release_old old own u us) =
      (record s { cells = release s.cells old }, find_inserted own u us)
  slot_step s (find_inserted own u us) =
      (s, find_entry s.entry undefined (leave_scope s.node own u us))
  slot_step s (leave_scope node own u us) = (
    record s { cells = release s.cells (some own) },
    load_pointer node (update_accesses u.update) us,
  )
  slot_step s (load_pointer node [] us) = (s, next_call us)
  slot_step s (load_pointer node (a ∷ writes) us) = (
    s,
    elim (dereference s node) [ none ↦ undefined | some p ↦ access_counter node p a writes us ],
  )
  slot_step s (access_counter node p a writes us) = write_cell s p a (load_pointer node writes us)
  slot_step s erase_counter =
      (record s { entry = absent; node = s.node + 1 }, release_erased (pointer_of s.entry))
  slot_step s (release_erased old) = (record s { cells = release s.cells old }, returned)
  slot_step s returned = (s, returned)
  slot_step s undefined = (s, undefined)
