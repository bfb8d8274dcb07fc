-- ===== src/Metering/Shared/Tasks.antt =====
-- `update_counter`, `check_threshold` and `rollup` of src/metering/ubb_meter.cpp on a pair that has its
-- counter, cut at their accesses to it: the fields of a counter are atomic, `+=` on one is one access, and
-- between two accesses of a thread others may move. The map is not changed meanwhile.
use virtual_service_gateway.Common.{
  ℕ, Bool, true, false, List, [], ◌∷◌, ◌++◌, add32, add64, ltb, if◌then◌else◌,
}
use virtual_service_gateway.Metering.Counter.{UsageCounter, UsageRollup, add_usage}

-- The writes of an update.
pub data Access : Type 0 where
  stamp : (now : ℕ) → Access
  add_uplink_bytes : (bytes : ℕ) → Access
  add_uplink_packet : Access
  add_downlink_bytes : (bytes : ℕ) → Access
  add_downlink_packet : Access

unfoldable pub perform : Access → UsageCounter → UsageCounter
perform (stamp now) c = record c { last_update_ns = now }
perform (add_uplink_bytes bytes) c = record c { uplink_bytes = add64 c.uplink_bytes bytes }
perform add_uplink_packet c = record c { uplink_packets = add64 c.uplink_packets 1 }
perform (add_downlink_bytes bytes) c = record c { downlink_bytes = add64 c.downlink_bytes bytes }
perform add_downlink_packet c = record c { downlink_packets = add64 c.downlink_packets 1 }

-- A call of `update_counter`, with its clock reading.
pub record Update : Type 0 where
  pub bytes : ℕ
  pub uplink : Bool
  pub now : ℕ

unfoldable pub update_accesses : Update → List Access
update_accesses u =
    stamp u.now
    ∷ (if u.uplink
        then add_uplink_bytes u.bytes ∷ add_uplink_packet ∷ []
        else add_downlink_bytes u.bytes ∷ add_downlink_packet ∷ [])

unfoldable pub accesses : List Update → List Access
accesses [] = []
accesses (u ∷ us) = update_accesses u ++ accesses us

-- What is left of a thread's work. A check of a threshold loads one direction, then the other, counts the
-- breach, and has answered; a rollup loads one word after the other.
pub data Task : Type 0 where
  updating : List Access → Task
  load_uplink : (threshold : ℕ) → Task
  load_downlink : (threshold uplink : ℕ) → Task
  count_breach : (threshold : ℕ) → Task
  answered : (threshold : ℕ) → Bool → Task
  roll_uplink_bytes : UsageRollup → Task
  roll_downlink_bytes : UsageRollup → Task
  roll_uplink_packets : UsageRollup → Task
  roll_downlink_packets : UsageRollup → Task
  rolled : UsageRollup → Task

-- The next access of a thread.
unfoldable pub advance : UsageCounter → Task → UsageCounter × Task
advance c (updating []) = (c, updating [])
advance c (updating (a ∷ writes)) = (perform a c, updating writes)
advance c (load_uplink threshold) = (c, load_downlink threshold c.uplink_bytes)
advance c (load_downlink threshold uplink) = (
  c,
  if ltb threshold (add64 uplink c.downlink_bytes)
      then count_breach threshold
      else answered threshold false,
)
advance c (count_breach threshold) =
    (record c { threshold_breaches = add32 c.threshold_breaches 1 }, answered threshold true)
advance c (answered threshold result) = (c, answered threshold result)
advance c (roll_uplink_bytes r) =
    (c, roll_downlink_bytes (record r { uplink_bytes = c.uplink_bytes }))
advance c (roll_downlink_bytes r) =
    (c, roll_uplink_packets (record r { downlink_bytes = c.downlink_bytes }))
advance c (roll_uplink_packets r) =
    (c, roll_downlink_packets (record r { uplink_packets = c.uplink_packets }))
advance c (roll_downlink_packets r) =
    (c, rolled (record r { downlink_packets = c.downlink_packets; sample_count = 1 }))
advance c (rolled r) = (c, rolled r)

-- What a thread is given to do: updates one after the other, a check, or a rollup, for which the local
-- variable has its first fields.
pub data Program : Type 0 where
  updates : List Update → Program
  check : (threshold : ℕ) → Program
  roll : UsageRollup → Program

unfoldable pub start_task : Program → Task
start_task (updates us) = updating (accesses us)
start_task (check threshold) = load_uplink threshold
start_task (roll opened) = roll_uplink_bytes opened

-- The updates of all threads one after the other, each whole.
unfoldable pub update_all : List Update → UsageCounter → UsageCounter
update_all [] c = c
update_all (u ∷ us) c = update_all us (add_usage u.bytes u.uplink u.now c)

unfoldable pub run_sequentially : List Program → UsageCounter → UsageCounter
run_sequentially [] c = c
run_sequentially (updates us ∷ ps) c = run_sequentially ps (update_all us c)
run_sequentially (check threshold ∷ ps) c = run_sequentially ps c
run_sequentially (roll opened ∷ ps) c = run_sequentially ps c
