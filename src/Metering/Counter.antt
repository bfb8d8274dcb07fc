-- ===== src/Metering/Counter.antt =====
-- `UsageCounter` and `UsageRollup` of include/ubb_meter.h. The atomics are plain words: each
-- operation on one of them is one step of the model. Times are readings of the clock in nanoseconds.
use virtual_service_gateway.Common.{ℕ, Bool, true, add64, sub64, if◌then◌else◌}

pub record UsageCounter : Type 0 where
  pub subscriber_id : ℕ
  pub service_id : ℕ
  pub uplink_bytes : ℕ
  pub downlink_bytes : ℕ
  pub uplink_packets : ℕ
  pub downlink_packets : ℕ
  pub created_time_ns : ℕ
  pub last_update_ns : ℕ
  pub active : Bool
  pub threshold_breaches : ℕ

pub record UsageRollup : Type 0 where
  pub subscriber_id : ℕ
  pub service_id : ℕ
  pub period_start_ns : ℕ
  pub period_end_ns : ℕ
  pub uplink_bytes : ℕ
  pub downlink_bytes : ℕ
  pub uplink_packets : ℕ
  pub downlink_packets : ℕ
  pub sample_count : ℕ

-- What `update_counter` puts into the map for a new key: `make_shared<UsageCounter>()` clears the
-- storage and runs the member initialisers, and three fields are assigned.
unfoldable pub new_counter : ℕ → ℕ → ℕ → UsageCounter
new_counter subscriber_id service_id created = record {
  subscriber_id = subscriber_id;
  service_id = service_id;
  uplink_bytes = 0;
  downlink_bytes = 0;
  uplink_packets = 0;
  downlink_packets = 0;
  created_time_ns = created;
  last_update_ns = 0;
  active = true;
  threshold_breaches = 0;
}

-- `UsageCounter empty;` on the stack: the member initialisers run, and the two times keep what the
-- storage held before.
unfoldable pub empty_counter : UsageCounter → ℕ → ℕ → UsageCounter
empty_counter storage subscriber_id service_id = record {
  subscriber_id = subscriber_id;
  service_id = service_id;
  uplink_bytes = 0;
  downlink_bytes = 0;
  uplink_packets = 0;
  downlink_packets = 0;
  created_time_ns = storage.created_time_ns;
  last_update_ns = storage.last_update_ns;
  active = true;
  threshold_breaches = 0;
}

-- The tail of `update_counter`, on the counter that the map holds.
unfoldable pub add_usage : ℕ → Bool → ℕ → UsageCounter → UsageCounter
add_usage bytes uplink now c =
    let stamped : UsageCounter = record c { last_update_ns = now } in
    if uplink
    then record stamped {
      uplink_bytes = add64 c.uplink_bytes bytes;
      uplink_packets = add64 c.uplink_packets 1;
    }
    else record stamped {
      downlink_bytes = add64 c.downlink_bytes bytes;
      downlink_packets = add64 c.downlink_packets 1;
    }

-- A local `UsageRollup` with its first four fields assigned; the rest keeps what the storage held.
-- The two clock readings are those of the period's start and end.
unfoldable pub open_rollup : UsageRollup → ℕ → ℕ → ℕ → ℕ → ℕ → UsageRollup
open_rollup storage subscriber_id service_id rollup_period_ns now_start now_end = record storage {
  subscriber_id = subscriber_id;
  service_id = service_id;
  period_start_ns = sub64 now_start rollup_period_ns;
  period_end_ns = now_end;
}

-- The copy of a counter's totals into a rollup.
unfoldable pub fill_rollup : UsageRollup → UsageCounter → UsageRollup
fill_rollup r c = record r {
  uplink_bytes = c.uplink_bytes;
  downlink_bytes = c.downlink_bytes;
  uplink_packets = c.uplink_packets;
  downlink_packets = c.downlink_packets;
  sample_count = 1;
}
