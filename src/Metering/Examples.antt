-- ===== src/Metering/Examples.antt =====
-- Runs of the meter on small inputs, after tests/test_metering.cpp, and instances of the theorems.
use virtual_service_gateway.Common.{
  ℕ, ◌≡◌, ◌%◌, ◌+◌, refl, true, false, List, [], ◌∷◌, arith, lookup, modify, insert, u64_mod,
  u32_mod, ltb, ◌&&◌, ◌==◌, if◌then◌else◌,
}
use virtual_service_gateway.Metering.Key.{counter_key, counter_key_injective}
use virtual_service_gateway.Metering.Counter.{UsageCounter, UsageRollup, new_counter, add_usage}
use virtual_service_gateway.Metering.Meter.{
  UbbMeter, new_meter, ensure_counter, update_counter, get_counter, check_threshold,
  get_total_usage, total_from, add_breach,
}
use virtual_service_gateway.Metering.History.{Call, update, check, step, run, no_usage, bill_all}
use virtual_service_gateway.Metering.Billing.{Owes, get_counter-run}
use virtual_service_gateway.Metering.Order.{Packet, updates}
use virtual_service_gateway.Metering.Totals.{get_total_usage-run}
use virtual_service_gateway.Metering.Rollups.{check_threshold_lem}

abbrev basic : List Call
basic = update 1 100 1000 true 5 6 ∷ update 1 100 2000 false 7 8 ∷ check 1 100 2500 ∷ []

basic_meter : UbbMeter
basic_meter = run (new_meter 1000) basic

abbrev blank_counter : UsageCounter
blank_counter = record {
  subscriber_id = 0;
  service_id = 0;
  uplink_bytes = 0;
  downlink_bytes = 0;
  uplink_packets = 0;
  downlink_packets = 0;
  created_time_ns = 77;
  last_update_ns = 77;
  active = false;
  threshold_breaches = 0;
}

abbrev blank_rollup : UsageRollup
blank_rollup = record {
  subscriber_id = 0;
  service_id = 0;
  period_start_ns = 0;
  period_end_ns = 0;
  uplink_bytes = 9;
  downlink_bytes = 9;
  uplink_packets = 9;
  downlink_packets = 9;
  sample_count = 9;
}

test_basic_counter :
    let c = get_counter blank_counter basic_meter 1 100 in
    (c.uplink_bytes ≡ 1000)
    × (c.downlink_bytes ≡ 2000)
    × (c.uplink_packets ≡ 1)
    × (c.downlink_packets ≡ 1)
    × (c.threshold_breaches ≡ 1)
    × (c.last_update_ns ≡ 8)
unfolding basic_meter counter_key run step new_meter update_counter ensure_counter lookup insert
    modify new_counter add_usage get_counter check_threshold add_breach
test_basic_counter = (refl, refl, refl, refl, refl, refl)

basic_total : get_total_usage basic_meter ≡ 3000
unfolding basic_meter counter_key run step new_meter update_counter ensure_counter lookup insert
    modify new_counter add_usage check_threshold add_breach get_total_usage total_from
basic_total = refl

counter_key_injective_example : ◌≡◌ {A = ℕ} 7 7 × ◌≡◌ {A = ℕ} 3 3
counter_key_injective_example =
    counter_key_injective 7 3 7 3 (omega arith) (omega arith) (omega arith) (omega arith) refl

get_counter-run_example :
    Owes
      (get_counter blank_counter (run (new_meter 1000) basic) 1 100)
      (bill_all 1 100 no_usage basic)
get_counter-run_example =
    get_counter-run blank_counter 1000 basic 1 100 (omega arith) (omega arith) (omega arith)

abbrev first_packet : Packet
first_packet = record {
  subscriber_id = 1;
  service_id = 2;
  bytes = 10;
  uplink = true;
  created = 0;
  now = 0;
}

abbrev second_packet : Packet
second_packet = record {
  subscriber_id = 1;
  service_id = 2;
  bytes = 30;
  uplink = false;
  created = 5;
  now = 6;
}

get_total_usage-run_example :
    get_total_usage (run (new_meter 4) (updates (first_packet ∷ second_packet ∷ []))) ≡ 40
get_total_usage-run_example = get_total_usage-run 4 (first_packet ∷ second_packet ∷ [])

check_threshold_lem_example :
    let (m', exceeded) = check_threshold basic_meter 1 100 2999 in
    let c = get_counter blank_counter basic_meter 1 100 in
    (exceeded ≡ ltb 2999 ((c.uplink_bytes + c.downlink_bytes) % u64_mod))
    × (get_counter blank_counter m' 1 100 ≡ (
        if exceeded && (counter_key 1 100 == counter_key 1 100)
        then record c { threshold_breaches = (c.threshold_breaches + 1) % u32_mod }
        else c))
check_threshold_lem_example = check_threshold_lem blank_counter basic_meter 1 100 2999 1 100
