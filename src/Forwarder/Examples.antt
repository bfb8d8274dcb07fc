-- ===== src/Forwarder/Examples.antt =====
-- Small inputs of the forwarder, and instances of the theorems.
use mathlib.Core.List.{Sublist}
use virtual_service_gateway.Common.{
  ℕ, zero, suc, ◌-◌, ◌==◌, ◌≡◌, refl, sym, Bool, true, false, List, [], ◌∷◌, ◌++◌, take, drop,
  length, map, arith, Option, some, none, ap, sum_by, take-append-drop, if◌then◌else◌,
}
use virtual_service_gateway.Common.Faults.{ok}
use virtual_service_gateway.Ethernet.{Packet}
use virtual_service_gateway.Dpdk.RingQueue.{RteRing}
use virtual_service_gateway.Dpdk.Calls.{issue}
use virtual_service_gateway.Forwarder.Cores.{
  System, swap_packet, Turn, rx_move, tx_move, poll, enqueue_rest, take_burst, send_burst, rx_turn,
  tx_turn, signal, step, run, new_system,
}
use virtual_service_gateway.Forwarder.Balance.{everywhere, unswapped, run_balanced}
use virtual_service_gateway.Forwarder.Order.{run_in_order}
use virtual_service_gateway.Forwarder.Startup.{
  PortCall, rx_queue_setup, port_mask, receive_from, transmit_on, print_statistics, Machine,
  Launched, init_ports,
}
use virtual_service_gateway.Forwarder.BringUp.{device_steps, init_ports-issue}

-- A ring as the list of its packets, with room for two.
abbrev pub enqueue_two : List Packet → Packet → List Packet × Bool
enqueue_two [] p = (p ∷ [], true)
enqueue_two (a ∷ []) p = (a ∷ p ∷ [], true)
enqueue_two (a ∷ b ∷ r) p = (a ∷ b ∷ r, false)

abbrev pub room_in : List Packet → ℕ
room_in [] = 2
room_in (a ∷ []) = 1
room_in (a ∷ b ∷ r) = 0

abbrev pub enqueue_some : List Packet → List Packet → List Packet × ℕ
enqueue_some r ps = (r ++ take (room_in r) ps, length (take (room_in r) ps))

abbrev pub dequeue_one : List Packet → List Packet × Option Packet
dequeue_one [] = ([], none)
dequeue_one (a ∷ r) = (r, some a)

pub enqueued_two :
    (r : List Packet) (p : Packet)
    → (enqueue_two r p).0 ≡ (if (enqueue_two r p).1 then r ++ p ∷ [] else r)
enqueued_two [] p = refl
enqueued_two (a ∷ []) p = refl
enqueued_two (a ∷ b ∷ r) p = refl

pub take-length-take : (n : ℕ) (ps : List Packet) → take (length (take n ps)) ps ≡ take n ps
take-length-take zero ps = refl
take-length-take (suc n) [] = refl
take-length-take (suc n) (p ∷ ps) = ap (λ r. p ∷ r) (take-length-take n ps)

pub dequeued_one :
    (r : List Packet)
    → elim (dequeue_one r).1 [ none ↦ [] | some m ↦ m ∷ [] ] ++ (dequeue_one r).0 ≡ r
dequeued_one [] = refl
dequeued_one (a ∷ r) = refl

abbrev pub two_ring : RteRing (List Packet) Packet
two_ring = record {
  contents = λ r. r;
  sp_enqueue = enqueue_two;
  sp_enqueue_burst = enqueue_some;
  sc_dequeue = dequeue_one;
  sc_dequeue_burst = λ r n. (drop n r, take n r);
  is_empty = λ r. length r == 0;
  free_count = λ r. 2 - length r;
  enqueued = enqueued_two;
  burst_enqueued = λ r ps. sym (ap (λ t. r ++ t) (take-length-take (room_in r) ps));
  dequeued = dequeued_one;
  burst_dequeued = λ r n. take-append-drop n r;
}

abbrev pub frame : ℕ → Packet
frame n = record {
  buffer = 1 ∷ 1 ∷ 1 ∷ 1 ∷ 1 ∷ 1 ∷ 2 ∷ 2 ∷ 2 ∷ 2 ∷ 2 ∷ n ∷ 8 ∷ 0 ∷ [];
  pkt_len = 14;
}

-- Three packets arrive, the ring takes two of them, the port takes one of the two, and a signal ends it.
abbrev turns : List Turn
turns =
    rx_turn (frame 1 ∷ frame 2 ∷ frame 3 ∷ [])
    ∷ rx_turn []
    ∷ tx_turn 0
    ∷ rx_turn []
    ∷ tx_turn 0
    ∷ tx_turn 0
    ∷ rx_turn []
    ∷ tx_turn 0
    ∷ tx_turn 1
    ∷ signal
    ∷ tx_turn 0
    ∷ tx_turn 0
    ∷ rx_turn []
    ∷ tx_turn 0
    ∷ []

test_turns :
    let s = run two_ring (new_system []) turns in
    (s.sent ≡ swap_packet (frame 1) ∷ [])
    × (s.rx_freed ≡ frame 3 ∷ [])
    × (s.tx_freed ≡ swap_packet (frame 2) ∷ [])
    × (s.rx_packets ≡ 3)
    × (s.tx_packets ≡ 1)
unfolding run step new_system rx_move tx_move poll enqueue_rest take_burst send_burst swap_packet
test_turns = (refl, refl, refl, refl, refl)

run_balanced_example :
    let s = run two_ring (new_system []) turns in
    sum_by (unswapped two_ring (λ p. p.pkt_len)) s.arrived ≡ everywhere two_ring (λ p. p.pkt_len) s
run_balanced_example = run_balanced two_ring (λ p. p.pkt_len) [] turns refl

run_in_order_example :
    let s = run two_ring (new_system []) turns in Sublist s.sent (map swap_packet s.arrived)
run_in_order_example = run_in_order two_ring [] turns refl

-- A signal while the receiving core holds two packets.
abbrev after_signal : System (List Packet)
after_signal = run two_ring (new_system []) (rx_turn (frame 1 ∷ frame 2 ∷ []) ∷ signal ∷ [])

abbrev last_turns : List Turn
last_turns =
    rx_turn [] ∷ rx_turn [] ∷ tx_turn 3 ∷ rx_turn [] ∷ rx_turn [] ∷ rx_turn [] ∷ tx_turn 3 ∷ []

-- The receive queue of port 2 is refused.
abbrev pub one_failure : List PortCall → PortCall → Bool
one_failure log (rx_queue_setup (suc (suc zero))) = true
one_failure log call = false

init_ports-issue_example :
    init_ports one_failure 6 4 (0 ∷ 1 ∷ 2 ∷ 3 ∷ []) []
    ≡ ok (issue one_failure (device_steps 6 (0 ∷ 1 ∷ 2 ∷ 3 ∷ [])) [])
init_ports-issue_example =
    init_ports-issue one_failure 6 4 (0 ∷ 1 ∷ 2 ∷ 3 ∷ []) [] (omega arith)
      (omega arith, (omega arith, (omega arith, (omega arith, tt))))

test_init_ports :
    (length (issue one_failure (device_steps 6 (0 ∷ 1 ∷ 2 ∷ 3 ∷ [])) []).0 ≡ 10)
    × ((issue one_failure (device_steps 6 (0 ∷ 1 ∷ 2 ∷ 3 ∷ [])) []).1 ≡ false)
test_init_ports = (refl, refl)

-- Two ports and the mask 2.
abbrev pub machine : Machine
machine = record {
  eal = true;
  options = port_mask 2 ∷ [];
  pool = true;
  ring = true;
  nb_ports = 2;
  devices = 0 ∷ 1 ∷ [];
  nb_lcores = 4;
}

abbrev pub launched : Launched
launched = record {
  mask = 2;
  log = (issue one_failure (device_steps 2 (0 ∷ 1 ∷ [])) []).0;
  launches = (1, receive_from 0) ∷ (2, transmit_on 0) ∷ (3, print_statistics) ∷ [];
}
