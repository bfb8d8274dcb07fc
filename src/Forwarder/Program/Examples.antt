-- ===== src/Forwarder/Program/Examples.antt =====
-- A run of the whole forwarder on a small ring.
use virtual_service_gateway.Common.{
  ℕ, ◌%◌, ◌≡◌, refl, List, [], ◌∷◌, ◌++◌, map, length, some, arith, u64_mod, replicate,
}
use virtual_service_gateway.Common.Faults.{ok}
use virtual_service_gateway.Ethernet.{Packet}
use virtual_service_gateway.Dpdk.Calls.{issue, attempt}
use virtual_service_gateway.Forwarder.Cores.{
  rx_turn, tx_turn, signal, step, run, new_system, rx_move, tx_move, poll, enqueue_rest, take_burst,
  send_burst, swap_packet,
}
use virtual_service_gateway.Forwarder.Startup.{
  start_main, launch, parse_args, init_ports, init_devices, is_enabled, bring_up, configure_port,
}
use virtual_service_gateway.Forwarder.Examples.{two_ring, frame, machine, launched, one_failure}
use virtual_service_gateway.Forwarder.Program.Setup.{init_mempool, init_ring}
use virtual_service_gateway.Forwarder.Program.Statistics.{
  PoolCounts, Line, rx_packets_line, tx_packets_line, ring_line, available_line, in_use_line,
  WatchedTurn, core_turn, stats_turn, stats_move, watch_step, watch, new_watched,
}
use virtual_service_gateway.Forwarder.Program.Main.{DpdkAnswers, finished, forwarder_main}
use virtual_service_gateway.Forwarder.Program.Closing.{closing_steps}
use virtual_service_gateway.Forwarder.Program.Ending.{core_turns, HasTurns, main_ends}

abbrev dpdk : DpdkAnswers ℕ (List Packet)
dpdk = record {
  pktmbuf_pool_create = λ request. some (request.elements);
  ring_create = λ request. some [];
  default_buf_size = 2176;
  socket = 0;
}

abbrev pool : PoolCounts
pool = record { available = 8000; in_use = 192 }

-- Two packets arrive and go into the ring, and the first statistics are printed meanwhile: one packet counted as
-- received that the ring does not show yet.
abbrev before : List WatchedTurn
before =
    map core_turn (rx_turn (frame 1 ∷ frame 2 ∷ []) ∷ [])
    ++ replicate 5 (stats_turn pool)
    ++ map core_turn (rx_turn [] ∷ tx_turn 0 ∷ [])

abbrev after : List WatchedTurn
after =
    replicate 8 (stats_turn pool)
    ++ replicate 9 (core_turn (tx_turn 1))
    ++ replicate 3 (core_turn (rx_turn []))

test_output :
    (watch two_ring length (new_watched []) (before ++ core_turn signal ∷ after)).output
    ≡ rx_packets_line 2
      ∷ tx_packets_line 0
      ∷ ring_line 0
      ∷ available_line 8000
      ∷ in_use_line 192
      ∷ []
unfolding watch watch_step stats_move step new_watched new_system rx_move tx_move poll enqueue_rest
    take_burst send_burst swap_packet
test_output = refl

has_turns : HasTurns two_ring length (watch two_ring length (new_watched []) before) after
unfolding watch watch_step stats_move step new_watched new_system rx_move tx_move poll enqueue_rest
    take_burst send_burst swap_packet
has_turns = record { rx_enough = omega arith; tx_enough = omega arith; stats_enough = omega arith }

main_ends_example :
    let s = run two_ring (new_system []) (core_turns (before ++ core_turn signal ∷ after)) in
    (earlier : List Line) × (forwarder_main two_ring length dpdk one_failure machine
        (before ++ core_turn signal ∷ after)
        pool
      ≡ ok (
          finished
            (earlier
              ++ rx_packets_line (length s.arrived % u64_mod)
                ∷ tx_packets_line (length s.sent % u64_mod)
                ∷ ring_line (length s.ring)
                ∷ available_line pool.available
                ∷ in_use_line pool.in_use
                ∷ [])
            (issue one_failure (closing_steps 2 (0 ∷ 1 ∷ [])) launched.log).0))
unfolding init_mempool init_ring start_main launch parse_args init_ports init_devices is_enabled
    bring_up configure_port attempt
main_ends_example =
    main_ends two_ring length dpdk one_failure machine launched [] before after pool (λ r. refl)
      refl refl (omega arith, (omega arith, tt)) has_turns
