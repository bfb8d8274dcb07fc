-- ===== src/Forwarder/Cores.antt =====
-- `lcore_rx` and `lcore_tx` of examples/minimal_dpdk.cpp as two cores that take turns in any order. A
-- move of a core holds at most one access to the ring or the port; the test of `force_quit` at the head of
-- a loop and the poll or the dequeue that follows it are one move.
use virtual_service_gateway.Common.{
  ℕ, min, Bool, true, false, List, [], ◌∷◌, ◌++◌, take, drop, length, ltb, add64, if◌then◌else◌,
}
use virtual_service_gateway.Ethernet.{Packet, swap_addresses}
use virtual_service_gateway.Dpdk.RingQueue.{RteRing}

-- Where the receiving core stands: at the loop's test, with a burst that is not enqueued yet, in the
-- loop that frees what the ring did not take, or past its loop.
pub data RxCore : Type 0 where
  polling : RxCore
  received : List Packet → RxCore
  rx_freeing : List Packet → RxCore
  rx_exited : RxCore

-- Where the transmitting core stands: at the loop's test, in the loop that swaps addresses with the
-- packets done and to do, before the transmission, in the loop that frees what was not sent, with
-- the number that was sent, or past its loop.
pub data TxCore : Type 0 where
  dequeuing : TxCore
  swapping : List Packet → List Packet → TxCore
  sending : List Packet → TxCore
  tx_freeing : ℕ → List Packet → TxCore
  tx_exited : TxCore

-- The shared variables, the cores, and what happened: the packets that the port gave, those that it
-- took, and those that either core freed.
pub record System (R : Type 0) : Type 0 where
  pub ring : R
  pub force_quit : Bool
  pub rx_packets : ℕ
  pub tx_packets : ℕ
  pub rx : RxCore
  pub tx : TxCore
  pub arrived : List Packet
  pub sent : List Packet
  pub rx_freed : List Packet
  pub tx_freed : List Packet

abbrev pub burst_size : ℕ
burst_size = 64

-- `eth_hdr->dst_addr` and `src_addr` swapped in place.
unfoldable pub swap_packet : Packet → Packet
swap_packet p = record p { buffer = swap_addresses p.buffer }

-- A turn: of the receiving core, with the packets that the port has for it; of the transmitting
-- core, with how many packets the port would take; or a signal that `signal_handler` catches.
pub data Turn : Type 0 where
  rx_turn : List Packet → Turn
  tx_turn : ℕ → Turn
  signal : Turn

module _ {R : Type 0} where
  -- `rte_eth_rx_burst` gives at most `BURST_SIZE` packets.
  unfoldable pub poll : System R → List Packet → System R
  poll s [] = record s { rx = polling }
  poll s (p ∷ ps) = record s {
    rx_packets = add64 s.rx_packets (length (p ∷ ps));
    rx = received (p ∷ ps);
    arrived = s.arrived ++ (p ∷ ps);
  }

  -- After `rte_ring_sp_enqueue_burst` took `enqueued` of the packets.
  unfoldable pub enqueue_rest : System R → R → ℕ → List Packet → System R
  enqueue_rest s ring enqueued bufs = record s {
    ring = ring;
    rx = if ltb enqueued (length bufs) then rx_freeing (drop enqueued bufs) else polling;
  }

  -- After `rte_ring_sc_dequeue_burst` gave the packets.
  unfoldable pub take_burst : System R → R → List Packet → System R
  take_burst s ring [] = record s { ring = ring; tx = dequeuing }
  take_burst s ring (p ∷ ps) = record s { ring = ring; tx = swapping [] (p ∷ ps) }

  -- After `rte_eth_tx_burst` took the first `nb_tx` of the packets.
  unfoldable pub send_burst : System R → ℕ → List Packet → System R
  send_burst s nb_tx bufs =
      let shipped : System R = record s { sent = s.sent ++ take nb_tx bufs } in
      if ltb nb_tx (length bufs)
      then record shipped { tx = tx_freeing nb_tx (drop nb_tx bufs) }
      else record shipped { tx = dequeuing; tx_packets = add64 s.tx_packets (length bufs) }

module _ {R : Type 0} (rte : RteRing R Packet) where
  unfoldable pub rx_move : System R → List Packet → RxCore → System R
  rx_move s offered polling =
      if s.force_quit then record s { rx = rx_exited } else poll s (take burst_size offered)
  rx_move s offered (received bufs) =
      let (ring, enqueued) = rte.sp_enqueue_burst s.ring bufs in enqueue_rest s ring enqueued bufs
  rx_move s offered (rx_freeing []) = record s { rx = polling }
  rx_move s offered (rx_freeing (p ∷ ps)) = record s {
    rx = rx_freeing ps;
    rx_freed = s.rx_freed ++ p ∷ [];
  }
  rx_move s offered rx_exited = record s { rx = rx_exited }

  -- `rte_eth_tx_burst` takes at most the packets that it is given.
  unfoldable pub tx_move : System R → ℕ → TxCore → System R
  tx_move s room dequeuing =
      if s.force_quit
      then record s { tx = tx_exited }
      else (let (ring, bufs) = rte.sc_dequeue_burst s.ring burst_size in take_burst s ring bufs)
  tx_move s room (swapping done []) = record s { tx = sending done }
  tx_move s room (swapping done (p ∷ ps)) = record s {
    tx = swapping (done ++ swap_packet p ∷ []) ps;
  }
  tx_move s room (sending bufs) = send_burst s (min room (length bufs)) bufs
  tx_move s room (tx_freeing nb_tx []) = record s {
    tx = dequeuing;
    tx_packets = add64 s.tx_packets nb_tx;
  }
  tx_move s room (tx_freeing nb_tx (p ∷ ps)) = record s {
    tx = tx_freeing nb_tx ps;
    tx_freed = s.tx_freed ++ p ∷ [];
  }
  tx_move s room tx_exited = record s { tx = tx_exited }

  unfoldable pub step : System R → Turn → System R
  step s (rx_turn offered) = rx_move s offered s.rx
  step s (tx_turn room) = tx_move s room s.tx
  step s signal = record s { force_quit = true }

  unfoldable pub run : System R → List Turn → System R
  run s [] = s
  run s (t ∷ ts) = run (step s t) ts

-- After start-up, with an empty ring.
unfoldable pub new_system : {R : Type 0} → R → System R
new_system ring = record {
  ring = ring;
  force_quit = false;
  rx_packets = 0;
  tx_packets = 0;
  rx = polling;
  tx = dequeuing;
  arrived = [];
  sent = [];
  rx_freed = [];
  tx_freed = [];
}
