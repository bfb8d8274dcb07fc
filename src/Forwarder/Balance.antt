-- ===== src/Forwarder/Balance.antt =====
-- Every packet that arrives is in one place: each measure of the packets is conserved by each turn.
use virtual_service_gateway.Common.{
  drop-all, sum_by-map, sum_by-split, ℕ, ◌+◌, ◌≡◌, refl, ap, true, false, List, [], ◌∷◌, ◌++◌, take,
  drop, length, map, arith, sum_by, sum_by-append, append-nil, append_assoc, if◌then◌else◌, ltb,
  Bool-cases, inl, inr, min,
}
use virtual_service_gateway.Ethernet.{Packet}
use virtual_service_gateway.Dpdk.RingQueue.{RteRing}
use virtual_service_gateway.Forwarder.Cores.{
  System, RxCore, TxCore, polling, received, rx_freeing, rx_exited, dequeuing, swapping, sending,
  tx_freeing, tx_exited, swap_packet, Turn, rx_turn, tx_turn, signal, poll, enqueue_rest, rx_move,
  take_burst, send_burst, tx_move, step, run, new_system, burst_size,
}

-- The packets that a core holds; those of the transmitting core with swapped addresses.
abbrev pub rx_holds : RxCore → List Packet
rx_holds polling = []
rx_holds (received bufs) = bufs
rx_holds (rx_freeing bufs) = bufs
rx_holds rx_exited = []

abbrev pub tx_holds : TxCore → List Packet
tx_holds dequeuing = []
tx_holds (swapping done todo) = done ++ map swap_packet todo
tx_holds (sending bufs) = bufs
tx_holds (tx_freeing nb_tx bufs) = bufs
tx_holds tx_exited = []

module _ {R : Type 0} (rte : RteRing R Packet) (w : Packet → ℕ) where
  -- A measure of a packet whose addresses are still to be swapped.
  abbrev pub unswapped : Packet → ℕ
  unswapped p = w (swap_packet p)

  -- The measure of all packets wherever they are, with the cores as given.
  abbrev weigh : System R → RxCore → TxCore → ℕ
  weigh s rx tx =
      sum_by unswapped s.rx_freed
      + sum_by unswapped (rx_holds rx)
      + sum_by unswapped (rte.contents s.ring)
      + sum_by w (tx_holds tx)
      + sum_by w s.sent
      + sum_by w s.tx_freed

  abbrev pub everywhere : System R → ℕ
  everywhere s = weigh s s.rx s.tx

  -- What has arrived since is what there is more.
  abbrev Keeps : System R → RxCore → TxCore → System R → Type 0
  Keeps s rx tx s' =
      sum_by unswapped s'.arrived + weigh s rx tx ≡ sum_by unswapped s.arrived + everywhere s'

  poll-Keeps : (s : System R) (ps : List Packet) → Keeps s polling s.tx (poll s ps)
  unfolding poll
  poll-Keeps s [] = omega arith
  poll-Keeps s (p ∷ ps) = omega (arith, sum_by-append unswapped s.arrived (p ∷ ps))

  -- What the ring did not take is freed; if it took all, nothing is left.
  rest_after :
      (n : ℕ) (bufs : List Packet)
      → sum_by unswapped
          (rx_holds (if ltb n (length bufs) then rx_freeing (drop n bufs) else polling))
        ≡ sum_by unswapped (drop n bufs)
  rest_after n bufs = elim (Bool-cases (ltb n (length bufs))) [
    | inl e ↦ rw e refl
    | inr e ↦ rw (e, drop-all n bufs (ground (arith, e))) refl
  ]

  enqueue-Keeps :
      (s : System R) (bufs : List Packet)
      → let (ring, enqueued) = rte.sp_enqueue_burst s.ring bufs in
        Keeps s (received bufs) s.tx (enqueue_rest s ring enqueued bufs)
  unfolding enqueue_rest
  enqueue-Keeps s bufs =
      let n = (rte.sp_enqueue_burst s.ring bufs).1 in
      omega (
        arith,
        ap (sum_by unswapped) (rte.burst_enqueued s.ring bufs),
        sum_by-append unswapped (rte.contents s.ring) (take n bufs),
        sum_by-split unswapped n bufs,
        rest_after n bufs,
      )

  rx_move-Keeps :
      (s : System R) (offered : List Packet) (core : RxCore)
      → Keeps s core s.tx (rx_move rte s offered core)
  unfolding rx_move
  rx_move-Keeps s offered polling =
      elim s.force_quit
        as (λ quit.
          Keeps s polling s.tx
            (if quit then record s { rx = rx_exited } else poll s (take burst_size offered))) [
              | true ↦ omega arith
              | false ↦ poll-Keeps s (take burst_size offered)
            ]
  rx_move-Keeps s offered (received bufs) = enqueue-Keeps s bufs
  rx_move-Keeps s offered (rx_freeing []) = omega arith
  rx_move-Keeps s offered (rx_freeing (p ∷ ps)) =
      omega (arith, sum_by-append unswapped s.rx_freed (p ∷ []))
  rx_move-Keeps s offered rx_exited = omega arith

  take_burst-Keeps :
      (s : System R) (ring : R) (bufs : List Packet)
      → bufs ++ rte.contents ring ≡ rte.contents s.ring
      → Keeps s s.rx dequeuing (take_burst s ring bufs)
  unfolding take_burst
  take_burst-Keeps s ring [] law = omega (arith, ap (sum_by unswapped) law)
  take_burst-Keeps s ring (p ∷ ps) law = omega (
    arith,
    ap (sum_by unswapped) law,
    sum_by-append unswapped (p ∷ ps) (rte.contents ring),
    sum_by-map w swap_packet (p ∷ ps),
  )

  send_burst-Keeps :
      (s : System R) (n : ℕ) (bufs : List Packet)
      → Keeps s s.rx (sending bufs) (send_burst s n bufs)
  unfolding send_burst
  send_burst-Keeps s n bufs =
      let split = sum_by-split w n bufs in
      let joined = sum_by-append w s.sent (take n bufs) in
      elim (Bool-cases (ltb n (length bufs))) [
        | inl e ↦ rw e (omega (arith, split, joined))
        | inr e ↦
            rw e (omega (arith, split, joined, ap (sum_by w) (drop-all n bufs (ground (arith, e)))))
      ]

  tx_move-Keeps :
      (s : System R) (room : ℕ) (core : TxCore) → Keeps s s.rx core (tx_move rte s room core)
  unfolding tx_move
  tx_move-Keeps s room dequeuing =
      let (ring, bufs) = rte.sc_dequeue_burst s.ring burst_size in
      elim s.force_quit
        as (λ quit.
          Keeps s s.rx dequeuing
            (if quit then record s { tx = tx_exited } else take_burst s ring bufs)) [
              | true ↦ omega arith
              | false ↦ take_burst-Keeps s ring bufs (rte.burst_dequeued s.ring burst_size)
            ]
  tx_move-Keeps s room (swapping done []) = omega (arith, ap (sum_by w) (append-nil done))
  tx_move-Keeps s room (swapping done (p ∷ ps)) =
      omega (arith, ap (sum_by w) (append_assoc done (swap_packet p ∷ []) (map swap_packet ps)))
  tx_move-Keeps s room (sending bufs) = send_burst-Keeps s (min room (length bufs)) bufs
  tx_move-Keeps s room (tx_freeing nb_tx []) = omega arith
  tx_move-Keeps s room (tx_freeing nb_tx (p ∷ ps)) =
      omega (arith, sum_by-append w s.tx_freed (p ∷ []))
  tx_move-Keeps s room tx_exited = omega arith

  step-Keeps : (s : System R) (t : Turn) → Keeps s s.rx s.tx (step rte s t)
  unfolding step
  step-Keeps s (rx_turn offered) = rx_move-Keeps s offered s.rx
  step-Keeps s (tx_turn room) = tx_move-Keeps s room s.tx
  step-Keeps s signal = omega arith

  run-Keeps : (s : System R) (ts : List Turn) → Keeps s s.rx s.tx (run rte s ts)
  unfolding run
  run-Keeps s [] = omega arith
  run-Keeps s (t ∷ ts) = omega (arith, step-Keeps s t, run-Keeps (step rte s t) ts)

  -- After any turns of the cores, the port and the signals on a new system with an empty ring, each
  -- measure of packets summed over those that have arrived, with their addresses swapped, is the sum
  -- over those that are freed, held by a core, in the ring or sent.
  pub run_balanced :
      (ring : R) (ts : List Turn)
      → rte.contents ring ≡ []
      → let s = run rte (new_system ring) ts in sum_by unswapped s.arrived ≡ everywhere s
  unfolding new_system
  run_balanced ring ts empty =
      omega (arith, run-Keeps (new_system ring) ts, ap (sum_by unswapped) empty)
