-- ===== src/Forwarder/Counters.antt =====
-- What the counters `rx_packets` and `tx_packets` of the forwarder say.
use virtual_service_gateway.Common.{
  length-take, ℕ, ◌+◌, ◌%◌, ◌≤◌, ◌<◌, ◌≡◌, refl, ap, true, false, List, [], ◌∷◌, take, length,
  arith, length-append, ltb, Bool-cases, inl, inr, min, u64_mod, if◌then◌else◌,
}
use virtual_service_gateway.Ethernet.{Packet}
use virtual_service_gateway.Dpdk.RingQueue.{RteRing}
use virtual_service_gateway.Forwarder.Cores.{
  System, RxCore, TxCore, polling, received, rx_freeing, rx_exited, dequeuing, swapping, sending,
  tx_freeing, tx_exited, Turn, rx_turn, tx_turn, signal, poll, enqueue_rest, rx_move, take_burst,
  send_burst, tx_move, step, run, new_system, burst_size,
}

module _ {R : Type 0} (rte : RteRing R Packet) where
  -- The packets of the burst in hand that the transmitting core has sent and not counted yet.
  abbrev uncounted : TxCore → ℕ
  uncounted dequeuing = 0
  uncounted (swapping done todo) = 0
  uncounted (sending bufs) = 0
  uncounted (tx_freeing nb_tx bufs) = nb_tx
  uncounted tx_exited = 0

  abbrev IsCounted : System R → TxCore → Type 0
  IsCounted s tx =
      (s.rx_packets ≡ length s.arrived % u64_mod)
      × (s.tx_packets < u64_mod)
      × ((s.tx_packets + uncounted tx) % u64_mod ≡ length s.sent % u64_mod)

  rx_move-IsCounted :
      (s : System R) (offered : List Packet) (core : RxCore)
      → IsCounted s s.tx
      → let s' = rx_move rte s offered core in IsCounted s' s'.tx
  unfolding rx_move poll enqueue_rest
  rx_move-IsCounted s offered polling h =
      elim s.force_quit
        as (λ quit.
          let s' = if quit then record s { rx = rx_exited } else poll s (take burst_size offered) in
          IsCounted s' s'.tx) [
            | true ↦ h
            | false ↦
                elim (take burst_size offered) as (λ ps. IsCounted (poll s ps) (poll s ps).tx) [
                  | [] ↦ h
                  | p ∷ ps ↦ (omega (arith, h.0, length-append s.arrived (p ∷ ps)), h.1, h.2)
                ]
          ]
  rx_move-IsCounted s offered (received bufs) h = h
  rx_move-IsCounted s offered (rx_freeing []) h = h
  rx_move-IsCounted s offered (rx_freeing (p ∷ ps)) h = h
  rx_move-IsCounted s offered rx_exited h = h

  send_burst-IsCounted :
      (s : System R) (n : ℕ) (bufs : List Packet)
      → n ≤ length bufs
      → IsCounted s (sending bufs)
      → let s' = send_burst s n bufs in IsCounted s' s'.tx
  unfolding send_burst
  send_burst-IsCounted s n bufs le h =
      let shipped = length-append s.sent (take n bufs) in
      let taken = length-take n bufs le in
      elim (Bool-cases (ltb n (length bufs))) [
        | inl e ↦ rw e (h.0, h.1, omega (arith, h.2, shipped, taken))
        | inr e ↦
            let all : length bufs ≤ n = ground (arith, e) in
            rw e (h.0, omega arith, omega (arith, h.2, shipped, taken, all, le))
      ]

  tx_move-IsCounted :
      (s : System R) (room : ℕ) (core : TxCore)
      → IsCounted s core
      → let s' = tx_move rte s room core in IsCounted s' s'.tx
  unfolding tx_move take_burst
  tx_move-IsCounted s room dequeuing h =
      let (ring, bufs) = rte.sc_dequeue_burst s.ring burst_size in
      elim s.force_quit
        as (λ quit.
          let s' = if quit then record s { tx = tx_exited } else take_burst s ring bufs in
          IsCounted s' s'.tx) [
            | true ↦ h
            | false ↦ elim bufs as (λ b. IsCounted (take_burst s ring b) (take_burst s ring b).tx) [
              | [] ↦ h
              | p ∷ ps ↦ h
            ]
          ]
  tx_move-IsCounted s room (swapping done []) h = h
  tx_move-IsCounted s room (swapping done (p ∷ ps)) h = h
  tx_move-IsCounted s room (sending bufs) h =
      send_burst-IsCounted s (min room (length bufs)) bufs (omega arith) h
  tx_move-IsCounted s room (tx_freeing nb_tx []) h = (h.0, omega arith, omega (arith, h.2))
  tx_move-IsCounted s room (tx_freeing nb_tx (p ∷ ps)) h = h
  tx_move-IsCounted s room tx_exited h = h

  run-IsCounted :
      (s : System R) (ts : List Turn)
      → IsCounted s s.tx
      → IsCounted (run rte s ts) (run rte s ts).tx
  unfolding run step
  run-IsCounted s [] h = h
  run-IsCounted s (rx_turn offered ∷ ts) h =
      run-IsCounted (rx_move rte s offered s.rx) ts (rx_move-IsCounted s offered s.rx h)
  run-IsCounted s (tx_turn room ∷ ts) h =
      run-IsCounted (tx_move rte s room s.tx) ts (tx_move-IsCounted s room s.tx h)
  run-IsCounted s (signal ∷ ts) h = run-IsCounted (record s { force_quit = true }) ts h

  -- After any turns on a new system `rx_packets` is the number of packets that arrived, and, when the
  -- transmitting core has left, `tx_packets` is the number of those sent, both modulo 2^64.
  pub run_counters :
      (ring : R) (ts : List Turn)
      → (run rte (new_system ring) ts).tx ≡ tx_exited
      → let s = run rte (new_system ring) ts in
        (s.rx_packets ≡ length s.arrived % u64_mod) × (s.tx_packets ≡ length s.sent % u64_mod)
  unfolding new_system
  run_counters ring ts gone =
      let (a, b, c) = run-IsCounted (new_system ring) ts (refl, omega arith, refl) in
      (a, omega (arith, b, c, ap uncounted gone))
