-- ===== src/Forwarder/Quit.antt =====
-- How the forwarder stops after a signal, what its counters say then, and what is left in the ring.
use virtual_service_gateway.Common.{
  length-drop-le, take-all, ℕ, suc, ◌+◌, ◌*◌, ◌≤◌, ◌≡◌, refl, ◌∙◌, ap, ap₂, true, false, List, [],
  ◌∷◌, ◌++◌, take, length, arith, ◌-◌, length-append, sum_by, ltb, Bool-cases, inl, inr, min,
}
use virtual_service_gateway.Ethernet.{Packet}
use virtual_service_gateway.Dpdk.RingQueue.{RteRing}
use virtual_service_gateway.Forwarder.Cores.{
  System, RxCore, TxCore, polling, received, rx_freeing, rx_exited, dequeuing, swapping, sending,
  tx_freeing, tx_exited, swap_packet, Turn, rx_turn, tx_turn, signal, poll, enqueue_rest, rx_move,
  send_burst, tx_move, step, run, new_system, burst_size,
}
use virtual_service_gateway.Forwarder.Balance.{rx_holds, tx_holds, run_balanced}

-- The turns that a core needs at most, once the flag is set, to leave its loop.
abbrev pub rx_left : RxCore → ℕ
rx_left polling = 1
rx_left (received bufs) = length bufs + 3
rx_left (rx_freeing bufs) = length bufs + 2
rx_left rx_exited = 0

abbrev pub tx_left : TxCore → ℕ
tx_left dequeuing = 1
tx_left (swapping done todo) = length done + 2 * length todo + 4
tx_left (sending bufs) = length bufs + 3
tx_left (tx_freeing nb_tx bufs) = length bufs + 2
tx_left tx_exited = 0

-- A turn of a core that has not left brings it nearer; other turns leave it where it is.
abbrev pub rx_turns : List Turn → ℕ
rx_turns [] = 0
rx_turns (rx_turn offered ∷ ts) = suc (rx_turns ts)
rx_turns (tx_turn room ∷ ts) = rx_turns ts
rx_turns (signal ∷ ts) = rx_turns ts

abbrev pub tx_turns : List Turn → ℕ
tx_turns [] = 0
tx_turns (rx_turn offered ∷ ts) = tx_turns ts
tx_turns (tx_turn room ∷ ts) = suc (tx_turns ts)
tx_turns (signal ∷ ts) = tx_turns ts

rx_left-zero : (core : RxCore) → rx_left core ≤ 0 → core ≡ rx_exited
rx_left-zero polling h = absurd (omega (arith, h))
rx_left-zero (received bufs) h = absurd (omega (arith, h))
rx_left-zero (rx_freeing bufs) h = absurd (omega (arith, h))
rx_left-zero rx_exited h = refl

tx_left-zero : (core : TxCore) → tx_left core ≤ 0 → core ≡ tx_exited
tx_left-zero dequeuing h = absurd (omega (arith, h))
tx_left-zero (swapping done todo) h = absurd (omega (arith, h))
tx_left-zero (sending bufs) h = absurd (omega (arith, h))
tx_left-zero (tx_freeing nb_tx bufs) h = absurd (omega (arith, h))
tx_left-zero tx_exited h = refl

module _ {R : Type 0} (rte : RteRing R Packet) where
  rx_move-left :
      (s : System R) (offered : List Packet) (core : RxCore)
      → s.force_quit ≡ true
      → let s' = rx_move rte s offered core in
        (s'.force_quit ≡ true) × (s'.tx ≡ s.tx) × (rx_left s'.rx ≤ rx_left core - 1)
  unfolding rx_move enqueue_rest
  rx_move-left s offered polling quit = rw quit (refl, refl, omega arith)
  rx_move-left s offered (received bufs) quit =
      let n = (rte.sp_enqueue_burst s.ring bufs).1 in
      (
        quit,
        refl,
        elim (Bool-cases (ltb n (length bufs))) [
          | inl e ↦ rw e (omega (arith, length-drop-le n bufs))
          | inr e ↦ rw e (omega arith)
        ],
      )
  rx_move-left s offered (rx_freeing []) quit = (quit, refl, omega arith)
  rx_move-left s offered (rx_freeing (p ∷ ps)) quit = (quit, refl, omega arith)
  rx_move-left s offered rx_exited quit = (quit, refl, omega arith)

  tx_move-left :
      (s : System R) (room : ℕ) (core : TxCore)
      → s.force_quit ≡ true
      → let s' = tx_move rte s room core in
        (s'.force_quit ≡ true) × (s'.rx ≡ s.rx) × (tx_left s'.tx ≤ tx_left core - 1)
  unfolding tx_move send_burst
  tx_move-left s room dequeuing quit = rw quit (refl, refl, omega arith)
  tx_move-left s room (swapping done []) quit = (quit, refl, omega arith)
  tx_move-left s room (swapping done (p ∷ ps)) quit =
      (quit, refl, omega (arith, length-append done (swap_packet p ∷ [])))
  tx_move-left s room (sending bufs) quit =
      let n = min room (length bufs) in
      elim (Bool-cases (ltb n (length bufs))) [
        | inl e ↦ rw e (quit, refl, omega (arith, length-drop-le n bufs))
        | inr e ↦ rw e (quit, refl, omega arith)
      ]
  tx_move-left s room (tx_freeing nb_tx []) quit = (quit, refl, omega arith)
  tx_move-left s room (tx_freeing nb_tx (p ∷ ps)) quit = (quit, refl, omega arith)
  tx_move-left s room tx_exited quit = (quit, refl, omega arith)

  pub step-quit : (s : System R) (t : Turn) → s.force_quit ≡ true → (step rte s t).force_quit ≡ true
  unfolding step
  step-quit s (rx_turn offered) quit = (rx_move-left s offered s.rx quit).0
  step-quit s (tx_turn room) quit = (tx_move-left s room s.tx quit).0
  step-quit s signal quit = refl

  run-left :
      (s : System R) (ts : List Turn)
      → s.force_quit ≡ true
      → (rx_left (run rte s ts).rx ≤ rx_left s.rx - rx_turns ts)
        × (tx_left (run rte s ts).tx ≤ tx_left s.tx - tx_turns ts)
  unfolding run step
  run-left s [] quit = (omega arith, omega arith)
  run-left s (rx_turn offered ∷ ts) quit =
      let (q, same, less) = rx_move-left s offered s.rx quit in
      let (a, b) = run-left (rx_move rte s offered s.rx) ts q in
      (omega (arith, a, less), omega (arith, b, ap tx_left same))
  run-left s (tx_turn room ∷ ts) quit =
      let (q, same, less) = tx_move-left s room s.tx quit in
      let (a, b) = run-left (tx_move rte s room s.tx) ts q in
      (omega (arith, a, ap rx_left same), omega (arith, b, less))
  run-left s (signal ∷ ts) quit = run-left (record s { force_quit = true }) ts refl

  -- Once the flag is set, each core has left its loop after as many turns of its own as `rx_left` and
  -- `tx_left` say (at most 67 and 132 for a burst of 64), whatever the port does and however the
  -- turns interleave.
  pub quit_terminates :
      (s : System R) (ts : List Turn)
      → s.force_quit ≡ true
      → rx_left s.rx ≤ rx_turns ts
      → tx_left s.tx ≤ tx_turns ts
      → ((run rte s ts).rx ≡ rx_exited) × ((run rte s ts).tx ≡ tx_exited)
  quit_terminates s ts quit enough_rx enough_tx =
      let (a, b) = run-left s ts quit in
      (
        rx_left-zero (run rte s ts).rx (omega (arith, a, enough_rx)),
        tx_left-zero (run rte s ts).tx (omega (arith, b, enough_tx)),
      )

  -- When both cores have left, each measure of the packets that arrived is split among those freed,
  -- those sent and those still in the ring, which `main` does not drain.
  pub exit_balance :
      (w : Packet → ℕ) (ring : R) (ts : List Turn)
      → rte.contents ring ≡ []
      → (run rte (new_system ring) ts).rx ≡ rx_exited
      → (run rte (new_system ring) ts).tx ≡ tx_exited
      → let s = run rte (new_system ring) ts in
        sum_by (λ p. w (swap_packet p)) s.arrived
        ≡ sum_by (λ p. w (swap_packet p)) s.rx_freed
          + sum_by (λ p. w (swap_packet p)) (rte.contents s.ring)
          + sum_by w s.sent
          + sum_by w s.tx_freed
  exit_balance w ring ts empty rx_gone tx_gone =
      let s = run rte (new_system ring) ts in
      omega (
        arith,
        run_balanced rte w ring ts empty,
        ap (λ core. sum_by (λ p. w (swap_packet p)) (rx_holds core)) rx_gone,
        ap (λ core. sum_by w (tx_holds core)) tx_gone,
      )

  -- A signal between the two cores leaves a burst behind: with a burst that the ring takes whole, there
  -- is a run in which both cores leave, no packet is sent or freed, and the burst is in the ring.
  pub ring_leak :
      (ring : R) (p : Packet) (ps : List Packet)
      → rte.contents ring ≡ []
      → length (p ∷ ps) ≤ burst_size
      → (rte.sp_enqueue_burst ring (p ∷ ps)).1 ≡ length (p ∷ ps)
      → let s =
          run rte
            (new_system ring)
            (rx_turn (p ∷ ps) ∷ rx_turn [] ∷ signal ∷ rx_turn [] ∷ tx_turn 0 ∷ []) in
        (s.rx ≡ rx_exited)
        × (s.tx ≡ tx_exited)
        × (s.sent ++ (s.rx_freed ++ s.tx_freed) ≡ [])
        × (rte.contents s.ring ≡ p ∷ ps)
  unfolding run step new_system rx_move tx_move poll enqueue_rest
  ring_leak ring p ps empty fits whole =
      let all : take 63 ps ≡ ps = take-all 63 ps (omega (arith, fits)) in
      let none_left : ltb (rte.sp_enqueue_burst ring (p ∷ ps)).1 (suc (length ps)) ≡ false =
        ground (arith, whole) in
      let stored : rte.contents (rte.sp_enqueue_burst ring (p ∷ ps)).0 ≡ p ∷ ps =
        rte.burst_enqueued ring (p ∷ ps)
        ∙ ap₂ (λ old n. old ++ take n (p ∷ ps)) empty whole
        ∙ take-all (length (p ∷ ps)) (p ∷ ps) (omega arith) in
      rw (all, none_left, stored) (refl, refl, refl, refl)
