-- ===== src/Forwarder/Order.antt =====
-- Packets leave in the order in which they arrived.
use mathlib.Core.List.{Sublist, sublist-append_left}
use mathlib.Core.List.Sublist
use virtual_service_gateway.Common.{
  map-append, ℕ, ◌≡◌, refl, sym, ◌∙◌, ap, subst, true, false, List, [], ◌∷◌, ◌++◌, take, drop,
  length, map, take-append-drop, append-nil, append_assoc, ltb, Bool-cases, inl, inr, min,
  if◌then◌else◌,
}
use virtual_service_gateway.Ethernet.{Packet}
use virtual_service_gateway.Dpdk.RingQueue.{RteRing}
use virtual_service_gateway.Forwarder.Cores.{
  System, RxCore, TxCore, polling, received, rx_freeing, rx_exited, dequeuing, swapping, sending,
  tx_freeing, tx_exited, swap_packet, Turn, rx_turn, tx_turn, signal, poll, enqueue_rest, rx_move,
  take_burst, send_burst, tx_move, step, run, new_system, burst_size,
}

-- The packets that a core may still pass on.
abbrev rx_line : RxCore → List Packet
rx_line polling = []
rx_line (received bufs) = bufs
rx_line (rx_freeing bufs) = []
rx_line rx_exited = []

abbrev tx_line : TxCore → List Packet
tx_line dequeuing = []
tx_line (swapping done todo) = done ++ map swap_packet todo
tx_line (sending bufs) = bufs
tx_line (tx_freeing nb_tx bufs) = []
tx_line tx_exited = []

take-Sublist : {A : Type 0} (n : ℕ) (xs : List A) → Sublist (take n xs) xs
take-Sublist n xs =
    subst (Sublist (take n xs)) (take-append-drop n xs)
      (sublist-append_left (take n xs) (drop n xs))

-- Fewer packets behind the same ones are still in order.
shrink :
    (a b c d z : List Packet) → Sublist c d → Sublist (a ++ (b ++ d)) z → Sublist (a ++ (b ++ c)) z
shrink a b c d z h =
    Sublist.trans (Sublist.append (Sublist.refl a) (Sublist.append (Sublist.refl b) h))

map-prefix :
    (xs ys zs : List Packet) → xs ++ ys ≡ zs → Sublist (map swap_packet xs) (map swap_packet zs)
map-prefix xs ys zs e =
    subst (Sublist (map swap_packet xs))
      (sym (map-append swap_packet xs ys) ∙ ap (map swap_packet) e)
      (sublist-append_left (map swap_packet xs) (map swap_packet ys))

module _ {R : Type 0} (rte : RteRing R Packet) where
  -- Those sent, then those that may still be, in their order.
  abbrev line : System R → RxCore → TxCore → List Packet
  line s rx tx = s.sent ++ (tx_line tx ++ map swap_packet (rte.contents s.ring ++ rx_line rx))

  abbrev IsInOrder : System R → RxCore → TxCore → Type 0
  IsInOrder s rx tx = Sublist (line s rx tx) (map swap_packet s.arrived)

  abbrev Preserves : System R → RxCore → TxCore → System R → Type 0
  Preserves s rx tx s' = IsInOrder s rx tx → IsInOrder s' s'.rx s'.tx

  line-append :
      (s : System R) (tx : TxCore) (ps : List Packet)
      → line s (received ps) tx ≡ line s polling tx ++ map swap_packet ps
  line-append s tx ps =
      let ring = rte.contents s.ring in
      let tail : map swap_packet (ring ++ ps) ≡ map swap_packet (ring ++ []) ++ map swap_packet ps =
        ap (map swap_packet) (ap (λ r. r ++ ps) (sym (append-nil ring)))
        ∙ map-append swap_packet (ring ++ []) ps in
      ap (λ t. s.sent ++ (tx_line tx ++ t)) tail
      ∙ ap (λ t. s.sent ++ t)
          (sym (append_assoc (tx_line tx) (map swap_packet (ring ++ [])) (map swap_packet ps)))
      ∙ sym (append_assoc s.sent (tx_line tx ++ map swap_packet (ring ++ [])) (map swap_packet ps))

  poll-Preserves : (s : System R) (ps : List Packet) → Preserves s polling s.tx (poll s ps)
  unfolding poll
  poll-Preserves s [] h = h
  poll-Preserves s (p ∷ ps) h =
      rw (line-append s s.tx (p ∷ ps), map-append swap_packet s.arrived (p ∷ ps))
        (Sublist.append h (Sublist.refl (map swap_packet (p ∷ ps))))

  enqueue-Preserves :
      (s : System R) (bufs : List Packet)
      → let (ring, enqueued) = rte.sp_enqueue_burst s.ring bufs in
        Preserves s (received bufs) s.tx (enqueue_rest s ring enqueued bufs)
  unfolding enqueue_rest
  enqueue-Preserves s bufs h =
      let (ring, n) = rte.sp_enqueue_burst s.ring bufs in
      let none_held : rx_line (if ltb n (length bufs) then rx_freeing (drop n bufs) else polling)
          ≡ [] =
        elim (Bool-cases (ltb n (length bufs))) [ inl e ↦ rw e refl | inr e ↦ rw e refl ] in
      let old = rte.contents s.ring in
      let whole : (old ++ take n bufs) ++ drop n bufs ≡ old ++ bufs =
        append_assoc old (take n bufs) (drop n bufs)
        ∙ ap (λ t. old ++ t) (take-append-drop n bufs) in
      rw (none_held, append-nil (rte.contents ring), rte.burst_enqueued s.ring bufs)
        (shrink s.sent (tx_line s.tx) (map swap_packet (old ++ take n bufs))
          (map swap_packet (old ++ bufs)) (map swap_packet s.arrived)
          (map-prefix (old ++ take n bufs) (drop n bufs) (old ++ bufs) whole) h)

  rx_move-Preserves :
      (s : System R) (offered : List Packet) (core : RxCore)
      → Preserves s core s.tx (rx_move rte s offered core)
  unfolding rx_move
  rx_move-Preserves s offered polling h =
      (elim s.force_quit
          as (λ quit.
            Preserves s polling s.tx
              (if quit then record s { rx = rx_exited } else poll s (take burst_size offered))) [
                | true ↦ λ h. h
                | false ↦ poll-Preserves s (take burst_size offered)
              ])
        h
  rx_move-Preserves s offered (received bufs) h = enqueue-Preserves s bufs h
  rx_move-Preserves s offered (rx_freeing []) h = h
  rx_move-Preserves s offered (rx_freeing (p ∷ ps)) h = h
  rx_move-Preserves s offered rx_exited h = h

  take_burst-Preserves :
      (s : System R) (ring : R) (bufs : List Packet)
      → bufs ++ rte.contents ring ≡ rte.contents s.ring
      → Preserves s s.rx dequeuing (take_burst s ring bufs)
  unfolding take_burst
  take_burst-Preserves s ring [] law h = rw law h
  take_burst-Preserves s ring (p ∷ ps) law h =
      let bufs = p ∷ ps in
      let held = rx_line s.rx in
      let joined : map swap_packet bufs ++ map swap_packet (rte.contents ring ++ held)
          ≡ map swap_packet (rte.contents s.ring ++ held) =
        sym (map-append swap_packet bufs (rte.contents ring ++ held))
        ∙ ap (map swap_packet)
            (sym (append_assoc bufs (rte.contents ring) held) ∙ ap (λ r. r ++ held) law) in
      subst (λ t. Sublist (s.sent ++ t) (map swap_packet s.arrived)) (sym joined) h

  send_burst-Preserves :
      (s : System R) (n : ℕ) (bufs : List Packet)
      → Preserves s s.rx (sending bufs) (send_burst s n bufs)
  unfolding send_burst
  send_burst-Preserves s n bufs h =
      let rest = map swap_packet (rte.contents s.ring ++ rx_line s.rx) in
      let shipped : Sublist ((s.sent ++ take n bufs) ++ rest) (map swap_packet s.arrived) =
        subst (λ t. Sublist t (map swap_packet s.arrived))
          (sym (append_assoc s.sent (take n bufs) rest))
          (Sublist.trans
            (Sublist.append (Sublist.refl s.sent)
              (Sublist.append (take-Sublist n bufs) (Sublist.refl rest)))
            h) in
      elim (Bool-cases (ltb n (length bufs))) [ inl e ↦ rw e shipped | inr e ↦ rw e shipped ]

  tx_move-Preserves :
      (s : System R) (room : ℕ) (core : TxCore) → Preserves s s.rx core (tx_move rte s room core)
  unfolding tx_move
  tx_move-Preserves s room dequeuing h =
      let (ring, bufs) = rte.sc_dequeue_burst s.ring burst_size in
      (elim s.force_quit
          as (λ quit.
            Preserves s s.rx dequeuing
              (if quit then record s { tx = tx_exited } else take_burst s ring bufs)) [
                | true ↦ λ h. h
                | false ↦ take_burst-Preserves s ring bufs (rte.burst_dequeued s.ring burst_size)
              ])
        h
  tx_move-Preserves s room (swapping done []) h = rw⁻¹ (append-nil done) h
  tx_move-Preserves s room (swapping done (p ∷ ps)) h =
      rw (append_assoc done (swap_packet p ∷ []) (map swap_packet ps)) h
  tx_move-Preserves s room (sending bufs) h = send_burst-Preserves s (min room (length bufs)) bufs h
  tx_move-Preserves s room (tx_freeing nb_tx []) h = h
  tx_move-Preserves s room (tx_freeing nb_tx (p ∷ ps)) h = h
  tx_move-Preserves s room tx_exited h = h

  step-Preserves : (s : System R) (t : Turn) → Preserves s s.rx s.tx (step rte s t)
  unfolding step
  step-Preserves s (rx_turn offered) h = rx_move-Preserves s offered s.rx h
  step-Preserves s (tx_turn room) h = tx_move-Preserves s room s.tx h
  step-Preserves s signal h = h

  run-Preserves : (s : System R) (ts : List Turn) → Preserves s s.rx s.tx (run rte s ts)
  unfolding run
  run-Preserves s [] h = h
  run-Preserves s (t ∷ ts) h = run-Preserves (step rte s t) ts (step-Preserves s t h)

  -- After any turns on a new system with an empty ring, the packets sent are a subsequence of those
  -- that have arrived, with their addresses swapped: none is sent twice, and none overtakes another.
  pub run_in_order :
      (ring : R) (ts : List Turn)
      → rte.contents ring ≡ []
      → let s = run rte (new_system ring) ts in Sublist s.sent (map swap_packet s.arrived)
  unfolding new_system
  run_in_order ring ts empty =
      let s = run rte (new_system ring) ts in
      let start : IsInOrder (new_system ring) polling dequeuing = rw empty (Sublist.refl []) in
      Sublist.trans
        (sublist-append_left s.sent
          (tx_line s.tx ++ map swap_packet (rte.contents s.ring ++ rx_line s.rx)))
        (run-Preserves (new_system ring) ts start)
