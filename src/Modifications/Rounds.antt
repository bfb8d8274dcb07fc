-- ===== src/Modifications/Rounds.antt =====
-- What a burst does to the packets and the statistics of the pipeline.
use mathlib.Core.List.{Sublist, nil-sublist}
use mathlib.Core.List.Sublist
use virtual_service_gateway.Common.{
  ℕ, ◌+◌, ◌%◌, ◌≡◌, refl, sym, ap, subst, ◌∙◌, Bool, false, List, [], ◌∷◌, ◌++◌, take, drop, length,
  length-append, append_assoc, append-nil, drop-nil, take-nil, arith, min, Bool-cases, inl, inr,
  u64_mod,
}
use virtual_service_gateway.Common.Faults.{ok, >>=-eq-ok}
use virtual_service_gateway.Modifications.Headers.{packet_at, extract_packet_headers}
use virtual_service_gateway.Modifications.Classes.{classify_packet}
use virtual_service_gateway.Modifications.Stats.{
  update_stats, count_packet, update_meter, check_quota,
}
use virtual_service_gateway.Modifications.Pipeline.{
  Pipeline, quota, give_up, add_error, add_drop, swap_header, modify_packet, admit, process_packet,
  process_packets, free_unsent, transmit, handle_burst,
}

-- The packets that the loop freed, in their order, and what the counters say of them and of the others.
abbrev Handled : List ℕ → List ℕ → Pipeline → Pipeline → Type 0
Handled pkts rejected s s' =
    Sublist rejected pkts
    × (s'.freed ≡ s.freed ++ rejected)
    × (s'.sent ≡ s.sent)
    × ((s'.stats.tx_packets + length rejected) % u64_mod
        ≡ (s.stats.tx_packets + length pkts) % u64_mod)
    × ((s'.stats.errors + s'.stats.dropped_packets) % u64_mod
        ≡ (s.stats.errors + s.stats.dropped_packets + length rejected) % u64_mod)

Handled-append :
    (xs ys us vs : List ℕ) (s t u : Pipeline)
    → Handled xs us s t
    → Handled ys vs t u
    → Handled (xs ++ ys) (us ++ vs) s u
Handled-append xs ys us vs s t u (sub, freed, sent, tx, bad) (sub', freed', sent', tx', bad') = (
  Sublist.append sub sub',
  freed' ∙ ap (λ f. f ++ vs) freed ∙ append_assoc s.freed us vs,
  sent' ∙ sent,
  omega (arith, tx, tx', length-append xs ys, length-append us vs),
  omega (arith, bad, bad', length-append us vs),
)

modify_packet-Handled :
    (pkt : ℕ) (s s' : Pipeline) → modify_packet pkt s ≡ ok s' → Handled (pkt ∷ []) [] s s'
unfolding modify_packet update_stats count_packet
modify_packet-Handled pkt s s' e =
    let (memory, swapped, rest) = >>=-eq-ok (swap_header s) _ s' e in
    let (stats, counted, last) =
      >>=-eq-ok (update_stats memory s.stats (pkt ∷ []) false) _ s' rest in
    let (p, found, now) = >>=-eq-ok (packet_at memory pkt) _ stats counted in
    let counts : count_packet s.stats p.pkt_len false ≡ stats = cc now in
    let same : record s { memory = memory; stats = count_packet s.stats p.pkt_len false } ≡ s' =
      ap (λ t. record s { memory = memory; stats = t }) counts ∙ cc last in
    subst (Handled (pkt ∷ []) [] s) same
      (nil-sublist (pkt ∷ []), sym (append-nil s.freed), refl, omega arith, omega arith)

give_up_error : (pkt : ℕ) (s : Pipeline) → Handled (pkt ∷ []) (pkt ∷ []) s (give_up pkt add_error s)
unfolding give_up add_error
give_up_error pkt s = (Sublist.refl (pkt ∷ []), refl, refl, refl, omega arith)

give_up_drop : (pkt : ℕ) (s : Pipeline) → Handled (pkt ∷ []) (pkt ∷ []) s (give_up pkt add_drop s)
unfolding give_up add_drop
give_up_drop pkt s = (Sublist.refl (pkt ∷ []), refl, refl, refl, omega arith)

module _ (little_endian : Bool) where
  admit-Handled :
      (pkt : ℕ) (s s' : Pipeline)
      → admit little_endian pkt s ≡ ok s'
      → (rejected : List ℕ) × Handled (pkt ∷ []) rejected s s'
  unfolding admit
  admit-Handled pkt s s' e =
      let (cls, classified, rest) =
        >>=-eq-ok (classify_packet little_endian s.memory s.hdrs) _ s' e in
      let (p, found, last) = >>=-eq-ok (packet_at s.memory pkt) _ s' rest in
      let metered : Pipeline = record s { meter = update_meter s.meter p.pkt_len } in
      elim (Bool-cases (check_quota metered.meter quota)) [
        | inl above ↦
            let same : give_up pkt add_drop metered ≡ s' = cc (rw above at last) in
            (pkt ∷ [], subst (Handled (pkt ∷ []) (pkt ∷ []) s) same (give_up_drop pkt metered))
        | inr below ↦ ([], modify_packet-Handled pkt metered s' (rw below at last))
      ]

  process_packet-Handled :
      (pkt : ℕ) (s s' : Pipeline)
      → process_packet little_endian pkt s ≡ ok s'
      → (rejected : List ℕ) × Handled (pkt ∷ []) rejected s s'
  unfolding process_packet
  process_packet-Handled pkt s s' e =
      let (q, extracted, rest) =
        >>=-eq-ok (extract_packet_headers little_endian s.memory pkt s.hdrs) _ s' e in
      let now : Pipeline = record s { hdrs = q.0 } in
      elim (Bool-cases q.1) [
        | inl done ↦ admit-Handled pkt now s' (rw done at rest)
        | inr failed ↦
            let same : give_up pkt add_error now ≡ s' = cc (rw failed at rest) in
            (pkt ∷ [], subst (Handled (pkt ∷ []) (pkt ∷ []) s) same (give_up_error pkt now))
      ]

  process_packets-Handled :
      (pkts : List ℕ) (s s' : Pipeline)
      → process_packets little_endian pkts s ≡ ok s'
      → (rejected : List ℕ) × Handled pkts rejected s s'
  unfolding process_packets
  process_packets-Handled [] s s' e =
      let same : s ≡ s' = cc e in
      (
        [],
        subst (Handled [] [] s) same
            (Sublist.refl [], sym (append-nil s.freed), refl, refl, omega arith),
      )
  process_packets-Handled (pkt ∷ pkts) s s' e =
      let (t, first, rest) = >>=-eq-ok _ _ s' e in
      let (us, h) = process_packet-Handled pkt s t first in
      let (vs, k) = process_packets-Handled pkts t s' rest in
      (us ++ vs, Handled-append (pkt ∷ []) pkts us vs s t s' h k)

  free_unsent-Handled : (pkts : List ℕ) (s : Pipeline) → Handled pkts pkts s (free_unsent pkts s)
  unfolding free_unsent
  free_unsent-Handled [] s = (Sublist.refl [], sym (append-nil s.freed), refl, refl, omega arith)
  free_unsent-Handled (pkt ∷ pkts) s =
      let next = give_up pkt add_drop s in
      Handled-append (pkt ∷ []) pkts (pkt ∷ []) pkts s next (free_unsent pkts next)
        (give_up_drop pkt s) (free_unsent-Handled pkts next)

  -- A burst that is handled frees some of its packets in the loop, in their order, and offers all of them
  -- for transmission, those that it freed included: the first ones are sent and the others freed, a second
  -- time where the loop freed them. Modulo 2^64 `tx_packets` grows by the packets not freed in the loop,
  -- and `errors` and `dropped_packets` together by those freed in the loop and those not sent, so that a
  -- packet that is admitted and not sent is counted both as transmitted and as dropped.
  pub handle_burst_lem :
      (bufs : List ℕ) (room : ℕ) (s s' : Pipeline)
      → handle_burst little_endian bufs room s ≡ ok s'
      → let nb_tx = min room (length bufs) in
        (rejected : List ℕ) × Sublist rejected bufs
        × (s'.freed ≡ s.freed ++ (rejected ++ drop nb_tx bufs))
        × (s'.sent ≡ s.sent ++ take nb_tx bufs)
        × ((s'.stats.tx_packets + length rejected) % u64_mod
            ≡ (s.stats.tx_packets + length bufs) % u64_mod)
        × ((s'.stats.errors + s'.stats.dropped_packets) % u64_mod
            ≡ (s.stats.errors
                + s.stats.dropped_packets
                + length rejected
                + length (drop nb_tx bufs))
              % u64_mod)
  unfolding handle_burst transmit
  handle_burst_lem [] room s s' e =
      let same : s ≡ s' = cc e in
      rw (drop-nil (min room 0), take-nil (min room 0))
        (
          [],
          Sublist.refl [],
          ap (λ t. t.freed) (sym same) ∙ sym (append-nil s.freed),
          ap (λ t. t.sent) (sym same) ∙ sym (append-nil s.sent),
          omega (arith, ap (λ t. t.stats.tx_packets) same),
          omega (arith, ap (λ t. t.stats.errors + t.stats.dropped_packets) same),
        )
  handle_burst_lem (pkt ∷ pkts) room s s' e =
      let bufs = pkt ∷ pkts in
      let nb_tx = min room (length bufs) in
      let (t, processed, last) = >>=-eq-ok (process_packets little_endian bufs s) _ s' e in
      let (rejected, (sub, freed, sent, tx, bad)) = process_packets-Handled bufs s t processed in
      let shipped : Pipeline = record t { sent = t.sent ++ take nb_tx bufs } in
      let same : free_unsent (drop nb_tx bufs) shipped ≡ s' = cc last in
      let (sub', freed', sent', tx', bad') =
        subst (Handled (drop nb_tx bufs) (drop nb_tx bufs) shipped) same
          (free_unsent-Handled (drop nb_tx bufs) shipped) in
      (
        rejected,
        sub,
        freed'
            ∙ ap (λ f. f ++ drop nb_tx bufs) freed
            ∙ append_assoc s.freed rejected (drop nb_tx bufs),
        sent' ∙ ap (λ f. f ++ take nb_tx bufs) sent,
        omega (arith, tx, tx'),
        omega (arith, bad, bad'),
      )
