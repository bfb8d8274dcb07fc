-- ===== src/Modifications/Quota.antt =====
-- The quota of the pipeline, which no reset of the meter ends.
use virtual_service_gateway.Common.{
  ℕ, suc, ◌+◌, ◌*◌, ◌<◌, ◌≡◌, refl, sym, ap, subst, ◌∙◌, Bool, true, List, [], ◌∷◌, ◌++◌, length,
  append_assoc, append-nil, get_elem?, All, All-get_elem?, none, some, arith, Bool-cases, inl, inr,
  u32_mod, u64_mod, add64, ltb,
}
use virtual_service_gateway.Common.Faults.{ok, fault, null_pointer, >>=-eq-ok}
use virtual_service_gateway.Ethernet.{Packet}
use virtual_service_gateway.Modifications.Headers.{packet_at, extract_packet_headers}
use virtual_service_gateway.Modifications.Classes.{classify_packet}
use virtual_service_gateway.Modifications.Stats.{update_meter, check_quota}
use virtual_service_gateway.Modifications.Pipeline.{
  Pipeline, quota, give_up, add_error, add_drop, admit, process_packet, process_packets,
}

-- Lengths as `uint32_t`.
abbrev HasLengths : List Packet → Type 0
HasLengths memory = All (λ p. p.pkt_len < u32_mod) memory

-- Above the quota, with room in `bytes` for that many packets.
abbrev IsAbove : ℕ → Pipeline → Type 0
IsAbove n s = (quota < s.meter.bytes) × (s.meter.bytes + n * u32_mod < u64_mod)

-- Nothing but the counts of errors and drops, the meter and the headers has changed.
abbrev Refused : List ℕ → Pipeline → Pipeline → Type 0
Refused pkts s s' =
    (s'.memory ≡ s.memory)
    × (s'.freed ≡ s.freed ++ pkts)
    × (s'.stats.tx_packets ≡ s.stats.tx_packets)

packet_at-some :
    (memory : List Packet) (pkt : ℕ) (p : Packet)
    → packet_at memory pkt ≡ ok p
    → get_elem? memory pkt ≡ some p
unfolding packet_at
packet_at-some memory pkt p e =
    (elim (get_elem? memory pkt)
        as (λ o. elim o [ none ↦ fault null_pointer | some q ↦ ok q ] ≡ ok p → o ≡ some p) [
          | none ↦ λ e. cc e
          | some q ↦ λ e. cc e
        ])
      e

module _ (little_endian : Bool) where
  admit-Refused :
      (n pkt : ℕ) (s s' : Pipeline)
      → HasLengths s.memory
      → IsAbove (suc n) s
      → admit little_endian pkt s ≡ ok s'
      → Refused (pkt ∷ []) s s' × IsAbove n s'
  unfolding admit give_up add_drop update_meter check_quota
  admit-Refused n pkt s s' lengths above e =
      let (cls, classified, rest) =
        >>=-eq-ok (classify_packet little_endian s.memory s.hdrs) _ s' e in
      let (p, found, last) = >>=-eq-ok (packet_at s.memory pkt) _ s' rest in
      let small = All-get_elem? _ s.memory pkt p lengths (packet_at-some s.memory pkt p found) in
      let over : ltb quota (add64 s.meter.bytes p.pkt_len) ≡ true = ground (arith, above, small) in
      let same : give_up pkt add_drop (record s { meter = update_meter s.meter p.pkt_len }) ≡ s' =
        cc (rw over at last) in
      subst (λ t. Refused (pkt ∷ []) s t × IsAbove n t) same
        ((refl, refl, refl), (omega (arith, above, small), omega (arith, above, small)))

  process_packet-Refused :
      (n pkt : ℕ) (s s' : Pipeline)
      → HasLengths s.memory
      → IsAbove (suc n) s
      → process_packet little_endian pkt s ≡ ok s'
      → Refused (pkt ∷ []) s s' × IsAbove n s'
  unfolding process_packet give_up add_error
  process_packet-Refused n pkt s s' lengths above e =
      let (q, extracted, rest) =
        >>=-eq-ok (extract_packet_headers little_endian s.memory pkt s.hdrs) _ s' e in
      let now : Pipeline = record s { hdrs = q.0 } in
      elim (Bool-cases q.1) [
        | inl done ↦ admit-Refused n pkt now s' lengths above (rw done at rest)
        | inr failed ↦
            let same : give_up pkt add_error now ≡ s' = cc (rw failed at rest) in
            subst (λ t. Refused (pkt ∷ []) s t × IsAbove n t) same
              ((refl, refl, refl), (above.0, omega (arith, above)))
      ]

  -- Once the meter is above the quota, and as long as its 64-bit count of bytes has room, every packet of
  -- every later burst is freed in the loop, with no packet changed and none counted as transmitted: the
  -- quota is never lifted.
  pub quota_sticky :
      (pkts : List ℕ) (s s' : Pipeline)
      → All (λ p. p.pkt_len < u32_mod) s.memory
      → quota < s.meter.bytes
      → s.meter.bytes + length pkts * u32_mod < u64_mod
      → process_packets little_endian pkts s ≡ ok s'
      → (s'.memory ≡ s.memory)
        × (s'.freed ≡ s.freed ++ pkts)
        × (s'.stats.tx_packets ≡ s.stats.tx_packets)
  unfolding process_packets
  quota_sticky [] s s' lengths above room e =
      let same : s ≡ s' = cc e in subst (Refused [] s) same (refl, sym (append-nil s.freed), refl)
  quota_sticky (pkt ∷ pkts) s s' lengths above room e =
      let (t, first, rest) = >>=-eq-ok (process_packet little_endian pkt s) _ s' e in
      let ((memory, freed, tx), still) =
        process_packet-Refused (length pkts) pkt s t lengths (above, room) first in
      let (memory', freed', tx') =
        quota_sticky pkts t s' (subst HasLengths (sym memory) lengths) still.0 still.1 rest in
      (
        memory' ∙ memory,
        freed' ∙ ap (λ f. f ++ pkts) freed ∙ append_assoc s.freed (pkt ∷ []) pkts,
        tx' ∙ tx,
      )
