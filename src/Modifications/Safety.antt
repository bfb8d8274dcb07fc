-- ===== src/Modifications/Safety.antt =====
-- The pipeline reads and writes inside its buffers, however the packets look.
use virtual_service_gateway.Common.{
  ℕ, zero, suc, ◌<◌, ◌≡◌, sym, subst, ◌∙◌, Bool, List, [], ◌∷◌, take, length, get_elem?,
  get_elem?_in_range, set, get_elem?-set_self, some, All, All-get_elem?, All-set, length-set, arith,
  Bool-cases, inl, inr,
}
use virtual_service_gateway.Common.Faults.{Returns, returned, Returns->>=, Returns-if, ◌>>=◌}
use virtual_service_gateway.Ethernet.{swap_addresses}
use virtual_service_gateway.Modifications.Headers.{packet_at}
use virtual_service_gateway.Modifications.Addresses.{mac_swap_start, length-swap_addresses}
use virtual_service_gateway.Modifications.Bounds.{
  HasRoom, IsInside, extract_packet_headers-Returns, classify_packet-Returns,
}
use virtual_service_gateway.Modifications.Stats.{update_stats, update_meter, check_quota}
use virtual_service_gateway.Modifications.Pipeline.{
  Pipeline, quota, give_up, add_drop, swap_header, modify_packet, admit, process_packet,
  process_packets, free_unsent, transmit, handle_burst, run_pipeline,
}

-- Buffers with room, of a fixed number of mbufs, and headers that point into them.
abbrev pub IsSafe : ℕ → Pipeline → Type 0
IsSafe n s = HasRoom s.memory × (length s.memory ≡ n) × IsInside n s.hdrs

abbrev Known : ℕ → List ℕ → Type 0
Known n pkts = All (λ pkt. pkt < n) pkts

module _ (n : ℕ) where
  modify_packet-Returns :
      (pkt : ℕ) (s : Pipeline)
      → pkt < n
      → IsSafe n s
      → s.hdrs.eth ≡ some (record { mbuf = pkt; offset = 0 })
      → Returns (IsSafe n) (modify_packet pkt s)
  unfolding modify_packet swap_header update_stats packet_at
  modify_packet-Returns pkt s known (room, size, inside) here =
      let (p, e) = get_elem?_in_range s.memory pkt (omega (arith, known, size)) in
      let long = All-get_elem? _ s.memory pkt p room e in
      let swapped = record p { buffer = swap_addresses p.buffer } in
      let memory = set s.memory pkt swapped in
      let stored : get_elem? memory pkt ≡ some swapped =
        get_elem?-set_self s.memory pkt swapped (omega (arith, known, size)) in
      rw (here, mac_swap_start s.memory pkt p e (omega (arith, long)), ◌>>=◌, stored)
        (returned _ (
          All-set _ s.memory pkt swapped room
              (omega (arith, long, length-swap_addresses p.buffer (omega (arith, long)))),
          length-set s.memory pkt swapped ∙ size,
          inside,
        ))

  module _ (little_endian : Bool) where
    admit-Returns :
        (pkt : ℕ) (s : Pipeline)
        → pkt < n
        → IsSafe n s
        → s.hdrs.eth ≡ some (record { mbuf = pkt; offset = 0 })
        → Returns (IsSafe n) (admit little_endian pkt s)
    unfolding admit give_up packet_at
    admit-Returns pkt s known (room, size, inside) here =
        let (p, e) = get_elem?_in_range s.memory pkt (omega (arith, known, size)) in
        Returns->>=
          (classify_packet-Returns s.memory room little_endian s.hdrs
            (subst (λ k. IsInside k s.hdrs) (sym size) inside))
          (λ cls u.
            rw (e, ◌>>=◌)
              (Returns-if (check_quota (update_meter s.meter p.pkt_len) quota)
                (returned _ (room, size, inside))
                (modify_packet-Returns pkt (record s { meter = update_meter s.meter p.pkt_len })
                  known (room, size, inside) here)))

    process_packet-Returns :
        (pkt : ℕ) (s : Pipeline)
        → pkt < n
        → IsSafe n s
        → Returns (IsSafe n) (process_packet little_endian pkt s)
    unfolding process_packet give_up
    process_packet-Returns pkt s known (room, size, inside) =
        Returns->>=
          (extract_packet_headers-Returns s.memory room little_endian pkt s.hdrs
            (omega (arith, known, size)) (subst (λ k. IsInside k s.hdrs) (sym size) inside))
          (λ q h.
            let now : IsInside n q.0 = subst (λ k. IsInside k q.0) size h.0 in
            elim (Bool-cases q.1) [
              | inl done ↦
                  rw done
                    (admit-Returns pkt (record s { hdrs = q.0 }) known (room, size, now) (h.1 done))
              | inr failed ↦ rw failed (returned _ (room, size, now))
            ])

    process_packets-Returns :
        (pkts : List ℕ) (s : Pipeline)
        → Known n pkts
        → IsSafe n s
        → Returns (IsSafe n) (process_packets little_endian pkts s)
    unfolding process_packets
    process_packets-Returns [] s known h = returned s h
    process_packets-Returns (pkt ∷ pkts) s known h =
        Returns->>= (process_packet-Returns pkt s known.0 h)
          (λ s' h'. process_packets-Returns pkts s' known.1 h')

    free_unsent-IsSafe : (pkts : List ℕ) (s : Pipeline) → IsSafe n s → IsSafe n (free_unsent pkts s)
    unfolding free_unsent give_up
    free_unsent-IsSafe [] s h = h
    free_unsent-IsSafe (pkt ∷ pkts) s h = free_unsent-IsSafe pkts (give_up pkt add_drop s) h

    handle_burst-Returns :
        (bufs : List ℕ) (room : ℕ) (s : Pipeline)
        → Known n bufs
        → IsSafe n s
        → Returns (IsSafe n) (handle_burst little_endian bufs room s)
    unfolding handle_burst transmit
    handle_burst-Returns [] room s known h = returned s h
    handle_burst-Returns (pkt ∷ pkts) room s known h =
        Returns->>= (process_packets-Returns (pkt ∷ pkts) s known h)
          (λ s' h'. returned _ (free_unsent-IsSafe _ _ h'))

    All-take : (k : ℕ) (pkts : List ℕ) → Known n pkts → Known n (take k pkts)
    All-take zero pkts h = tt
    All-take (suc k) [] h = tt
    All-take (suc k) (pkt ∷ pkts) h = (h.0, All-take k pkts h.1)

    -- With at least 87 bytes in every buffer and headers that are null or point behind headers of the
    -- packets, any rounds over those packets run without reading or writing outside a buffer, and leave
    -- such buffers and headers.
    pub run_pipeline-Returns :
        (rounds : List (List ℕ × ℕ)) (s : Pipeline)
        → All (λ round. All (λ pkt. pkt < n) round.0) rounds
        → IsSafe n s
        → Returns (IsSafe n) (run_pipeline little_endian rounds s)
    unfolding run_pipeline
    run_pipeline-Returns [] s known h = returned s h
    run_pipeline-Returns ((offered, room) ∷ rounds) s known h =
        Returns->>= (handle_burst-Returns (take 64 offered) room s (All-take 64 offered known.0) h)
          (λ s' h'. run_pipeline-Returns rounds s' known.1 h')
