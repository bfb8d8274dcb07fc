-- ===== src/Modifications/Bounds.antt =====
-- Header extraction and classification stay inside the buffers when these have room behind the packet.
use virtual_service_gateway.Common.{
  ℕ, ◌+◌, ◌*◌, ◌%◌, ◌≤◌, ◌<◌, ◌≡◌, refl, Bool, true, List, length, get_elem?_in_range, Option, none,
  some, All, All-get_elem?, arith, ltb, ◌==◌,
}
use virtual_service_gateway.Common.Faults.{ok, Returns, returned, Returns->>=, Returns-if, ◌>>=◌}
use virtual_service_gateway.Ethernet.{Packet}
use virtual_service_gateway.Modifications.Headers.{
  Pointer, PacketHeaders, packet_at, byte_at, load8, load16, extract_l4, extract_ipv4, extract_ipv6,
  extract_l3, extract_packet_headers, ether_type_ipv4, ether_type_ipv6, ether_size, ipv4_size,
  ipv6_size,
}
use virtual_service_gateway.Modifications.Classes.{
  traffic_other, class_of, classify_packet, ports_at, ports_of,
}

-- The longest headers before the last one take 74 bytes, and 13 bytes behind them are read.
abbrev pub HasRoom : List Packet → Type 0
HasRoom memory = All (λ p. 87 ≤ length p.buffer) memory

abbrev pub Points : ℕ → Option Pointer → Type 0
Points n none = Unit
Points n (some at) = (at.mbuf < n) × (at.offset ≤ 74)

-- Null or behind the headers of one of the first packets, for each pointer that is read through.
abbrev pub IsInside : ℕ → PacketHeaders → Type 0
IsInside n hdrs = Points n hdrs.tcp × Points n hdrs.udp

-- After an extraction: the Ethernet header is that of the packet, if 0 is returned.
abbrev pub Extracted : ℕ → ℕ → PacketHeaders × Bool → Type 0
Extracted n pkt (hdrs, done) =
    IsInside n hdrs × (done ≡ true → hdrs.eth ≡ some (record { mbuf = pkt; offset = 0 }))

module _ (memory : List Packet) (room : HasRoom memory) where
  load8-Returns :
      (at : Pointer) (i : ℕ)
      → at.mbuf < length memory
      → at.offset + i < 87
      → Returns (λ b. Unit) (load8 memory at i)
  unfolding load8 packet_at byte_at
  load8-Returns at i known short =
      let (p, e) = get_elem?_in_range memory at.mbuf known in
      let long = All-get_elem? _ memory at.mbuf p room e in
      let (b, e') = get_elem?_in_range p.buffer (at.offset + i) (omega (arith, long, short)) in
      rw (e, ◌>>=◌, byte_at, e') (returned b tt)

  module _ (little_endian : Bool) where
    load16-Returns :
        (at : Pointer) (i : ℕ)
        → at.mbuf < length memory
        → at.offset + i < 86
        → Returns (λ b. Unit) (load16 little_endian memory at i)
    unfolding load16
    load16-Returns at i known short =
        Returns->>= (load8-Returns at i known (omega (arith, short))) (λ a u.
          Returns->>= (load8-Returns at (i + 1) known (omega (arith, short)))
            (λ b v. returned _ tt))

    module _ (pkt : ℕ) (known : pkt < length memory) where
      abbrev at_offset : ℕ → Pointer
      at_offset n = record { mbuf = pkt; offset = n }

      abbrev Stored : PacketHeaders → Type 0
      Stored hdrs = IsInside (length memory) hdrs × (hdrs.eth ≡ some (at_offset 0))

      extract_l4-Returns :
          (pkt_len n : ℕ) (hdrs : PacketHeaders)
          → n ≤ 74
          → Stored hdrs
          → Returns
              (Extracted (length memory) pkt)
              (extract_l4 little_endian memory pkt_len (at_offset n) hdrs)
      unfolding extract_l4
      extract_l4-Returns pkt_len n hdrs short (inside, here) =
          Returns-if (hdrs.l4_proto == 6)
            (Returns->>= (load8-Returns (at_offset n) 12 known (omega (arith, short)))
              (λ b u. returned _ (((known, short), inside.1), λ e. here)))
            (Returns-if (hdrs.l4_proto == 17)
              (Returns->>= (load16-Returns (at_offset n) 4 known (omega (arith, short)))
                (λ b u. returned _ ((inside.0, (known, short)), λ e. here)))
              (returned _ (inside, λ e. here)))

      extract_l3-Returns :
          (pkt_len : ℕ) (hdrs : PacketHeaders)
          → Stored hdrs
          → Returns
              (Extracted (length memory) pkt)
              (extract_l3 little_endian memory pkt_len (at_offset 14) hdrs)
      unfolding extract_l3 extract_ipv4 extract_ipv6
      extract_l3-Returns pkt_len hdrs (inside, here) =
          Returns-if (hdrs.l3_proto == ether_type_ipv4)
            (Returns-if (ltb pkt_len (ether_size + ipv4_size)) (returned _ (inside, λ e. here)) (
              Returns->>= (load8-Returns (at_offset 14) 9 known (omega arith)) (λ proto u.
                Returns->>= (load8-Returns (at_offset 14) 0 known (omega arith)) (λ ihl v.
                  extract_l4-Returns pkt_len (14 + ihl % 16 * 4)
                    (record hdrs { ipv4 = some (at_offset 14); l4_proto = proto }) (omega arith)
                    (inside, here)))))
            (Returns-if (hdrs.l3_proto == ether_type_ipv6)
              (Returns-if (ltb pkt_len (ether_size + ipv6_size)) (returned _ (inside, λ e. here)) (
                Returns->>= (load8-Returns (at_offset 14) 6 known (omega arith)) (λ proto u.
                  extract_l4-Returns pkt_len 54
                    (record hdrs { ipv6 = some (at_offset 14); l4_proto = proto }) (omega arith)
                    (inside, here))))
              (returned _ (inside, λ e. here)))

    -- With at least 87 bytes in every buffer, and headers whose pointers are null or stored by an earlier
    -- extraction, the extraction of one of the packets returns, and leaves such headers.
    pub extract_packet_headers-Returns :
        (pkt : ℕ) (hdrs : PacketHeaders)
        → pkt < length memory
        → IsInside (length memory) hdrs
        → Returns
            (Extracted (length memory) pkt)
            (extract_packet_headers little_endian memory pkt hdrs)
    unfolding extract_packet_headers packet_at
    extract_packet_headers-Returns pkt hdrs known inside =
        let (p, e) = get_elem?_in_range memory pkt known in
        let eth : Pointer = record { mbuf = pkt; offset = 0 } in
        rw (e, ◌>>=◌)
          (Returns-if (ltb p.pkt_len 14) (returned _ (inside, λ e. cc e)) (
            Returns->>= (load16-Returns eth 12 known (omega arith)) (λ ether_type u.
              extract_l3-Returns pkt known p.pkt_len
                (record hdrs { eth = some eth; l3_proto = ether_type }) (inside, refl))))

    ports_at-Returns :
        (at : Pointer)
        → at.mbuf < length memory
        → at.offset ≤ 74
        → Returns (λ ports. Unit) (ports_at little_endian memory at)
    unfolding ports_at
    ports_at-Returns at known short =
        Returns->>= (load16-Returns at 0 known (omega (arith, short))) (λ s u.
          Returns->>= (load16-Returns at 2 known (omega (arith, short))) (λ d v. returned _ tt))

    ports_of-Points :
        (hdrs : PacketHeaders)
        → IsInside (length memory) hdrs
        → Points (length memory) (ports_of hdrs)
    unfolding ports_of
    ports_of-Points hdrs inside =
        (elim hdrs.tcp
            as (λ (t : Option Pointer).
              Points (length memory) t
              → Points (length memory) (elim t [ some at ↦ some at | none ↦ hdrs.udp ])) [
                | none ↦ λ h. inside.1
                | some at ↦ λ h. h
              ])
          inside.0

    -- Classification by such headers returns.
    pub classify_packet-Returns :
        (hdrs : PacketHeaders)
        → IsInside (length memory) hdrs
        → Returns (λ c. Unit) (classify_packet little_endian memory hdrs)
    unfolding classify_packet
    classify_packet-Returns hdrs inside =
        (elim (ports_of hdrs)
            as (λ o.
              Points (length memory) o
              → Returns (λ c. Unit)
                  (elim o [
                    | none ↦ ok traffic_other
                    | some at ↦
                        ports_at little_endian memory at >>= λ ports. ok (class_of ports.0 ports.1)
                  ])) [
                    | none ↦ λ h. returned _ tt
                    | some at ↦
                        λ h. Returns->>= (ports_at-Returns at h.0 h.1) (λ p u. returned _ tt)
                  ])
          (ports_of-Points hdrs inside)
