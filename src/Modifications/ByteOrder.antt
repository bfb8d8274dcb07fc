-- ===== src/Modifications/ByteOrder.antt =====
-- The type of a frame is compared in the byte order of the host.
use virtual_service_gateway.Common.{
  ℕ, ◌+◌, ◌*◌, ◌/◌, ◌%◌, ◌≤◌, ◌<◌, ◌≡◌, ◌⊎◌, inl, inr, refl, Bool, true, false, List, some,
  get_elem?, ltb, ◌==◌, arith, u32_mod, Bool-cases,
}
use virtual_service_gateway.Common.Faults.{ok, ◌>>=◌}
use virtual_service_gateway.Ethernet.{Packet}
use virtual_service_gateway.Modifications.Headers.{
  PacketHeaders, packet_at, byte_at, load8, load16, host16, ntohs, extract_l4, extract_ipv4,
  extract_l3, extract_packet_headers, ether_type_ipv4, ether_type_ipv6, sub32,
}

module _ (memory : List Packet) (pkt : ℕ) (p : Packet) (here : get_elem? memory pkt ≡ some p) where
  load8_at :
      (n i b : ℕ)
      → get_elem? p.buffer (n + i) ≡ some b
      → load8 memory (record { mbuf = pkt; offset = n }) i ≡ ok b
  unfolding load8 packet_at byte_at
  load8_at n i b e = rw (here, ◌>>=◌, byte_at, e) refl

  module _ (little_endian : Bool) where
    load16_at :
        (n i a b : ℕ)
        → get_elem? p.buffer (n + i) ≡ some a
        → get_elem? p.buffer (n + (i + 1)) ≡ some b
        → load16 little_endian memory (record { mbuf = pkt; offset = n }) i
          ≡ ok (host16 little_endian a b)
    unfolding load16
    load16_at n i a b e f = rw (load8_at n i a e, ◌>>=◌, load8_at n (i + 1) b f) refl

    -- A frame whose type, loaded in the order of the host, is that of IPv4, with TCP in it: the extraction
    -- returns 0 with the pointers behind the Ethernet and the IP header, options included, and with the size
    -- of the payload, when `pkt_len` is the sum of the headers and the payload and fits in 32 bits.
    pub extract_tcp_lem :
        (hdrs : PacketHeaders) (first second version_ihl data_off payload : ℕ)
        → get_elem? p.buffer 12 ≡ some first
        → get_elem? p.buffer 13 ≡ some second
        → host16 little_endian first second ≡ ether_type_ipv4
        → get_elem? p.buffer 14 ≡ some version_ihl
        → get_elem? p.buffer 23 ≡ some 6
        → get_elem? p.buffer (14 + version_ihl % 16 * 4 + 12) ≡ some data_off
        → p.pkt_len ≡ 14 + version_ihl % 16 * 4 + data_off / 16 * 4 + payload
        → 34 ≤ p.pkt_len
        → p.pkt_len < u32_mod
        → extract_packet_headers little_endian memory pkt hdrs
          ≡ ok (
            record hdrs {
              eth = some (record { mbuf = pkt; offset = 0 });
              ipv4 = some (record { mbuf = pkt; offset = 14 });
              tcp = some (record { mbuf = pkt; offset = 14 + version_ihl % 16 * 4 });
              payload_size = payload;
              l3_proto = ether_type_ipv4;
              l4_proto = 6;
            },
            true,
          )
    unfolding extract_packet_headers packet_at extract_l3 extract_ipv4 extract_l4
    extract_tcp_lem hdrs first second version_ihl data_off payload e12 e13 ty e14 e23 e_off len
          enough fits =
        let long : ltb p.pkt_len 14 ≡ false = ground (arith, enough) in
        let longer : ltb p.pkt_len 34 ≡ false = ground (arith, enough) in
        let off = 14 + version_ihl % 16 * 4 in
        let size : sub32 (sub32 p.pkt_len off) (data_off / 16 * 4) ≡ payload =
          omega (arith, len, fits) in
        rw
          (
            here,
            ◌>>=◌,
            long,
            load16_at 0 12 first second e12 e13,
            ◌>>=◌,
            ty,
            longer,
            load8_at 14 9 6 e23,
            ◌>>=◌,
            load8_at 14 0 version_ihl e14,
            ◌>>=◌,
            load8_at off 12 data_off e_off,
            ◌>>=◌,
            size,
          )
          refl

    -- The same of UDP, where the size of the payload is what the header says: `dgram_len`, in network order at
    -- the fifth and sixth byte, less the eight bytes of the header. The TCP header is left as it was.
    pub extract_udp_lem :
        (hdrs : PacketHeaders) (first second version_ihl high low payload : ℕ)
        → get_elem? p.buffer 12 ≡ some first
        → get_elem? p.buffer 13 ≡ some second
        → host16 little_endian first second ≡ ether_type_ipv4
        → get_elem? p.buffer 14 ≡ some version_ihl
        → get_elem? p.buffer 23 ≡ some 17
        → get_elem? p.buffer (14 + version_ihl % 16 * 4 + 4) ≡ some high
        → get_elem? p.buffer (14 + version_ihl % 16 * 4 + 5) ≡ some low
        → high < 256
        → low < 256
        → 256 * high + low ≡ 8 + payload
        → 34 ≤ p.pkt_len
        → extract_packet_headers little_endian memory pkt hdrs
          ≡ ok (
            record hdrs {
              eth = some (record { mbuf = pkt; offset = 0 });
              ipv4 = some (record { mbuf = pkt; offset = 14 });
              udp = some (record { mbuf = pkt; offset = 14 + version_ihl % 16 * 4 });
              payload_size = payload;
              l3_proto = ether_type_ipv4;
              l4_proto = 17;
            },
            true,
          )
    unfolding extract_packet_headers packet_at extract_l3 extract_ipv4 extract_l4
    extract_udp_lem hdrs first second version_ihl high low payload e12 e13 ty e14 e23 e_high e_low
          high_byte low_byte len enough =
        let long : ltb p.pkt_len 14 ≡ false = ground (arith, enough) in
        let longer : ltb p.pkt_len 34 ≡ false = ground (arith, enough) in
        let off = 14 + version_ihl % 16 * 4 in
        let size : sub32 (ntohs little_endian (host16 little_endian high low)) 8 ≡ payload =
          elim little_endian as (λ b. sub32 (ntohs b (host16 b high low)) 8 ≡ payload) [
            | true ↦ omega (arith, len, high_byte, low_byte)
            | false ↦ omega (arith, len, high_byte, low_byte)
          ] in
        rw
          (
            here,
            ◌>>=◌,
            long,
            load16_at 0 12 first second e12 e13,
            ◌>>=◌,
            ty,
            longer,
            load8_at 14 9 17 e23,
            ◌>>=◌,
            load8_at 14 0 version_ihl e14,
            ◌>>=◌,
            load16_at off 4 high low e_high e_low,
            ◌>>=◌,
            size,
          )
          refl

  -- On a little-endian host every IPv4 or IPv6 frame is refused: with the type in network order at the bytes
  -- 12 and 13 the extraction returns -1.
  pub little_endian_rejects :
      (hdrs : PacketHeaders) (ether_type : ℕ)
      → (ether_type ≡ ether_type_ipv4) ⊎ (ether_type ≡ ether_type_ipv6)
      → get_elem? p.buffer 12 ≡ some (ether_type / 256)
      → get_elem? p.buffer 13 ≡ some (ether_type % 256)
      → (hdrs' : PacketHeaders) × (extract_packet_headers true memory pkt hdrs ≡ ok (hdrs', false))
  unfolding extract_packet_headers packet_at extract_l3
  little_endian_rejects hdrs ether_type known e12 e13 =
      let loaded = ether_type / 256 + 256 * (ether_type % 256) in
      let no_ipv4 : (loaded == ether_type_ipv4) ≡ false = elim known [
        | inl e ↦ rw e refl
        | inr e ↦ rw e refl
      ] in
      let no_ipv6 : (loaded == ether_type_ipv6) ≡ false = elim known [
        | inl e ↦ rw e refl
        | inr e ↦ rw e refl
      ] in
      elim (Bool-cases (ltb p.pkt_len 14)) [
        | inl short ↦ (hdrs, rw (here, ◌>>=◌, short) refl)
        | inr long ↦ (
          record hdrs { eth = some (record { mbuf = pkt; offset = 0 }); l3_proto = loaded },
          rw
              (
                here,
                ◌>>=◌,
                long,
                load16_at true 0 12 (ether_type / 256) (ether_type % 256) e12 e13,
                ◌>>=◌,
                no_ipv4,
                no_ipv6,
              )
              refl,
        )
      ]
