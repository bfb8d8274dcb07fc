-- ===== src/Modifications/Stale.antt =====
-- The headers of an earlier packet stay where an extraction does not set them.
use virtual_service_gateway.Common.{
  ℕ, ◌+◌, ◌≡◌, ◌≢◌, refl, ◌∙◌, Bool, true, List, Option, some, ltb, ◌==◌, arith,
}
use virtual_service_gateway.Common.Faults.{
  ok, Ensures, ensured, Ensures->>=, Ensures-if, Ensures-value, ◌>>=◌,
}
use virtual_service_gateway.Ethernet.{Packet}
use virtual_service_gateway.Modifications.Headers.{
  Pointer, PacketHeaders, packet_at, load8, load16, extract_l4, extract_ipv4, extract_ipv6,
  extract_l3, extract_packet_headers, ether_type_ipv4, ether_type_ipv6, ether_size, ipv4_size,
  ipv6_size,
}
use virtual_service_gateway.Modifications.Classes.{class_of, ports_at, ports_of, classify_packet}

module _ (little_endian : Bool) (memory : List Packet) where
  -- After an extraction of anything but TCP the TCP header is as before.
  abbrev Leaves : Option Pointer → PacketHeaders × Bool → Type 0
  Leaves tcp (hdrs, done) = done ≡ true → hdrs.l4_proto ≢ 6 → hdrs.tcp ≡ tcp

  extract_l4-Leaves :
      (pkt_len : ℕ) (data_ptr : Pointer) (hdrs : PacketHeaders)
      → Ensures (Leaves hdrs.tcp) (extract_l4 little_endian memory pkt_len data_ptr hdrs)
  unfolding extract_l4
  extract_l4-Leaves pkt_len data_ptr hdrs =
      Ensures-if (hdrs.l4_proto == 6)
        (λ tcp.
          let six : hdrs.l4_proto ≡ 6 = ground (arith, tcp) in
          Ensures->>= (load8 memory data_ptr 12) (λ b. ensured _ (λ d other. absurd (other six))))
        (λ e.
          Ensures-if (hdrs.l4_proto == 17)
            (λ udp.
              Ensures->>= (load16 little_endian memory data_ptr 4) (λ b. ensured _ (λ d o. refl)))
            (λ e. ensured _ (λ d o. refl)))

  extract_l3-Leaves :
      (pkt_len : ℕ) (data_ptr : Pointer) (hdrs : PacketHeaders)
      → Ensures (Leaves hdrs.tcp) (extract_l3 little_endian memory pkt_len data_ptr hdrs)
  unfolding extract_l3 extract_ipv4 extract_ipv6
  extract_l3-Leaves pkt_len data_ptr hdrs =
      Ensures-if (hdrs.l3_proto == ether_type_ipv4)
        (λ e.
          Ensures-if (ltb pkt_len (ether_size + ipv4_size)) (λ e. ensured _ (λ d o. refl))
            (λ e. Ensures->>= (load8 memory data_ptr 9) (λ proto.
              Ensures->>= (load8 memory data_ptr 0) (λ ihl.
                extract_l4-Leaves pkt_len _
                  (record hdrs { ipv4 = some data_ptr; l4_proto = proto })))))
        (λ e.
          Ensures-if (hdrs.l3_proto == ether_type_ipv6)
            (λ e.
              Ensures-if (ltb pkt_len (ether_size + ipv6_size)) (λ e. ensured _ (λ d o. refl))
                (λ e. Ensures->>= (load8 memory data_ptr 6) (λ proto.
                  extract_l4-Leaves pkt_len _
                    (record hdrs { ipv6 = some data_ptr; l4_proto = proto }))))
            (λ e. ensured _ (λ d o. refl)))

  extract_packet_headers-Leaves :
      (pkt : ℕ) (hdrs : PacketHeaders)
      → Ensures (Leaves hdrs.tcp) (extract_packet_headers little_endian memory pkt hdrs)
  unfolding extract_packet_headers
  extract_packet_headers-Leaves pkt hdrs = Ensures->>= (packet_at memory pkt) (λ p.
      Ensures-if (ltb p.pkt_len ether_size) (λ e. ensured _ (λ d o. refl))
        (λ e. Ensures->>= (load16 little_endian memory (record { mbuf = pkt; offset = 0 }) 12) (λ t.
          extract_l3-Leaves p.pkt_len _
            (record hdrs { eth = some (record { mbuf = pkt; offset = 0 }); l3_proto = t }))))

  -- Once a TCP header is stored, every packet of another protocol that is extracted successfully is
  -- classified by the ports of that TCP header, not by its own.
  pub stale_tcp :
      (pkt : ℕ) (hdrs hdrs' : PacketHeaders) (at : Pointer)
      → hdrs.tcp ≡ some at
      → extract_packet_headers little_endian memory pkt hdrs ≡ ok (hdrs', true)
      → hdrs'.l4_proto ≢ 6
      → classify_packet little_endian memory hdrs'
        ≡ (ports_at little_endian memory at >>= λ ports. ok (class_of ports.0 ports.1))
  unfolding classify_packet ports_of
  stale_tcp pkt hdrs hdrs' at stored e other =
      let kept : hdrs'.tcp ≡ some at =
        Ensures-value (extract_packet_headers-Leaves pkt hdrs) (hdrs', true) e refl other
        ∙ stored in
      rw kept refl
