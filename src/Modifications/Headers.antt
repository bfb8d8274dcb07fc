-- ===== src/Modifications/Headers.antt =====
-- `PacketHeaders` and `extract_packet_headers` of examples/dpdk_common_modifications.h. The mbufs are the
-- positions in a list of packets, so that a header that an earlier call stored points into its own packet.
use virtual_service_gateway.Common.{
  ℕ, ◌+◌, ◌-◌, ◌*◌, ◌/◌, ◌%◌, Bool, true, false, List, get_elem?, Option, none, some, u32_mod, ltb,
  ◌==◌, if◌then◌else◌,
}
use virtual_service_gateway.Common.Faults.{Result, ok, fault, out_of_bounds, null_pointer, ◌>>=◌}
use virtual_service_gateway.Ethernet.{Packet}

pub record Pointer : Type 0 where
  pub mbuf : ℕ
  pub offset : ℕ

pub record PacketHeaders : Type 0 where
  pub eth : Option Pointer
  pub ipv4 : Option Pointer
  pub ipv6 : Option Pointer
  pub tcp : Option Pointer
  pub udp : Option Pointer
  pub payload_size : ℕ
  pub l3_proto : ℕ
  pub l4_proto : ℕ

abbrev pub ether_type_ipv4 : ℕ
ether_type_ipv4 = 2048

abbrev pub ether_type_ipv6 : ℕ
ether_type_ipv6 = 34525

-- The sizes of the Ethernet header and of the IP headers without options.
abbrev pub ether_size : ℕ
ether_size = 14

abbrev pub ipv4_size : ℕ
ipv4_size = 20

abbrev pub ipv6_size : ℕ
ipv6_size = 40

-- Subtraction of `uint32_t`.
abbrev pub sub32 : ℕ → ℕ → ℕ
sub32 a b = (a + u32_mod - b % u32_mod) % u32_mod

unfoldable pub packet_at : List Packet → ℕ → Result Packet
packet_at memory mbuf = elim (get_elem? memory mbuf) [ none ↦ fault null_pointer | some p ↦ ok p ]

unfoldable pub byte_at : Packet → ℕ → Result ℕ
byte_at p i = elim (get_elem? p.buffer i) [ none ↦ fault out_of_bounds | some b ↦ ok b ]

unfoldable pub load8 : List Packet → Pointer → ℕ → Result ℕ
load8 memory at i = packet_at memory at.mbuf >>= λ p. byte_at p (at.offset + i)

-- A `uint16_t` in the order of the host, and `ntohs`.
module _ (little_endian : Bool) where
  abbrev pub host16 : ℕ → ℕ → ℕ
  host16 first second = if little_endian then first + 256 * second else 256 * first + second

  unfoldable pub load16 : List Packet → Pointer → ℕ → Result ℕ
  load16 memory at i =
      load8 memory at i >>= λ first. load8 memory at (i + 1) >>= λ second. ok (host16 first second)

  abbrev pub ntohs : ℕ → ℕ
  ntohs n = if little_endian then n % 256 * 256 + n / 256 % 256 else n

module _ (little_endian : Bool) (memory : List Packet) where
  -- The part on TCP and UDP. `data_ptr` points behind the headers before.
  unfoldable pub extract_l4 : ℕ → Pointer → PacketHeaders → Result (PacketHeaders × Bool)
  extract_l4 pkt_len data_ptr hdrs =
      let rest = sub32 pkt_len data_ptr.offset in
      if hdrs.l4_proto == 6
      then (load8 memory data_ptr 12 >>= λ data_off. ok (
        record hdrs { tcp = some data_ptr; payload_size = sub32 rest (data_off / 16 * 4) },
        true,
      ))
      else if hdrs.l4_proto == 17
      then (load16 little_endian memory data_ptr 4 >>= λ dgram_len. ok (
        record hdrs { udp = some data_ptr; payload_size = sub32 (ntohs little_endian dgram_len) 8 },
        true,
      ))
      else ok (record hdrs { payload_size = rest }, true)

  unfoldable pub extract_ipv4 : ℕ → Pointer → PacketHeaders → Result (PacketHeaders × Bool)
  extract_ipv4 pkt_len data_ptr hdrs =
      if ltb pkt_len (ether_size + ipv4_size)
      then ok (hdrs, false)
      else (load8 memory data_ptr 9 >>= λ next_proto_id. load8 memory data_ptr 0 >>= λ version_ihl.
          extract_l4 pkt_len (record data_ptr { offset = data_ptr.offset + version_ihl % 16 * 4 })
            (record hdrs { ipv4 = some data_ptr; l4_proto = next_proto_id }))

  unfoldable pub extract_ipv6 : ℕ → Pointer → PacketHeaders → Result (PacketHeaders × Bool)
  extract_ipv6 pkt_len data_ptr hdrs =
      if ltb pkt_len (ether_size + ipv6_size)
      then ok (hdrs, false)
      else (load8 memory data_ptr 6 >>= λ proto.
          extract_l4 pkt_len (record data_ptr { offset = data_ptr.offset + ipv6_size })
            (record hdrs { ipv6 = some data_ptr; l4_proto = proto }))

  -- By the type of the frame, with the pointer behind the Ethernet header.
  unfoldable pub extract_l3 : ℕ → Pointer → PacketHeaders → Result (PacketHeaders × Bool)
  extract_l3 pkt_len data_ptr hdrs =
      if hdrs.l3_proto == ether_type_ipv4
      then extract_ipv4 pkt_len data_ptr hdrs
      else if hdrs.l3_proto == ether_type_ipv6
      then extract_ipv6 pkt_len data_ptr hdrs
      else ok (hdrs, false)

  -- The headers as they are then, and whether 0 is returned; -1 leaves those that were set before.
  unfoldable pub extract_packet_headers : ℕ → PacketHeaders → Result (PacketHeaders × Bool)
  extract_packet_headers pkt hdrs = packet_at memory pkt >>= λ p.
      if ltb p.pkt_len ether_size
      then ok (hdrs, false)
      else (let eth : Pointer = record { mbuf = pkt; offset = 0 } in
          load16 little_endian memory eth 12 >>= λ ether_type.
          extract_l3 p.pkt_len (record eth { offset = ether_size })
            (record hdrs { eth = some eth; l3_proto = ether_type }))
