-- ===== src/Modifications/Classes.antt =====
-- `classify_packet` of examples/dpdk_common_modifications.h.
use virtual_service_gateway.Common.{ℕ, Bool, ◌||◌, List, Option, none, some, ◌==◌, if◌then◌else◌}
use virtual_service_gateway.Common.Faults.{Result, ok, ◌>>=◌}
use virtual_service_gateway.Ethernet.{Packet}
use virtual_service_gateway.Modifications.Headers.{PacketHeaders, Pointer, load16, ntohs}

pub data PacketClass : Type 0 where
  traffic_http : PacketClass
  traffic_https : PacketClass
  traffic_dns : PacketClass
  traffic_ssh : PacketClass
  traffic_other : PacketClass

unfoldable pub class_of : ℕ → ℕ → PacketClass
class_of sport dport =
    if sport == 80 || dport == 80
    then traffic_http
    else if sport == 443 || dport == 443
    then traffic_https
    else if sport == 53 || dport == 53
    then traffic_dns
    else if sport == 22 || dport == 22
    then traffic_ssh
    else traffic_other

-- The header whose ports are read: that of TCP, or else that of UDP.
unfoldable pub ports_of : PacketHeaders → Option Pointer
ports_of hdrs = elim hdrs.tcp [ some at ↦ some at | none ↦ hdrs.udp ]

module _ (little_endian : Bool) (memory : List Packet) where
  -- The ports of a TCP or UDP header.
  unfoldable pub ports_at : Pointer → Result (ℕ × ℕ)
  ports_at at = load16 little_endian memory at 0 >>= λ src_port.
      load16 little_endian memory at 2 >>= λ dst_port.
      ok (ntohs little_endian src_port, ntohs little_endian dst_port)

  unfoldable pub classify_packet : PacketHeaders → Result PacketClass
  classify_packet hdrs = elim (ports_of hdrs) [
    | none ↦ ok traffic_other
    | some at ↦ ports_at at >>= λ ports. ok (class_of ports.0 ports.1)
  ]
