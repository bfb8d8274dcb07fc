-- ===== src/Modifications/FlowHash.antt =====
-- `compute_flow_hash` of examples/dpdk_common_modifications.h.
use Prim.Native.Nat.{bit_or, bit_xor, bit_xor-bitwise}
use virtual_service_gateway.Common.{
  ℕ, ◌+◌, ◌*◌, ◌%◌, ◌^◌, ◌<◌, ◌≡◌, refl, ap, Bool, List, Option, none, some, u32_mod, if◌then◌else◌,
  arith,
}
use virtual_service_gateway.Common.Bits.{bit_or-shift16}
use virtual_service_gateway.Common.Faults.{Result, ok, ◌>>=◌}
use virtual_service_gateway.Ethernet.{Packet}
use virtual_service_gateway.Modifications.Headers.{Pointer, PacketHeaders, load8}
use virtual_service_gateway.Modifications.Classes.{ports_at, ports_of}

module _ (little_endian : Bool) (memory : List Packet) where
  -- A `uint32_t` in the order of the host.
  unfoldable pub load32 : Pointer → ℕ → Result ℕ
  load32 at i = load8 memory at i >>= λ a. load8 memory at (i + 1) >>= λ b.
      load8 memory at (i + 2) >>= λ c. load8 memory at (i + 3) >>= λ d. ok (
        if little_endian
        then a + 2 ^ 8 * b + 2 ^ 16 * c + 2 ^ 24 * d
        else 2 ^ 24 * a + 2 ^ 16 * b + 2 ^ 8 * c + d)

  -- The two addresses of an IPv4 header.
  unfoldable pub hash_addresses : Option Pointer → Result ℕ
  hash_addresses none = ok 0
  hash_addresses (some at) =
      load32 at 12 >>= λ src_addr. load32 at 16 >>= λ dst_addr. ok (bit_xor src_addr dst_addr)

  unfoldable pub hash_ports : Option Pointer → ℕ → Result ℕ
  hash_ports none hash = ok hash
  hash_ports (some at) hash = ports_at little_endian memory at >>= λ ports.
      ok (bit_xor hash (bit_or (ports.0 * 2 ^ 16 % u32_mod) ports.1))

  unfoldable pub compute_flow_hash : PacketHeaders → Result ℕ
  compute_flow_hash hdrs = hash_addresses hdrs.ipv4 >>= λ hash. hash_ports (ports_of hdrs) hash

  -- From the addresses and ports that the headers point to, the hash is the exclusive or of the addresses
  -- and of the two ports side by side: packets of one flow have one hash, wherever they are stored.
  pub compute_flow_hash_lem :
      (hdrs : PacketHeaders) (ip l4 : Pointer) (src dst sport dport : ℕ)
      → hdrs.ipv4 ≡ some ip
      → ports_of hdrs ≡ some l4
      → load32 ip 12 ≡ ok src
      → load32 ip 16 ≡ ok dst
      → ports_at little_endian memory l4 ≡ ok (sport, dport)
      → sport < 2 ^ 16
      → dport < 2 ^ 16
      → compute_flow_hash hdrs ≡ ok (bit_xor (bit_xor src dst) (sport * 2 ^ 16 + dport))
  unfolding compute_flow_hash hash_addresses hash_ports ports_of
  compute_flow_hash_lem hdrs ip l4 src dst sport dport here there e_src e_dst e_ports small small' =
      let fits : sport * 2 ^ 16 % u32_mod ≡ sport * 2 ^ 16 = omega (arith, small) in
      rw
        (
          here,
          ◌>>=◌,
          e_src,
          ◌>>=◌,
          e_dst,
          ◌>>=◌,
          there,
          e_ports,
          ◌>>=◌,
          fits,
          bit_or-shift16 sport dport small',
        )
        refl

  -- Without an IPv4 header the hash is made of the ports alone: the addresses of IPv6 do not count.
  pub hash_without_ipv4 :
      (hdrs : PacketHeaders) (l4 : Pointer) (sport dport : ℕ)
      → hdrs.ipv4 ≡ none
      → ports_of hdrs ≡ some l4
      → ports_at little_endian memory l4 ≡ ok (sport, dport)
      → sport < 2 ^ 16
      → dport < 2 ^ 16
      → compute_flow_hash hdrs ≡ ok (sport * 2 ^ 16 + dport)
  unfolding compute_flow_hash hash_addresses hash_ports ports_of
  hash_without_ipv4 hdrs l4 sport dport here there e_ports small small' =
      let fits : sport * 2 ^ 16 % u32_mod ≡ sport * 2 ^ 16 = omega (arith, small) in
      rw (here, ◌>>=◌, there, e_ports, ◌>>=◌, fits, bit_or-shift16 sport dport small')
        (ap ok (bit_xor-bitwise 0 (sport * 2 ^ 16 + dport)))
