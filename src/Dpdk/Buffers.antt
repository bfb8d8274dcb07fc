-- ===== src/Dpdk/Buffers.antt =====
-- The packet buffers of `MempoolManager`, and `BatchProcessor` of src/dpdk/batch_processor.cpp. Of
-- `struct rte_mbuf` the fields are kept that the source touches: the two lengths, and `userdata`, with what
-- it points to, or none for a null pointer.
use virtual_service_gateway.Common.{
  ℕ, ◌+◌, ◌%◌, Bool, false, List, [], ◌∷◌, ◌++◌, Option, none, some, length, get_elem?, u16_mod,
  ltb, if◌then◌else◌,
}
use virtual_service_gateway.Common.Faults.{Result, ok, fault, out_of_bounds, null_pointer, ◌>>=◌}
use virtual_service_gateway.Dpdk.Mempool.{MempoolManager, get_mempool}

pub record PacketMetadata : Type 0 where
  pub flow_id : ℕ
  pub subscriber_id : ℕ
  pub service_id : ℕ
  pub ingress_port : ℕ
  pub egress_port : ℕ
  pub rx_timestamp_ns : ℕ
  pub dpi_class : ℕ
  pub qos_queue : ℕ
  pub packet_bytes : ℕ
  pub uplink : Bool

pub record Mbuf : Type 0 where
  pub data_len : ℕ
  pub pkt_len : ℕ
  pub userdata : Option PacketMetadata

-- `alloc` is what `rte_pktmbuf_alloc` returns for a pool; the field `data_len` has 16 bits.
unfoldable pub alloc_pkt {ℓ} :
    {P : Type ℓ} → (P → Option Mbuf) → MempoolManager P → ℕ → ℕ → Option Mbuf
alloc_pkt alloc manager numa_node size = elim (get_mempool manager numa_node) [
  | none ↦ none
  | some mp ↦ elim (alloc mp) [
    | none ↦ none
    | some m ↦
        some (if ltb 0 size then record m { data_len = size % u16_mod; pkt_len = size } else m)
  ]
]

-- `avail` and `in_use` are the two DPDK counts of a pool.
unfoldable pub get_stats {ℓ} : {P : Type ℓ} → (P → ℕ) → (P → ℕ) → MempoolManager P → ℕ → ℕ × ℕ
get_stats avail in_use manager numa_node = elim (get_mempool manager numa_node) [
  | none ↦ (0, 0)
  | some mp ↦ (avail mp, in_use mp)
]

-- `new (pkt->userdata) PacketMetadata(...)`: a null pointer is written through as well.
unfoldable pub place_metadata : Mbuf → PacketMetadata → Result Mbuf
place_metadata pkt meta = elim pkt.userdata [
  | none ↦ fault null_pointer
  | some old ↦ ok (record pkt { userdata = some meta })
]

-- `PacketMetadata()` clears the fields.
unfoldable pub process_single : Option Mbuf → ℕ → Result (Option Mbuf)
process_single none now = ok none
process_single (some pkt) now =
    place_metadata pkt (record {
      flow_id = 0;
      subscriber_id = 0;
      service_id = 0;
      ingress_port = 0;
      egress_port = 0;
      rx_timestamp_ns = now;
      dpi_class = 0;
      qos_queue = 0;
      packet_bytes = pkt.pkt_len % u16_mod;
      uplink = false;
    })
    >>= λ m. ok (some m)

-- `rte_prefetch0(rte_pktmbuf_mtod(pkts[i], void*))`: it reads the packet.
unfoldable pub prefetch : Option (Option Mbuf) → Result (Unit {0})
prefetch none = fault out_of_bounds
prefetch (some none) = fault null_pointer
prefetch (some (some pkt)) = ok tt

-- The loop of `prefetch_batch` from index `i` on: at most the first four packets.
unfoldable pub prefetch_from : ℕ → List (Option Mbuf) → Result (Unit {0})
prefetch_from i [] = ok tt
prefetch_from i (p ∷ ps) =
    let rest = prefetch_from (i + 1) ps in
    if ltb i 4 then (prefetch (some p) >>= λ done. rest) else ok tt

-- The loop of `process_batch` over `pkts` from index `i` on. `clock i` is the time-stamp counter's
-- reading for the packet `i`.
unfoldable pub process_from :
    (ℕ → ℕ) → List (Option Mbuf) → ℕ → List (Option Mbuf) → Result (List (Option Mbuf))
process_from clock pkts i [] = ok []
process_from clock pkts i (p ∷ ps) =
    let rest = process_from clock pkts (i + 1) ps in
    process_single p (clock i) >>= λ q.
    (if ltb (i + 4) (length pkts) then prefetch (get_elem? pkts (i + 4)) else ok tt) >>= λ done.
    rest >>= λ processed. ok (q ∷ processed)

unfoldable pub process_batch : (ℕ → ℕ) → List (Option Mbuf) → Result (List (Option Mbuf))
process_batch clock pkts = prefetch_from 0 pkts >>= λ done. process_from clock pkts 0 pkts

-- A pointer argument that may be null is an option.
unfoldable pub extract_metadata : Option Mbuf → Option PacketMetadata → Option PacketMetadata
extract_metadata none meta = meta
extract_metadata (some pkt) none = none
extract_metadata (some pkt) (some meta) = elim pkt.userdata [
  | none ↦ some meta
  | some stored ↦ some stored
]

unfoldable pub attach_metadata : Option Mbuf → Option PacketMetadata → Result (Option Mbuf)
attach_metadata none meta = ok none
attach_metadata (some pkt) none = ok (some pkt)
attach_metadata (some pkt) (some meta) = place_metadata pkt meta >>= λ m. ok (some m)

-- The packets that `rte_pktmbuf_free` was called on.
unfoldable pub free_pkt {ℓ} : {M : Type ℓ} → Option M → List M → List M
free_pkt none free_log = free_log
free_pkt (some m) free_log = free_log ++ m ∷ []
