-- ===== src/Dpdk/Batches.antt =====
-- `process_batch` on batches without and with a null pointer, and the lengths that `alloc_pkt` writes.
use virtual_service_gateway.Common.{
  ℕ, zero, suc, ◌+◌, ◌<◌, ◌≡◌, ◌≢◌, refl, true, All, All-get_elem?, List, [], ◌∷◌, Option, none,
  some, arith, length, get_elem?, get_elem?_in_range, ltb, Bool-cases, Option-cases, inl, inr, Bool,
  false, ◌&&◌, ◌%◌, if◌then◌else◌,
}
use virtual_service_gateway.Common.Faults.{Result, ok, fault, null_pointer, ◌>>=◌}
use virtual_service_gateway.Dpdk.Buffers.{
  PacketMetadata, Mbuf, place_metadata, extract_metadata, attach_metadata, process_single, prefetch,
  prefetch_from, process_from, process_batch,
}

-- A packet with room for metadata.
abbrev pub has_userdata : Option Mbuf → Bool
has_userdata none = true
has_userdata (some pkt) = elim pkt.userdata [ none ↦ false | some meta ↦ true ]

abbrev pub all_userdata : List (Option Mbuf) → Bool
all_userdata [] = true
all_userdata (p ∷ ps) = has_userdata p && all_userdata ps

-- The metadata of a packet that is processed at a time: its size modulo 2^16 and the time, all else cleared.
abbrev pub fresh_metadata : Mbuf → ℕ → PacketMetadata
fresh_metadata pkt now = record {
  flow_id = 0;
  subscriber_id = 0;
  service_id = 0;
  ingress_port = 0;
  egress_port = 0;
  rx_timestamp_ns = now;
  dpi_class = 0;
  qos_queue = 0;
  packet_bytes = pkt.pkt_len % 65536;
  uplink = false;
}

-- The packets with fresh metadata, each with the clock reading of its index.
abbrev pub stamped : (ℕ → ℕ) → ℕ → List (Option Mbuf) → List (Option Mbuf)
stamped clock i [] = []
stamped clock i (none ∷ ps) = none ∷ stamped clock (i + 1) ps
stamped clock i (some pkt ∷ ps) =
    some (record pkt { userdata = some (fresh_metadata pkt (clock i)) }) ∷ stamped clock (i + 1) ps

-- No packet is null.
abbrev pub IsFull : List (Option Mbuf) → Type 0
IsFull pkts = All (λ p. p ≢ none) pkts

prefetch_lem : (p : Option Mbuf) → p ≢ none → prefetch (some p) ≡ ok tt
unfolding prefetch
prefetch_lem none h = absurd (h refl)
prefetch_lem (some pkt) h = refl

prefetch_from_lem : (i : ℕ) (ps : List (Option Mbuf)) → IsFull ps → prefetch_from i ps ≡ ok tt
unfolding prefetch_from
prefetch_from_lem i [] full = refl
prefetch_from_lem i (p ∷ ps) full = elim (Bool-cases (ltb i 4)) [
  | inl e ↦ rw (e, prefetch_lem p full.0, ◌>>=◌) (prefetch_from_lem (i + 1) ps full.1)
  | inr e ↦ rw (e, prefetch_from) refl
]

-- The prefetch of the packet four places ahead, where there is one.
prefetch_next :
    (pkts : List (Option Mbuf)) (i : ℕ)
    → IsFull pkts
    → (if ltb i (length pkts) then prefetch (get_elem? pkts i) else ok tt) ≡ ok tt
prefetch_next pkts i full = elim (Bool-cases (ltb i (length pkts))) [
  | inl e ↦
      let (q, g) = get_elem?_in_range pkts i (ground (arith, e)) in
      rw (e, g) (prefetch_lem q (All-get_elem? (λ r. r ≢ none) pkts i q full g))
  | inr e ↦ rw e refl
]

-- What a batch comes to: processed, or a write through a null pointer.
abbrev pub batch_result : (ℕ → ℕ) → ℕ → List (Option Mbuf) → Result (List (Option Mbuf))
batch_result clock i ps = if all_userdata ps then ok (stamped clock i ps) else fault null_pointer

process_from_lem :
    (clock : ℕ → ℕ) (pkts : List (Option Mbuf)) (i : ℕ) (ps : List (Option Mbuf))
    → IsFull pkts
    → IsFull ps
    → process_from clock pkts i ps ≡ batch_result clock i ps
unfolding process_from process_single place_metadata
process_from_lem clock pkts i [] full here = refl
process_from_lem clock pkts i (none ∷ ps) full here = absurd (here.0 refl)
process_from_lem clock pkts i (some pkt ∷ ps) full here = elim (Option-cases pkt.userdata) [
  | inl e ↦ rw (e, ◌>>=◌) refl
  | inr (old, e) ↦
      rw
        (
          e,
          prefetch_next pkts (i + 4) full,
          process_from_lem clock pkts (i + 1) ps full here.1,
          ◌>>=◌,
        )
        (elim (Bool-cases (all_userdata ps)) [
          | inl all ↦ rw (all, ◌>>=◌) refl
          | inr some_null ↦ rw (some_null, ◌>>=◌) refl
        ])
]

-- On a batch without null pointers `process_batch` prefetches within the batch; where each packet has room for
-- metadata it gives every packet, in order, fresh metadata with its size modulo 2^16 and its own clock reading, and
-- where the `userdata` of one is null it writes through that null pointer.
pub process_batch_lem :
    (clock : ℕ → ℕ) (pkts : List (Option Mbuf))
    → IsFull pkts
    → process_batch clock pkts
      ≡ (if all_userdata pkts then ok (stamped clock 0 pkts) else fault null_pointer)
unfolding process_batch
process_batch_lem clock pkts full =
    rw (prefetch_from_lem 0 pkts full, ◌>>=◌) (process_from_lem clock pkts 0 pkts full full)

null_soon :
    (i j : ℕ) (ps : List (Option Mbuf))
    → get_elem? ps j ≡ some none
    → i + j < 4
    → prefetch_from i ps ≡ fault null_pointer
unfolding prefetch_from prefetch
null_soon i j [] h lt = absurd (cc h)
null_soon i zero (p ∷ ps) h lt =
    let now : ltb i 4 ≡ true = ground arith in let null : p ≡ none = cc h in rw (now, null) refl
null_soon i (suc j) (none ∷ ps) h lt = let now : ltb i 4 ≡ true = ground arith in rw now refl
null_soon i (suc j) (some p ∷ ps) h lt =
    let now : ltb i 4 ≡ true = ground arith in rw now (null_soon (i + 1) j ps h (omega arith))

-- `process_single` would leave a null pointer alone, but `process_batch` reads it before: a null
-- pointer among the first four packets is dereferenced.
pub process_batch_null :
    (clock : ℕ → ℕ) (pkts : List (Option Mbuf)) (j : ℕ)
    → get_elem? pkts j ≡ some none
    → j < 4
    → process_batch clock pkts ≡ fault null_pointer
unfolding process_batch
process_batch_null clock pkts j h lt = rw (null_soon 0 j pkts h (omega (arith, lt)), ◌>>=◌) refl

-- Metadata that is attached to a packet with room for it is what `extract_metadata` then stores; on a packet
-- without, `attach_metadata` writes through the null pointer and `extract_metadata` stores nothing.
pub attach-extract :
    (pkt : Mbuf) (meta old : PacketMetadata)
    → (attach_metadata (some pkt) (some meta) >>= λ q. ok (extract_metadata q (some old)))
      ≡ (if has_userdata (some pkt) then ok (some meta) else fault null_pointer)
unfolding attach_metadata extract_metadata place_metadata
attach-extract pkt meta old = elim (Option-cases pkt.userdata) [
  | inl e ↦ rw (e, ◌>>=◌) refl
  | inr (stored, e) ↦ rw (e, ◌>>=◌) refl
]
