-- ===== src/Modifications/Pipeline.antt =====
-- `example_complete_pipeline` of examples/dpdk_common_modifications.h. Its mbufs are positions in the memory;
-- the meter and the headers start with what the uninitialised variables hold.
use virtual_service_gateway.Common.{
  ℕ, Bool, false, List, [], ◌∷◌, ◌++◌, take, drop, length, min, none, some, add64, if◌then◌else◌,
}
use virtual_service_gateway.Common.Faults.{Result, ok, fault, null_pointer, ◌>>=◌}
use virtual_service_gateway.Ethernet.{Packet}
use virtual_service_gateway.Modifications.Headers.{PacketHeaders, packet_at, extract_packet_headers}
use virtual_service_gateway.Modifications.Classes.{classify_packet}
use virtual_service_gateway.Modifications.Addresses.{mac_swap}
use virtual_service_gateway.Modifications.Stats.{
  MeterStats, PortStats, update_meter, check_quota, update_stats,
}

-- The local variables, the packets, and the calls of `rte_pktmbuf_free` and what the port took.
pub record Pipeline : Type 0 where
  pub memory : List Packet
  pub hdrs : PacketHeaders
  pub meter : MeterStats
  pub stats : PortStats
  pub freed : List ℕ
  pub sent : List ℕ

abbrev pub quota : ℕ
quota = 1000000

unfoldable pub add_error : PortStats → PortStats
add_error stats = record stats { errors = add64 stats.errors 1 }

unfoldable pub add_drop : PortStats → PortStats
add_drop stats = record stats { dropped_packets = add64 stats.dropped_packets 1 }

-- A packet that is not transmitted: freed, and counted.
unfoldable pub give_up : ℕ → (PortStats → PortStats) → Pipeline → Pipeline
give_up pkt count s = record s { stats = count s.stats; freed = s.freed ++ pkt ∷ [] }

-- `mac_swap(hdrs.eth)`.
unfoldable pub swap_header : Pipeline → Result (List Packet)
swap_header s = elim s.hdrs.eth [ none ↦ fault null_pointer | some eth ↦ mac_swap s.memory eth ]

-- The swap of the addresses and the count of a packet that is to be transmitted.
unfoldable pub modify_packet : ℕ → Pipeline → Result Pipeline
modify_packet pkt s = swap_header s >>= λ memory.
    update_stats memory s.stats (pkt ∷ []) false >>= λ stats.
    ok (record s { memory = memory; stats = stats })

module _ (little_endian : Bool) where
  -- After an extraction that returned 0.
  unfoldable pub admit : ℕ → Pipeline → Result Pipeline
  admit pkt s = classify_packet little_endian s.memory s.hdrs >>= λ cls.
      packet_at s.memory pkt >>= λ p.
      let metered : Pipeline = record s { meter = update_meter s.meter p.pkt_len } in
      if check_quota metered.meter quota
      then ok (give_up pkt add_drop metered)
      else modify_packet pkt metered

  -- The body of the loop over a burst.
  unfoldable pub process_packet : ℕ → Pipeline → Result Pipeline
  process_packet pkt s = extract_packet_headers little_endian s.memory pkt s.hdrs >>= λ q.
      let extracted : Pipeline = record s { hdrs = q.0 } in
      if q.1 then admit pkt extracted else ok (give_up pkt add_error extracted)

  unfoldable pub process_packets : List ℕ → Pipeline → Result Pipeline
  process_packets [] s = ok s
  process_packets (pkt ∷ pkts) s = process_packet pkt s >>= λ s'. process_packets pkts s'

-- The loop that frees what was not sent.
unfoldable pub free_unsent : List ℕ → Pipeline → Pipeline
free_unsent [] s = s
free_unsent (pkt ∷ pkts) s = free_unsent pkts (give_up pkt add_drop s)

-- `rte_eth_tx_burst` takes the first `nb_tx` packets.
unfoldable pub transmit : List ℕ → ℕ → Pipeline → Pipeline
transmit bufs nb_tx s =
    free_unsent (drop nb_tx bufs) (record s { sent = s.sent ++ take nb_tx bufs })

module _ (little_endian : Bool) where
  -- After `rte_eth_rx_burst`; `room` says how many packets the port would transmit.
  unfoldable pub handle_burst : List ℕ → ℕ → Pipeline → Result Pipeline
  handle_burst [] room s = ok s
  handle_burst (pkt ∷ pkts) room s = process_packets little_endian (pkt ∷ pkts) s >>= λ s'.
      ok (transmit (pkt ∷ pkts) (min room (length (pkt ∷ pkts))) s')

  -- Rounds of the endless loop, each with what the port has received, of which it gives at most 64, and
  -- its room.
  unfoldable pub run_pipeline : List (List ℕ × ℕ) → Pipeline → Result Pipeline
  run_pipeline [] s = ok s
  run_pipeline ((offered, room) ∷ rounds) s =
      handle_burst (take 64 offered) room s >>= λ s'. run_pipeline rounds s'
