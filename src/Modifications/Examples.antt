-- ===== src/Modifications/Examples.antt =====
-- Small inputs of the functions of examples/dpdk_common_modifications.h, and instances of the theorems.
use mathlib.Core.List.{Sublist}
use virtual_service_gateway.Common.{
  ℕ, zero, suc, ◌+◌, ◌%◌, ◌≤◌, ◌≡◌, ◌≢◌, inl, refl, true, false, List, [], ◌∷◌, ◌++◌, take, drop,
  length, replicate, none, some, sym, ==_refl, ==_false, arith, take-append-drop, u64_mod,
  if◌then◌else◌, ◌==◌,
}
use virtual_service_gateway.Common.Faults.{ok, Returns, ◌>>=◌}
use virtual_service_gateway.Ethernet.{Packet}
use virtual_service_gateway.Modifications.Headers.{
  PacketHeaders, extract_packet_headers, extract_l3, extract_l4, extract_ipv4, packet_at, load8,
  load16, byte_at, ether_type_ipv4,
}
use virtual_service_gateway.Modifications.Classes.{
  class_of, ports_at, ports_of, classify_packet, traffic_https, traffic_dns,
}
use virtual_service_gateway.Modifications.Addresses.{mac_swap, mac_swap_involutive}
use virtual_service_gateway.Modifications.Stats.{update_meter, check_quota}
use virtual_service_gateway.Modifications.Pipeline.{
  Pipeline, process_packet, process_packets, handle_burst, run_pipeline, give_up, add_error,
  add_drop, admit, free_unsent, transmit,
}
use virtual_service_gateway.Modifications.Safety.{IsSafe, run_pipeline-Returns}
use virtual_service_gateway.Modifications.Rounds.{handle_burst_lem}
use virtual_service_gateway.Modifications.Stale.{stale_tcp}
use virtual_service_gateway.Modifications.ByteOrder.{extract_tcp_lem, little_endian_rejects}
use virtual_service_gateway.Modifications.Queues.{EthRx}

-- An IPv4 frame without options in a buffer with room: from port 443 to port 1024 for TCP, from port 53 for
-- UDP, each with four bytes of payload.
abbrev frame : ℕ → List ℕ → ℕ → Packet
frame proto l4 pkt_len = record {
  buffer =
      replicate 6 1
      ++ (replicate 6 2
          ++ (8
              ∷ 0
              ∷ 69
              ∷ (replicate 8 0 ++ (proto ∷ (replicate 10 0 ++ (l4 ++ replicate 60 0))))));
  pkt_len = pkt_len;
}

abbrev tcp_frame : Packet
tcp_frame = frame 6 (1 ∷ 187 ∷ 4 ∷ 0 ∷ (replicate 8 0 ++ 80 ∷ [])) 58

abbrev udp_frame : Packet
udp_frame = frame 17 (0 ∷ 53 ∷ 4 ∷ 0 ∷ 0 ∷ 12 ∷ replicate 7 0) 46

abbrev memory : List Packet
memory = tcp_frame ∷ udp_frame ∷ []

abbrev no_headers : PacketHeaders
no_headers = record {
  eth = none;
  ipv4 = none;
  ipv6 = none;
  tcp = none;
  udp = none;
  payload_size = 0;
  l3_proto = 0;
  l4_proto = 0;
}

abbrev tcp_headers : PacketHeaders
tcp_headers = record no_headers {
  eth = some (record { mbuf = 0; offset = 0 });
  ipv4 = some (record { mbuf = 0; offset = 14 });
  tcp = some (record { mbuf = 0; offset = 34 });
  payload_size = 4;
  l3_proto = ether_type_ipv4;
  l4_proto = 6;
}

extract_tcp_lem_example : extract_packet_headers false memory 0 no_headers ≡ ok (tcp_headers, true)
extract_tcp_lem_example =
    extract_tcp_lem memory 0 tcp_frame refl false no_headers 8 0 69 80 4 refl refl refl refl refl
      refl refl (omega arith) (omega arith)

little_endian_rejects_example :
    (hdrs' : PacketHeaders) × (extract_packet_headers true memory 0 no_headers ≡ ok (hdrs', false))
little_endian_rejects_example =
    little_endian_rejects memory 0 tcp_frame refl no_headers ether_type_ipv4 (inl refl) refl refl

-- The UDP packet after the TCP packet.
abbrev mixed_headers : PacketHeaders
mixed_headers = record tcp_headers {
  eth = some (record { mbuf = 1; offset = 0 });
  ipv4 = some (record { mbuf = 1; offset = 14 });
  udp = some (record { mbuf = 1; offset = 34 });
  payload_size = 4;
  l4_proto = 17;
}

mixed : extract_packet_headers false memory 1 tcp_headers ≡ ok (mixed_headers, true)
unfolding extract_packet_headers extract_l3 extract_ipv4 extract_l4 packet_at load16 load8 byte_at
mixed = refl

stale_tcp_example : classify_packet false memory mixed_headers ≡ (
    ports_at false memory (record { mbuf = 0; offset = 34 }) >>= λ ports.
    ok (class_of ports.0 ports.1))
stale_tcp_example =
    stale_tcp false memory 1 tcp_headers mixed_headers (record { mbuf = 0; offset = 34 }) refl mixed
      (λ e. omega (arith, e))

test_stale :
    (classify_packet false memory mixed_headers ≡ ok traffic_https)
    × (classify_packet false memory (record mixed_headers { tcp = none }) ≡ ok traffic_dns)
unfolding classify_packet ports_at ports_of class_of load16 load8 packet_at byte_at
test_stale = (refl, refl)

mac_swap_involutive_example :
    (mac_swap memory (record { mbuf = 1; offset = 0 }) >>= λ memory'.
    mac_swap memory' (record { mbuf = 1; offset = 0 }))
    ≡ ok memory
mac_swap_involutive_example = mac_swap_involutive memory 1 udp_frame refl (omega arith)

abbrev start : Pipeline
start = record {
  memory = memory;
  hdrs = no_headers;
  meter = record { bytes = 999900; packets = 700; drops = 0; last_reset_ts = 0 };
  stats = record {
    rx_packets = 0;
    rx_bytes = 0;
    tx_packets = 0;
    tx_bytes = 0;
    dropped_packets = 0;
    errors = 0;
  };
  freed = [];
  sent = [];
}

run_pipeline-Returns_example :
    Returns (IsSafe 2) (run_pipeline false ((0 ∷ 1 ∷ [], 1) ∷ (1 ∷ [], 5) ∷ []) start)
run_pipeline-Returns_example =
    run_pipeline-Returns 2 false ((0 ∷ 1 ∷ [], 1) ∷ (1 ∷ [], 5) ∷ []) start
      ((omega arith, (omega arith, tt)), ((omega arith, tt), tt))
      ((omega arith, (omega arith, tt)), refl, (tt, tt))

-- A frame of three bytes is refused, freed, and sent.
abbrev short_start : Pipeline
short_start = record start { memory = record tcp_frame { pkt_len = 3 } ∷ [] }

abbrev short_end : Pipeline
short_end = record short_start {
  stats = record start.stats { errors = 1 };
  freed = 0 ∷ [];
  sent = 0 ∷ [];
}

short_burst : handle_burst false (0 ∷ []) 4 short_start ≡ ok short_end
unfolding handle_burst process_packets process_packet extract_packet_headers packet_at give_up
    add_error transmit free_unsent
short_burst = refl

handle_burst_lem_example :
    (rejected : List ℕ) × Sublist rejected (0 ∷ [])
    × (short_end.freed ≡ short_start.freed ++ (rejected ++ drop 1 (0 ∷ [])))
    × (short_end.sent ≡ short_start.sent ++ take 1 (0 ∷ []))
    × ((short_end.stats.tx_packets + length rejected) % u64_mod
        ≡ (short_start.stats.tx_packets + 1) % u64_mod)
    × ((short_end.stats.errors + short_end.stats.dropped_packets) % u64_mod
        ≡ (short_start.stats.errors + short_start.stats.dropped_packets + length rejected + 0)
          % u64_mod)
handle_burst_lem_example = handle_burst_lem false (0 ∷ []) 4 short_start short_end short_burst

abbrev above : Pipeline
above = record start { meter = record start.meter { bytes = 1000001 } }

abbrev after_drop : Pipeline
after_drop = record above {
  hdrs = tcp_headers;
  meter = record above.meter { bytes = 1000059; packets = 701 };
  stats = record start.stats { dropped_packets = 1 };
  freed = 0 ∷ [];
}

dropped : process_packets false (0 ∷ []) above ≡ ok after_drop
unfolding process_packets process_packet admit extract_packet_headers extract_l3 extract_ipv4
    extract_l4 packet_at load16 load8 byte_at classify_packet ports_of ports_at update_meter
    check_quota give_up add_drop
dropped = refl

-- Queues as a function to lists.
abbrev taking : (ℕ → List ℕ) → ℕ → ℕ → (ℕ → List ℕ) × List ℕ
taking d queue n = ((λ q. if q == queue then drop n (d q) else d q), take n (d queue))

length-take-le : (n : ℕ) (xs : List ℕ) → length (take n xs) ≤ n
length-take-le zero xs = omega arith
length-take-le (suc n) [] = omega arith
length-take-le (suc n) (x ∷ xs) = omega (arith, length-take-le n xs)

taken :
    (d : ℕ → List ℕ) (queue n : ℕ) → (taking d queue n).1 ++ (taking d queue n).0 queue ≡ d queue
taken d queue n = rw (==_refl queue) (take-append-drop n (d queue))

untouched :
    (d : ℕ → List ℕ) (queue n other : ℕ) → queue ≢ other → (taking d queue n).0 other ≡ d other
untouched d queue n other apart = rw (==_false other queue (λ e. apart (sym e))) refl

abbrev queues : EthRx (ℕ → List ℕ) ℕ
queues = record {
  waiting = λ d. d;
  rx_burst = taking;
  at_most = λ d queue n. length-take-le n (d queue);
  received = taken;
  others = untouched;
}

abbrev full_queues : ℕ → List ℕ
full_queues queue = 10 ∷ 20 ∷ []
