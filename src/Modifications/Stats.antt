-- ===== src/Modifications/Stats.antt =====
-- `MeterStats` and `PortStats` of examples/dpdk_common_modifications.h and the functions that change them.
use virtual_service_gateway.Common.{ℕ, Bool, List, [], ◌∷◌, add64, ltb, if◌then◌else◌}
use virtual_service_gateway.Common.Faults.{Result, ok, ◌>>=◌}
use virtual_service_gateway.Ethernet.{Packet}
use virtual_service_gateway.Modifications.Headers.{packet_at}

pub record MeterStats : Type 0 where
  pub bytes : ℕ
  pub packets : ℕ
  pub drops : ℕ
  pub last_reset_ts : ℕ

unfoldable pub update_meter : MeterStats → ℕ → MeterStats
update_meter meter packet_bytes = record meter {
  bytes = add64 meter.bytes packet_bytes;
  packets = add64 meter.packets 1;
}

unfoldable pub check_quota : MeterStats → ℕ → Bool
check_quota meter quota_bytes = ltb quota_bytes meter.bytes

pub record PortStats : Type 0 where
  pub rx_packets : ℕ
  pub rx_bytes : ℕ
  pub tx_packets : ℕ
  pub tx_bytes : ℕ
  pub dropped_packets : ℕ
  pub errors : ℕ

unfoldable pub count_packet : PortStats → ℕ → Bool → PortStats
count_packet stats pkt_bytes is_rx =
    if is_rx
    then record stats {
      rx_packets = add64 stats.rx_packets 1;
      rx_bytes = add64 stats.rx_bytes pkt_bytes;
    }
    else record stats {
      tx_packets = add64 stats.tx_packets 1;
      tx_bytes = add64 stats.tx_bytes pkt_bytes;
    }

unfoldable pub update_stats : List Packet → PortStats → List ℕ → Bool → Result PortStats
update_stats memory stats [] is_rx = ok stats
update_stats memory stats (pkt ∷ bufs) is_rx = packet_at memory pkt >>= λ p.
    update_stats memory (count_packet stats p.pkt_len is_rx) bufs is_rx
