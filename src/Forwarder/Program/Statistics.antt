-- ===== src/Forwarder/Program/Statistics.antt =====
-- `print_stats` and `lcore_stats` of examples/minimal_dpdk.cpp: the third core, which reads what the other two
-- share, a variable in each turn. What the pool counts is an argument of the turn.
use virtual_service_gateway.Common.{ℕ, Bool, true, false, ◌&&◌, List, [], ◌∷◌, ◌++◌, if◌then◌else◌}
use virtual_service_gateway.Ethernet.{Packet}
use virtual_service_gateway.Dpdk.RingQueue.{RteRing}
use virtual_service_gateway.Forwarder.Cores.{
  System, RxCore, TxCore, rx_exited, tx_exited, Turn, step, new_system,
}

-- What `rte_mempool_avail_count` and `rte_mempool_in_use_count` return.
pub record PoolCounts : Type 0 where
  pub available : ℕ
  pub in_use : ℕ

-- The lines that show a number.
pub data Line : Type 0 where
  rx_packets_line : ℕ → Line
  tx_packets_line : ℕ → Line
  ring_line : ℕ → Line
  available_line : ℕ → Line
  in_use_line : ℕ → Line

-- Where the statistics core stands: at the loop's test, asleep, before a line, or past its loop.
pub data StatsCore : Type 0 where
  testing : StatsCore
  sleeping : StatsCore
  printing_rx : StatsCore
  printing_tx : StatsCore
  printing_ring : StatsCore
  printing_available : StatsCore
  printing_in_use : StatsCore
  stats_exited : StatsCore

-- The three cores and what is printed.
pub record Watched (R : Type 0) : Type 0 where
  pub system : System R
  pub stats : StatsCore
  pub output : List Line

pub data WatchedTurn : Type 0 where
  core_turn : Turn → WatchedTurn
  stats_turn : PoolCounts → WatchedTurn

-- `count` is `rte_ring_count`.
module _ {R : Type 0} (rte : RteRing R Packet) (count : R → ℕ) where
  unfoldable pub print_stats : System R → PoolCounts → List Line
  print_stats s pool =
      rx_packets_line s.rx_packets
      ∷ tx_packets_line s.tx_packets
      ∷ ring_line (count s.ring)
      ∷ available_line pool.available
      ∷ in_use_line pool.in_use
      ∷ []

  -- The next state of the core, and what it prints.
  unfoldable pub stats_move : System R → PoolCounts → StatsCore → StatsCore × List Line
  stats_move s pool testing = (if s.force_quit then stats_exited else sleeping, [])
  stats_move s pool sleeping = (printing_rx, [])
  stats_move s pool printing_rx = (printing_tx, rx_packets_line s.rx_packets ∷ [])
  stats_move s pool printing_tx = (printing_ring, tx_packets_line s.tx_packets ∷ [])
  stats_move s pool printing_ring = (printing_available, ring_line (count s.ring) ∷ [])
  stats_move s pool printing_available = (printing_in_use, available_line pool.available ∷ [])
  stats_move s pool printing_in_use = (testing, in_use_line pool.in_use ∷ [])
  stats_move s pool stats_exited = (stats_exited, [])

  unfoldable pub watch_step : Watched R → WatchedTurn → Watched R
  watch_step w (core_turn t) = record w { system = step rte w.system t }
  watch_step w (stats_turn pool) =
      let (stats, lines) = stats_move w.system pool w.stats in
      record w { stats = stats; output = w.output ++ lines }

  unfoldable pub watch : Watched R → List WatchedTurn → Watched R
  watch w [] = w
  watch w (t ∷ ts) = watch (watch_step w t) ts

unfoldable pub new_watched : {R : Type 0} → R → Watched R
new_watched ring = record { system = new_system ring; stats = testing; output = [] }

abbrev pub rx_done : RxCore → Bool
rx_done rx_exited = true
rx_done other = false

abbrev pub tx_done : TxCore → Bool
tx_done tx_exited = true
tx_done other = false

abbrev pub stats_done : StatsCore → Bool
stats_done stats_exited = true
stats_done other = false

-- `rte_eal_mp_wait_lcore` returns when every core has returned.
unfoldable pub cores_done : {R : Type 0} → Watched R → Bool
cores_done w = rx_done w.system.rx && tx_done w.system.tx && stats_done w.stats
