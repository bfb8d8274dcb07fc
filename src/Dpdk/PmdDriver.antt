-- ===== src/Dpdk/PmdDriver.antt =====
-- `PMDDriver` of src/dpdk/pmd_driver.cpp. The `rte_` functions are not of this repository: the section's
-- parameter says which of their calls return a negative value, given the calls made before. A method
-- takes the log of these calls, newest first, and returns the log after it.
use virtual_service_gateway.Common.{
  ℕ, zero, suc, ◌+◌, ◌%◌, Bool, true, false, List, [], ◌∷◌, Option, none, some, u16_mod, leb, ◌==◌,
  length, if◌then◌else◌,
}
use virtual_service_gateway.Dpdk.Calls.{and_then, attempt}

pub record PortConfig : Type 0 where
  pub port_id : ℕ
  pub rxq_count : ℕ
  pub txq_count : ℕ
  pub mtu : ℕ
  pub promiscuous : Bool
  pub jumbo_enabled : Bool

-- The calls, with their arguments that vary. A port is configured with the receive and transmit
-- checksum offloads, and the jumbo frame offload where it is asked for.
pub data EthCall : Type 0 where
  eal_init : EthCall
  info_get : ℕ → EthCall
  configure : (port rxq_count txq_count mtu : ℕ) (jumbo : Bool) → EthCall
  rx_queue_setup : (port q : ℕ) → EthCall
  tx_queue_setup : (port q : ℕ) → EthCall
  dev_start : ℕ → EthCall
  promiscuous_enable : ℕ → EthCall
  dev_stop : ℕ → EthCall
  dev_close : ℕ → EthCall

abbrev pub Log : Type 0
Log = List EthCall

pub record PmdDriver : Type 0 where
  pub port_configs : List PortConfig
  pub eal_initialized : Bool

unfoldable pub new_driver : PmdDriver
new_driver = record { port_configs = []; eal_initialized = false }

unfoldable pub get_port_count : PmdDriver → ℕ
get_port_count d = length d.port_configs % u16_mod

-- The loop of `get_port_config`; nothing for the exception.
unfoldable pub find_config : List PortConfig → ℕ → Option PortConfig
find_config [] port = none
find_config (cfg ∷ cfgs) port = if cfg.port_id == port then some cfg else find_config cfgs port

unfoldable pub get_port_config : PmdDriver → ℕ → Option PortConfig
get_port_config d port = find_config d.port_configs port

unfoldable pub stop_ports : List PortConfig → Log → Log
stop_ports [] log = log
stop_ports (cfg ∷ cfgs) log = stop_ports cfgs (dev_close cfg.port_id ∷ dev_stop cfg.port_id ∷ log)

module _ (fails : Log → EthCall → Bool) where
  unfoldable pub init_eal : PmdDriver → Log → PmdDriver × (Log × Bool)
  init_eal d log =
      if d.eal_initialized
      then (d, (log, true))
      else if fails log eal_init
      then (d, (eal_init ∷ log, false))
      else (record d { eal_initialized = true }, (eal_init ∷ log, true))

  -- The queues from `q` on; `left` of them.
  unfoldable pub setup_rx : ℕ → ℕ → ℕ → Log → Log × Bool
  setup_rx port q zero log = (log, true)
  setup_rx port q (suc left) log =
      and_then (attempt fails (rx_queue_setup port q) log) (setup_rx port (q + 1) left)

  unfoldable pub setup_tx : ℕ → ℕ → ℕ → Log → Log × Bool
  setup_tx port q zero log = (log, true)
  setup_tx port q (suc left) log =
      and_then (attempt fails (tx_queue_setup port q) log) (setup_tx port (q + 1) left)

  -- One round of the loop of `init_ports`.
  unfoldable pub setup_port : ℕ → PortConfig → Log → Log × Bool
  setup_port nb_ports cfg log =
      if leb nb_ports cfg.port_id
      then (log, false)
      else and_then
          (attempt fails
            (configure cfg.port_id cfg.rxq_count cfg.txq_count cfg.mtu cfg.jumbo_enabled)
            (info_get cfg.port_id ∷ log))
          (λ log'.
            and_then (setup_rx cfg.port_id 0 cfg.rxq_count log')
              (setup_tx cfg.port_id 0 cfg.txq_count))

  unfoldable pub setup_ports : ℕ → List PortConfig → Log → Log × Bool
  setup_ports nb_ports [] log = (log, true)
  setup_ports nb_ports (cfg ∷ cfgs) log =
      and_then (setup_port nb_ports cfg log) (setup_ports nb_ports cfgs)

  -- `nb_ports` is what `rte_eth_dev_count_avail` returns.
  unfoldable pub init_ports : PmdDriver → ℕ → List PortConfig → Log → PmdDriver × (Log × Bool)
  init_ports d nb_ports configs log =
      if d.eal_initialized
      then (
        record d { port_configs = configs },
        (if nb_ports == 0 then (log, false) else setup_ports nb_ports configs log),
      )
      else (d, (log, false))

  unfoldable pub start_ports : List PortConfig → Log → Log × Bool
  start_ports [] log = (log, true)
  start_ports (cfg ∷ cfgs) log = and_then (attempt fails (dev_start cfg.port_id) log) (λ log'.
      start_ports cfgs (if cfg.promiscuous then promiscuous_enable cfg.port_id ∷ log' else log'))

-- The methods that forward to a port: what `rte_eth_rx_burst`, `rte_eth_tx_burst` and `rte_eth_stats_get`
-- do to the devices is an interface.
pub record EthDevices (D M S : Type 0) : Type 0 where
  pub eth_rx_burst : D → (port queue nb_pkts : ℕ) → D × List M
  pub eth_tx_burst : D → (port queue : ℕ) → List M → D × ℕ
  pub eth_stats_get : D → (port : ℕ) → S

module _ {D M S : Type 0} (eth : EthDevices D M S) where
  unfoldable pub rx_burst : D → (port queue nb_pkts : ℕ) → D × List M
  rx_burst devices port queue nb_pkts = eth.eth_rx_burst devices port queue nb_pkts

  unfoldable pub tx_burst : D → (port queue : ℕ) → List M → D × ℕ
  tx_burst devices port queue pkts = eth.eth_tx_burst devices port queue pkts

  unfoldable pub get_port_stats : D → (port : ℕ) → S
  get_port_stats devices port = eth.eth_stats_get devices port
