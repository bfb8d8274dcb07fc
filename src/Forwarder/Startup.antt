-- ===== src/Forwarder/Startup.antt =====
-- The functions of examples/minimal_dpdk.cpp up to the launch of the cores, and the cleanup of `main`.
-- What DPDK does is a parameter, as in Dpdk.Calls. The pool, the ring and the devices are arguments.
use virtual_service_gateway.Common.{
  ℕ, ◌/◌, ◌%◌, ◌^◌, Bool, true, false, not, ◌&&◌, List, [], ◌∷◌, u32_mod, ltb, leb, ◌==◌,
  if◌then◌else◌,
}
use virtual_service_gateway.Common.Faults.{Result, ok, fault, undefined_shift, ◌>>=◌}
use virtual_service_gateway.Dpdk.Calls.{and_then, attempt}

-- The calls on a port. A port is configured with one queue each way, no offloads and an MTU of 9000;
-- its queues have 128 descriptors.
pub data PortCall : Type 0 where
  dev_info_get : ℕ → PortCall
  dev_configure : ℕ → PortCall
  rx_queue_setup : ℕ → PortCall
  default_txconf_get : ℕ → PortCall
  tx_queue_setup : ℕ → PortCall
  promiscuous_enable : ℕ → PortCall
  dev_start : ℕ → PortCall
  dev_stop : ℕ → PortCall
  dev_close : ℕ → PortCall

-- `(enabled_portmask & (1 << portid)) != 0`; a shift by the width or more is undefined.
unfoldable pub is_enabled : ℕ → ℕ → Result Bool
is_enabled mask port = if leb 32 port then fault undefined_shift else ok (mask / 2 ^ port % 2 == 1)

-- The options that `getopt` finds: `-p` with the number that `strtoul` reads, or another.
pub data Argument : Type 0 where
  port_mask : ℕ → Argument
  unknown_option : Argument

-- The new `enabled_portmask`, and whether 0 is returned.
unfoldable pub parse_args : ℕ → List Argument → ℕ × Bool
parse_args mask [] = (mask, not (mask == 0))
parse_args mask (port_mask n ∷ opts) = parse_args (n % u32_mod) opts
parse_args mask (unknown_option ∷ opts) = (mask, false)

module _ (fails : List PortCall → PortCall → Bool) where
  unfoldable pub configure_port : ℕ → List PortCall → List PortCall × Bool
  configure_port port log = and_then (attempt fails (dev_configure port) log) (λ configured.
      and_then (attempt fails (rx_queue_setup port) configured) (λ receiving.
        and_then (attempt fails (tx_queue_setup port) (default_txconf_get port ∷ receiving))
          (attempt fails (promiscuous_enable port))))

  -- The body of the loop of `init_ports` for a port in the mask.
  unfoldable pub bring_up : ℕ → List PortCall → List PortCall × Bool
  bring_up port log =
      and_then (configure_port port (dev_info_get port ∷ log)) (attempt fails (dev_start port))

  -- The loop of `init_ports` over the devices that are left.
  unfoldable pub init_devices : ℕ → List ℕ → List PortCall → Result (List PortCall × Bool)
  init_devices mask [] log = ok (log, true)
  init_devices mask (port ∷ ports) log =
      let rest = init_devices mask ports in
      is_enabled mask port >>= λ enabled. elim enabled [
        | false ↦ rest log
        | true ↦ elim (bring_up port log).1 [
          | true ↦ rest (bring_up port log).0
          | false ↦ ok (bring_up port log)
        ]
      ]

  -- `nb_ports` is what `rte_eth_dev_count_avail` returns, `devices` what `RTE_ETH_FOREACH_DEV` visits.
  unfoldable pub init_ports : ℕ → ℕ → List ℕ → List PortCall → Result (List PortCall × Bool)
  init_ports mask nb_ports devices log =
      if nb_ports == 0 then ok (log, false) else init_devices mask devices log

-- What `rte_eal_remote_launch` starts, with the port that is passed on.
pub data Task : Type 0 where
  receive_from : ℕ → Task
  transmit_on : ℕ → Task
  print_statistics : Task

-- A launch has the core's id and the task.
pub record Launched : Type 0 where
  pub mask : ℕ
  pub log : List PortCall
  pub launches : List (ℕ × Task)

-- What `main` finds: whether the EAL starts, the options, whether a pool and a ring are created, the
-- number of ports, the devices, and the number of cores.
pub record Machine : Type 0 where
  pub eal : Bool
  pub options : List Argument
  pub pool : Bool
  pub ring : Bool
  pub nb_ports : ℕ
  pub devices : List ℕ
  pub nb_lcores : ℕ

pub data Outcome : Type 0 where
  exit_failure : Outcome
  running : Launched → Outcome

-- The part of `main` after `init_ports` returned.
unfoldable pub launch : ℕ → ℕ → List PortCall × Bool → Outcome
launch mask nb_lcores (log, false) = exit_failure
launch mask nb_lcores (log, true) =
    if ltb nb_lcores 3
    then exit_failure
    else running (record {
      mask = mask;
      log = log;
      launches = (1, receive_from 0) ∷ (2, transmit_on 0) ∷ (3, print_statistics) ∷ [];
    })

-- Each check that fails ends the program with the same status, by `rte_exit`.
unfoldable pub start_main : (List PortCall → PortCall → Bool) → Machine → Result Outcome
start_main fails m =
    let (mask, parsed) = parse_args 0 m.options in
    if m.eal && parsed && m.pool && m.ring
    then (init_ports fails mask m.nb_ports m.devices [] >>= λ ports.
        ok (launch mask m.nb_lcores ports))
    else ok exit_failure

-- The loop at the end of `main`.
unfoldable pub clean_up : ℕ → List ℕ → List PortCall → Result (List PortCall)
clean_up mask [] log = ok log
clean_up mask (port ∷ ports) log = is_enabled mask port >>= λ enabled.
    clean_up mask ports (if enabled then dev_close port ∷ dev_stop port ∷ log else log)
