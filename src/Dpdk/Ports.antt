-- ===== src/Dpdk/Ports.antt =====
-- The calls that `init_ports` makes, as one sequence, and what `get_port_config` finds afterwards.
use virtual_service_gateway.Common.{
  ℕ, zero, suc, ◌+◌, ◌<◌, ◌≡◌, ◌≢◌, refl, ◌∙◌, sym, ap, Bool, true, false, List, [], ◌∷◌, ◌++◌,
  some, arith, leb, ◌==◌, ==_false, get_elem?, if◌then◌else◌, Bool-cases, inl, inr,
}
use virtual_service_gateway.Dpdk.Calls.{
  Step, note, need, refuse, and_then, and_then-ap, attempt, issue, issue-append, attempt-issue,
}
use virtual_service_gateway.Dpdk.PmdDriver.{
  PortConfig, EthCall, Log, PmdDriver, get_port_config, find_config, setup_rx, setup_tx, setup_port,
  setup_ports, init_ports, info_get, configure, rx_queue_setup, tx_queue_setup,
}

-- `of (q), …, of (q + n - 1)`.
abbrev queues : (ℕ → EthCall) → ℕ → ℕ → List (Step EthCall)
queues of q zero = []
queues of q (suc n) = need (of q) ∷ queues of (q + 1) n

-- What is wanted for a port: information, configuration, the receive queues, the transmit queues.
abbrev pub port_steps : ℕ → PortConfig → List (Step EthCall)
port_steps nb_ports cfg =
    if leb nb_ports cfg.port_id
    then refuse ∷ []
    else note (info_get cfg.port_id)
      ∷ need (configure cfg.port_id cfg.rxq_count cfg.txq_count cfg.mtu cfg.jumbo_enabled)
      ∷ (queues (rx_queue_setup cfg.port_id) 0 cfg.rxq_count
          ++ queues (tx_queue_setup cfg.port_id) 0 cfg.txq_count)

abbrev pub all_steps : ℕ → List PortConfig → List (Step EthCall)
all_steps nb_ports [] = []
all_steps nb_ports (cfg ∷ cfgs) = port_steps nb_ports cfg ++ all_steps nb_ports cfgs

module _ (fails : Log → EthCall → Bool) where
  setup_rx-issue :
      (port q n : ℕ) (log : Log)
      → setup_rx fails port q n log ≡ issue fails (queues (rx_queue_setup port) q n) log
  unfolding setup_rx
  setup_rx-issue port q zero log = refl
  setup_rx-issue port q (suc n) log =
      and_then-ap (attempt fails (rx_queue_setup port q) log) _ _ (setup_rx-issue port (q + 1) n)
      ∙ attempt-issue fails (rx_queue_setup port q) (queues (rx_queue_setup port) (q + 1) n) log

  setup_tx-issue :
      (port q n : ℕ) (log : Log)
      → setup_tx fails port q n log ≡ issue fails (queues (tx_queue_setup port) q n) log
  unfolding setup_tx
  setup_tx-issue port q zero log = refl
  setup_tx-issue port q (suc n) log =
      and_then-ap (attempt fails (tx_queue_setup port q) log) _ _ (setup_tx-issue port (q + 1) n)
      ∙ attempt-issue fails (tx_queue_setup port q) (queues (tx_queue_setup port) (q + 1) n) log

  queues-issue :
      (cfg : PortConfig) (log : Log)
      → and_then
          (setup_rx fails cfg.port_id 0 cfg.rxq_count log)
          (setup_tx fails cfg.port_id 0 cfg.txq_count)
        ≡ issue fails
            (queues (rx_queue_setup cfg.port_id) 0 cfg.rxq_count
              ++ queues (tx_queue_setup cfg.port_id) 0 cfg.txq_count)
            log
  queues-issue cfg log =
      let rx = queues (rx_queue_setup cfg.port_id) 0 cfg.rxq_count in
      let tx = queues (tx_queue_setup cfg.port_id) 0 cfg.txq_count in
      ap (λ r. and_then r (setup_tx fails cfg.port_id 0 cfg.txq_count))
        (setup_rx-issue cfg.port_id 0 cfg.rxq_count log)
      ∙ and_then-ap (issue fails rx log) _ _ (setup_tx-issue cfg.port_id 0 cfg.txq_count)
      ∙ sym (issue-append fails rx tx log)

  setup_port-issue :
      (nb_ports : ℕ) (cfg : PortConfig) (log : Log)
      → setup_port fails nb_ports cfg log ≡ issue fails (port_steps nb_ports cfg) log
  unfolding setup_port
  setup_port-issue nb_ports cfg log = elim (Bool-cases (leb nb_ports cfg.port_id)) [
    | inl e ↦ rw (e, port_steps) refl
    | inr e ↦
        rw (e, port_steps)
          (and_then-ap
              (attempt fails
                (configure cfg.port_id cfg.rxq_count cfg.txq_count cfg.mtu cfg.jumbo_enabled)
                (info_get cfg.port_id ∷ log))
              _ _ (queues-issue cfg)
            ∙ attempt-issue fails
                (configure cfg.port_id cfg.rxq_count cfg.txq_count cfg.mtu cfg.jumbo_enabled)
                (queues (rx_queue_setup cfg.port_id) 0 cfg.rxq_count
                  ++ queues (tx_queue_setup cfg.port_id) 0 cfg.txq_count)
                (info_get cfg.port_id ∷ log))
  ]

  setup_ports-issue :
      (nb_ports : ℕ) (cfgs : List PortConfig) (log : Log)
      → setup_ports fails nb_ports cfgs log ≡ issue fails (all_steps nb_ports cfgs) log
  unfolding setup_ports
  setup_ports-issue nb_ports [] log = refl
  setup_ports-issue nb_ports (cfg ∷ cfgs) log =
      ap (λ r. and_then r (setup_ports fails nb_ports cfgs)) (setup_port-issue nb_ports cfg log)
      ∙ and_then-ap (issue fails (port_steps nb_ports cfg) log) _ _
          (setup_ports-issue nb_ports cfgs)
      ∙ sym (issue-append fails (port_steps nb_ports cfg) (all_steps nb_ports cfgs) log)

  -- With the EAL initialised and at least one port available, `init_ports` makes the calls of all
  -- ports in order, up to and with the first that fails or up to an unavailable port, and returns
  -- `true` just when it made them all. It keeps the configurations in either case.
  pub init_ports_lem :
      (d : PmdDriver) (nb_ports : ℕ) (cfgs : List PortConfig) (log : Log)
      → d.eal_initialized ≡ true
      → 0 < nb_ports
      → init_ports fails d nb_ports cfgs log
        ≡ (record d { port_configs = cfgs }, issue fails (all_steps nb_ports cfgs) log)
  unfolding init_ports
  init_ports_lem d nb_ports cfgs log eal some_port =
      let positive : (nb_ports == 0) ≡ false = ground arith in
      rw (eal, positive)
        (ap (λ r. (record { port_configs = cfgs; eal_initialized = true }, r))
          (setup_ports-issue nb_ports cfgs log))

  get_port_config-find :
      (cfgs : List PortConfig) (i : ℕ) (cfg : PortConfig)
      → get_elem? cfgs i ≡ some cfg
      → ((j : ℕ) (c : PortConfig) → j < i → get_elem? cfgs j ≡ some c → c.port_id ≢ cfg.port_id)
      → find_config cfgs cfg.port_id ≡ some cfg
  unfolding find_config
  get_port_config-find [] i cfg h first = absurd (cc h)
  get_port_config-find (c ∷ cfgs) zero cfg h first =
      let same : c ≡ cfg = cc h in
      let test : (c.port_id == cfg.port_id) ≡ true = ground (arith, same) in rw test (ap some same)
  get_port_config-find (c ∷ cfgs) (suc i) cfg h first =
      rw (==_false c.port_id cfg.port_id (first 0 c (omega arith) refl))
        (get_port_config-find cfgs i cfg h (λ j c' lt e. first (suc j) c' (omega (arith, lt)) e))

  -- After `init_ports` on an initialised EAL, successful or not, `get_port_config` finds each
  -- configuration that was given, where no earlier one has its port.
  pub get_port_config-init_ports :
      (d : PmdDriver) (nb_ports : ℕ) (cfgs : List PortConfig) (log : Log) (i : ℕ) (cfg : PortConfig)
      → d.eal_initialized ≡ true
      → get_elem? cfgs i ≡ some cfg
      → ((j : ℕ) (c : PortConfig) → j < i → get_elem? cfgs j ≡ some c → c.port_id ≢ cfg.port_id)
      → get_port_config (init_ports fails d nb_ports cfgs log).0 cfg.port_id ≡ some cfg
  unfolding init_ports get_port_config
  get_port_config-init_ports d nb_ports cfgs log i cfg eal h first =
      rw eal (get_port_config-find cfgs i cfg h first)
