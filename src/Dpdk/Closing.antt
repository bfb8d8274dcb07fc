-- ===== src/Dpdk/Closing.antt =====
-- Ports that `start_ports` starts are stopped and closed by `stop_ports`.
use virtual_service_gateway.Common.{
  ℕ, ◌≡◌, ◌≢◌, refl, Bool, true, false, List, [], ◌∷◌, All, arith, ◌==◌, Bool-cases, inl, inr,
  if◌then◌else◌,
}
use virtual_service_gateway.Dpdk.Calls.{attempt}
use virtual_service_gateway.Dpdk.PmdDriver.{
  PortConfig, EthCall, Log, eal_init, info_get, configure, rx_queue_setup, tx_queue_setup,
  dev_start, promiscuous_enable, dev_stop, dev_close, start_ports, stop_ports,
}

-- Whether the newest call that starts or closes a port is a start; a failed start counts as well.
abbrev pub is_running : ℕ → Log → Bool
is_running port [] = false
is_running port (eal_init ∷ log) = is_running port log
is_running port (info_get p ∷ log) = is_running port log
is_running port (configure p rxq txq mtu jumbo ∷ log) = is_running port log
is_running port (rx_queue_setup p q ∷ log) = is_running port log
is_running port (tx_queue_setup p q ∷ log) = is_running port log
is_running port (dev_start p ∷ log) = if p == port then true else is_running port log
is_running port (promiscuous_enable p ∷ log) = is_running port log
is_running port (dev_stop p ∷ log) = is_running port log
is_running port (dev_close p ∷ log) = if p == port then false else is_running port log

-- The port is that of one of the configurations, or is not running.
abbrev Closable : ℕ → List PortConfig → Log → Type 0
Closable port cfgs log = All (λ cfg. cfg.port_id ≢ port) cfgs → is_running port log ≡ false

stopped_stays :
    (port : ℕ) (cfgs : List PortConfig) (log : Log)
    → is_running port log ≡ false
    → is_running port (stop_ports cfgs log) ≡ false
unfolding stop_ports
stopped_stays port [] log h = h
stopped_stays port (cfg ∷ cfgs) log h =
    stopped_stays port cfgs (dev_close cfg.port_id ∷ dev_stop cfg.port_id ∷ log)
      (elim (Bool-cases (cfg.port_id == port)) [ inl e ↦ rw e refl | inr e ↦ rw e h ])

stop_ports-closes :
    (port : ℕ) (cfgs : List PortConfig) (log : Log)
    → Closable port cfgs log
    → is_running port (stop_ports cfgs log) ≡ false
unfolding stop_ports
stop_ports-closes port [] log h = h tt
stop_ports-closes port (cfg ∷ cfgs) log h =
    let next = dev_close cfg.port_id ∷ dev_stop cfg.port_id ∷ log in
    elim (Bool-cases (cfg.port_id == port)) [
      | inl e ↦ stopped_stays port cfgs next (rw e refl)
      | inr e ↦
          let other : cfg.port_id ≢ port = ground (arith, e) in
          stop_ports-closes port cfgs next (λ rest. rw e (h (other, rest)))
    ]

module _ (fails : Log → EthCall → Bool) where
  -- Ports without a configuration are not started.
  start_ports-others :
      (port : ℕ) (cfgs : List PortConfig) (log : Log)
      → is_running port log ≡ false
      → All (λ cfg. cfg.port_id ≢ port) cfgs
      → is_running port (start_ports fails cfgs log).0 ≡ false
  unfolding start_ports attempt
  start_ports-others port [] log h apart = h
  start_ports-others port (cfg ∷ cfgs) log h apart =
      let off : (cfg.port_id == port) ≡ false = ground (arith, apart.0) in
      let started : is_running port (dev_start cfg.port_id ∷ log) ≡ false = rw off h in
      let rest =
        λ (l : Log) (k : is_running port l ≡ false). start_ports-others port cfgs l k apart.1 in
      elim (Bool-cases (fails log (dev_start cfg.port_id))) [
        | inl failed ↦ rw failed started
        | inr up ↦
            rw up
              (elim cfg.promiscuous
                as (λ b.
                  is_running port
                    (start_ports fails cfgs (
                      if b
                      then promiscuous_enable cfg.port_id ∷ dev_start cfg.port_id ∷ log
                      else dev_start cfg.port_id ∷ log)).0
                  ≡ false) [
                    | true ↦
                        rest (promiscuous_enable cfg.port_id ∷ dev_start cfg.port_id ∷ log) started
                    | false ↦ rest (dev_start cfg.port_id ∷ log) started
                  ])
      ]

  -- From a log in which no port is running, `stop_ports` after `start_ports` leaves no port running, also where
  -- `start_ports` ended at a failure or several configurations name the same port.
  pub stop_ports-start_ports :
      (cfgs : List PortConfig) (log : Log)
      → ((port : ℕ) → is_running port log ≡ false)
      → (port : ℕ) → is_running port (stop_ports cfgs (start_ports fails cfgs log).0) ≡ false
  stop_ports-start_ports cfgs log idle port =
      stop_ports-closes port cfgs (start_ports fails cfgs log).0
        (start_ports-others port cfgs log (idle port))
