-- ===== src/Forwarder/BringUp.antt =====
-- Which ports the forwarder brings up, in which order, and which port its cores then use.
use virtual_service_gateway.Common.{
  ℕ, ◌/◌, ◌%◌, ◌^◌, ◌<◌, ◌≡◌, ◌≢◌, refl, sym, ◌∙◌, ap, subst, Bool, true, false, ◌&&◌, List, [],
  ◌∷◌, ◌++◌, arith, All, leb, ltb, ◌==◌, Bool-cases, inl, inr, if◌then◌else◌,
}
use virtual_service_gateway.Common.Faults.{ok, ◌>>=◌, >>=-eq-ok}
use virtual_service_gateway.Dpdk.Calls.{Step, note, need, and_then, attempt, issue, issue-append}
use virtual_service_gateway.Forwarder.Startup.{
  PortCall, dev_info_get, dev_configure, rx_queue_setup, default_txconf_get, tx_queue_setup,
  promiscuous_enable, dev_start, dev_stop, dev_close, is_enabled, configure_port, bring_up,
  init_devices, init_ports, receive_from, transmit_on, print_statistics, Launched, Machine, running,
  exit_failure, launch, start_main, parse_args,
}

-- What is wanted for a port: all of it, in this order, each call but the two queries to succeed.
abbrev pub port_steps : ℕ → List (Step PortCall)
port_steps port =
    note (dev_info_get port)
    ∷ need (dev_configure port)
    ∷ need (rx_queue_setup port)
    ∷ note (default_txconf_get port)
    ∷ need (tx_queue_setup port)
    ∷ need (promiscuous_enable port)
    ∷ need (dev_start port)
    ∷ []

-- Those of the devices whose bit is set in the mask.
abbrev pub device_steps : ℕ → List ℕ → List (Step PortCall)
device_steps mask [] = []
device_steps mask (port ∷ ports) =
    (if mask / 2 ^ port % 2 == 1 then port_steps port else []) ++ device_steps mask ports

-- The port of a call.
abbrev pub port_of : PortCall → ℕ
port_of (dev_info_get port) = port
port_of (dev_configure port) = port
port_of (rx_queue_setup port) = port
port_of (default_txconf_get port) = port
port_of (tx_queue_setup port) = port
port_of (promiscuous_enable port) = port
port_of (dev_start port) = port
port_of (dev_stop port) = port
port_of (dev_close port) = port

launch-running :
    (mask nb_lcores : ℕ) (ports : List PortCall × Bool) (l : Launched)
    → launch mask nb_lcores ports ≡ running l
    → (l.launches ≡ (1, receive_from 0) ∷ (2, transmit_on 0) ∷ (3, print_statistics) ∷ [])
      × (l.log ≡ ports.0)
unfolding launch
launch-running mask nb_lcores (log, false) l e = absurd (cc e)
launch-running mask nb_lcores (log, true) l e = elim (Bool-cases (ltb nb_lcores 3)) [
  | inl few ↦ let exits : exit_failure ≡ running l = rw few at e in absurd (cc exits)
  | inr enough ↦ let same = rw enough at e in (cc same, cc same)
]

module _ (fails : List PortCall → PortCall → Bool) where
  bring_up-issue :
      (port : ℕ) (log : List PortCall) → bring_up fails port log ≡ issue fails (port_steps port) log
  unfolding bring_up configure_port attempt
  bring_up-issue port log = ground arith

  -- The rest of the loop after one port.
  after_port :
      (mask : ℕ) (ports : List ℕ) (log : List PortCall) (r : List PortCall × Bool)
      → ((l : List PortCall)
          → init_devices fails mask ports l ≡ ok (issue fails (device_steps mask ports) l))
      → elim r.1 [ true ↦ init_devices fails mask ports r.0 | false ↦ ok r ]
        ≡ ok (and_then r (issue fails (device_steps mask ports)))
  after_port mask ports log (l, true) rest = rest l
  after_port mask ports log (l, false) rest = refl

  init_devices-issue :
      (mask : ℕ) (devices : List ℕ) (log : List PortCall)
      → All (λ port. port < 32) devices
      → init_devices fails mask devices log ≡ ok (issue fails (device_steps mask devices) log)
  unfolding init_devices is_enabled
  init_devices-issue mask [] log small = refl
  init_devices-issue mask (port ∷ ports) log small =
      let inside : leb 32 port ≡ false = ground (arith, small.0) in
      let rest = λ (l : List PortCall). init_devices-issue mask ports l small.1 in
      elim (Bool-cases (mask / 2 ^ port % 2 == 1)) [
        | inl on ↦
            rw (inside, on, ◌>>=◌)
              (after_port mask ports log (bring_up fails port log) rest
                ∙ ap ok (
                    ap (λ r. and_then r (issue fails (device_steps mask ports)))
                      (bring_up-issue port log)
                    ∙ sym (issue-append fails (port_steps port) (device_steps mask ports) log)))
        | inr off ↦ rw (inside, off, ◌>>=◌) (rest log)
      ]

  -- With at least one port and port numbers below 32, `init_ports` brings up the devices whose bit is
  -- set in the mask, in the order of the devices and each by the same calls, up to and with the first
  -- call that fails; it succeeds if none does.
  pub init_ports-issue :
      (mask nb_ports : ℕ) (devices : List ℕ) (log : List PortCall)
      → 0 < nb_ports
      → All (λ port. port < 32) devices
      → init_ports fails mask nb_ports devices log
        ≡ ok (issue fails (device_steps mask devices) log)
  unfolding init_ports
  init_ports-issue mask nb_ports devices log some_port small =
      let positive : (nb_ports == 0) ≡ false = ground arith in
      rw positive (init_devices-issue mask devices log small)

  -- No call on a port that is not the one given.
  abbrev Avoids : ℕ → List PortCall → Type 0
  Avoids port log = All (λ c. port_of c ≢ port) log

  bring_up-Avoids :
      (other port : ℕ) (log : List PortCall)
      → port ≢ other
      → Avoids other log
      → Avoids other (bring_up fails port log).0
  unfolding bring_up configure_port attempt
  bring_up-Avoids other port log apart h = ground arith

  set_bit :
      (mask port other : ℕ)
      → mask / 2 ^ other % 2 ≡ 0
      → port ≡ other
      → is_enabled mask port ≢ ok true
  unfolding is_enabled
  set_bit mask port other clear same = elim (Bool-cases (leb 32 port)) [
    | inl past ↦ rw past (λ e. cc e)
    | inr inside ↦
        let unset : (mask / 2 ^ port % 2 == 1) ≡ false = rw same (ground (arith, clear)) in
        rw (inside, unset) (λ e. cc e)
  ]

  after_avoiding :
      (mask other : ℕ) (ports : List ℕ) (r q : List PortCall × Bool)
      → mask / 2 ^ other % 2 ≡ 0
      → Avoids other q.0
      → ((l : List PortCall)
          → Avoids other l
          → init_devices fails mask ports l ≡ ok r
          → Avoids other r.0)
      → elim q.1 [ true ↦ init_devices fails mask ports q.0 | false ↦ ok q ] ≡ ok r
      → Avoids other r.0
  after_avoiding mask other ports r (l, true) clear h rest e = rest l h e
  after_avoiding mask other ports r (l, false) clear h rest e =
      let same : (l, false) ≡ r = cc e in subst (λ q. Avoids other q.0) same h

  init_devices-Avoids :
      (mask other : ℕ) (devices : List ℕ) (log : List PortCall) (r : List PortCall × Bool)
      → mask / 2 ^ other % 2 ≡ 0
      → Avoids other log
      → init_devices fails mask devices log ≡ ok r
      → Avoids other r.0
  unfolding init_devices is_enabled
  init_devices-Avoids mask other [] log r clear h e =
      let same : (log, true) ≡ r = cc e in subst (λ q. Avoids other q.0) same h
  init_devices-Avoids mask other (port ∷ ports) log r clear h e =
      let (on, bit, after) = >>=-eq-ok (is_enabled mask port) _ r e in
      elim (Bool-cases on) [
        | inl set ↦
            let apart : port ≢ other =
              λ same. set_bit mask port other clear same (bit ∙ ap ok set) in
            after_avoiding mask other ports r (bring_up fails port log) clear
              (bring_up-Avoids other port log apart h)
              (λ l. init_devices-Avoids mask other ports l r clear) (rw set at after)
        | inr unset ↦ init_devices-Avoids mask other ports log r clear h (rw unset at after)
      ]

  init_ports-Avoids :
      (mask nb_ports : ℕ) (devices : List ℕ) (r : List PortCall × Bool)
      → mask % 2 ≡ 0
      → init_ports fails mask nb_ports devices [] ≡ ok r
      → Avoids 0 r.0
  unfolding init_ports
  init_ports-Avoids mask nb_ports devices r even e = elim (Bool-cases (nb_ports == 0)) [
    | inl none_found ↦
        let same : ([], false) ≡ r = cc (rw none_found at e) in subst (λ q. Avoids 0 q.0) same tt
    | inr found ↦ init_devices-Avoids mask 0 devices [] r (omega (arith, even)) tt (rw found at e)
  ]

  -- Where the mask leaves port 0 out and `main` launches its cores, they receive from port 0 and transmit
  -- on it all the same, though no call has been made on that port: it is not configured or started.
  pub main_port_zero :
      (m : Machine) (l : Launched)
      → (parse_args 0 m.options).0 % 2 ≡ 0
      → start_main fails m ≡ ok (running l)
      → (l.launches ≡ (1, receive_from 0) ∷ (2, transmit_on 0) ∷ (3, print_statistics) ∷ [])
        × All (λ c. port_of c ≢ 0) l.log
  unfolding start_main launch init_ports
  main_port_zero m l even e =
      let (mask, parsed) = parse_args 0 m.options in
      elim (Bool-cases (m.eal && parsed && m.pool && m.ring)) [
        | inl passed ↦
            let (ports, up, after) =
              >>=-eq-ok (init_ports fails mask m.nb_ports m.devices []) _ (running l)
                (rw passed at e) in
            let shut = launch-running mask m.nb_lcores ports l (cc after) in
            (shut.0, rw shut.1 (init_ports-Avoids mask m.nb_ports m.devices ports even up))
        | inr failed ↦
            let exits : ok exit_failure ≡ ok (running l) = rw failed at e in absurd (cc exits)
      ]
