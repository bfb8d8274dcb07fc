-- ===== src/Gateway.antt =====
-- The start of `main` in src/main.cpp: the order of initialisation, its exits, and what it builds. The main
-- loop is input and output.
pub mod MainLoop
mod Examples
use virtual_service_gateway.Common.{
  ℕ, ◌≡◌, ◌⊎◌, refl, Bool, true, false, Option, none, some, [], ◌∷◌, Bool-cases, inl, inr,
  if◌then◌else◌, arith,
}
use virtual_service_gateway.Common.Faults.{Result, ok, ◌>>=◌}
use virtual_service_gateway.Metering.Meter.{UbbMeter, new_meter}
use virtual_service_gateway.Metering.Invariant.{IsValid as IsMeter, new_meter-IsValid}
use virtual_service_gateway.Analytics.Collector.{QoeCollector, new_collector}
use virtual_service_gateway.Analytics.Invariant.{IsValid as IsCollector, new_collector-IsValid}
use virtual_service_gateway.Dpi.Signature.{DpiGuardrails}
use virtual_service_gateway.Dpi.Classifier.{DpiClassifier, new_classifier}
use virtual_service_gateway.Dpi.Invariant.{
  IsValid as IsClassifier, new_classifier-IsValid, CanSample,
}
use virtual_service_gateway.Dpdk.Mempool.{
  MempoolManager, new_manager, init_mempool, get_mempool, resize, store,
}
use virtual_service_gateway.Dpdk.PmdDriver.{EthCall, Log, PmdDriver, new_driver, init_eal, eal_init}

-- The local objects of `main`.
pub record Gateway (P : Type 0) : Type 0 where
  pub pmd : PmdDriver
  pub mempool_mgr : MempoolManager P
  pub meter : UbbMeter
  pub qoe : QoeCollector
  pub dpi_classifier : DpiClassifier

module _ {P : Type 0} where
  -- The objects made after the pool; `max_payloads` is not initialised.
  unfoldable pub build : ℕ → (ℕ → ℕ) → PmdDriver → MempoolManager P → Gateway P
  build max_payloads clock pmd pools = record {
    pmd = pmd;
    mempool_mgr = pools;
    meter = new_meter 1000000;
    qoe = new_collector 100000 clock;
    dpi_classifier = new_classifier (record {
      timeout_us = 100;
      max_payloads = max_payloads;
      sample_rate = 10;
      degradation_enabled = true;
    });
  }

  -- From the creation of the driver to the main loop: none where `main` returns 1.
  unfoldable pub start_gateway :
      (Log → EthCall → Bool) → Option P → ℕ → (ℕ → ℕ) → Result (Option (Gateway P))
  start_gateway fails created max_payloads clock =
      let (pmd, (log, eal)) = init_eal fails new_driver [] in
      if eal
      then (init_mempool new_manager 0 256 created >>= λ r.
          ok (if r.1 then some (build max_payloads clock pmd r.0) else none))
      else ok none

  -- A gateway that is ready for packets.
  pub record Ready (mp : P) (g : Gateway P) : Type 0 where
    pub eal : g.pmd.eal_initialized ≡ true
    pub pool : get_mempool g.mempool_mgr 0 ≡ some mp
    pub meter : IsMeter g.meter
    pub collector : IsCollector g.qoe
    pub classifier : IsClassifier g.dpi_classifier
    pub samples : CanSample g.dpi_classifier.guardrails

  -- What start-up comes to, from whether the EAL fails and which pool is created.
  abbrev pub Outcome : Bool → Option P → Option (Gateway P) → Type 0
  Outcome eal_fails created none = (eal_fails ≡ true) ⊎ (created ≡ none)
  Outcome eal_fails created (some g) =
      (mp : P) × (eal_fails ≡ false) × (created ≡ some mp) × Ready mp g

  build-Ready :
      (max_payloads : ℕ) (clock : ℕ → ℕ) (pmd : PmdDriver) (pools : MempoolManager P) (mp : P)
      → pmd.eal_initialized ≡ true
      → get_mempool pools 0 ≡ some mp
      → Ready mp (build max_payloads clock pmd pools)
  unfolding build new_classifier
  build-Ready max_payloads clock pmd pools mp e h = record {
    eal = e;
    pool = h;
    meter = new_meter-IsValid 1000000;
    collector = new_collector-IsValid 100000 clock;
    classifier = new_classifier-IsValid _;
    samples = λ degrades zero_rate. absurd (omega (arith, zero_rate));
  }

  -- Start-up ends without a fault: `main` returns 1 only if the EAL does not initialise or no pool is
  -- created, and else every part starts in a valid state, with the pool of node 0.
  pub start_gateway_lem :
      (fails : Log → EthCall → Bool) (created : Option P) (max_payloads : ℕ) (clock : ℕ → ℕ)
      → (r : Option (Gateway P)) × (start_gateway fails created max_payloads clock ≡ ok r)
        × Outcome (fails [] eal_init) created r
  unfolding start_gateway init_eal new_driver init_mempool new_manager resize store get_mempool
  start_gateway_lem fails created max_payloads clock = elim (Bool-cases (fails [] eal_init)) [
    | inl e ↦ (none, rw (e, start_gateway) refl, inl e)
    | inr e ↦
        elim created
          as (λ o.
            (r : Option (Gateway P)) × (start_gateway fails o max_payloads clock ≡ ok r)
            × Outcome (fails [] eal_init) o r) [
              | none ↦ (none, rw (e, start_gateway) refl, inr refl)
              | some mp ↦
                  let pmd : PmdDriver = record { port_configs = []; eal_initialized = true } in
                  let pools : MempoolManager P = record {
                    mempools = some mp ∷ [];
                    cache_size = 256;
                  } in
                  (
                    some (build max_payloads clock pmd pools),
                    rw (e, start_gateway) refl,
                    (mp, e, refl, build-Ready max_payloads clock pmd pools mp refl refl),
                  )
            ]
  ]
