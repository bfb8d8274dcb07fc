-- ===== src/Forwarder/Program/Closing.antt =====
-- The cleanup at the end of `main` of examples/minimal_dpdk.cpp as one sequence of calls.
use virtual_service_gateway.Common.{
  ℕ, ◌/◌, ◌%◌, ◌^◌, ◌<◌, ◌≡◌, refl, Bool, false, List, [], ◌∷◌, ◌++◌, inl, inr, Bool-cases, All,
  arith, leb, ◌==◌, if◌then◌else◌,
}
use virtual_service_gateway.Common.Faults.{ok}
use virtual_service_gateway.Dpdk.Calls.{Step, note, issue}
use virtual_service_gateway.Forwarder.Startup.{PortCall, dev_stop, dev_close, is_enabled, clean_up}

-- What is wanted at the end: each device whose bit is set is stopped, then closed, in the order of the devices.
abbrev pub closing_steps : ℕ → List ℕ → List (Step PortCall)
closing_steps mask [] = []
closing_steps mask (port ∷ ports) =
    (if mask / 2 ^ port % 2 == 1 then note (dev_stop port) ∷ note (dev_close port) ∷ [] else [])
    ++ closing_steps mask ports

module _ (fails : List PortCall → PortCall → Bool) where
  pub clean_up-issue :
      (mask : ℕ) (devices : List ℕ) (log : List PortCall)
      → All (λ p. p < 32) devices
      → clean_up mask devices log ≡ ok (issue fails (closing_steps mask devices) log).0
  unfolding clean_up is_enabled
  clean_up-issue mask [] log h = refl
  clean_up-issue mask (port ∷ ports) log h =
      let low : leb 32 port ≡ false = ground arith in
      elim (Bool-cases (mask / 2 ^ port % 2 == 1)) [
        | inl e ↦ rw (low, e) (clean_up-issue mask ports (dev_close port ∷ dev_stop port ∷ log) h.1)
        | inr e ↦ rw (low, e) (clean_up-issue mask ports log h.1)
      ]
