-- ===== src/Gateway/MainLoop.antt =====
-- The main loop of `main` in src/main.cpp: what it reports until the signal handler clears `running`.
use virtual_service_gateway.Common.{
  leb, ◌<◌, ◌^◌, ℕ, zero, suc, ◌+◌, ◌/◌, ◌%◌, ◌≡◌, refl, sym, ap, ◌∙◌, Bool, true, false, List, [],
  ◌∷◌, ◌++◌, replicate, Option, none, some, ◌==◌, if◌then◌else◌, arith, Bool-cases, inl, inr, ◌-◌,
}
use virtual_service_gateway.Common.Faults.{Result, ok, fault, signed_overflow, ◌>>=◌, >>=-eq-ok}
use virtual_service_gateway.Metering.Meter.{UbbMeter, new_meter, get_total_usage, total_from}
use virtual_service_gateway.Dpdk.PmdDriver.{EthCall, Log, init_eal, new_driver}
use virtual_service_gateway.Dpdk.Mempool.{init_mempool, new_manager}
use virtual_service_gateway.Gateway.{Gateway, start_gateway, build}

-- The signals that come during the rounds: `signal_handler` clears the flag, whatever the signal.
unfoldable pub signal_handler : Bool → ℕ → Bool
signal_handler running sig = false

-- The flag after the signals of one round.
unfoldable pub handle_signals : Bool → List ℕ → Bool
handle_signals running [] = running
handle_signals running (sig ∷ sigs) = handle_signals (signal_handler running sig) sigs

-- A round for each list of signals that come while it sleeps; `counter` is the static variable, an `int`
-- that must not overflow. The reports are the megabytes printed.
unfoldable pub main_loop : UbbMeter → Bool → ℕ → List (List ℕ) → Result (List ℕ × Bool)
main_loop meter running counter [] = ok ([], running)
main_loop meter running counter (sigs ∷ rounds) =
    let rest = main_loop meter (handle_signals running sigs) (counter + 1) rounds in
    if running
    then (if leb (2 ^ 31) (counter + 1)
        then fault signed_overflow
        else rest >>= λ r.
            ok
              (if (counter + 1) % 10 == 0 then (get_total_usage meter / 1048576 ∷ r.0, r.1) else r))
    else ok ([], false)

handle_signals-false : (sigs : List ℕ) → handle_signals false sigs ≡ false
unfolding handle_signals signal_handler
handle_signals-false [] = refl
handle_signals-false (sig ∷ sigs) = handle_signals-false sigs

stopped :
    (meter : UbbMeter) (counter : ℕ) (rounds : List (List ℕ))
    → main_loop meter false counter rounds ≡ ok ([], false)
unfolding main_loop
stopped meter counter [] = refl
stopped meter counter (sigs ∷ rounds) = refl

-- Every tenth round from a counter on gives a report.
reports_from :
    (meter : UbbMeter) (n counter sig : ℕ) (sigs : List ℕ) (rounds : List (List ℕ))
    → counter + n + 1 < 2 ^ 31
    → main_loop meter true counter (replicate n [] ++ (sig ∷ sigs) ∷ rounds)
      ≡ ok (
        replicate ((counter + n + 1) / 10 - counter / 10) (get_total_usage meter / 1048576),
        false,
      )
unfolding main_loop handle_signals signal_handler
reports_from meter zero counter sig sigs rounds small =
    let inside : leb (2 ^ 31) (counter + 1) ≡ false = ground (arith, small) in
    rw (inside, handle_signals-false sigs, stopped meter (counter + 1) rounds, ◌>>=◌)
      (elim (Bool-cases ((counter + 1) % 10 == 0)) [
        | inl tenth ↦
            let one : (counter + 0 + 1) / 10 - counter / 10 ≡ 1 = grind (arith, tenth) in
            rw (tenth, one) refl
        | inr between ↦
            let none_due : (counter + 0 + 1) / 10 - counter / 10 ≡ 0 = grind (arith, between) in
            rw (between, none_due) refl
      ])
reports_from meter (suc n) counter sig sigs rounds small =
    let inside : leb (2 ^ 31) (counter + 1) ≡ false = ground (arith, small) in
    rw (inside, reports_from meter n (counter + 1) sig sigs rounds (omega (arith, small)), ◌>>=◌)
      (elim (Bool-cases ((counter + 1) % 10 == 0)) [
        | inl tenth ↦
            let more : (counter + suc n + 1) / 10 - counter / 10
                ≡ suc ((counter + 1 + n + 1) / 10 - (counter + 1) / 10) =
              grind (arith, tenth) in
            rw (tenth, more) refl
        | inr between ↦
            let same : (counter + suc n + 1) / 10 - counter / 10
                ≡ (counter + 1 + n + 1) / 10 - (counter + 1) / 10 =
              grind (arith, between) in
            rw (between, same) refl
      ])

module _ {P : Type 0} where
  start_gateway-meter :
      (fails : Log → EthCall → Bool) (created : Option P) (max_payloads : ℕ) (clock : ℕ → ℕ)
      (g : Gateway P)
      → start_gateway fails created max_payloads clock ≡ ok (some g)
      → g.meter ≡ new_meter 1000000
  unfolding start_gateway build
  start_gateway-meter fails created max_payloads clock g e =
      let (pmd, (log, eal)) = init_eal fails new_driver [] in
      elim (Bool-cases eal) [
        | inl up ↦
            let (r, made, last) =
              >>=-eq-ok (init_mempool new_manager 0 256 created) _ (some g) (rw up at e) in
            elim (Bool-cases r.1) [
              | inl pooled ↦
                  let same : some (build max_payloads clock pmd r.0) ≡ some g =
                    cc (rw pooled at last) in
                  let same' : build max_payloads clock pmd r.0 ≡ g = cc same in
                  ap (λ g. g.meter) (sym same')
              | inr unpooled ↦
                  let exits : none ≡ some g = cc (rw unpooled at last) in absurd (cc exits)
            ]
        | inr down ↦ let exits : ok none ≡ ok (some g) = rw down at e in absurd (cc exits)
      ]

  -- After a successful start, with no signal for `n` rounds of the main loop, fewer than 2^31 - 1, and one in the next, the loop
  -- ends at that signal, and it has reported a usage of 0 MB every tenth round: nothing that `main` runs
  -- meters a packet.
  pub main_loop_lem :
      (fails : Log → EthCall → Bool) (created : Option P) (max_payloads : ℕ) (clock : ℕ → ℕ)
      (g : Gateway P) (n sig : ℕ) (sigs : List ℕ) (rounds : List (List ℕ))
      → start_gateway fails created max_payloads clock ≡ ok (some g)
      → n + 1 < 2 ^ 31
      → main_loop g.meter true 0 (replicate n [] ++ (sig ∷ sigs) ∷ rounds)
        ≡ ok (replicate ((n + 1) / 10) 0, false)
  unfolding new_meter get_total_usage total_from
  main_loop_lem fails created max_payloads clock g n sig sigs rounds e small =
      rw (start_gateway-meter fails created max_payloads clock g e) (
        reports_from (new_meter 1000000) n 0 sig sigs rounds (omega (arith, small))
        ∙ ap (λ k. ok (replicate k 0, false)) (omega arith))
