-- ===== src/Forwarder/Program/Ending.antt =====
-- How the forwarder ends after a signal: its third core does not disturb the others, all leave, and `main` prints
-- the totals and stops and closes the enabled ports.
use virtual_service_gateway.Common.{
  ℕ, ◌+◌, ◌-◌, ◌%◌, ◌≤◌, ◌<◌, ◌≡◌, ◌∙◌, refl, ap, subst, Bool, true, List, [], ◌∷◌, ◌++◌, some, All,
  length, arith, u64_mod,
}
use virtual_service_gateway.Common.Faults.{ok}
use virtual_service_gateway.Ethernet.{Packet}
use virtual_service_gateway.Dpdk.RingQueue.{RteRing}
use virtual_service_gateway.Dpdk.Calls.{issue}
use virtual_service_gateway.Forwarder.Cores.{
  System, rx_exited, tx_exited, Turn, signal, step, run, new_system,
}
use virtual_service_gateway.Forwarder.Quit.{
  rx_left, tx_left, rx_turns, tx_turns, quit_terminates, step-quit,
}
use virtual_service_gateway.Forwarder.Counters.{run_counters}
use virtual_service_gateway.Forwarder.Startup.{PortCall, Machine, Launched, running, start_main}
use virtual_service_gateway.Forwarder.Program.Closing.{closing_steps, clean_up-issue}
use virtual_service_gateway.Forwarder.Program.Setup.{init_mempool, init_ring}
use virtual_service_gateway.Forwarder.Program.Statistics.{
  PoolCounts, Line, rx_packets_line, tx_packets_line, ring_line, available_line, in_use_line,
  StatsCore, testing, sleeping, printing_rx, printing_tx, printing_ring, printing_available,
  printing_in_use, stats_exited, Watched, WatchedTurn, core_turn, stats_turn, print_stats,
  stats_move, watch_step, watch, new_watched, cores_done,
}
use virtual_service_gateway.Forwarder.Program.Main.{
  DpdkAnswers, finished, is_some, wait_and_finish, after_start, forwarder_main,
}

-- The turns that the statistics core needs at most, once the flag is set, to leave its loop.
abbrev pub stats_left : StatsCore → ℕ
stats_left testing = 1
stats_left sleeping = 7
stats_left printing_rx = 6
stats_left printing_tx = 5
stats_left printing_ring = 4
stats_left printing_available = 3
stats_left printing_in_use = 2
stats_left stats_exited = 0

abbrev pub core_turns : List WatchedTurn → List Turn
core_turns [] = []
core_turns (core_turn t ∷ ts) = t ∷ core_turns ts
core_turns (stats_turn pool ∷ ts) = core_turns ts

abbrev pub stats_turns : List WatchedTurn → ℕ
stats_turns [] = 0
stats_turns (core_turn t ∷ ts) = stats_turns ts
stats_turns (stats_turn pool ∷ ts) = 1 + stats_turns ts

module _ {R : Type 0} (rte : RteRing R Packet) (count : R → ℕ) where
  -- The statistics core only reads: the other cores do what they do without it.
  pub watch-system :
      (w : Watched R) (ts : List WatchedTurn)
      → (watch rte count w ts).system ≡ run rte w.system (core_turns ts)
  unfolding watch watch_step run
  watch-system w [] = refl
  watch-system w (core_turn t ∷ ts) = watch-system (record w { system = step rte w.system t }) ts
  watch-system w (stats_turn pool ∷ ts) = watch-system (watch_step rte count w (stats_turn pool)) ts

  watch-append :
      (w : Watched R) (ts us : List WatchedTurn)
      → watch rte count w (ts ++ us) ≡ watch rte count (watch rte count w ts) us
  unfolding watch
  watch-append w [] us = refl
  watch-append w (t ∷ ts) us = watch-append (watch_step rte count w t) ts us

  stats_move-left :
      (s : System R) (pool : PoolCounts) (stats : StatsCore)
      → s.force_quit ≡ true
      → stats_left (stats_move rte count s pool stats).0 ≤ stats_left stats - 1
  unfolding stats_move
  stats_move-left s pool stats quit = ground arith

  watch-left :
      (w : Watched R) (ts : List WatchedTurn)
      → w.system.force_quit ≡ true
      → stats_left (watch rte count w ts).stats ≤ stats_left w.stats - stats_turns ts
  unfolding watch watch_step
  watch-left w [] quit = omega arith
  watch-left w (core_turn t ∷ ts) quit =
      watch-left (record w { system = step rte w.system t }) ts (step-quit rte w.system t quit)
  watch-left w (stats_turn pool ∷ ts) quit = omega (
    arith,
    watch-left (watch_step rte count w (stats_turn pool)) ts quit,
    stats_move-left w.system pool w.stats quit,
  )

  stats_left-zero : (stats : StatsCore) → stats_left stats ≤ 0 → stats ≡ stats_exited
  stats_left-zero stats_exited h = refl
  stats_left-zero stats h = ground arith

  -- A core that has its turns after the signal.
  pub record HasTurns (w : Watched R) (us : List WatchedTurn) : Type 0 where
    pub rx_enough : rx_left w.system.rx ≤ rx_turns (core_turns us)
    pub tx_enough : tx_left w.system.tx ≤ tx_turns (core_turns us)
    pub stats_enough : stats_left w.stats ≤ stats_turns us

  watch-cores_done :
      (w : Watched R) (us : List WatchedTurn)
      → HasTurns w us
      → let w' = watch rte count w (core_turn signal ∷ us) in
        (w'.system.rx ≡ rx_exited) × (w'.system.tx ≡ tx_exited) × (w'.stats ≡ stats_exited)
  unfolding watch watch_step step
  watch-cores_done w us enough =
      let quit : Watched R = record w { system = record (w.system) { force_quit = true } } in
      let same = watch-system quit us in
      let (rx_gone, tx_gone) =
        quit_terminates rte quit.system (core_turns us) refl enough.rx_enough enough.tx_enough in
      (
        ap (λ s. s.rx) same ∙ rx_gone,
        ap (λ s. s.tx) same ∙ tx_gone,
        stats_left-zero (watch rte count quit us).stats
            (omega (arith, watch-left quit us refl, enough.stats_enough)),
      )

  print_stats-totals :
      (pool : PoolCounts) (ring : R) (turns : List WatchedTurn)
      → ((r : R) → count r ≡ length (rte.contents r))
      → let w = watch rte count (new_watched ring) turns in
        let s = run rte (new_system ring) (core_turns turns) in
        w.system.tx ≡ tx_exited
        → print_stats rte count w.system pool
          ≡ rx_packets_line (length s.arrived % u64_mod)
            ∷ tx_packets_line (length s.sent % u64_mod)
            ∷ ring_line (length (rte.contents s.ring))
            ∷ available_line pool.available
            ∷ in_use_line pool.in_use
            ∷ []
  unfolding print_stats new_watched
  print_stats-totals pool ring turns counts gone =
      let s = run rte (new_system ring) (core_turns turns) in
      let same = watch-system (new_watched ring) turns in
      let (arrived, sent) =
        run_counters rte ring (core_turns turns) (subst (λ sys. sys.tx ≡ tx_exited) same gone) in
      ap (λ sys. print_stats rte count sys pool) same ∙ rw (arrived, sent, counts s.ring) refl

-- Where the ring and the ports are there, `main` has launched the cores, and after any turns a signal comes and each
-- core then gets the turns that it needs: `main` returns 0. Its last lines are the number of packets that have
-- arrived and of those that were sent, modulo 2^64, and of those left in the ring; and it has stopped and closed each
-- device whose bit is set in the mask. `count` is the number of packets in a ring, and the
-- devices have numbers below 32.
pub main_ends :
    {P R : Type 0} (rte : RteRing R Packet) (count : R → ℕ) (dpdk : DpdkAnswers P R)
    (fails : List PortCall → PortCall → Bool) (m : Machine) (l : Launched) (ring : R)
    (ts us : List WatchedTurn) (pool : PoolCounts)
    → ((r : R) → count r ≡ length (rte.contents r))
    → init_ring dpdk.ring_create dpdk.socket ≡ some ring
    → start_main fails (record m {
      pool = is_some (init_mempool dpdk.pktmbuf_pool_create dpdk.default_buf_size dpdk.socket);
      ring = true;
    })
      ≡ ok (running l)
    → All (λ p. p < 32) m.devices
    → HasTurns rte count (watch rte count (new_watched ring) ts) us
    → let s = run rte (new_system ring) (core_turns (ts ++ core_turn signal ∷ us)) in
      (earlier : List Line) × (forwarder_main rte count dpdk fails m
          (ts ++ core_turn signal ∷ us)
          pool
        ≡ ok (
            finished
              (earlier
                ++ rx_packets_line (length s.arrived % u64_mod)
                  ∷ tx_packets_line (length s.sent % u64_mod)
                  ∷ ring_line (length (rte.contents s.ring))
                  ∷ available_line pool.available
                  ∷ in_use_line pool.in_use
                  ∷ [])
              (issue fails (closing_steps l.mask m.devices) l.log).0))
unfolding forwarder_main after_start wait_and_finish cores_done
main_ends rte count dpdk fails m l ring ts us pool counts made started low enough =
    let turns = ts ++ core_turn signal ∷ us in
    let w = watch rte count (new_watched ring) turns in
    let all_gone = watch-cores_done rte count (watch rte count (new_watched ring) ts) us enough in
    let same = watch-append rte count (new_watched ring) ts (core_turn signal ∷ us) in
    let rx_gone : w.system.rx ≡ rx_exited = ap (λ v. v.system.rx) same ∙ all_gone.0 in
    let tx_gone : w.system.tx ≡ tx_exited = ap (λ v. v.system.tx) same ∙ all_gone.1 in
    let stats_gone : w.stats ≡ stats_exited = ap (λ v. v.stats) same ∙ all_gone.2 in
    (
      w.output,
      rw
          (
            made,
            started,
            rx_gone,
            tx_gone,
            stats_gone,
            clean_up-issue fails l.mask m.devices l.log low,
            print_stats-totals rte count pool ring turns counts tx_gone,
          )
          refl,
    )
