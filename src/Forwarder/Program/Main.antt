-- ===== src/Forwarder/Program/Main.antt =====
-- `main` of examples/minimal_dpdk.cpp from its first check to its end.
use virtual_service_gateway.Common.{
  ℕ, Bool, true, false, List, ◌++◌, Option, none, some, if◌then◌else◌,
}
use virtual_service_gateway.Common.Faults.{Result, ok, ◌>>=◌}
use virtual_service_gateway.Ethernet.{Packet}
use virtual_service_gateway.Dpdk.RingQueue.{RteRing}
use virtual_service_gateway.Forwarder.Startup.{
  PortCall, Machine, Launched, Outcome, exit_failure, running, start_main, clean_up,
}
use virtual_service_gateway.Forwarder.Program.Setup.{
  MempoolRequest, RingRequest, init_mempool, init_ring,
}
use virtual_service_gateway.Forwarder.Program.Statistics.{
  PoolCounts, Line, Watched, WatchedTurn, print_stats, watch, new_watched, cores_done,
}

-- What DPDK answers to the two requests, and its constants.
pub record DpdkAnswers (P R : Type 0) : Type 0 where
  pub pktmbuf_pool_create : MempoolRequest → Option P
  pub ring_create : RingRequest → Option R
  pub default_buf_size : ℕ
  pub socket : ℕ

-- How far `main` has come: it has exited with a failure, it waits for the cores, or it has returned 0 after it
-- printed and made the calls on the ports.
pub data Progress (R : Type 0) : Type 0 where
  exited_early : Progress R
  waiting : Watched R → Progress R
  finished : List Line → List PortCall → Progress R

abbrev pub is_some : {A : Type 0} → Option A → Bool
is_some none = false
is_some (some a) = true

module _ {R : Type 0} (rte : RteRing R Packet) (count : R → ℕ) where
  -- After the launches: the turns of the cores, and the pool's counts at the end.
  unfoldable pub wait_and_finish :
      List ℕ → List WatchedTurn → PoolCounts → Launched → R → Result (Progress R)
  wait_and_finish devices turns pool l ring =
      let w = watch rte count (new_watched ring) turns in
      if cores_done w
      then (clean_up l.mask devices l.log >>= λ log.
          ok (finished (w.output ++ print_stats rte count w.system pool) log))
      else ok (waiting w)

  -- Without a ring `main` does not get to the launches.
  unfoldable pub after_start :
      List ℕ → List WatchedTurn → PoolCounts → Outcome → Option R → Result (Progress R)
  after_start devices turns pool exit_failure ring = ok exited_early
  after_start devices turns pool (running l) none = ok exited_early
  after_start devices turns pool (running l) (some ring) = wait_and_finish devices turns pool l ring

  -- Whether the pool and the ring are there is what the requests say.
  unfoldable pub forwarder_main :
      {P : Type 0}
      → DpdkAnswers P R
      → (List PortCall → PortCall → Bool)
      → Machine
      → List WatchedTurn
      → PoolCounts
      → Result (Progress R)
  forwarder_main dpdk fails m turns pool =
      let mempool = init_mempool dpdk.pktmbuf_pool_create dpdk.default_buf_size dpdk.socket in
      let ring = init_ring dpdk.ring_create dpdk.socket in
      start_main fails (record m { pool = is_some mempool; ring = is_some ring }) >>= λ outcome.
      after_start m.devices turns pool outcome ring
