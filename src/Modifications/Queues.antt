-- ===== src/Modifications/Queues.antt =====
-- `rx_multi_queue`, `ring_enqueue_burst` and `ring_dequeue_burst` of
-- examples/dpdk_common_modifications.h. What `rte_eth_rx_burst` documents is an interface.
use virtual_service_gateway.Common.{
  ℕ, zero, suc, ◌+◌, ◌-◌, ◌%◌, ◌≤◌, ◌<◌, ◌≡◌, ◌≢◌, refl, ap, ◌∙◌, true, false, List, [], ◌++◌,
  length, length-append, sum_by, sum_by-append, ◌==◌, if◌then◌else◌, Bool-cases, inl, inr, arith,
  u16_mod,
}
use virtual_service_gateway.Dpdk.RingQueue.{RteRing}

-- A port with the packets that wait in its queues. A call takes packets from the front of one queue.
pub record EthRx (D M : Type 0) : Type 0 where
  pub waiting : D → ℕ → List M
  pub rx_burst : D → ℕ → ℕ → D × List M
  pub at_most : (d : D) (queue n : ℕ) → length (rx_burst d queue n).1 ≤ n
  pub received :
      (d : D) (queue n : ℕ)
      → (rx_burst d queue n).1 ++ waiting (rx_burst d queue n).0 queue ≡ waiting d queue
  pub others :
      (d : D) (queue n other : ℕ)
      → queue ≢ other
      → waiting (rx_burst d queue n).0 other ≡ waiting d other

module _ {D M : Type 0} (eth : EthRx D M) (burst_size : ℕ) where
  -- The loop from a queue on, with the number of those that are left and the packets so far.
  unfoldable pub rx_from : D → ℕ → ℕ → List M → D × List M
  rx_from d q zero bufs = (d, bufs)
  rx_from d q (suc left) bufs =
      let (d', pkts) = eth.rx_burst d q (burst_size - length bufs) in
      let rest = rx_from d' (q + 1) left (bufs ++ pkts) in
      if length (bufs ++ pkts) == burst_size then (d', bufs ++ pkts) else rest

  unfoldable pub rx_multi_queue : D → ℕ → D × List M
  rx_multi_queue d nb_queues = rx_from d 0 nb_queues []

  -- A measure of what waits in the queues from one on.
  abbrev pub queued : (M → ℕ) → D → ℕ → ℕ → ℕ
  queued w d q zero = 0
  queued w d q (suc left) = sum_by w (eth.waiting d q) + queued w d (q + 1) left

  queued-rx_burst :
      (w : M → ℕ) (d : D) (queue n q left : ℕ)
      → queue < q
      → queued w (eth.rx_burst d queue n).0 q left ≡ queued w d q left
  queued-rx_burst w d queue n q zero below = refl
  queued-rx_burst w d queue n q (suc left) below = omega (
    arith,
    queued-rx_burst w d queue n (q + 1) left (omega (arith, below)),
    ap (sum_by w) (eth.others d queue n q (λ e. omega (arith, below, e))),
  )

  -- A queue before those of the loop is left alone.
  rx_from-waiting :
      (d : D) (q left other : ℕ) (bufs : List M)
      → other < q
      → eth.waiting (rx_from d q left bufs).0 other ≡ eth.waiting d other
  unfolding rx_from
  rx_from-waiting d q zero other bufs below = refl
  rx_from-waiting d q (suc left) other bufs below =
      let (d', pkts) = eth.rx_burst d q (burst_size - length bufs) in
      let same : eth.waiting d' other ≡ eth.waiting d other =
        eth.others d q (burst_size - length bufs) other (λ e. omega (arith, below, e)) in
      elim (Bool-cases (length (bufs ++ pkts) == burst_size)) [
        | inl full ↦ rw full same
        | inr more ↦
            rw more
              (rx_from-waiting d' (q + 1) left other (bufs ++ pkts) (omega (arith, below)) ∙ same)
      ]

  -- Within the bound, and with what came of the queues in the burst.
  abbrev Keeps : (M → ℕ) → D → ℕ → ℕ → List M → D × List M → Type 0
  Keeps w d q left bufs (d', bufs') =
      (length bufs' ≤ burst_size)
      × (sum_by w bufs' + queued w d' q left ≡ sum_by w bufs + queued w d q left)

  rx_from_lem :
      (w : M → ℕ) (d : D) (q left : ℕ) (bufs : List M)
      → length bufs ≤ burst_size
      → Keeps w d q left bufs (rx_from d q left bufs)
  unfolding rx_from
  rx_from_lem w d q zero bufs fits = (fits, refl)
  rx_from_lem w d q (suc left) bufs fits =
      let n = burst_size - length bufs in
      let (d', pkts) = eth.rx_burst d q n in
      let joined = sum_by-append w bufs pkts in
      let taken = ap (sum_by w) (eth.received d q n) in
      let split = sum_by-append w pkts (eth.waiting d' q) in
      let rest = queued-rx_burst w d q n (q + 1) left (omega arith) in
      let fits' : length (bufs ++ pkts) ≤ burst_size =
        omega (arith, fits, length-append bufs pkts, eth.at_most d q n) in
      elim (length (bufs ++ pkts) == burst_size)
        as (λ full.
          Keeps w d q (suc left) bufs
            (if full then (d', bufs ++ pkts) else rx_from d' (q + 1) left (bufs ++ pkts))) [
              | true ↦ (fits', omega (arith, joined, taken, split, rest))
              | false ↦
                  let (bound, balance) = rx_from_lem w d' (q + 1) left (bufs ++ pkts) fits' in
                  let kept =
                    ap (sum_by w)
                      (rx_from-waiting d' (q + 1) left q (bufs ++ pkts) (omega arith)) in
                  (bound, omega (arith, joined, taken, split, rest, balance, kept))
            ]

  -- Over any number of queues no more packets are received than the burst has room for, and each measure
  -- of packets that waited in the queues is that of the packets received and of those that still wait.
  pub rx_multi_queue_lem :
      (w : M → ℕ) (d : D) (nb_queues : ℕ)
      → let (d', bufs) = rx_multi_queue d nb_queues in
        (length bufs ≤ burst_size)
        × (sum_by w bufs + queued w d' 0 nb_queues ≡ queued w d 0 nb_queues)
  unfolding rx_multi_queue
  rx_multi_queue_lem w d nb_queues =
      let (bound, balance) = rx_from_lem w d 0 nb_queues [] (omega arith) in
      (bound, omega (arith, balance))

module _ {R M : Type 0} (rte : RteRing R M) where
  unfoldable pub ring_enqueue_burst : R → List M → R × ℕ
  ring_enqueue_burst rb pkts =
      let (ring, enqueued) = rte.sp_enqueue_burst rb pkts in (ring, enqueued % u16_mod)

  unfoldable pub ring_dequeue_burst : R → ℕ → R × List M
  ring_dequeue_burst rb nb = rte.sc_dequeue_burst rb nb
