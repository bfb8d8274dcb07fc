-- ===== src/Forwarder/Program/Setup.antt =====
-- `init_mempool` and `init_ring` of examples/minimal_dpdk.cpp: the requests to DPDK, whose answers are
-- parameters; none is NULL.
use virtual_service_gateway.Common.{ℕ, List, [], ◌∷◌, Option}
use virtual_service_gateway.Dpdk.RingQueue.{RingFlag, sp_enq, sc_deq}

-- The arguments of `rte_pktmbuf_pool_create` but the name.
pub record MempoolRequest : Type 0 where
  pub elements : ℕ
  pub cache_size : ℕ
  pub private_size : ℕ
  pub data_room_size : ℕ
  pub socket : ℕ

-- The arguments of `rte_ring_create` but the name.
pub record RingRequest : Type 0 where
  pub size : ℕ
  pub socket : ℕ
  pub flags : List RingFlag

abbrev pub mempool_mbuf_num : ℕ
mempool_mbuf_num = 8192

abbrev pub mempool_cache_size : ℕ
mempool_cache_size = 256

abbrev pub ring_size : ℕ
ring_size = 2048

-- The new `pktmbuf_pool`; -1 is returned where it is none. `default_buf_size` is `RTE_MBUF_DEFAULT_BUF_SIZE`.
unfoldable pub init_mempool : {P : Type 0} → (MempoolRequest → Option P) → ℕ → ℕ → Option P
init_mempool pktmbuf_pool_create default_buf_size socket = pktmbuf_pool_create (record {
  elements = mempool_mbuf_num;
  cache_size = mempool_cache_size;
  private_size = 0;
  data_room_size = default_buf_size;
  socket = socket;
})

-- The new `rx_to_tx_ring`; -1 is returned where it is none.
unfoldable pub init_ring : {R : Type 0} → (RingRequest → Option R) → ℕ → Option R
init_ring ring_create socket =
    ring_create (record { size = ring_size; socket = socket; flags = sp_enq ∷ sc_deq ∷ [] })
