-- ===== src/Dpdk/RingQueue.antt =====
-- `RingQueue` of src/dpdk/ring_queue.cpp over `rte_ring`, which is not of this repository: its operations
-- and what they document are an interface. A null ring is none.
use virtual_service_gateway.Common.{
  ℕ, ◌≡◌, Bool, true, false, List, [], ◌∷◌, ◌++◌, Option, none, some, take, if◌then◌else◌,
}

-- The single-producer and single-consumer calls. `enqueue` says whether it returned 0; a burst returns
-- how many it took, or what it gave.
pub record RteRing (R M : Type 0) : Type 0 where
  pub contents : R → List M
  pub sp_enqueue : R → M → R × Bool
  pub sp_enqueue_burst : R → List M → R × ℕ
  pub sc_dequeue : R → R × Option M
  pub sc_dequeue_burst : R → ℕ → R × List M
  pub is_empty : R → Bool
  pub free_count : R → ℕ
  pub enqueued :
      (r : R) (m : M)
      → contents (sp_enqueue r m).0
        ≡ (if (sp_enqueue r m).1 then contents r ++ m ∷ [] else contents r)
  pub burst_enqueued :
      (r : R) (ms : List M)
      → contents (sp_enqueue_burst r ms).0 ≡ contents r ++ take (sp_enqueue_burst r ms).1 ms
  pub dequeued :
      (r : R)
      → elim (sc_dequeue r).1 [ none ↦ [] | some m ↦ m ∷ [] ] ++ contents (sc_dequeue r).0
        ≡ contents r
  pub burst_dequeued :
      (r : R) (n : ℕ) → (sc_dequeue_burst r n).1 ++ contents (sc_dequeue_burst r n).0 ≡ contents r

module _ {R M : Type 0} (ring : RteRing R M) where
  -- The value -1 of a null ring is a failure, as is a negative value of the ring.
  unfoldable pub enqueue : Option R → M → Option R × Bool
  enqueue none obj = (none, false)
  enqueue (some r) obj = let (r', done) = ring.sp_enqueue r obj in (some r', done)

  unfoldable pub enqueue_burst : Option R → List M → Option R × ℕ
  enqueue_burst none objs = (none, 0)
  enqueue_burst (some r) objs = let (r', n) = ring.sp_enqueue_burst r objs in (some r', n)

  unfoldable pub dequeue : Option R → Option R × Option M
  dequeue none = (none, none)
  dequeue (some r) = let (r', obj) = ring.sc_dequeue r in (some r', obj)

  unfoldable pub dequeue_burst : Option R → ℕ → Option R × List M
  dequeue_burst none max_count = (none, [])
  dequeue_burst (some r) max_count =
      let (r', objs) = ring.sc_dequeue_burst r max_count in (some r', objs)

  unfoldable pub empty : Option R → Bool
  empty none = true
  empty (some r) = ring.is_empty r

  unfoldable pub available_count : Option R → ℕ
  available_count none = 0
  available_count (some r) = ring.free_count r

-- `RING_F_SP_ENQ` and `RING_F_SC_DEQ`.
pub data RingFlag : Type 0 where
  sp_enq : RingFlag
  sc_deq : RingFlag

-- The constructor and the destructor: `ring_create` is what `rte_ring_create` returns for a size, a node and
-- flags; the destructor gives the ring on which `rte_ring_free` is called.
unfoldable pub new_ring_queue {ℓ} :
    {R : Type ℓ} → (ℕ → ℕ → List RingFlag → Option R) → ℕ → ℕ → Bool → Bool → Option R
new_ring_queue ring_create size numa_node sp sc =
    ring_create size numa_node
      ((if sp then sp_enq ∷ [] else []) ++ (if sc then sc_deq ∷ [] else []))

unfoldable pub free_ring_queue {ℓ} : {R : Type ℓ} → Option R → List R
free_ring_queue none = []
free_ring_queue (some ring) = ring ∷ []
