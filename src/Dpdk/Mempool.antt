-- ===== src/Dpdk/Mempool.antt =====
-- `MempoolManager` of src/dpdk/mempool_manager.cpp. `rte_pktmbuf_pool_create` is not of this repository:
-- the outcome of a call is an argument, as is the pool type. An empty slot holds a null pointer.
use virtual_service_gateway.Common.{
  ℕ, ◌-◌, Bool, true, false, List, [], ◌∷◌, ◌++◌, Option, none, some, add32, leb, ◌==◌, length,
  get_elem?, set, take, replicate, if◌then◌else◌,
}
use virtual_service_gateway.Common.Faults.{Result, ok, fault, out_of_bounds, ◌>>=◌}

pub record MempoolManager {ℓ} (P : Type ℓ) : Type ℓ where
  pub mempools : List (Option P)
  pub cache_size : ℕ

-- A call of `init_mempool`: its node, its cache size and the pool that was created.
abbrev pub Init {ℓ} : Type ℓ → Type ℓ
Init P = ℕ × ℕ × Option P

module _ {ℓ} {P : Type ℓ} where
  unfoldable pub new_manager : MempoolManager P
  new_manager = record { mempools = []; cache_size = 0 }

  -- `std::vector::resize(n, nullptr)`.
  unfoldable pub resize : List (Option P) → ℕ → List (Option P)
  resize pools n = take n pools ++ replicate (n - length pools) none

  -- `mempools_[numa_node] = mp`.
  unfoldable pub store : MempoolManager P → ℕ → P → Result (MempoolManager P)
  store m numa_node mp = elim (get_elem? m.mempools numa_node) [
    | none ↦ fault out_of_bounds
    | some old ↦ ok (record m { mempools = set m.mempools numa_node (some mp) })
  ]

  -- `numa_node + 1` is of type `uint32_t`. `created` is what `rte_pktmbuf_pool_create` returns.
  unfoldable pub init_mempool :
      MempoolManager P → ℕ → ℕ → Option P → Result (MempoolManager P × Bool)
  init_mempool m numa_node cache_size created =
      let sized : MempoolManager P = record m { cache_size = cache_size } in
      elim created [
        | none ↦ ok (sized, false)
        | some mp ↦
            store
              (if leb (length m.mempools) numa_node
                then record sized { mempools = resize m.mempools (add32 numa_node 1) }
                else sized)
              numa_node mp
            >>= λ m'. ok (m', true)
      ]

  -- Nothing for a null pointer.
  unfoldable pub get_mempool : MempoolManager P → ℕ → Option P
  get_mempool m numa_node = elim (get_elem? m.mempools numa_node) [ none ↦ none | some slot ↦ slot ]

  unfoldable pub run_inits : MempoolManager P → List (Init P) → Result (MempoolManager P)
  run_inits m [] = ok m
  run_inits m ((node, cache_size, created) ∷ rs) =
      init_mempool m node cache_size created >>= λ r. run_inits r.0 rs

  -- The last pool created for the node, `held` where there is none.
  abbrev pub latest : ℕ → Option P → List (Init P) → Option P
  latest f held [] = held
  latest f held ((node, cache_size, created) ∷ rs) =
      latest f (elim created [ none ↦ held | some mp ↦ if node == f then some mp else held ]) rs
