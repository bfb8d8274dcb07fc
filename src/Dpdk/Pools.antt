-- ===== src/Dpdk/Pools.antt =====
-- The pools that `MempoolManager` holds after a sequence of `init_mempool` calls.
use native.Mathlib.Nat.{sub-zero, suc-sub-suc}
use virtual_service_gateway.Common.{
  ℕ, zero, suc, ◌-◌, ◌≤◌, ◌<◌, ◌≡◌, refl, ◌∙◌, sym, ap, true, List, [], ◌∷◌, Option, none, some,
  arith, add32, leb, ◌==◌, length, get_elem?, set, replicate, if◌then◌else◌, Bool-cases, inl, inr,
  take-nil, get_elem?_in_range, get_elem?_out_of_range, get_elem?-set_self, get_elem?-set_ne, All,
  length-replicate,
}
use virtual_service_gateway.Common.Faults.{ok, fault, out_of_bounds, ◌>>=◌}
use virtual_service_gateway.Dpdk.Mempool.{
  MempoolManager, resize, store, init_mempool, get_mempool, Init, run_inits, latest,
}

module _ {P : Type 0} where
  abbrev slot : List (Option P) → ℕ → Option P
  slot pools j = elim (get_elem? pools j) [ none ↦ none | some s ↦ s ]

  slot-replicate : (n j : ℕ) → slot (replicate n none) j ≡ none
  slot-replicate zero j = refl
  slot-replicate (suc n) zero = refl
  slot-replicate (suc n) (suc j) = slot-replicate n j

  slot-resize :
      (pools : List (Option P)) (n j : ℕ)
      → length pools ≤ n
      → slot (resize pools n) j ≡ slot pools j
  unfolding resize
  slot-resize [] n j h = rw (take-nil {A = Option P} n, sub-zero n) (slot-replicate n j)
  slot-resize (p ∷ ps) zero j h = absurd (omega arith)
  slot-resize (p ∷ ps) (suc n) zero h = refl
  slot-resize (p ∷ ps) (suc n) (suc j) h =
      rw (suc-sub-suc n (length ps)) (slot-resize ps n j (omega arith))

  length-resize : (pools : List (Option P)) (n : ℕ) → length pools ≤ n → length (resize pools n) ≡ n
  unfolding resize
  length-resize [] n h = rw (take-nil {A = Option P} n, sub-zero n) (length-replicate n none)
  length-resize (p ∷ ps) zero h = absurd (omega arith)
  length-resize (p ∷ ps) (suc n) h =
      rw (suc-sub-suc n (length ps)) (ap suc (length-resize ps n (omega arith)))

  -- A pool in range is stored in its slot, and no other slot changes.
  store-slot :
      (m : MempoolManager P) (node : ℕ) (mp : P) (f : ℕ)
      → node < length m.mempools
      → (m' : MempoolManager P) × (store m node mp ≡ ok m')
        × (slot m'.mempools f ≡ (if node == f then some mp else slot m.mempools f))
  unfolding store
  store-slot m node mp f h =
      let (old, e) = get_elem?_in_range m.mempools node h in
      (
        record m { mempools = set m.mempools node (some mp) },
        rw (e, store) refl,
        ground (
          arith,
          get_elem?-set_self m.mempools node (some mp) h,
          get_elem?-set_ne m.mempools node f (some mp),
        ),
      )

  init_mempool-slot :
      (m : MempoolManager P) (node cache_size : ℕ) (mp : P) (f : ℕ)
      → node < 4294967295
      → (m' : MempoolManager P) × (init_mempool m node cache_size (some mp) ≡ ok (m', true))
        × (slot m'.mempools f ≡ (if node == f then some mp else slot m.mempools f))
  unfolding init_mempool
  init_mempool-slot m node cache_size mp f h = elim (Bool-cases (leb (length m.mempools) node)) [
    | inl short ↦
        let le : length m.mempools ≤ add32 node 1 = ground (arith, short) in
        let (m', e, s) =
          store-slot
            (record m { cache_size = cache_size; mempools = resize m.mempools (add32 node 1) }) node
            mp f (rw (length-resize m.mempools (add32 node 1) le) (omega arith)) in
        (m', rw (short, e, ◌>>=◌) refl, rw (sym (slot-resize m.mempools (add32 node 1) f le)) s)
    | inr long ↦
        let (m', e, s) =
          store-slot (record m { cache_size = cache_size }) node mp f (ground (arith, long)) in
        (m', rw (long, e, ◌>>=◌) refl, s)
  ]

  -- After any sequence of calls for nodes below 2^32 - 1, failed creations included, the pool of a
  -- node is the one created last for it, and else the one it had.
  pub get_mempool-run :
      (rs : List (Init P)) (m : MempoolManager P) (f : ℕ)
      → All (λ r. r.0 < 4294967295) rs
      → (m' : MempoolManager P) × (run_inits m rs ≡ ok m')
        × (get_mempool m' f ≡ latest f (get_mempool m f) rs)
  unfolding run_inits get_mempool init_mempool
  get_mempool-run [] m f h = (m, refl, refl)
  get_mempool-run ((node, cache_size, none) ∷ rs) m f h =
      get_mempool-run rs (record m { cache_size = cache_size }) f h.1
  get_mempool-run ((node, cache_size, some mp) ∷ rs) m f h =
      let (m1, e1, s1) = init_mempool-slot m node cache_size mp f h.0 in
      let (m', e, s) = get_mempool-run rs m1 f h.1 in
      (m', rw (e1, ◌>>=◌) e, s ∙ ap (λ held. latest f held rs) s1)

  -- For the node 2^32 - 1, where a pool is created and there are at most 2^32 - 1 slots, the new
  -- size wraps to 0 and the pool is written past the end.
  pub init_mempool_wraps :
      (m : MempoolManager P) (cache_size : ℕ) (mp : P)
      → length m.mempools ≤ 4294967295
      → init_mempool m 4294967295 cache_size (some mp) ≡ fault out_of_bounds
  unfolding init_mempool store resize
  init_mempool_wraps m cache_size mp h =
      let short : leb (length m.mempools) 4294967295 ≡ true = ground arith in
      let empty : Option P = none in
      let none_left : length (resize m.mempools 0) ≤ 4294967295 =
        omega (arith, length-replicate (0 - length m.mempools) empty) in
      let gone = get_elem?_out_of_range (resize m.mempools 0) 4294967295 none_left in
      rw (short, gone, ◌>>=◌) refl
