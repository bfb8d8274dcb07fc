-- ===== src/Modifications/Prefetch.antt =====
-- `process_burst_optimized` of examples/dpdk_common_modifications.h.
use virtual_service_gateway.Common.{
  ℕ, ◌<◌, ◌≡◌, refl, sym, ap, ◌∙◌, Bool, true, false, List, [], ◌∷◌, ◌++◌, take, drop, length, map,
  get_elem?, append-nil, append_assoc, take-append-drop, All, none, some, if◌then◌else◌,
}
use virtual_service_gateway.Common.Faults.{
  Result, ok, Returns, returned, Returns->>=, Returns-map, ◌>>=◌,
}
use virtual_service_gateway.Ethernet.{Packet}
use virtual_service_gateway.Modifications.Headers.{PacketHeaders, extract_packet_headers}
use virtual_service_gateway.Modifications.Classes.{classify_packet}
use virtual_service_gateway.Modifications.Bounds.{
  HasRoom, IsInside, extract_packet_headers-Returns, classify_packet-Returns,
}

-- What the function does with an mbuf: the start of its data is prefetched, or its headers are extracted.
pub data Access : Type 0 where
  prefetched : ℕ → Access
  processed : ℕ → Access

-- `if (i + 4 < nb)`, with the packets from the i-th on.
unfoldable pub prefetch_ahead : List ℕ → List Access
prefetch_ahead bufs = elim (get_elem? bufs 4) [ none ↦ [] | some ahead ↦ prefetched ahead ∷ [] ]

module _ (little_endian : Bool) (memory : List Packet) where
  -- The headers, which the packets share, and the accesses. A class is computed and not used.
  unfoldable pub process_one : ℕ → PacketHeaders → Result PacketHeaders
  process_one pkt hdrs = extract_packet_headers little_endian memory pkt hdrs >>= λ q.
      if q.1 then (classify_packet little_endian memory q.0 >>= λ cls. ok q.0) else ok q.0

  unfoldable pub process_loop :
      List ℕ → PacketHeaders → List Access → Result (PacketHeaders × List Access)
  process_loop [] hdrs log = ok (hdrs, log)
  process_loop (pkt ∷ bufs) hdrs log = process_one pkt hdrs >>= λ hdrs'.
      process_loop bufs hdrs' (log ++ (prefetch_ahead (pkt ∷ bufs) ++ processed pkt ∷ []))

  -- The loop that prefetches the first four packets, then the loop over all.
  unfoldable pub process_burst_optimized :
      List ℕ → PacketHeaders → Result (PacketHeaders × List Access)
  process_burst_optimized bufs hdrs = process_loop bufs hdrs (map prefetched (take 4 bufs))

-- The packets of each kind of access, in order.
abbrev pub prefetches : List Access → List ℕ
prefetches [] = []
prefetches (prefetched pkt ∷ log) = pkt ∷ prefetches log
prefetches (processed pkt ∷ log) = prefetches log

abbrev pub processes : List Access → List ℕ
processes [] = []
processes (prefetched pkt ∷ log) = processes log
processes (processed pkt ∷ log) = pkt ∷ processes log

prefetches-append : (xs ys : List Access) → prefetches (xs ++ ys) ≡ prefetches xs ++ prefetches ys
prefetches-append [] ys = refl
prefetches-append (prefetched pkt ∷ xs) ys = ap (λ r. pkt ∷ r) (prefetches-append xs ys)
prefetches-append (processed pkt ∷ xs) ys = prefetches-append xs ys

processes-append : (xs ys : List Access) → processes (xs ++ ys) ≡ processes xs ++ processes ys
processes-append [] ys = refl
processes-append (prefetched pkt ∷ xs) ys = processes-append xs ys
processes-append (processed pkt ∷ xs) ys = ap (λ r. pkt ∷ r) (processes-append xs ys)

prefetches-map : (bufs : List ℕ) → prefetches (map prefetched bufs) ≡ bufs
prefetches-map [] = refl
prefetches-map (pkt ∷ bufs) = ap (λ r. pkt ∷ r) (prefetches-map bufs)

processes-map : (bufs : List ℕ) → processes (map prefetched bufs) ≡ []
processes-map [] = refl
processes-map (pkt ∷ bufs) = processes-map bufs

-- The access four ahead continues the prefetches.
ahead-next :
    (pkt : ℕ) (bufs : List ℕ)
    → prefetches (prefetch_ahead (pkt ∷ bufs)) ++ drop 4 bufs ≡ drop 3 bufs
unfolding prefetch_ahead
ahead-next p [] = refl
ahead-next p (a ∷ []) = refl
ahead-next p (a ∷ b ∷ []) = refl
ahead-next p (a ∷ b ∷ c ∷ []) = refl
ahead-next p (a ∷ b ∷ c ∷ d ∷ r) = refl

ahead-processes : (bufs : List ℕ) → processes (prefetch_ahead bufs) ≡ []
unfolding prefetch_ahead
ahead-processes bufs =
    elim (get_elem? bufs 4)
      as (λ o. processes (elim o [ none ↦ [] | some ahead ↦ prefetched ahead ∷ [] ]) ≡ []) [
        | none ↦ refl
        | some ahead ↦ refl
      ]

next_prefetches :
    (pkt : ℕ) (bufs : List ℕ) (log : List Access)
    → let ahead = prefetch_ahead (pkt ∷ bufs) in
      prefetches (log ++ (ahead ++ processed pkt ∷ [])) ≡ prefetches log ++ prefetches ahead
next_prefetches pkt bufs log =
    let ahead = prefetch_ahead (pkt ∷ bufs) in
    prefetches-append log (ahead ++ processed pkt ∷ [])
    ∙ ap (λ t. prefetches log ++ t)
        (prefetches-append ahead (processed pkt ∷ []) ∙ append-nil (prefetches ahead))

next_processes :
    (pkt : ℕ) (bufs : List ℕ) (log : List Access)
    → processes (log ++ (prefetch_ahead (pkt ∷ bufs) ++ processed pkt ∷ []))
      ≡ processes log ++ pkt ∷ []
next_processes pkt bufs log =
    let ahead = prefetch_ahead (pkt ∷ bufs) in
    processes-append log (ahead ++ processed pkt ∷ [])
    ∙ ap (λ t. processes log ++ t)
        (processes-append ahead (processed pkt ∷ [])
          ∙ ap (λ t. t ++ pkt ∷ []) (ahead-processes (pkt ∷ bufs)))

module _ (memory : List Packet) (room : HasRoom memory) (little_endian : Bool) where
  process_one-Returns :
      (pkt : ℕ) (hdrs : PacketHeaders)
      → pkt < length memory
      → IsInside (length memory) hdrs
      → Returns (IsInside (length memory)) (process_one little_endian memory pkt hdrs)
  unfolding process_one
  process_one-Returns pkt hdrs known inside =
      Returns->>= (extract_packet_headers-Returns memory room little_endian pkt hdrs known inside)
        (λ q h.
          elim q.1
            as (λ done. Returns (IsInside (length memory)) (
              if done
              then (classify_packet little_endian memory q.0 >>= λ cls. ok q.0)
              else ok q.0)) [
                | true ↦
                    Returns->>= (classify_packet-Returns memory room little_endian q.0 h.0)
                      (λ cls u. returned q.0 h.0)
                | false ↦ returned q.0 h.0
              ])

  -- The packets accessed so far, and those that are left.
  abbrev Covers : List ℕ → List Access → PacketHeaders × List Access → Type 0
  Covers bufs log (hdrs, log') =
      (prefetches log' ≡ prefetches log ++ drop 4 bufs) × (processes log' ≡ processes log ++ bufs)

  process_loop-Covers :
      (bufs : List ℕ) (hdrs : PacketHeaders) (log : List Access)
      → All (λ pkt. pkt < length memory) bufs
      → IsInside (length memory) hdrs
      → Returns (Covers bufs log) (process_loop little_endian memory bufs hdrs log)
  unfolding process_loop
  process_loop-Covers [] hdrs log known inside =
      returned _ (sym (append-nil (prefetches log)), sym (append-nil (processes log)))
  process_loop-Covers (pkt ∷ bufs) hdrs log known inside =
      let ahead = prefetch_ahead (pkt ∷ bufs) in
      let log' = log ++ (ahead ++ processed pkt ∷ []) in
      Returns->>= (process_one-Returns pkt hdrs known.0 inside) (λ hdrs' h.
        Returns-map (process_loop-Covers bufs hdrs' log' known.1 h) (λ r (fetched, done). (
          fetched
              ∙ ap (λ t. t ++ drop 4 bufs) (next_prefetches pkt bufs log)
              ∙ append_assoc (prefetches log) (prefetches ahead) (drop 4 bufs)
              ∙ ap (λ t. prefetches log ++ t) (ahead-next pkt bufs),
          done
              ∙ ap (λ t. t ++ bufs) (next_processes pkt bufs log)
              ∙ append_assoc (processes log) (pkt ∷ []) bufs,
        )))

  -- With room in every buffer, as for the pipeline, the function returns: it prefetches each packet of the
  -- burst once and processes each once, both in the order of the burst.
  pub process_burst_optimized_lem :
      (bufs : List ℕ) (hdrs : PacketHeaders)
      → All (λ pkt. pkt < length memory) bufs
      → IsInside (length memory) hdrs
      → Returns
          (λ r. (prefetches r.1 ≡ bufs) × (processes r.1 ≡ bufs))
          (process_burst_optimized little_endian memory bufs hdrs)
  unfolding process_burst_optimized
  process_burst_optimized_lem bufs hdrs known inside =
      let first = map prefetched (take 4 bufs) in
      Returns-map (process_loop-Covers bufs hdrs first known inside) (λ r (fetched, done). (
        fetched
            ∙ ap (λ t. t ++ drop 4 bufs) (prefetches-map (take 4 bufs))
            ∙ take-append-drop 4 bufs,
        done ∙ ap (λ t. t ++ bufs) (processes-map (take 4 bufs)),
      ))
