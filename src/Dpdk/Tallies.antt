-- ===== src/Dpdk/Tallies.antt =====
-- What the body of `worker_loop` does to the counters and the packets, and that the loop never gets there.
use virtual_service_gateway.Common.{
  append-nil, append_assoc, ℕ, ◌+◌, ◌%◌, ◌<◌, ◌≡◌, refl, ◌∙◌, sym, ap, List, [], ◌∷◌, ◌++◌, arith,
  u64_mod, add64, length, length-append, All, sum_by,
}
use virtual_service_gateway.Dpdk.Worker.{
  PipelineStats, new_stats, add_bytes, process, tx_burst, handle_burst,
}

nil_of-length {ℓ} : {A : Type ℓ} (xs : List A) → length xs ≡ 0 → xs ≡ []
nil_of-length [] h = refl
nil_of-length (x ∷ xs) h = absurd (omega arith)

module _ {M : Type 0} (pkt_len : M → ℕ) where
  -- The bursts one after the other.
  unfoldable pub handle_all :
      List (List M → List M) → List (List M) → PipelineStats × List M → PipelineStats × List M
  handle_all processors [] s = s
  handle_all processors (b ∷ bs) s = handle_all processors bs (handle_burst pkt_len processors b s)

  -- The packets that the processors hand on, burst after burst.
  unfoldable pub processed : List (List M → List M) → List (List M) → List M
  processed processors [] = []
  processed processors (b ∷ bs) = process processors b ++ processed processors bs

  add_bytes-sum :
      (total : ℕ) (ps : List M)
      → total < u64_mod
      → add_bytes pkt_len total ps ≡ (total + sum_by pkt_len ps) % u64_mod
  unfolding add_bytes
  add_bytes-sum total [] h = omega arith
  add_bytes-sum total (p ∷ ps) h =
      add_bytes-sum (add64 total (pkt_len p)) ps (omega arith) ∙ omega arith

  tx_burst-append : (ps freed : List M) → tx_burst ps freed ≡ freed ++ ps
  unfolding tx_burst
  tx_burst-append [] freed = sym (append-nil freed)
  tx_burst-append (p ∷ ps) freed =
      tx_burst-append ps (freed ++ p ∷ []) ∙ append_assoc freed (p ∷ []) ps

  length-process :
      (processors : List (List M → List M)) (ps : List M)
      → All (λ f. (pkts : List M) → length (f pkts) ≡ length pkts) processors
      → length (process processors ps) ≡ length ps
  unfolding process
  length-process [] ps keeps = refl
  length-process (f ∷ fs) ps keeps = length-process fs (f ps) keeps.1 ∙ keeps.0 ps

  -- The counters `r` and the freed packets after the bursts.
  pub record Tally (processors : List (List M → List M)) (bs : List (List M))
      (s r : PipelineStats × List M) : Type 0 where
    pub rx_pkts : r.0.rx_pkts ≡ (s.0.rx_pkts + sum_by length bs) % u64_mod
    pub tx_pkts : r.0.tx_pkts ≡ (s.0.tx_pkts + sum_by length bs) % u64_mod
    pub rx_bytes : r.0.rx_bytes ≡ (s.0.rx_bytes + sum_by (sum_by pkt_len) bs) % u64_mod
    pub freed : r.1 ≡ s.1 ++ processed processors bs
    pub freed_count : length r.1 ≡ length s.1 + sum_by length bs

  pub record IsWords (s : PipelineStats) : Type 0 where
    pub rx : s.rx_pkts < u64_mod
    pub tx : s.tx_pkts < u64_mod
    pub bytes : s.rx_bytes < u64_mod

  handle_burst-Tally :
      (processors : List (List M → List M)) (b : List M) (s : PipelineStats × List M)
      → All (λ f. (pkts : List M) → length (f pkts) ≡ length pkts) processors
      → IsWords s.0
      → Tally processors (b ∷ []) s (handle_burst pkt_len processors b s)
        × IsWords (handle_burst pkt_len processors b s).0
  unfolding handle_burst processed
  handle_burst-Tally processors [] (stats, freed) keeps w =
      let none_left = nil_of-length (process processors []) (length-process processors [] keeps) in
      (
        record {
          rx_pkts = omega (arith, w.rx);
          tx_pkts = omega (arith, w.tx);
          rx_bytes = omega (arith, w.bytes);
          freed = rw none_left (sym (append-nil freed));
          freed_count = omega arith;
        },
        w,
      )
  handle_burst-Tally processors (p ∷ ps) (stats, freed) keeps w =
      let out = process processors (p ∷ ps) in
      let sent = tx_burst-append out freed in
      (
        record {
          rx_pkts = omega arith;
          tx_pkts = omega arith;
          rx_bytes = add_bytes-sum stats.rx_bytes (p ∷ ps) w.bytes ∙ omega arith;
          freed = sent ∙ ap (λ rest. freed ++ rest) (sym (append-nil out));
          freed_count =
              ap length sent
              ∙ length-append freed out
              ∙ omega (arith, length-process processors (p ∷ ps) keeps);
        },
        record {
          rx = omega arith;
          tx = omega arith;
          bytes = omega (arith, add_bytes-sum stats.rx_bytes (p ∷ ps) w.bytes);
        },
      )

  handle_all-Tally :
      (processors : List (List M → List M)) (bs : List (List M)) (s : PipelineStats × List M)
      → All (λ f. (pkts : List M) → length (f pkts) ≡ length pkts) processors
      → IsWords s.0
      → Tally processors bs s (handle_all processors bs s)
  unfolding handle_all processed
  handle_all-Tally processors [] s keeps w = record {
    rx_pkts = omega (arith, w.rx);
    tx_pkts = omega (arith, w.tx);
    rx_bytes = omega (arith, w.bytes);
    freed = sym (append-nil s.1);
    freed_count = omega arith;
  }
  handle_all-Tally processors (b ∷ bs) s keeps w =
      let (t, w') = handle_burst-Tally processors b s keeps w in
      let rest = handle_all-Tally processors bs (handle_burst pkt_len processors b s) keeps w' in
      record {
        rx_pkts = rest.rx_pkts ∙ omega (arith, t.rx_pkts);
        tx_pkts = rest.tx_pkts ∙ omega (arith, t.tx_pkts);
        rx_bytes = rest.rx_bytes ∙ omega (arith, t.rx_bytes);
        freed =
            rest.freed
            ∙ ap (λ xs. xs ++ processed processors bs)
                (t.freed ∙ ap (λ xs. s.1 ++ xs) (append-nil (process processors b)))
            ∙ append_assoc s.1 (process processors b) (processed processors bs);
        freed_count = rest.freed_count ∙ omega (arith, t.freed_count);
      }

  -- Where the processors keep the number of packets, any bursts on a new pipeline are counted alike as
  -- received and sent, with their bytes, modulo 2^64; and the packets that are freed are those that
  -- the processors hand on, in order, as many as were received.
  pub handle_all_lem :
      (processors : List (List M → List M)) (bs : List (List M))
      → All (λ f. (pkts : List M) → length (f pkts) ≡ length pkts) processors
      → let (stats, freed) = handle_all processors bs (new_stats, []) in
        (stats.rx_pkts ≡ sum_by length bs % u64_mod)
        × (stats.tx_pkts ≡ sum_by length bs % u64_mod)
        × (stats.rx_bytes ≡ sum_by (sum_by pkt_len) bs % u64_mod)
        × (freed ≡ processed processors bs)
        × (length freed ≡ sum_by length bs)
  unfolding new_stats
  handle_all_lem processors bs keeps =
      let t =
        handle_all-Tally processors bs (new_stats, []) keeps
          (record { rx = omega arith; tx = omega arith; bytes = omega arith }) in
      (
        t.rx_pkts ∙ omega arith,
        t.tx_pkts ∙ omega arith,
        t.rx_bytes ∙ omega arith,
        t.freed,
        t.freed_count ∙ omega arith,
      )
