-- ===== src/Metering/Shared/Alerts.antt =====
-- Checks of a threshold and rollups that run beside updates: what their answers say of the usage before and
-- after.
use virtual_service_gateway.Common.{
  ℕ, ◌+◌, ◌%◌, ◌≤◌, ◌<◌, ◌≡◌, refl, true, false, List, [], ◌∷◌, map, All, sum_by, arith, u32_mod,
  u64_mod,
}
use virtual_service_gateway.Common.Threads.{run_threads, run_threads-keeps, run_threads-All}
use virtual_service_gateway.Metering.Counter.{UsageCounter}
use virtual_service_gateway.Metering.Shared.Tasks.{
  Access, stamp, add_uplink_bytes, add_uplink_packet, add_downlink_bytes, add_downlink_packet,
  perform, Task, updating, load_downlink, count_breach, answered, roll_downlink_bytes,
  roll_uplink_packets, roll_downlink_packets, rolled, advance, Program, start_task,
}

-- What an access adds, in whatever word.
abbrev pub adds_any : Access → ℕ
adds_any (stamp now) = 0
adds_any (add_uplink_bytes bytes) = bytes
adds_any (add_downlink_bytes bytes) = bytes
adds_any add_uplink_packet = 1
adds_any add_downlink_packet = 1

abbrev pub left_any : Task → ℕ
left_any (updating writes) = sum_by adds_any writes
left_any other = 0

abbrev pub all_usage : UsageCounter → ℕ
all_usage c = c.uplink_bytes + c.downlink_bytes + (c.uplink_packets + c.downlink_packets)

-- No word of usage is smaller.
abbrev pub Grown : UsageCounter → UsageCounter → Type 0
Grown c d =
    (c.uplink_bytes ≤ d.uplink_bytes)
    × (c.downlink_bytes ≤ d.downlink_bytes)
    × (c.uplink_packets ≤ d.uplink_packets)
    × (c.downlink_packets ≤ d.downlink_packets)

-- One for each check that has reported a breach.
abbrev pub alerts : Task → ℕ
alerts (answered threshold true) = 1
alerts other = 0

module _ (start : UsageCounter) where
  -- Usage that has grown from the start and does not wrap with `n` more.
  abbrev Bounded : UsageCounter → ℕ → Type 0
  Bounded c n = Grown start c × (all_usage c + n < u64_mod)

  perform-Bounded :
      (a : Access) (rest : ℕ) (c : UsageCounter)
      → Bounded c (adds_any a + rest)
      → Bounded (perform a c) rest × Grown c (perform a c)
  unfolding perform
  perform-Bounded a rest c h = ground arith

  advance-Bounded :
      (c : UsageCounter) (t : Task) (rest : ℕ)
      → Bounded c (left_any t + rest)
      → let (c', t') = advance c t in Bounded c' (left_any t' + rest) × Grown c c'
  unfolding advance
  advance-Bounded c (updating []) rest h = (h, omega arith)
  advance-Bounded c (updating (a ∷ writes)) rest h =
      perform-Bounded a (sum_by adds_any writes + rest) c (h.0, omega (arith, h.1))
  advance-Bounded c t rest h = ground arith

  -- What a check knows: a breach is one still, and no breach was none at the start.
  abbrev pub Informed : UsageCounter → Task → Type 0
  Informed c (load_downlink threshold uplink) =
      (start.uplink_bytes ≤ uplink) × (uplink ≤ c.uplink_bytes)
  Informed c (count_breach threshold) = threshold < c.uplink_bytes + c.downlink_bytes
  Informed c (answered threshold true) = threshold < c.uplink_bytes + c.downlink_bytes
  Informed c (answered threshold false) = start.uplink_bytes + start.downlink_bytes ≤ threshold
  Informed c other = Unit

  Informed-Grown : (c d : UsageCounter) → Grown c d → (t : Task) → Informed c t → Informed d t
  Informed-Grown c d g t h = ground arith

  advance-Informed :
      (c : UsageCounter) (t : Task) (rest : ℕ)
      → Bounded c (left_any t + rest)
      → Informed c t
      → let (c', t') = advance c t in Informed c' t'
  unfolding advance
  advance-Informed c t rest b h = ground arith

  -- What a rollup has read: words between those of the start and those of now.
  abbrev pub Sampled : UsageCounter → Task → Type 0
  Sampled c (roll_downlink_bytes r) =
      (start.uplink_bytes ≤ r.uplink_bytes) × (r.uplink_bytes ≤ c.uplink_bytes)
  Sampled c (roll_uplink_packets r) =
      (start.uplink_bytes ≤ r.uplink_bytes)
      × (r.uplink_bytes ≤ c.uplink_bytes)
      × (start.downlink_bytes ≤ r.downlink_bytes)
      × (r.downlink_bytes ≤ c.downlink_bytes)
  Sampled c (roll_downlink_packets r) =
      (start.uplink_bytes ≤ r.uplink_bytes)
      × (r.uplink_bytes ≤ c.uplink_bytes)
      × (start.downlink_bytes ≤ r.downlink_bytes)
      × (r.downlink_bytes ≤ c.downlink_bytes)
      × (start.uplink_packets ≤ r.uplink_packets)
      × (r.uplink_packets ≤ c.uplink_packets)
  Sampled c (rolled r) =
      (start.uplink_bytes ≤ r.uplink_bytes)
      × (r.uplink_bytes ≤ c.uplink_bytes)
      × (start.downlink_bytes ≤ r.downlink_bytes)
      × (r.downlink_bytes ≤ c.downlink_bytes)
      × (start.uplink_packets ≤ r.uplink_packets)
      × (r.uplink_packets ≤ c.uplink_packets)
      × (start.downlink_packets ≤ r.downlink_packets)
      × (r.downlink_packets ≤ c.downlink_packets)
      × (r.sample_count ≡ 1)
  Sampled c other = Unit

  Sampled-Grown : (c d : UsageCounter) → Grown c d → (t : Task) → Sampled c t → Sampled d t
  Sampled-Grown c d g t h = ground arith

  advance-Sampled :
      (c : UsageCounter) (t : Task) (rest : ℕ)
      → Bounded c (left_any t + rest)
      → Sampled c t
      → let (c', t') = advance c t in Sampled c' t'
  unfolding advance
  advance-Sampled c t rest b h = ground arith

  -- A predicate of a thread that its own moves keep and that more usage does not refute.
  module _ (P : UsageCounter → Task → Type 0)
      (own : (c : UsageCounter) (t : Task) (rest : ℕ)
        → Bounded c (left_any t + rest)
        → P c t
        → let (c', t') = advance c t in P c' t')
      (grown : (c d : UsageCounter) → Grown c d → (t : Task) → P c t → P d t)
      (first : (c : UsageCounter) (p : Program) → P c (start_task p)) where
    starts : (ps : List Program) → All (P start) (map start_task ps)
    starts [] = tt
    starts (p ∷ ps) = (first start p, starts ps)

    run_threads-holds :
        (ps : List Program) (schedule : List ℕ)
        → all_usage start + sum_by left_any (map start_task ps) < u64_mod
        → let (c', ts') = run_threads advance (start, map start_task ps) schedule in All (P c') ts'
    run_threads-holds ps schedule small =
        run_threads-All advance left_any Bounded (λ c t rest b. (advance-Bounded c t rest b).0) P
          own (λ c t rest b. grown c (advance c t).0 (advance-Bounded c t rest b).1) start
          (map start_task ps) schedule ground (arith, small) (starts ps)

  perform-breaches :
      (a : Access) (c : UsageCounter) → (perform a c).threshold_breaches ≡ c.threshold_breaches
  unfolding perform
  perform-breaches a c = ground arith

  -- The breaches counted, with the alerts reported since the start.
  abbrev Counts : UsageCounter → ℕ → Type 0
  Counts c n = c.threshold_breaches ≡ (start.threshold_breaches + n) % u32_mod

  advance-Counts :
      (c : UsageCounter) (t : Task) (rest : ℕ)
      → Counts c (alerts t + rest)
      → let (c', t') = advance c t in Counts c' (alerts t' + rest)
  unfolding advance
  advance-Counts c (updating (a ∷ writes)) rest h = omega (arith, h, perform-breaches a c)
  advance-Counts c t rest h = ground arith

  no_alerts : (ps : List Program) → sum_by alerts (map start_task ps) ≡ 0
  unfolding start_task
  no_alerts [] = refl
  no_alerts (p ∷ ps) = ground (arith, no_alerts ps)

  run_threads-Counts :
      (ps : List Program) (schedule : List ℕ)
      → start.threshold_breaches < u32_mod
      → let (c', ts') = run_threads advance (start, map start_task ps) schedule in
        Counts c' (sum_by alerts ts')
  run_threads-Counts ps schedule word =
      run_threads-keeps advance alerts Counts advance-Counts start (map start_task ps) schedule
        (omega (arith, no_alerts ps, word))

-- Where the four words of usage and all that the threads have to add stay below 2^64 together, and
-- threads update, check and roll up the counter in any interleaving of their accesses: a check that
-- has reported a breach, or is about to, is right about the usage as it is now, one that has reported
-- none is right about the usage at the start, and the count of breaches, below 2^32 at the start, has
-- grown by the number of those reported, modulo 2^32.
pub interleaved_checks :
    (c : UsageCounter) (ps : List Program) (schedule : List ℕ)
    → all_usage c + sum_by left_any (map start_task ps) < u64_mod
    → c.threshold_breaches < u32_mod
    → let (c', ts') = run_threads advance (c, map start_task ps) schedule in
      All (Informed c c') ts'
      × (c'.threshold_breaches ≡ (c.threshold_breaches + sum_by alerts ts') % u32_mod)
unfolding start_task
interleaved_checks c ps schedule small word = (
  run_threads-holds c (Informed c) (advance-Informed c) (Informed-Grown c) (λ d p. ground arith) ps
      schedule small,
  run_threads-Counts c ps schedule word,
)

-- Where the four words of usage and all that the threads have to add stay below 2^64 together, each word that a
-- rollup has read, in any interleaving of the accesses of the threads, lies between the counter's at the start and
-- the counter's now.
pub interleaved_rollups :
    (c : UsageCounter) (ps : List Program) (schedule : List ℕ)
    → all_usage c + sum_by left_any (map start_task ps) < u64_mod
    → let (c', ts') = run_threads advance (c, map start_task ps) schedule in All (Sampled c c') ts'
unfolding start_task
interleaved_rollups c ps schedule small =
    run_threads-holds c (Sampled c) (advance-Sampled c) (Sampled-Grown c) (λ d p. ground arith) ps
      schedule small
