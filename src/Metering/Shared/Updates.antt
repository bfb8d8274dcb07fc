-- ===== src/Metering/Shared/Updates.antt =====
-- No update of a shared counter is lost: the interleavings of updates, checks and rollups against the updates
-- one after the other.
use virtual_service_gateway.Common.{
  ℕ, ◌+◌, ◌%◌, ◌-◌, ◌≤◌, ◌<◌, ◌≡◌, refl, ap, subst, ◌∙◌, true, false, List, [], ◌∷◌, map, All,
  length, sum_by, arith, u64_mod,
}
use virtual_service_gateway.Common.Threads.{All-map, run_threads, run_threads-keeps}
use virtual_service_gateway.Common.Turns.{Enough, run_threads-Enough}
use virtual_service_gateway.Common.Writes.{perform_all, perform_all-append, perform_all-keeps}
use virtual_service_gateway.Metering.Counter.{UsageCounter, add_usage}
use virtual_service_gateway.Metering.Shared.Tasks.{
  Access, add_uplink_bytes, add_uplink_packet, add_downlink_bytes, add_downlink_packet, perform,
  Update, update_accesses, accesses, Task, updating, load_uplink, load_downlink, count_breach,
  answered, roll_uplink_bytes, roll_downlink_bytes, roll_uplink_packets, roll_downlink_packets,
  rolled, advance, Program, updates, check, roll, start_task, update_all, run_sequentially,
}

-- The four words that updates add to.
pub data Word : Type 0 where
  up_bytes : Word
  down_bytes : Word
  up_packets : Word
  down_packets : Word

abbrev pub word : Word → UsageCounter → ℕ
word up_bytes c = c.uplink_bytes
word down_bytes c = c.downlink_bytes
word up_packets c = c.uplink_packets
word down_packets c = c.downlink_packets

-- What an access adds to a word.
abbrev pub adds : Word → Access → ℕ
adds up_bytes (add_uplink_bytes bytes) = bytes
adds up_packets add_uplink_packet = 1
adds down_bytes (add_downlink_bytes bytes) = bytes
adds down_packets add_downlink_packet = 1
adds w a = 0

-- What a thread still has to add to a word.
abbrev pub left : Word → Task → ℕ
left w (updating writes) = sum_by (adds w) writes
left w other = 0

-- The accesses that a thread needs at most.
abbrev pub steps : Task → ℕ
steps (updating writes) = length writes
steps (load_uplink threshold) = 3
steps (load_downlink threshold uplink) = 2
steps (count_breach threshold) = 1
steps (answered threshold result) = 0
steps (roll_uplink_bytes r) = 4
steps (roll_downlink_bytes r) = 3
steps (roll_uplink_packets r) = 2
steps (roll_downlink_packets r) = 1
steps (rolled r) = 0

advance-steps : (c : UsageCounter) (t : Task) → steps (advance c t).1 ≤ steps t - 1
unfolding advance
advance-steps c t = ground arith

-- A thread that has no access left.
abbrev pub IsDone : Task → Type 0
IsDone (updating writes) = writes ≡ []
IsDone (answered threshold result) = Unit
IsDone (rolled r) = Unit
IsDone other = ⊥

steps-IsDone : (t : Task) → steps t ≤ 0 → IsDone t
steps-IsDone (updating []) h = refl
steps-IsDone (updating (a ∷ writes)) h = absurd (omega arith)
steps-IsDone t h = ground arith

update_accesses-add_usage :
    (u : Update) (c : UsageCounter)
    → perform_all perform (update_accesses u) c ≡ add_usage u.bytes u.uplink u.now c
unfolding update_accesses perform add_usage
update_accesses-add_usage u c =
    elim u.uplink
      as (λ b.
        perform_all perform (update_accesses (record u { uplink = b })) c
        ≡ add_usage u.bytes b u.now c) [ true ↦ refl | false ↦ refl ]

accesses-update_all :
    (us : List Update) (c : UsageCounter) → perform_all perform (accesses us) c ≡ update_all us c
unfolding accesses update_all
accesses-update_all [] c = refl
accesses-update_all (u ∷ us) c =
    perform_all-append perform (update_accesses u) (accesses us) c
    ∙ ap (perform_all perform (accesses us)) (update_accesses-add_usage u c)
    ∙ accesses-update_all us (add_usage u.bytes u.uplink u.now c)

module _ (w : Word) where
  -- A word in range that is what it was with `n` more to come.
  abbrev pub Owes : ℕ → UsageCounter → ℕ → Type 0
  Owes total c n = (word w c < u64_mod) × ((word w c + n) % u64_mod ≡ total)

  pub perform-Owes :
      (total rest : ℕ) (a : Access) (c : UsageCounter)
      → Owes total c (adds w a + rest)
      → Owes total (perform a c) rest
  unfolding perform
  perform-Owes total rest a c h = ground arith

  advance-Owes :
      (total : ℕ) (c : UsageCounter) (t : Task) (rest : ℕ)
      → Owes total c (left w t + rest)
      → let (c', t') = advance c t in Owes total c' (left w t' + rest)
  unfolding advance
  advance-Owes total c (updating []) rest h = h
  advance-Owes total c (updating (a ∷ writes)) rest h =
      perform-Owes total (sum_by (adds w) writes + rest) a c (h.0, omega (arith, h.1))
  advance-Owes total c t rest h = ground arith

  run_threads-Owes :
      (total : ℕ) (c : UsageCounter) (ts : List Task) (schedule : List ℕ)
      → Owes total c (sum_by (left w) ts)
      → let (c', ts') = run_threads advance (c, ts) schedule in Owes total c' (sum_by (left w) ts')
  run_threads-Owes total c ts schedule h =
      run_threads-keeps advance (left w) (Owes total) (advance-Owes total) c ts schedule h

  run_sequentially-Owes :
      (total : ℕ) (ps : List Program) (c : UsageCounter)
      → Owes total c (sum_by (left w) (map start_task ps))
      → Owes total (run_sequentially ps c) 0
  unfolding run_sequentially start_task
  run_sequentially-Owes total [] c h = h
  run_sequentially-Owes total (updates us ∷ ps) c h =
      run_sequentially-Owes total ps (update_all us c) (
        subst (λ d. Owes total d (sum_by (left w) (map start_task ps))) (accesses-update_all us c)
          (perform_all-keeps perform (adds w) (Owes total) (λ a d rest. perform-Owes total rest a d)
            (accesses us) c _ h))
  run_sequentially-Owes total (check threshold ∷ ps) c h =
      run_sequentially-Owes total ps c (h.0, omega (arith, h.1))
  run_sequentially-Owes total (roll opened ∷ ps) c h =
      run_sequentially-Owes total ps c (h.0, omega (arith, h.1))

  IsDone-left : (ts : List Task) → All IsDone ts → sum_by (left w) ts ≡ 0
  IsDone-left [] h = refl
  IsDone-left (updating [] ∷ ts) h = omega (arith, IsDone-left ts h.1)
  IsDone-left (updating (a ∷ writes) ∷ ts) h = absurd (cc (h.0))
  IsDone-left (t ∷ ts) h = ground (arith, IsDone-left ts h.1)

  interleaved_word :
      (c : UsageCounter) (ps : List Program) (schedule : List ℕ)
      → word w c < u64_mod
      → let (c', ts') = run_threads advance (c, map start_task ps) schedule in
        All IsDone ts' → word w c' ≡ word w (run_sequentially ps c)
  interleaved_word c ps schedule small done =
      let (c', ts') = run_threads advance (c, map start_task ps) schedule in
      let n = sum_by (left w) (map start_task ps) in
      let start : Owes ((word w c + n) % u64_mod) c n = (small, refl) in
      let shared = run_threads-Owes _ c (map start_task ps) schedule start in
      let whole = run_sequentially-Owes _ ps c start in
      omega (arith, shared.0, shared.1, whole.0, whole.1, IsDone-left ts' done)

-- Threads that update one counter, check its threshold and roll it up, in any interleaving of their accesses
-- in which each has as many turns as it needs accesses: all of them finish, and each of the four words of usage,
-- that starts below 2^64, is then what the updates make of it one after the other, each whole.
pub interleaved_updates :
    (c : UsageCounter) (ps : List Program) (schedule : List ℕ)
    → ((w : Word) → word w c < u64_mod)
    → Enough steps 0 (map start_task ps) schedule
    → let (c', ts') = run_threads advance (c, map start_task ps) schedule in
      All IsDone ts' × ((w : Word) → word w c' ≡ word w (run_sequentially ps c))
interleaved_updates c ps schedule small enough =
    let (c', ts') = run_threads advance (c, map start_task ps) schedule in
    let done : All IsDone ts' = All-map ts' steps-IsDone (
      run_threads-Enough steps advance (λ d. Unit) (λ d t p. tt) (λ d t p. advance-steps d t) c
        (map start_task ps) schedule tt enough) in
    (done, λ w. interleaved_word w c ps schedule (small w) done)
