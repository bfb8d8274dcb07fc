-- ===== src/Dpdk/Workers.antt =====
-- The threads of several `WorkerPipeline`s of src/dpdk/worker_pipeline.cpp, which share the static variable
-- `queue_idx` of `rx_burst`, and a thread that stops them. A turn is one access to what they share.
use virtual_service_gateway.Common.{
  ℕ, ◌+◌, ◌-◌, ◌*◌, ◌%◌, ◌≤◌, ◌<◌, ◌≡◌, refl, Bool, false, ◌&&◌, List, [], ◌∷◌, none, some, inl,
  inr, Option-cases, All, length, sum_by, arith, get_elem?, set, All-set, All-get_elem?,
  get_elem?_in_range, ltb, ◌==◌, if◌then◌else◌,
}
use virtual_service_gateway.Common.Threads.{All-map, All-both, run_threads, run_threads-keeps}
use virtual_service_gateway.Common.Turns.{Enough, run_threads-Enough}

-- `queue_idx`, and `running_` of each worker.
pub record Workers : Type 0 where
  pub queue_idx : ℕ
  pub running : List Bool

-- Where a thread stands. A worker, with its position and its `rx_queues`: at the loop's test; in the loop over the
-- queues, with those that are left, before `rx_burst` reads the index for the queue, before it reads it again to
-- advance it, or before it stores the next one; past its loop; or past the end of `rx_queues`. As `rx_burst` returns 0,
-- the rest of the loop's body is not reached. The stopping thread, with the workers that are left.
pub data WorkerTask : Type 0 where
  testing : ℕ → List ℕ → WorkerTask
  reading_queue : ℕ → (rx_queues left : List ℕ) → WorkerTask
  reading_index : ℕ → (rx_queues left : List ℕ) → WorkerTask
  storing_index : ℕ → (rx_queues left : List ℕ) → (next : ℕ) → WorkerTask
  exited : WorkerTask
  out_of_range : WorkerTask
  stopping : List ℕ → WorkerTask

unfoldable pub worker_step : Workers → WorkerTask → Workers × WorkerTask
worker_step s (testing w qs) = (
  s,
  elim (get_elem? s.running w) [
    | none ↦ exited
    | some r ↦ if r then reading_queue w qs qs else exited
  ],
)
worker_step s (reading_queue w qs []) = (s, testing w qs)
worker_step s (reading_queue w qs (q ∷ left)) = (
  s,
  elim (get_elem? qs s.queue_idx) [ none ↦ out_of_range | some queue ↦ reading_index w qs left ],
)
worker_step s (reading_index w qs left) =
    (s, storing_index w qs left ((s.queue_idx + 1) % length qs))
worker_step s (storing_index w qs left next) =
    (record s { queue_idx = next }, reading_queue w qs left)
worker_step s exited = (s, exited)
worker_step s out_of_range = (s, out_of_range)
worker_step s (stopping []) = (s, stopping [])
worker_step s (stopping (w ∷ ws)) = (record s { running = set s.running w false }, stopping ws)

-- One for a thread that has left the range of its queues, or may: one that has not `n` queues, or is about to store an
-- index that is no position among as many.
abbrev pub misfits : ℕ → WorkerTask → ℕ
misfits n (testing w qs) = if length qs == n then 0 else 1
misfits n (reading_queue w qs left) = if length qs == n then 0 else 1
misfits n (reading_index w qs left) = if length qs == n then 0 else 1
misfits n (storing_index w qs left next) = if length qs == n && ltb next n then 0 else 1
misfits n exited = 0
misfits n out_of_range = 1
misfits n (stopping ws) = 0

-- A thread that is in range.
abbrev pub IsInRange : WorkerTask → Type 0
IsInRange out_of_range = ⊥
IsInRange other = Unit

module _ (n : ℕ) where
  abbrev Fits : Workers → ℕ → Type 0
  Fits s k = (s.queue_idx < n) × (k ≡ 0)

  worker_step-Fits :
      (s : Workers) (t : WorkerTask) (rest : ℕ)
      → Fits s (misfits n t + rest)
      → let (s', t') = worker_step s t in Fits s' (misfits n t' + rest)
  unfolding worker_step
  worker_step-Fits s (reading_queue w qs (q ∷ left)) rest h =
      let sized : length qs ≡ n = ground arith in
      let (queue, e) = get_elem?_in_range qs s.queue_idx (omega (arith, h.0, sized)) in
      ground (arith, e)
  worker_step-Fits s t rest h = ground arith

  no_misfits : (ts : List WorkerTask) → sum_by (misfits n) ts ≡ 0 → All IsInRange ts
  no_misfits [] h = tt
  no_misfits (out_of_range ∷ ts) h = absurd (omega (arith, h))
  no_misfits (t ∷ ts) h = (ground arith, no_misfits ts (omega (arith, h)))

-- The threads of workers with the given queues, from the position `w` on, and the thread that stops the workers `ws`.
unfoldable pub threads : ℕ → List (List ℕ) → List ℕ → List WorkerTask
threads w [] ws = stopping ws ∷ []
threads w (qs ∷ configs) ws = testing w qs ∷ threads (w + 1) configs ws

threads-misfits :
    (n w : ℕ) (configs : List (List ℕ)) (ws : List ℕ)
    → All (λ qs. length qs ≡ n) configs
    → sum_by (misfits n) (threads w configs ws) ≡ 0
unfolding threads
threads-misfits n w [] ws h = omega arith
threads-misfits n w (qs ∷ configs) ws h = ground (arith, threads-misfits n (w + 1) configs ws h.1)

-- The turns that a thread needs at most once no worker is to run.
abbrev pub turns_left : WorkerTask → ℕ
turns_left (testing w qs) = 1
turns_left (reading_queue w qs left) = 3 * length left + 2
turns_left (reading_index w qs left) = 3 * length left + 4
turns_left (storing_index w qs left next) = 3 * length left + 3
turns_left exited = 0
turns_left out_of_range = 0
turns_left (stopping ws) = length ws

abbrev pub AllStopped : Workers → Type 0
AllStopped s = All (λ r. r ≡ false) s.running

worker_step-AllStopped :
    (s : Workers) (t : WorkerTask) → AllStopped s → AllStopped (worker_step s t).0
unfolding worker_step
worker_step-AllStopped s (stopping (w ∷ ws)) h = All-set (λ r. r ≡ false) s.running w false h refl
worker_step-AllStopped s t h = ground (arith, h)

worker_step-turns_left :
    (s : Workers) (t : WorkerTask)
    → AllStopped s
    → turns_left (worker_step s t).1 ≤ turns_left t - 1
unfolding worker_step
worker_step-turns_left s (testing w qs) h = elim (Option-cases (get_elem? s.running w)) [
  | inl e ↦ ground (arith, e)
  | inr (r, e) ↦ ground (arith, e, All-get_elem? (λ b. b ≡ false) s.running w r h e)
]
worker_step-turns_left s (reading_queue w qs (q ∷ left)) h = ground arith
worker_step-turns_left s t h = ground arith

-- A worker whose loop has ended, or a thread that has stopped all that it is to stop.
abbrev pub IsStopped : WorkerTask → Type 0
IsStopped exited = Unit
IsStopped (stopping ws) = ws ≡ []
IsStopped other = ⊥

turns_left-IsStopped : (t : WorkerTask) → (turns_left t ≤ 0) × IsInRange t → IsStopped t
turns_left-IsStopped (stopping []) h = refl
turns_left-IsStopped (stopping (w ∷ ws)) h = absurd (omega (arith, h.0))
turns_left-IsStopped t h = ground (arith, h)

module _ (n : ℕ) (s : Workers) (configs : List (List ℕ)) (ws : List ℕ) (before : List ℕ)
    (index_in_range : s.queue_idx < n) (same_size : All (λ qs. length qs ≡ n) configs) where
  run_threads-Fits :
      let (s', ts') = run_threads worker_step (s, threads 0 configs ws) before in
      Fits n s' (sum_by (misfits n) ts')
  run_threads-Fits =
      run_threads-keeps worker_step (misfits n) (Fits n) (worker_step-Fits n) s
        (threads 0 configs ws) before (index_in_range, threads-misfits n 0 configs ws same_size)

  -- Workers with the same number of queues, and an index in range of it, in any interleaving of their accesses to the
  -- index and of a thread that stops some of them: no worker reads past the end of its queues.
  pub workers-IsInRange : All IsInRange (run_threads worker_step (s, threads 0 configs ws) before).1
  workers-IsInRange =
      no_misfits n (run_threads worker_step (s, threads 0 configs ws) before).1 run_threads-Fits.1

  -- Workers with the same number of queues, with an index in range of it, in any interleaving, from a moment on at
  -- which no worker is to run any more: after as many turns of its own as `turns_left` says each worker has left its
  -- loop and none has read past the end of its queues, and the other thread has stopped all that it is to stop.
  pub workers_stop :
      (rest : List ℕ)
      → AllStopped (run_threads worker_step (s, threads 0 configs ws) before).0
      → Enough turns_left 0 (run_threads worker_step (s, threads 0 configs ws) before).1 rest
      → All IsStopped
          (run_threads worker_step
            (run_threads worker_step (s, threads 0 configs ws) before)
            rest).1
  workers_stop rest stopped enough =
      let (s1, ts1) = run_threads worker_step (s, threads 0 configs ws) before in
      let ts2 = (run_threads worker_step (s1, ts1) rest).1 in
      let fits =
        run_threads-keeps worker_step (misfits n) (Fits n) (worker_step-Fits n) s1 ts1 rest
          run_threads-Fits in
      let finished =
        run_threads-Enough turns_left worker_step AllStopped worker_step-AllStopped
          worker_step-turns_left s1 ts1 rest stopped enough in
      All-map ts2 turns_left-IsStopped (All-both _ IsInRange ts2 finished (no_misfits n ts2 fits.1))
