-- ===== src/Analytics/Shared/Samples.antt =====
-- No sample of a shared flow is lost: the interleavings of samples and reports against the samples one after
-- the other.
use virtual_service_gateway.Common.{
  ℕ, ◌+◌, ◌%◌, ◌<◌, ◌≡◌, ◌∙◌, refl, sym, ap, subst, List, [], ◌∷◌, map, All, length, sum_by, arith,
  u32_mod, u64_mod, ◌==◌, if◌then◌else◌,
}
use virtual_service_gateway.Common.Threads.{run_threads, run_threads-keeps}
use virtual_service_gateway.Common.Turns.{Enough}
use virtual_service_gateway.Common.Writes.{perform_all, perform_all-append, perform_all-keeps}
use virtual_service_gateway.Common.Faults.{Result, ok, fault}
use virtual_service_gateway.Analytics.Flow.{FlowMetrics, FlowKpi, add_sample}
use virtual_service_gateway.Analytics.Reports.{loss_percent}
use virtual_service_gateway.Analytics.Invariant.{IsFlow}
use virtual_service_gateway.Analytics.Samples.{bucket_count, bucket-add_latency, small_buckets}
use virtual_service_gateway.Analytics.Shared.Finish.{
  length-add_latency, IsDone, steps, run_threads-IsDone,
}
use virtual_service_gateway.Analytics.Shared.Tasks.{
  Access, add_packet, add_packet_size, count_loss, count_latency, perform, Arrival, sample_accesses,
  accesses, Task, recording, load_losses, report_percent, advance, Program, record_samples, report,
  start_task, add_samples, run_sequentially,
}

-- The words that samples add to.
pub data Word : Type 0 where
  packets : Word
  bytes : Word
  losses : Word
  latencies : (bucket : ℕ) → Word

abbrev pub word : Word → FlowMetrics → ℕ
word packets m = m.packet_count
word bytes m = m.byte_count
word losses m = m.loss_count
word (latencies b) m = bucket_count m b

-- The modulus of a word.
abbrev pub wrap : Word → ℕ
wrap packets = u64_mod
wrap bytes = u64_mod
wrap losses = u32_mod
wrap (latencies b) = u32_mod

-- The metrics have the word.
abbrev pub HasWord : Word → FlowMetrics → Type 0
HasWord (latencies b) m = b < length m.latency_buckets
HasWord w m = Unit

-- What an access adds to a word.
abbrev pub adds : Word → Access → ℕ
adds packets add_packet = 1
adds bytes (add_packet_size packet_size) = packet_size
adds losses count_loss = 1
adds (latencies b) (count_latency bucket) = if bucket == b then 1 else 0
adds w a = 0

-- What a thread still has to add to a word.
abbrev pub left : Word → Task → ℕ
left w (recording writes) = sum_by (adds w) writes
left w other = 0

-- A word in range that is what it was with `n` more to come.
abbrev Owes : Word → ℕ → FlowMetrics → ℕ → Type 0
Owes w total m n = HasWord w m × (word w m < wrap w) × ((word w m + n) % wrap w ≡ total)

perform-Owes :
    (w : Word) (total : ℕ) (a : Access) (m : FlowMetrics) (rest : ℕ)
    → Owes w total m (adds w a + rest)
    → Owes w total (perform a m) rest
unfolding perform
perform-Owes (latencies b) total (count_latency bucket) m rest h = ground (
  arith,
  length-add_latency m.latency_buckets bucket,
  bucket-add_latency m.latency_buckets bucket b h.0,
)
perform-Owes w total a m rest h = ground arith

-- Reduced numbers with one remainder.
wrapped_eq :
    (w : Word) (a b : ℕ) → a < wrap w → b < wrap w → (a + 0) % wrap w ≡ (b + 0) % wrap w → a ≡ b
wrapped_eq w a b lo hi e = ground arith

sample_accesses-add_sample :
    (a : Arrival) (m : FlowMetrics)
    → perform_all perform (sample_accesses a) m ≡ add_sample a.sample a.now m
unfolding sample_accesses perform add_sample
sample_accesses-add_sample a m = ground arith

pub accesses-add_samples :
    (arrivals : List Arrival) (m : FlowMetrics)
    → perform_all perform (accesses arrivals) m ≡ add_samples arrivals m
unfolding accesses add_samples
accesses-add_samples [] m = refl
accesses-add_samples (a ∷ rest) m =
    perform_all-append perform (sample_accesses a) (accesses rest) m
    ∙ ap (perform_all perform (accesses rest)) (sample_accesses-add_sample a m)
    ∙ accesses-add_samples rest (add_sample a.sample a.now m)

module _ (w : Word) where
  pub report_percent-left : (kpi : FlowKpi) (r : Result ℕ) → left w (report_percent kpi r) ≡ 0
  unfolding report_percent
  report_percent-left kpi (ok percent) = refl
  report_percent-left kpi (fault e) = refl

  advance-Owes :
      (total : ℕ) (m : FlowMetrics) (t : Task) (rest : ℕ)
      → Owes w total m (left w t + rest)
      → let (m', t') = advance m t in Owes w total m' (left w t' + rest)
  unfolding advance
  advance-Owes total m (recording []) rest h = h
  advance-Owes total m (recording (a ∷ writes)) rest h =
      let e : adds w a + sum_by (adds w) writes + rest
          ≡ adds w a + (sum_by (adds w) writes + rest) =
        omega arith in
      perform-Owes w total a m (sum_by (adds w) writes + rest) (subst (Owes w total m) e h)
  advance-Owes total m (load_losses kpi) rest h =
      let same = report_percent-left kpi (loss_percent m.loss_count kpi.packet_count) in
      let e : 0 + rest
          ≡ left w (report_percent kpi (loss_percent m.loss_count kpi.packet_count)) + rest =
        omega (arith, same) in
      subst (Owes w total m) e h
  advance-Owes total m t rest h = ground arith

  run_sequentially-Owes :
      (total : ℕ) (ps : List Program) (m : FlowMetrics)
      → Owes w total m (sum_by (left w) (map start_task ps))
      → Owes w total (run_sequentially ps m) 0
  unfolding run_sequentially start_task
  run_sequentially-Owes total [] m h = h
  run_sequentially-Owes total (record_samples arrivals ∷ ps) m h =
      run_sequentially-Owes total ps (add_samples arrivals m) (
        subst (λ d. Owes w total d (sum_by (left w) (map start_task ps)))
          (accesses-add_samples arrivals m)
          (perform_all-keeps perform (adds w) (Owes w total)
            (λ a d rest. perform-Owes w total a d rest) (accesses arrivals) m _ h))
  run_sequentially-Owes total (report kpi ∷ ps) m h =
      let n = sum_by (left w) (map start_task ps) in
      let e : 0 + n ≡ n = omega arith in
      run_sequentially-Owes total ps m (subst (Owes w total m) e h)

  IsDone-left : (ts : List Task) → All IsDone ts → sum_by (left w) ts ≡ 0
  IsDone-left [] h = refl
  IsDone-left (recording [] ∷ ts) h = omega (arith, IsDone-left ts h.1)
  IsDone-left (recording (a ∷ writes) ∷ ts) h = absurd (cc (h.0))
  IsDone-left (t ∷ ts) h = ground (arith, IsDone-left ts h.1)

  interleaved_word :
      (m : FlowMetrics) (ps : List Program) (schedule : List ℕ)
      → HasWord w m
      → word w m < wrap w
      → let (m', ts') = run_threads advance (m, map start_task ps) schedule in
        All IsDone ts' → word w m' ≡ word w (run_sequentially ps m)
  interleaved_word m ps schedule has small done =
      let (m', ts') = run_threads advance (m, map start_task ps) schedule in
      let n = sum_by (left w) (map start_task ps) in
      let start : Owes w ((word w m + n) % wrap w) m n = (has, small, refl) in
      let shared : Owes w ((word w m + n) % wrap w) m' (sum_by (left w) ts') =
        run_threads-keeps advance (left w) (Owes w _) (advance-Owes _) m (map start_task ps)
          schedule start in
      let shared' = subst (Owes w _ m') (IsDone-left ts' done) shared in
      let whole = run_sequentially-Owes _ ps m start in
      wrapped_eq w _ _ shared'.1 whole.1 (shared'.2 ∙ sym (whole.2))

in_range : (w : Word) (m : FlowMetrics) → IsFlow m → HasWord w m → word w m < wrap w
in_range packets m v has = v.packets
in_range bytes m v has = v.bytes
in_range losses m v has = v.losses
in_range (latencies b) m v has = small_buckets m b v

-- Any threads that record samples of one well-formed flow and report it, in any interleaving of their accesses
-- in which each has as many turns as it needs: all of them finish, and the flow's packets, bytes, losses and
-- latency buckets are then what the samples make of them one after the other, each whole.
pub interleaved_samples :
    (m : FlowMetrics) (ps : List Program) (schedule : List ℕ)
    → IsFlow m
    → Enough steps 0 (map start_task ps) schedule
    → let (m', ts') = run_threads advance (m, map start_task ps) schedule in
      All IsDone ts' × ((w : Word) → HasWord w m → word w m' ≡ word w (run_sequentially ps m))
interleaved_samples m ps schedule v enough =
    let done = run_threads-IsDone m (map start_task ps) schedule v.buckets enough in
    (done, λ w has. interleaved_word w m ps schedule has (in_range w m v has) done)
