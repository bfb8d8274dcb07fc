-- ===== src/Analytics/Shared/Stale.antt =====
-- A report of a new flow that loads the number of packets before a sample and the buckets after it.
use virtual_service_gateway.Common.{
  ℕ, zero, suc, ◌≤◌, ◌<◌, ◌≡◌, ◌∙◌, refl, ap, subst, List, [], ◌∷◌, ◌++◌, map, some, length, sum_by,
  arith, replicate, get_elem?,
}
use virtual_service_gateway.Common.Faults.{division_by_zero}
use virtual_service_gateway.Common.Threads.{
  run_threads, repeat, run_threads-alone, run_threads-append,
}
use virtual_service_gateway.Common.Writes.{perform_all}
use virtual_service_gateway.Analytics.Flow.{
  FlowMetrics, FlowKpi, new_flow, latency_bucket, add_latency, add_sample,
}
use virtual_service_gateway.Analytics.Invariant.{new_flow-IsFlow, add_sample-IsFlow}
use virtual_service_gateway.Analytics.Samples.{bucket-add_latency, latency_bucket-lt}
use virtual_service_gateway.Analytics.FlowKpi.{
  total_samples-sum, get_elem?-le-sum, sum-le-length, zero_bucket,
}
use virtual_service_gateway.Analytics.Reports.{total_samples, loss_percent}
use virtual_service_gateway.Analytics.Shared.Tasks.{
  Access, perform, Arrival, sample_accesses, accesses, Task, recording, load_packets, load_bytes,
  failed, report_percent, advance, record_samples, report, start_task, add_samples,
}
use virtual_service_gateway.Analytics.Shared.Samples.{accesses-add_samples}
use virtual_service_gateway.Analytics.Shared.Reports.{conclude_report, load_bytes-alone}

recording-alone :
    (n : ℕ) (m : FlowMetrics) (writes : List Access)
    → length writes ≤ n
    → repeat advance n (m, recording writes) ≡ (perform_all perform writes m, recording [])
unfolding advance
recording-alone zero m [] h = refl
recording-alone zero m (a ∷ writes) h = absurd (omega arith)
recording-alone (suc n) m [] h = recording-alone n m [] (omega arith)
recording-alone (suc n) m (a ∷ writes) h = recording-alone n (perform a m) writes (omega arith)

one_sample :
    (a : Arrival) (m : FlowMetrics)
    → repeat advance 5 (m, recording (accesses (a ∷ [])))
      ≡ (add_sample a.sample a.now m, recording [])
unfolding add_samples accesses sample_accesses
one_sample a m =
    recording-alone 5 m (accesses (a ∷ [])) (ground arith)
    ∙ ap (λ d. (d, recording [])) (accesses-add_samples (a ∷ []) m)

-- The first sample of a new flow is in a bucket.
first_sample :
    (a : Arrival) (start : ℕ)
    → let m = add_sample a.sample a.now (new_flow start) in
      (length m.latency_buckets ≡ 10) × (0 < total_samples 0 m.latency_buckets)
unfolding add_sample new_flow
first_sample a start =
    let v = add_sample-IsFlow a.sample a.now (new_flow start) (new_flow-IsFlow start) in
    let b = latency_bucket a.sample.latency_us in
    let bs = add_latency (replicate 10 0) b in
    let counted : 0 < sum_by (λ n. n) bs = grind (
      arith,
      get_elem?-le-sum bs b,
      bucket-add_latency (replicate 10 0) b b (latency_bucket-lt a.sample.latency_us),
      zero_bucket 10 b,
    ) in
    let positive : 0 < total_samples 0 bs = omega (
      arith,
      counted,
      total_samples-sum 0 bs (omega arith),
      sum-le-length bs v.bucket_words,
      v.buckets,
    ) in
    (v.buckets, positive)

-- A report that has loaded no packets and finds samples divides by zero.
conclude_report-fails :
    (m : FlowMetrics) (kpi : FlowKpi) (total : ℕ)
    → kpi.packet_count ≡ 0
    → 0 < total
    → conclude_report m kpi total ≡ failed division_by_zero
unfolding conclude_report report_percent loss_percent
conclude_report-fails m kpi total none_yet positive = ground arith

module _ (start : ℕ) (kpi : FlowKpi) (a : Arrival) where
  abbrev flow_0 : FlowMetrics
  flow_0 = new_flow start

  abbrev flow_1 : FlowMetrics
  flow_1 = add_sample a.sample a.now flow_0

  abbrev sample_task : Task
  sample_task = recording (accesses (a ∷ []))

  abbrev kpi_0 : FlowKpi
  kpi_0 = record kpi { packet_count = flow_0.packet_count }

  loads_packets :
      run_threads advance (flow_0, sample_task ∷ load_packets kpi ∷ []) (replicate 1 1)
      ≡ (flow_0, sample_task ∷ load_bytes kpi_0 ∷ [])
  unfolding advance
  loads_packets =
      run_threads-alone advance 1 flow_0 (sample_task ∷ load_packets kpi ∷ []) 1 (load_packets kpi)
        refl

  records_sample :
      run_threads advance (flow_0, sample_task ∷ load_bytes kpi_0 ∷ []) (replicate 5 0)
      ≡ (flow_1, recording [] ∷ load_bytes kpi_0 ∷ [])
  records_sample =
      run_threads-alone advance 5 flow_0 (sample_task ∷ load_bytes kpi_0 ∷ []) 0 sample_task refl
      ∙ ap (λ r. (r.0, r.1 ∷ load_bytes kpi_0 ∷ [])) (one_sample a flow_0)

  divides :
      run_threads advance (flow_1, recording [] ∷ load_bytes kpi_0 ∷ []) (replicate 13 1)
      ≡ (flow_1, recording [] ∷ failed division_by_zero ∷ [])
  unfolding new_flow
  divides =
      let (ten, positive) = first_sample a start in
      let alone : repeat advance 13 (flow_1, load_bytes kpi_0) ≡ (
        flow_1,
        conclude_report flow_1 (record kpi_0 { byte_count = flow_1.byte_count })
            (total_samples 0 flow_1.latency_buckets),
      ) =
        subst
          (λ n. repeat advance (suc (suc (suc n))) (flow_1, load_bytes kpi_0) ≡ (
            flow_1,
            conclude_report flow_1 (record kpi_0 { byte_count = flow_1.byte_count })
                (total_samples 0 flow_1.latency_buckets),
          ))
          ten (load_bytes-alone flow_1 kpi_0) in
      run_threads-alone advance 13 flow_1 (recording [] ∷ load_bytes kpi_0 ∷ []) 1
        (load_bytes kpi_0) refl
      ∙ ap (λ r. (r.0, recording [] ∷ r.1 ∷ [])) alone
      ∙ ap (λ t. (flow_1, recording [] ∷ t ∷ []))
          (conclude_report-fails flow_1 (record kpi_0 { byte_count = flow_1.byte_count }) _ refl
            positive)

  -- Whatever sample is recorded while a report of a new flow is under way: if the report has loaded the number
  -- of packets before the sample's first access, and the rest after its last, the report divides by zero.
  pub stale_report_fails :
      get_elem?
        (run_threads advance
          (flow_0, map start_task (record_samples (a ∷ []) ∷ report kpi ∷ []))
          (1 ∷ replicate 5 0 ++ replicate 13 1)).1
        1
      ≡ some (failed division_by_zero)
  unfolding start_task
  stale_report_fails =
      ap (λ sys. get_elem? sys.1 1)
        (run_threads-append advance (flow_0, sample_task ∷ load_packets kpi ∷ []) (replicate 1 1)
            (replicate 5 0 ++ replicate 13 1)
          ∙ ap (λ sys. run_threads advance sys (replicate 5 0 ++ replicate 13 1)) loads_packets
          ∙ run_threads-append advance (flow_0, sample_task ∷ load_bytes kpi_0 ∷ []) (replicate 5 0)
              (replicate 13 1)
          ∙ ap (λ sys. run_threads advance sys (replicate 13 1)) records_sample
          ∙ divides)
