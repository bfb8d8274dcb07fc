-- ===== src/Analytics/Shared/Sound.antt =====
-- Reports of a flow that has packets: none divides by zero, whatever other threads record meanwhile.
use virtual_service_gateway.Common.{
  ℕ, ◌+◌, ◌≤◌, ◌<◌, List, [], ◌∷◌, map, inl, inr, All, sum_by, arith, u64_mod, get_elem?,
  Option-cases,
}
use virtual_service_gateway.Common.Threads.{run_threads, run_threads-All}
use virtual_service_gateway.Analytics.Flow.{FlowMetrics, FlowKpi}
use virtual_service_gateway.Analytics.Reports.{loss_percent}
use virtual_service_gateway.Analytics.Shared.Tasks.{
  Task, recording, load_bytes, load_buckets, load_losses, reported, failed, report_percent, advance,
  Program, record_samples, report, start_task,
}
use virtual_service_gateway.Analytics.Shared.Samples.{packets, left, report_percent-left}
use virtual_service_gateway.Analytics.Shared.Losses.{perform-packets}

module _ (start : FlowMetrics) where
  abbrev Bounded : FlowMetrics → ℕ → Type 0
  Bounded m n = (start.packet_count ≤ m.packet_count) × (m.packet_count + n < u64_mod)

  -- The packets of a report, once loaded.
  abbrev pub Between : FlowMetrics → FlowKpi → Type 0
  Between m kpi = (start.packet_count ≤ kpi.packet_count) × (kpi.packet_count ≤ m.packet_count)

  -- No report has failed, and those under way have packets between those of the start and those of now.
  abbrev pub Sound : FlowMetrics → Task → Type 0
  Sound m (load_bytes kpi) = Between m kpi
  Sound m (load_buckets kpi total bucket) = Between m kpi
  Sound m (load_losses kpi) = Between m kpi
  Sound m (reported kpi) = Between m kpi
  Sound m (failed e) = ⊥
  Sound m other = Unit

  module _ (seen : 0 < start.packet_count) where
    report_percent-Sound :
        (m : FlowMetrics) (kpi : FlowKpi)
        → Between m kpi
        → Sound m (report_percent kpi (loss_percent m.loss_count kpi.packet_count))
    unfolding report_percent loss_percent
    report_percent-Sound m kpi h = ground (arith, seen)

    advance-Sound :
        (m : FlowMetrics) (t : Task) (rest : ℕ)
        → Bounded m (left packets t + rest)
        → Sound m t
        → let (m', t') = advance m t in Sound m' t'
    unfolding advance
    advance-Sound m (load_losses kpi) rest b h = report_percent-Sound m kpi h
    advance-Sound m (load_buckets kpi total bucket) rest b h =
        elim (Option-cases (get_elem? m.latency_buckets bucket)) [
          | inl e ↦ ground (arith, e)
          | inr (n, e) ↦ ground (arith, e)
        ]
    advance-Sound m t rest b h = ground arith

    advance-Bounded :
        (m : FlowMetrics) (t : Task) (rest : ℕ)
        → Bounded m (left packets t + rest)
        → let (m', t') = advance m t in
          Bounded m' (left packets t' + rest) × (m.packet_count ≤ m'.packet_count)
    unfolding advance
    advance-Bounded m (recording []) rest b = (b, omega arith)
    advance-Bounded m (recording (a ∷ writes)) rest b =
        omega (arith, b, perform-packets a m (omega (arith, b.1)))
    advance-Bounded m (load_losses kpi) rest b =
        omega
          (arith, b, report_percent-left packets kpi (loss_percent m.loss_count kpi.packet_count))
    advance-Bounded m t rest b = ground arith

    Sound-grown :
        (m d : FlowMetrics) → m.packet_count ≤ d.packet_count → (t : Task) → Sound m t → Sound d t
    Sound-grown m d g t h = ground arith

    starts-Sound : (ps : List Program) → All (Sound start) (map start_task ps)
    unfolding start_task
    starts-Sound [] = tt
    starts-Sound (record_samples arrivals ∷ ps) = (tt, starts-Sound ps)
    starts-Sound (report kpi ∷ ps) = (tt, starts-Sound ps)

    -- Where a flow has packets, and these with those to come stay below 2^64, no report fails in any interleaving of
    -- samples and reports, and the packets of each report lie between the flow's at the start and the flow's now.
    pub interleaved_reports :
        (ps : List Program) (schedule : List ℕ)
        → start.packet_count + sum_by (left packets) (map start_task ps) < u64_mod
        → let (m', ts') = run_threads advance (start, map start_task ps) schedule in
          All (Sound m') ts'
    interleaved_reports ps schedule small =
        run_threads-All advance (left packets) Bounded
          (λ m t rest b. (advance-Bounded m t rest b).0) Sound advance-Sound
          (λ m t rest b. Sound-grown m (advance m t).0 (advance-Bounded m t rest b).1) start
          (map start_task ps) schedule (omega arith, small) (starts-Sound ps)
