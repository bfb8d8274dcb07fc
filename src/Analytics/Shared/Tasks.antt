-- ===== src/Analytics/Shared/Tasks.antt =====
-- `record_sample` and `get_flow_kpi` of src/analytics/qoe_collector.cpp on a flow in range, cut at their
-- accesses to its metrics: the fields are atomic, `+=` on one is one access, and between two accesses of a
-- thread others may move.
use virtual_service_gateway.Common.{
  ℕ, ◌+◌, List, [], ◌∷◌, ◌++◌, none, some, add32, add64, ltb, get_elem?, if◌then◌else◌,
}
use virtual_service_gateway.Common.Faults.{Fault, Result, ok, fault}
use virtual_service_gateway.Analytics.Flow.{
  FlowMetrics, FlowKpi, TelemetrySample, latency_bucket, add_latency, add_sample,
}
use virtual_service_gateway.Analytics.Reports.{loss_percent}

-- The writes for a sample.
pub data Access : Type 0 where
  add_packet : Access
  add_packet_size : (packet_size : ℕ) → Access
  stamp : (now : ℕ) → Access
  count_loss : Access
  count_latency : (bucket : ℕ) → Access

unfoldable pub perform : Access → FlowMetrics → FlowMetrics
perform add_packet m = record m { packet_count = add64 m.packet_count 1 }
perform (add_packet_size packet_size) m = record m { byte_count = add64 m.byte_count packet_size }
perform (stamp now) m = record m { last_update_ns = now }
perform count_loss m = record m { loss_count = add32 m.loss_count 1 }
perform (count_latency bucket) m = record m {
  latency_buckets = add_latency m.latency_buckets bucket;
}

-- A call of `record_sample`, with its clock reading.
pub record Arrival : Type 0 where
  pub sample : TelemetrySample
  pub now : ℕ

unfoldable pub sample_accesses : Arrival → List Access
sample_accesses a =
    add_packet
    ∷ add_packet_size a.sample.packet_size
    ∷ stamp a.now
    ∷ (if a.sample.packet_lost
        then count_loss ∷ count_latency (latency_bucket a.sample.latency_us) ∷ []
        else count_latency (latency_bucket a.sample.latency_us) ∷ [])

unfoldable pub accesses : List Arrival → List Access
accesses [] = []
accesses (a ∷ rest) = sample_accesses a ++ accesses rest

-- What is left of a thread's work. A report loads the packets, then the bytes, then one bucket after the other
-- into `total_samples`, then the losses, if there are samples.
pub data Task : Type 0 where
  recording : List Access → Task
  load_packets : FlowKpi → Task
  load_bytes : FlowKpi → Task
  load_buckets : FlowKpi → (total_samples bucket : ℕ) → Task
  load_losses : FlowKpi → Task
  reported : FlowKpi → Task
  failed : Fault → Task

-- The end of `get_flow_kpi`, on the percentage.
unfoldable pub report_percent : FlowKpi → Result ℕ → Task
report_percent kpi (ok percent) = reported (record kpi { loss_percent = percent })
report_percent kpi (fault e) = failed e

-- The next access of a thread; the turn of a report that finds no bucket left has none.
unfoldable pub advance : FlowMetrics → Task → FlowMetrics × Task
advance m (recording []) = (m, recording [])
advance m (recording (a ∷ writes)) = (perform a m, recording writes)
advance m (load_packets kpi) = (m, load_bytes (record kpi { packet_count = m.packet_count }))
advance m (load_bytes kpi) = (m, load_buckets (record kpi { byte_count = m.byte_count }) 0 0)
advance m (load_buckets kpi total bucket) = (
  m,
  elim (get_elem? m.latency_buckets bucket) [
    | none ↦ if ltb 0 total then load_losses kpi else reported kpi
    | some n ↦ load_buckets kpi (add64 total n) (bucket + 1)
  ],
)
advance m (load_losses kpi) = (m, report_percent kpi (loss_percent m.loss_count kpi.packet_count))
advance m (reported kpi) = (m, reported kpi)
advance m (failed e) = (m, failed e)

-- What a thread is given to do: samples one after the other, or a report, in whose local variable the flow's id
-- is assigned.
pub data Program : Type 0 where
  record_samples : List Arrival → Program
  report : FlowKpi → Program

unfoldable pub start_task : Program → Task
start_task (record_samples arrivals) = recording (accesses arrivals)
start_task (report kpi) = load_packets kpi

-- The samples of all threads one after the other, each whole.
unfoldable pub add_samples : List Arrival → FlowMetrics → FlowMetrics
add_samples [] m = m
add_samples (a ∷ rest) m = add_samples rest (add_sample a.sample a.now m)

unfoldable pub run_sequentially : List Program → FlowMetrics → FlowMetrics
run_sequentially [] m = m
run_sequentially (record_samples arrivals ∷ ps) m = run_sequentially ps (add_samples arrivals m)
run_sequentially (report kpi ∷ ps) m = run_sequentially ps m
