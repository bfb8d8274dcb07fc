-- ===== src/Lib.antt =====
-- The vSG gateway: a DPDK data plane with usage metering, deep packet inspection and quality-of-
-- experience analytics.
--
-- The program's parts are classes, most of which src/main.cpp creates side by side. The worker
-- pipelines (src/dpdk/worker_pipeline.cpp) are to receive bursts from the ports of the poll-mode
-- driver (src/dpdk/pmd_driver.cpp), with buffers from the pools of src/dpdk/mempool_manager.cpp, and
-- hand them to packet processors. These are an interface (PacketProcessor) without an
-- implementation in the repository; for them are meant UBBMeter (src/metering/ubb_meter.cpp), which
-- accounts bytes, DPIClassifier (src/dpi/classifier_pipeline.cpp), which classifies payloads, and
-- QoECollector (src/analytics/qoe_collector.cpp), which records samples. So the classes are
-- modelled one by one, and their common start in `main`.
--
-- Two programs under examples stand on their own. examples/minimal_dpdk.cpp is a forwarder: one core
-- receives from a port and enqueues to a ring, another dequeues, swaps the addresses and transmits,
-- and a signal stops both. examples/dpdk_common_modifications.h has functions to extend it: header
-- extraction, classification by ports, metering, statistics, and a pipeline that uses them all.
--
-- Files, with the code that they model:
--   Common      shared names: words of 16, 32 and 64 bits (add32 is addition modulo 2^32), lists and
--               association lists over native numbers, and `Result`, whose faults are what C++ leaves
--               undefined or ends the program at (a division by zero, an index out of bounds, a null
--               pointer, a shift by the width, a signed overflow, an assignment to a joinable thread).
--               Threads runs threads over a shared state, an access at a time, by any schedule, and has
--               the rules for invariants and for what a thread relies on; Turns has that for the end of all.
--   Metering    UBBMeter. Key is CounterKey of include/ubb_meter.h; Counter has UsageCounter, UsageRollup
--               and the parts of the methods that work on one of them; Meter has the methods,
--               under their names. The hash table `counters_` is an association list on keys, with
--               one entry per key. History has the runs of calls and the bill of a pair. Shared has
--               one counter between threads: Tasks cuts `update_counter`, `check_threshold` and
--               `rollup` at their atomic accesses, Slots has `update_counter` and `reset_counter` on
--               a pair whose entry other threads create and erase, with the shared pointers' owners:
--               `find`, `operator[]`, the assignment, the release of the old pointer, each load of the
--               entry's pointer and each access through it are steps of their own.
--   Dpi         DPIClassifier. Matcher is `match_signatures` with its byte search; Classifier has the
--               other methods; Parser and Loader are `load_signatures` with the stream operations
--               that it uses; Printing is the text of a signature file, as it is written. A payload is
--               the list of its readable bytes, none for a null pointer. Shared has `classify` between
--               threads, cut at its accesses to flag and counts.
--   Analytics   QoECollector. Flow has the records and what a sample does to one flow; Collector has the
--               methods that change the collector, Reports those that read it. Shared has one
--               flow between threads: `record_sample` and `get_flow_kpi`, cut at their accesses.
--   Dpdk        Mempool (MempoolManager), PmdDriver (PMDDriver), Worker, Lifecycle and Workers (WorkerPipeline;
--               Workers has the threads of several, with the static index that they share),
--               RingQueue over the interface RteRing, and Buffers (MempoolManager's buffers and
--               BatchProcessor; the `userdata` of an mbuf may be null). Calls has sequences of driver calls that end at the first failure.
--   Gateway     src/main.cpp: the start, and in MainLoop the main loop with the signals that end it.
--   Ethernet    a packet's buffer and the swap of its addresses, for the two examples.
--   Forwarder   examples/minimal_dpdk.cpp. Cores has `lcore_rx` and `lcore_tx` as program counters and
--               moves, each with at most one access to the ring or the port (the test of `force_quit` is
--               one move with the poll or dequeue that follows); a run is any interleaving of moves and signals. Startup has the functions up to the launch of the cores and the cleanup; Program
--               has the requests for the pool and the ring, `lcore_stats`, and `main` as a whole.
--   Modifications   examples/dpdk_common_modifications.h. Headers (`extract_packet_headers`), Classes
--               (`classify_packet`), Stats, Addresses (`mac_swap`, `mac_rewrite`), Queues
--               (`rx_multi_queue`), Prefetch (`process_burst_optimized`), FlowHash and Pipeline
--               (`example_complete_pipeline`). An mbuf is a position in a memory of packets, a
--               header pointer an mbuf with an offset; the byte order of the host is an argument.
--
-- State and results: a method takes the object's record and returns it with its result. Unsigned
-- arithmetic keeps its wrap-around. A clock reading, `rand()` and the elapsed time are arguments. A
-- local variable that the source leaves uninitialised is an argument as well (`storage`, `junk`), so
-- that what depends on it can be said. What DPDK does is a parameter: the pool that a creation
-- returns, which calls fail given the calls made before, the packet length, and what a processor does.
--
-- Fuel and bounds: only `get_aggregated_telemetry` runs on fuel, one round more than there are flows:
-- the index grows by at least one per round while it does not wrap, which it cannot with fewer than
-- 2^31 flows. The other loops are recursions on the list or the count that the source loops over.
-- The rounds of `worker_loop` and of the example pipeline are counted, since nothing in them ends
-- them; a run of the forwarder is a list of turns. Headers are assumed to fit in a buffer of 87 bytes
-- or more where reads are shown to stay inside: 74 bytes are the longest headers before that of
-- layer 4, and 13 bytes of it are read.
--
-- Not modelled: memory orders (each access is one step, also that to `last_update_ns`, which is not
-- atomic in the source), the inner steps of the hash table, and interleavings of updates of the
-- classifier's signatures and guardrails and of the methods of pools and driver; what DPDK itself does;
-- printing, but for the usage reports of the gateway and the statistics of the forwarder; the classes
-- with empty bodies (CounterManager, ReconciliationEngine, DPIWorker, SignatureManager,
-- FlowKPITracker, the telemetry aggregators); and the programs under tests.
pub mod Common
pub mod Metering
pub mod Modifications
pub mod Dpi
pub mod Analytics
pub mod Dpdk
pub mod Gateway
pub mod Ethernet
pub mod Forwarder
