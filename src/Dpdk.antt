-- ===== src/Dpdk.antt =====
-- The DPDK layer: src/dpdk and its headers.
pub mod Calls
pub mod Mempool
pub mod Pools
pub mod Buffers
pub mod Batches
pub mod Lifecycle
pub mod RingQueue
pub mod Fifo
pub mod PmdDriver
pub mod Ports
pub mod Closing
pub mod Worker
pub mod Bursts
pub mod Workers
pub mod Tallies
pub mod Idle
pub mod Pipeline
mod Examples
