-- ===== src/Modifications.antt =====
-- examples/dpdk_common_modifications.h: header extraction, classification, metering, statistics and the
-- pipeline that joins them.
pub mod Headers
pub mod Classes
pub mod Bounds
pub mod Stats
pub mod Addresses
pub mod Pipeline
pub mod Safety
pub mod Rounds
pub mod Stale
pub mod ByteOrder
pub mod Quota
pub mod Queues
pub mod Prefetch
pub mod FlowHash
mod Examples
