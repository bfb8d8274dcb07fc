-- ===== src/Analytics/Shared.antt =====
-- One flow's metrics that several threads use at once: src/analytics/qoe_collector.cpp keeps them in atomics.
pub mod Tasks
pub mod Finish
pub mod Losses
pub mod Reports
pub mod Sound
pub mod Stale
pub mod Samples
mod Examples
