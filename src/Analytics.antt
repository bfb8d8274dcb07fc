-- ===== src/Analytics.antt =====
-- src/analytics/qoe_collector.cpp and include/qoe_analytics.h: flow metrics and the indicators read
-- from them.
pub mod Flow
pub mod Collector
pub mod Reports
pub mod Invariant
pub mod Samples
pub mod FlowKpi
pub mod Service
pub mod Flush
pub mod Telemetry
pub mod Shared
mod Examples
