-- ===== src/Metering.antt =====
-- src/metering/ubb_meter.cpp and include/ubb_meter.h: usage counters per subscriber and service.
pub mod Key
pub mod Counter
pub mod Meter
pub mod Lookup
pub mod Invariant
pub mod History
pub mod Billing
pub mod Order
pub mod Totals
pub mod Rollups
pub mod Growth
pub mod Shared
mod Examples
