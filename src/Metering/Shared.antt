-- ===== src/Metering/Shared.antt =====
-- One usage counter that several threads use at once: src/metering/ubb_meter.cpp calls its updates lock-free.
pub mod Tasks
pub mod Updates
pub mod Alerts
pub mod Slots
pub mod Creation
pub mod Existing
mod Examples
