-- ===== src/Forwarder/Program.antt =====
-- The whole of `main` of examples/minimal_dpdk.cpp: start-up, the three cores, the end.
pub mod Setup
pub mod Statistics
pub mod Main
pub mod Closing
pub mod Ending
mod Examples
