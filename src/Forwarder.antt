-- ===== src/Forwarder.antt =====
-- examples/minimal_dpdk.cpp: a forwarder whose receiving and transmitting cores share a ring.
pub mod Cores
pub mod Balance
pub mod Order
pub mod Quit
pub mod Counters
pub mod Startup
pub mod BringUp
pub mod Program
mod Examples
