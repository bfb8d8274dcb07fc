-- ===== src/Dpi/Shared.antt =====
-- One classifier that several threads call: its counts are atomic, and degraded mode is one atomic flag.
pub mod Calls
pub mod Tallies
mod Examples
