-- ===== src/Tests.antt =====
-- Concrete packets, payloads and runs, on which the theorems about them are applied.
pub mod Data
pub mod Packets
pub mod Payloads
pub mod Numbers
pub mod Runs
pub mod Calls
pub mod Sessions
