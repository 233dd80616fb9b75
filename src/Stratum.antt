-- ===== src/Stratum.antt =====
-- src/stratum.rs: the connection to the pool. Times are milliseconds on one clock; a
-- `duration_since` of a later time is 0, as `-` on ℕ.
pub mod Backoff
pub mod Requests
pub mod Rejects
pub mod Report
pub mod Lines
pub mod Messages
pub mod Session
mod Examples
