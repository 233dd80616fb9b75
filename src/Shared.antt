-- ===== src/Shared.antt =====
-- src/shared.rs: the state between the stratum client and the worker threads.
pub mod Job
pub mod Claims
pub mod Gate
mod Examples
pub mod Feed
pub mod Best
pub mod Plan
