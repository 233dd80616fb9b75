-- ===== src/Worker.antt =====
-- src/worker.rs: the extranonce2 counter, the header of a job and the nonce loop of a CPU thread.
pub mod Extranonce
pub mod Mine
pub mod Role
pub mod Thread
mod Examples
