-- ===== src/Solve.antt =====
-- src/solve.rs: solo mining of one published template. The height script, the template and the
-- block that a share makes.
pub mod Script
pub mod Template
pub mod Dates
mod Examples
