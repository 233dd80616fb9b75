-- ===== src/Tuning.antt =====
-- src/tuning.rs: the layout of the tables at each window, and the tuning of one card.
pub mod Layout
pub mod Tuner
mod Examples
