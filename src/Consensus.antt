-- ===== src/Consensus.antt =====
-- src/consensus.rs: the choice of proof of work, header serialization, targets, the coinbase
-- height and merkle folding.
pub mod Pow
pub mod Header
pub mod Target
pub mod Height
pub mod Difficulty
pub mod Merkle
mod Examples
