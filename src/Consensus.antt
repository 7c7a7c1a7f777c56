-- ===== src/Consensus.antt =====
-- The consensus helpers of the validator (crates/validator/src/consensus and merkle.rs).
pub mod Epoch
pub mod Merkle
pub mod Group
pub mod Hashing
mod Tests
