-- ===== src/Validator/KeyGen.antt =====
-- Key generation and epoch rollover (crates/validator/src/state/keygen.rs).
pub mod Start
pub mod Rounds
pub mod Complaints
pub mod Rollover
pub mod Timeouts
pub mod Frames
