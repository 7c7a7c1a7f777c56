-- ===== src/Validator/Rollovers.antt =====
-- How the rollover state moves (crates/validator/src/state/keygen.rs).
pub mod Clock
pub mod Activation
pub mod Restart
pub mod Tolerance
