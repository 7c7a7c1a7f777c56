-- ===== src/Validator.antt =====
-- The validator service (crates/validator).
pub mod Frost
pub mod State
pub mod Sign
pub mod KeyGen
pub mod Transactions
pub mod Reconcile
pub mod Step
pub mod Links
pub mod Burns
pub mod Rollovers
pub mod Proposals
pub mod Retention
mod Tests
