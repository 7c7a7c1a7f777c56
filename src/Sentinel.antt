-- ===== src/Sentinel.antt =====
-- The sentinel service (crates/sentinel): the state machine of the requests it votes on.
pub mod State
pub mod Voting
pub mod Outcomes
pub mod Service
pub mod Trace
mod Tests
