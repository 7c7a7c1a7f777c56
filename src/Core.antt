-- ===== src/Core.antt =====
-- The library that the services share (crates/core): the indexer's updates, the state machine and
-- its snapshots, and the submission of transactions.
pub mod Updates
pub mod Snapshots
pub mod Blocks
pub mod Events
pub mod Watcher
pub mod Status
pub mod Machine
pub mod Tx
