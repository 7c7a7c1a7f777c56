-- ===== src/Core/Tx.antt =====
-- The submission of transactions (crates/core/src/tx): their fees, their bundling, their storage
-- and the queue.
pub mod Types
pub mod Fees
pub mod Bundle
pub mod Storage
pub mod Nonces
pub mod Batches
mod Tests
