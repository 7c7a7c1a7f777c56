-- ===== src/Validator/Links.antt =====
-- The index from signature ids to messages (`signature_id_to_message` of
-- crates/validator/src/state/mod.rs) and the sessions: what `handle_sign` enters there and the
-- other handlers remove.
pub mod Inverse
pub mod Handlers
pub mod Sweep
pub mod Order
pub mod Transition
