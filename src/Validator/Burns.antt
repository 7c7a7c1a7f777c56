-- ===== src/Validator/Burns.antt =====
-- How often a signature id's nonces are burned (`Effect::UseNonces` of
-- crates/validator/src/state/sign.rs), over any sequence of messages.
pub mod Count
pub mod Signing
pub mod Others
pub mod Trace
