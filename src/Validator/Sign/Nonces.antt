-- ===== src/Validator/Sign/Nonces.antt =====
-- When nonces are burned (crates/validator/src/state/sign.rs).
use safenet.Prelude.{ℕ, ◌≡◌, Option, none, some, [], ◌∷◌, arith}
use safenet.Prelude.BTree.{get, get-insert}
use safenet.Alloy.{B256}
use safenet.Validator.Frost.{Frost}
use safenet.Validator.State.{
  Transition, State, SigningState, collect_nonce_commitments, collect_signing_shares, effect,
  Effect,
}
use safenet.Validator.Sign.{SignCommittedNoncesEvent, handle_sign_committed_nonces}

module _ ⦃F : Frost⦄ where
  -- The session, if it collects nonce commitments or signature shares for a signature id.
  abbrev pub collects_for : Option SigningState → Option B256
  collects_for (some (collect_nonce_commitments c)) = some c.signature_id
  collects_for _ = none

  abbrev pub shares_for : Option SigningState → Option B256
  shares_for (some (collect_signing_shares c)) = some c.signature_id
  shares_for _ = none

  -- The effect to use the nonces of a signature id is emitted for a nonce commitment only if the
  -- session of its message collected commitments for that signature id before, and afterwards
  -- collects signature shares for it and no commitments.
  pub handle_sign_committed_nonces-use_nonces :
      (self : Transition) (s : State) (block : ℕ) (e : SignCommittedNoncesEvent) (m sid : B256)
      → (handle_sign_committed_nonces self s block e).1 ≡ effect (Effect.use_nonces m sid) ∷ []
      → (collects_for (get m s.signing) ≡ some sid)
        × (shares_for (get m (handle_sign_committed_nonces self s block e).0.signing) ≡ some sid)
        × (collects_for (get m (handle_sign_committed_nonces self s block e).0.signing) ≡ none)
  unfolding handle_sign_committed_nonces
  handle_sign_committed_nonces-use_nonces self s block e m sid h =
      (grind (arith, get-insert), grind (arith, get-insert), grind (arith, get-insert))
