-- ===== src/Validator/Frost.antt =====
-- What the validator's state machine calls of crates/validator/src/frost, which wraps the FROST
-- crate: its opaque types, and its operations. `none` stands for an error. Nothing is assumed.
use safenet.Prelude.{ℕ, List, Option}
use safenet.Prelude.BTree.{BTreeMap}
use safenet.Alloy.{Address, B256, U256, Point}

pub record Frost : Type 1 where
  pub Secrets : Type 0
  pub VerifiedCommitment : Type 0
  pub VerifiedShare : Type 0
  pub SharingState : Type 0
  pub GroupCommitments : Type 0
  pub KeyShare : Type 0
  pub EncryptedSecretShares : Type 0
  pub CommittedNonces : Type 0
  pub SigningNonces : Type 0
  -- The published forms of bindings.rs.
  pub Commitment : Type 0
  pub SecretShare : Type 0
  pub SignNonces : Type 0
  pub SignSelection : Type 0
  pub SignatureShare : Type 0
  -- `Secrets::commitment`
  pub commitment : Secrets → Commitment
  pub verify_commitment : Address → Commitment → Option VerifiedCommitment
  pub generate_secret_shares :
      Secrets → BTreeMap VerifiedCommitment → Option (SharingState × SecretShare)
  pub group_commitments : BTreeMap VerifiedCommitment → Option GroupCommitments
  -- `SharingState::group_commitments`
  pub sharing_group_commitments : SharingState → GroupCommitments
  pub group_key : GroupCommitments → Point
  pub verify_secret_share : GroupCommitments → Address → SecretShare → Option EncryptedSecretShares
  pub verify_encrypted_secret_share :
      SharingState → Address → EncryptedSecretShares → Option VerifiedShare
  pub verify_revealed_secret_share :
      GroupCommitments → Address → Address → U256 → Option VerifiedShare
  pub reveal_secret_share : SharingState → Address → Option U256
  pub finalize : SharingState → BTreeMap VerifiedShare → Option KeyShare
  -- `KeyShare::group_threshold`
  pub group_threshold : KeyShare → ℕ
  pub verify_committed_nonces : Address → SignNonces → Option CommittedNonces
  pub signature_share :
      KeyShare
      → SigningNonces
      → BTreeMap CommittedNonces
      → B256
      → Option (SignSelection × SignatureShare × List B256)
