-- ===== src/Validator/State.antt =====
-- The snapshotted state of a validator, its messages and its commands
-- (crates/validator/src/state/mod.rs, service/action.rs, service/effect.rs, bindings.rs).
use safenet.Prelude.{ℕ, List, Option, Bool}
use safenet.Prelude.BTree.{BTreeMap, BTreeSet}
use safenet.Alloy.{Address, B256, U256, Bytes, Point, SafeTransaction, Domain}
use safenet.Consensus.Epoch.{EpochId}
use safenet.Consensus.Group.{Group, ParticipantSet, Participant}
use safenet.Validator.Frost.{Frost}

-- `None` and numbers aside, each variant with fields has its record.
pub data Packet : Type 0 where
  -- active epoch, proposed epoch, rollover block, group id, group key
  epoch_rollover : EpochId → ℕ → ℕ → B256 → Point → Packet
  -- epoch, oracle, oracle data, transaction
  transaction : EpochId → Address → Bytes → SafeTransaction → Packet

pub record Complaint : Type 0 where
  pub total : ℕ  -- u16
  pub unresponded : BTreeSet

pub record ConfirmationDeadlines : Type 0 where
  pub complain : ℕ
  pub response : ℕ
  pub confirm : ℕ

pub record SigningSelection : Type 0 where
  pub shares_from : BTreeSet
  pub last_signer : Option Address

pub data RetainedSecrets : Type 0 where
  nonces all : RetainedSecrets

-- `bindings::Callback`
pub record Callback : Type 0 where
  pub target : Address
  pub context : Bytes

pub record ValidatorConfig : Type 0 where
  pub consensus : Address
  pub participants : List Participant
  pub oracles : BTreeSet
  pub blocks_per_epoch : ℕ
  pub key_gen_timeout : ℕ
  pub signing_timeout : ℕ
  pub oracle_timeout : ℕ

-- The machine's configuration, the `self` of every handler.
pub record Transition : Type 0 where
  pub account : Address
  pub genesis : ParticipantSet
  pub consensus : Domain
  pub config : ValidatorConfig

module _ ⦃F : Frost⦄ where
  open F use {
    Secrets, VerifiedCommitment, VerifiedShare, SharingState, GroupCommitments, KeyShare,
    CommittedNonces, SigningNonces, Commitment, SecretShare, SignNonces, SignSelection,
    SignatureShare,
  }

  pub record Epoch : Type 0 where
    pub group : Group
    pub key_share : KeyShare

  pub data KeyGenCommitment : Type 0 where
    -- proof of participation, and the secrets once the setup has resumed
    participating : List B256 → Option Secrets → KeyGenCommitment
    observing : KeyGenCommitment

  pub data KeyGenParticipation : Type 0 where
    participating : SharingState → KeyGenParticipation
    observing : GroupCommitments → KeyGenParticipation

  pub data KeyGenConfirmation : Type 0 where
    observing : KeyGenConfirmation
    collecting : BTreeMap VerifiedShare → KeyGenConfirmation
    confirmed : KeyShare → KeyGenConfirmation

  pub record CollectingCommitments : Type 0 where
    pub next_epoch : EpochId
    pub group : Group
    pub secrets : KeyGenCommitment
    pub commitments : BTreeMap VerifiedCommitment
    pub deadline : Option ℕ

  pub record CollectingShares : Type 0 where
    pub next_epoch : EpochId
    pub group : Group
    pub participation : KeyGenParticipation
    pub shared : BTreeSet
    pub shares : BTreeMap VerifiedShare
    pub complaints : BTreeMap Complaint
    pub deadline : Option ℕ

  pub record CollectingConfirmations : Type 0 where
    pub next_epoch : EpochId
    pub group : Group
    pub participation : KeyGenParticipation
    pub status : KeyGenConfirmation
    pub confirmations : BTreeSet
    pub complaints : BTreeMap Complaint
    pub deadlines : Option ConfirmationDeadlines

  pub record SigningRollover : Type 0 where
    pub next_epoch : ℕ
    pub group : Group
    pub key_share : Option KeyShare
    pub message : B256

  pub data RolloverState : Type 0 where
    waiting_for_genesis : RolloverState
    halted : RolloverState
    epoch_staged : ℕ → RolloverState
    epoch_skipped : ℕ → RolloverState
    collecting_commitments : CollectingCommitments → RolloverState
    collecting_shares : CollectingShares → RolloverState
    collecting_confirmations : CollectingConfirmations → RolloverState
    signing_rollover : SigningRollover → RolloverState

  pub record WaitingForRequest : Type 0 where
    pub key_share : KeyShare
    pub group_id : B256
    pub responsible : Option Address
    pub packet : Packet
    pub oracle_approved : Bool
    pub signers : BTreeSet
    pub deadline : ℕ

  pub record WaitingForOracle : Type 0 where
    pub key_share : KeyShare
    pub oracle : Address
    pub group_id : B256
    pub signature_id : B256
    pub packet : Packet
    pub signers : BTreeSet
    pub deadline : ℕ

  pub record CollectNonceCommitments : Type 0 where
    pub key_share : KeyShare
    pub group_id : B256
    pub signature_id : B256
    pub committed : BTreeMap CommittedNonces
    pub packet : Packet
    pub signers : BTreeSet
    pub deadline : ℕ

  pub record CollectSigningShares : Type 0 where
    pub key_share : KeyShare
    pub group_id : B256
    pub signature_id : B256
    pub committed : BTreeMap CommittedNonces
    pub selections : BTreeMap SigningSelection
    pub packet : Packet
    pub signers : BTreeSet
    pub deadline : ℕ

  pub record WaitingForAttestation : Type 0 where
    pub signature_id : B256
    pub packet : Packet
    pub deadline : ℕ

  pub data SigningState : Type 0 where
    waiting_for_request : WaitingForRequest → SigningState
    waiting_for_oracle : WaitingForOracle → SigningState
    collect_nonce_commitments : CollectNonceCommitments → SigningState
    collect_signing_shares : CollectSigningShares → SigningState
    waiting_for_attestation : WaitingForAttestation → SigningState

  -- `epochs` is keyed by the raw value of the epoch, by which epochs are ordered.
  pub record State : Type 0 where
    pub rollover : RolloverState
    pub active_epoch : EpochId
    pub epochs : BTreeMap Epoch
    pub signing : BTreeMap SigningState
    pub signature_id_to_message : BTreeMap B256

  pub data Action : Type 0 where
    -- participants' root, count, threshold, context, proof of participation, commitment, expiry
    key_gen_and_commit : B256 → ℕ → ℕ → B256 → List B256 → Commitment → Option ℕ → Action
    -- group id, share, expiry
    key_gen_secret_share : B256 → SecretShare → Option ℕ → Action
    -- group id, accused, expiry
    key_gen_complain : B256 → Address → Option ℕ → Action
    -- group id, callback, expiry
    key_gen_confirm : B256 → Option Callback → Option ℕ → Action
    -- group id, plaintiff, secret share, expiry
    key_gen_complaint_response : B256 → Address → U256 → Option ℕ → Action
    -- signature id, nonces, expiry
    commit_nonces : B256 → SignNonces → ℕ → Action
    -- signature id, selection, share, proof, callback, expiry
    sign_share : B256 → SignSelection → SignatureShare → List B256 → Callback → ℕ → Action
    -- group id, message, expiry
    sign : B256 → B256 → ℕ → Action
    -- epoch, oracle, oracle data hash, chain id, safe, SafeTx struct hash, signature id, expiry
    attest_transaction : EpochId → Address → B256 → U256 → Address → B256 → B256 → ℕ → Action
    -- proposed epoch, rollover block, group id, signature id, expiry
    stage_epoch : ℕ → ℕ → B256 → B256 → ℕ → Action
    set_validator_staker : Address → Action

  pub data Effect : Type 0 where
    -- group id, count, threshold
    key_gen_setup : B256 → ℕ → ℕ → Effect
    -- group id, signature id, key share
    generate_nonces : B256 → B256 → KeyShare → Effect
    -- message, signature id
    use_nonces : B256 → B256 → Effect
    -- block, groups
    reconcile_group_secrets : ℕ → BTreeMap RetainedSecrets → Effect

  pub data Command : Type 0 where
    action : Action → Command
    effect : Effect → Command

  abbrev pub Commands : Type 0
  Commands = List Command

  abbrev pub Result : Type 0
  Result = State × Commands
