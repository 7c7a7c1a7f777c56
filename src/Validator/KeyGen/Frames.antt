-- ===== src/Validator/KeyGen/Frames.antt =====
-- What the key generation handlers leave alone (crates/validator/src/state/keygen.rs).
use safenet.Prelude.{ℕ, ◌≡◌, Option, arith}
use safenet.Prelude.BTree.{BTreeSet}
use safenet.Alloy.{Alloy, B256}
use safenet.Consensus.Epoch.{EpochId}
use safenet.Consensus.Group.{ParticipantSet}
use safenet.Validator.Frost.{Frost}
use safenet.Validator.State.{Transition, State}
use safenet.Validator.KeyGen.Start.{start_key_gen, restart_key_gen_excluding}
use safenet.Validator.KeyGen.Rounds.{
  KeyGenCommittedEvent, KeyGenSecretSharedEvent, handle_genesis_key_gen, handle_key_gen_setup,
  handle_key_gen_committed, handle_key_gen_secret_shared,
}
use safenet.Validator.KeyGen.Complaints.{
  KeyGenComplainedEvent, KeyGenComplaintRespondedEvent, handle_key_gen_complained,
  handle_key_gen_complaint_responded, finish_confirmation,
}
use safenet.Validator.KeyGen.Timeouts.{handle_key_gen_timeouts}
use safenet.Validator.KeyGen.Rollover.{handle_rollover_new_block}

module _ ⦃F : Frost⦄ where
  -- The sessions, their index and the epochs are as they were.
  pub record IsFramed (s t : State) : Type 0 where
    pub epochs : t.epochs ≡ s.epochs
    pub signing : t.signing ≡ s.signing
    pub index : t.signature_id_to_message ≡ s.signature_id_to_message

  -- The active epoch is, too.
  pub record IsRolloverOnly (s t : State) : Type 0 where
    pub framed : IsFramed s t
    pub active_epoch : t.active_epoch ≡ s.active_epoch

module _ ⦃A : Alloy⦄ ⦃F : Frost⦄ where
  start_key_gen-IsRolloverOnly :
      (self : Transition) (s : State) (e : EpochId) (p : ParticipantSet) (d : Option ℕ)
      → IsRolloverOnly s (start_key_gen self s e p d).0
  unfolding start_key_gen
  start_key_gen-IsRolloverOnly self s e p d = ground arith

  pub restart-IsRolloverOnly :
      (self : Transition) (s : State) (e : EpochId) (x : BTreeSet) (d : Option ℕ)
      → IsRolloverOnly s (restart_key_gen_excluding self s e x d).0
  unfolding restart_key_gen_excluding
  restart-IsRolloverOnly self s e x d = ground arith

  pub genesis_key_gen-IsRolloverOnly :
      (self : Transition) (s : State) (gid : B256)
      → IsRolloverOnly s (handle_genesis_key_gen self s gid).0
  unfolding handle_genesis_key_gen
  genesis_key_gen-IsRolloverOnly self s gid = ground arith

  pub setup-IsRolloverOnly :
      (self : Transition) (s : State) (gid : B256) (x : F.Secrets)
      → IsRolloverOnly s (handle_key_gen_setup self s gid x).0
  unfolding handle_key_gen_setup
  setup-IsRolloverOnly self s gid x = ground arith

  pub committed-IsRolloverOnly :
      (self : Transition) (s : State) (block : ℕ) (e : KeyGenCommittedEvent)
      → IsRolloverOnly s (handle_key_gen_committed self s block e).0
  unfolding handle_key_gen_committed
  committed-IsRolloverOnly self s block e = ground arith

  pub shared-IsRolloverOnly :
      (self : Transition) (s : State) (block : ℕ) (e : KeyGenSecretSharedEvent)
      → IsRolloverOnly s (handle_key_gen_secret_shared self s block e).0
  unfolding handle_key_gen_secret_shared
  shared-IsRolloverOnly self s block e = ground arith

  pub complained-IsRolloverOnly :
      (self : Transition) (s : State) (block : ℕ) (e : KeyGenComplainedEvent)
      → IsRolloverOnly s (handle_key_gen_complained self s block e).0
  unfolding handle_key_gen_complained
  complained-IsRolloverOnly self s block e = grind (arith, restart-IsRolloverOnly)

  pub responded-IsRolloverOnly :
      (self : Transition) (s : State) (block : ℕ) (e : KeyGenComplaintRespondedEvent)
      → IsRolloverOnly s (handle_key_gen_complaint_responded self s block e).0
  unfolding handle_key_gen_complaint_responded finish_confirmation
  responded-IsRolloverOnly self s block e = grind (arith, restart-IsRolloverOnly)

  pub timeouts-IsRolloverOnly :
      (self : Transition) (s : State) (block : ℕ)
      → IsRolloverOnly s (handle_key_gen_timeouts self s block).0
  unfolding handle_key_gen_timeouts
  timeouts-IsRolloverOnly self s block = grind (arith, restart-IsRolloverOnly)

  pub new_block-IsFramed :
      (self : Transition) (s : State) (block : ℕ)
      → IsFramed s (handle_rollover_new_block self s block).0
  unfolding handle_rollover_new_block
  new_block-IsFramed self s block = ground arith
