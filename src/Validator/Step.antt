-- ===== src/Validator/Step.antt =====
-- The transition function (`apply_transition` of crates/validator/src/state/mod.rs).
use safenet.Prelude.{ℕ, [], ◌++◌}
use safenet.Alloy.{Alloy, Address, B256}
use safenet.Validator.Frost.{Frost}
use safenet.Validator.State.{Transition, State, Result}
use safenet.Validator.Sign.{
  SignEvent, OracleResultEvent, SignSharedEvent, SignCommittedNoncesEvent, handle_sign,
  handle_sign_committed_nonces, handle_sign_shared, handle_sign_completed, handle_oracle_result,
  handle_nonce_commitments, handle_nonces,
}
use safenet.Validator.Sign.Timeouts.{handle_signing_timeouts}
use safenet.Validator.KeyGen.Rounds.{
  KeyGenCommittedEvent, KeyGenSecretSharedEvent, handle_genesis_key_gen, handle_key_gen_setup,
  handle_key_gen_committed, handle_key_gen_secret_shared,
}
use safenet.Validator.KeyGen.Complaints.{
  KeyGenComplainedEvent, KeyGenComplaintRespondedEvent, handle_key_gen_complained,
  handle_key_gen_complaint_responded,
}
use safenet.Validator.KeyGen.Rollover.{
  KeyGenConfirmedEvent, EpochStagedEvent, handle_key_gen_confirmed, handle_epoch_staged,
  handle_rollover_new_block,
}
use safenet.Validator.KeyGen.Timeouts.{handle_key_gen_timeouts}
use safenet.Validator.Transactions.{
  TransactionProposedEvent, TransactionAttestedEvent, handle_transaction_proposed,
  handle_transaction_attested,
}
use safenet.Validator.Reconcile.{handle_group_reconciliation}

module _ ⦃F : Frost⦄ where
  -- The events that have a handler; `other_event` stands for the rest.
  pub data Event : Type 0 where
    key_gen : B256 → Event
    key_gen_committed : KeyGenCommittedEvent → Event
    key_gen_secret_shared : KeyGenSecretSharedEvent → Event
    key_gen_confirmed : KeyGenConfirmedEvent → Event
    key_gen_complained : KeyGenComplainedEvent → Event
    key_gen_complaint_responded : KeyGenComplaintRespondedEvent → Event
    sign : SignEvent → Event
    sign_committed_nonces : SignCommittedNoncesEvent → Event
    sign_shared : SignSharedEvent → Event
    -- the signature id
    sign_completed : B256 → Event
    epoch_staged : EpochStagedEvent → Event
    transaction_proposed : TransactionProposedEvent → Event
    transaction_attested : TransactionAttestedEvent → Event
    -- the contract that emitted it, and the event
    oracle_result : Address → OracleResultEvent → Event
    other_event : Event

  pub data Resume : Type 0 where
    noop : Resume
    setup : B256 → F.Secrets → Resume
    nonce_commitments : B256 → F.SignNonces → Resume
    nonces : B256 → F.SigningNonces → Resume

  pub data Message : Type 0 where
    new_block : ℕ → Message
    -- the event's block, and the event
    event : ℕ → Event → Message
    resume : Resume → Message

module _ ⦃A : Alloy⦄ ⦃F : Frost⦄ where
  unfoldable pub apply_event : Transition → State → ℕ → Event → Result
  apply_event self s block (key_gen gid) = handle_genesis_key_gen self s gid
  apply_event self s block (key_gen_committed e) = handle_key_gen_committed self s block e
  apply_event self s block (key_gen_secret_shared e) = handle_key_gen_secret_shared self s block e
  apply_event self s block (key_gen_confirmed e) = handle_key_gen_confirmed self s block e
  apply_event self s block (key_gen_complained e) = handle_key_gen_complained self s block e
  apply_event self s block (key_gen_complaint_responded e) =
      handle_key_gen_complaint_responded self s block e
  apply_event self s block (sign e) = handle_sign self s block e
  apply_event self s block (sign_committed_nonces e) = handle_sign_committed_nonces self s block e
  apply_event self s block (sign_shared e) = handle_sign_shared s e
  apply_event self s block (sign_completed sid) = handle_sign_completed self s block sid
  apply_event self s block (epoch_staged e) = handle_epoch_staged s e
  apply_event self s block (transaction_proposed e) = handle_transaction_proposed self s block e
  apply_event self s block (transaction_attested e) = handle_transaction_attested self s e
  apply_event self s block (oracle_result oracle e) = handle_oracle_result self s block oracle e
  apply_event self s block other_event = (s, [])

  unfoldable pub apply_new_block : Transition → State → ℕ → Result
  apply_new_block self s block =
      let (s1, rollover_commands) = handle_rollover_new_block self s block in
      let (s2, key_gen_commands) = handle_key_gen_timeouts self s1 block in
      let (s3, signing_commands) = handle_signing_timeouts self s2 block in
      let (s4, reconciliation_commands) = handle_group_reconciliation s3 block in
      (s4, rollover_commands ++ (key_gen_commands ++ (signing_commands ++ reconciliation_commands)))

  unfoldable pub apply_resume : Transition → State → Resume → Result
  apply_resume self s noop = (s, [])
  apply_resume self s (setup group_id secrets) = handle_key_gen_setup self s group_id secrets
  apply_resume self s (nonce_commitments sid published) = handle_nonce_commitments s sid published
  apply_resume self s (nonces message signing_nonces) = handle_nonces self s message signing_nonces

  unfoldable pub apply_transition : Transition → State → Message → Result
  unfolding apply_event apply_new_block apply_resume
  apply_transition self s (event block e) = apply_event self s block e
  apply_transition self s (new_block block) = apply_new_block self s block
  apply_transition self s (resume r) = apply_resume self s r
