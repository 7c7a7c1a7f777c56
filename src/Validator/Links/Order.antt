-- ===== src/Validator/Links/Order.antt =====
-- The order of the sessions under the transitions of crates/validator/src/state/mod.rs.
use safenet.Prelude.{ℕ, arith}
use safenet.Prelude.BTree.Sorted.{From, insert-From, remove-From}
use safenet.Alloy.{Alloy, Address, B256}
use safenet.Validator.Frost.{Frost}
use safenet.Validator.State.{Transition, State}
use safenet.Validator.Sign.{
  SignEvent, handle_sign, handle_sign_completed, OracleResultEvent, handle_oracle_result,
  SignCommittedNoncesEvent, handle_sign_committed_nonces, SignSharedEvent, handle_sign_shared,
  handle_sign_attested, handle_nonce_commitments, handle_nonces,
}
use safenet.Validator.Sign.Timeouts.{handle_signing_timeouts}
use safenet.Validator.Sign.Sweep.{retain-From}
use safenet.Validator.KeyGen.Frames.{
  IsFramed, genesis_key_gen-IsRolloverOnly, setup-IsRolloverOnly, committed-IsRolloverOnly,
  shared-IsRolloverOnly, complained-IsRolloverOnly, responded-IsRolloverOnly,
  timeouts-IsRolloverOnly, new_block-IsFramed,
}
use safenet.Validator.KeyGen.Rollover.{
  KeyGenConfirmedEvent, EpochStagedEvent, handle_key_gen_confirmed, handle_epoch_staged,
  handle_rollover_new_block,
}
use safenet.Validator.KeyGen.Timeouts.{handle_key_gen_timeouts}
use safenet.Validator.Transactions.{
  TransactionProposedEvent, handle_transaction_proposed, handle_transaction_attested,
  attested_message,
}
use safenet.Validator.Reconcile.{handle_group_reconciliation}
use safenet.Validator.Step.{
  Event, Message, Resume, apply_event, apply_new_block, apply_resume, apply_transition, new_block,
  event, resume,
}

module _ ⦃F : Frost⦄ where
  pub sorted-sign :
      (self : Transition) (s : State) (block : ℕ) (e : SignEvent)
      → From 0 s.signing
      → From 0 (handle_sign self s block e).0.signing
  unfolding handle_sign
  sorted-sign self s block e f = grind (arith, insert-From, remove-From)

  pub sorted-completed :
      (self : Transition) (s : State) (block : ℕ) (sid : B256)
      → From 0 s.signing
      → From 0 (handle_sign_completed self s block sid).0.signing
  unfolding handle_sign_completed
  sorted-completed self s block sid f = grind (arith, insert-From, remove-From)

  pub sorted-oracle :
      (self : Transition) (s : State) (block : ℕ) (o : Address) (e : OracleResultEvent)
      → From 0 s.signing
      → From 0 (handle_oracle_result self s block o e).0.signing
  unfolding handle_oracle_result
  sorted-oracle self s block o e f = grind (arith, insert-From, remove-From)

  pub sorted-committed :
      (self : Transition) (s : State) (block : ℕ) (e : SignCommittedNoncesEvent)
      → From 0 s.signing
      → From 0 (handle_sign_committed_nonces self s block e).0.signing
  unfolding handle_sign_committed_nonces
  sorted-committed self s block e f = grind (arith, insert-From, remove-From)

  pub sorted-shared :
      (s : State) (e : SignSharedEvent)
      → From 0 s.signing
      → From 0 (handle_sign_shared s e).0.signing
  unfolding handle_sign_shared
  sorted-shared s e f = grind (arith, insert-From, remove-From)

  pub sorted-attested :
      (s : State) (m : B256) → From 0 s.signing → From 0 (handle_sign_attested s m).0.signing
  unfolding handle_sign_attested
  sorted-attested s m f = grind (arith, insert-From, remove-From)

module _ ⦃A : Alloy⦄ ⦃F : Frost⦄ where
  sorted-confirmed :
      (self : Transition) (s : State) (block : ℕ) (e : KeyGenConfirmedEvent)
      → From 0 s.signing
      → From 0 (handle_key_gen_confirmed self s block e).0.signing
  unfolding handle_key_gen_confirmed
  sorted-confirmed self s block e f = grind (arith, insert-From)

  sorted-staged :
      (s : State) (e : EpochStagedEvent)
      → From 0 s.signing
      → From 0 (handle_epoch_staged s e).0.signing
  unfolding handle_epoch_staged
  sorted-staged s e f = grind (arith, remove-From)

  sorted-proposed :
      (self : Transition) (s : State) (block : ℕ) (e : TransactionProposedEvent)
      → From 0 s.signing
      → From 0 (handle_transaction_proposed self s block e).0.signing
  unfolding handle_transaction_proposed
  sorted-proposed self s block e f = grind (arith, insert-From)

  framed-From : (s t : State) → IsFramed s t → From 0 s.signing → From 0 t.signing
  framed-From s t f h = rw f.signing h

  event-From :
      (self : Transition) (s : State) (block : ℕ) (e : Event)
      → From 0 s.signing
      → From 0 (apply_event self s block e).0.signing
  unfolding apply_event handle_transaction_attested
  event-From self s block (Event.key_gen gid) f =
      framed-From _ _ (genesis_key_gen-IsRolloverOnly self s gid).framed f
  event-From self s block (Event.key_gen_committed e) f =
      framed-From _ _ (committed-IsRolloverOnly self s block e).framed f
  event-From self s block (Event.key_gen_secret_shared e) f =
      framed-From _ _ (shared-IsRolloverOnly self s block e).framed f
  event-From self s block (Event.key_gen_confirmed e) f = sorted-confirmed self s block e f
  event-From self s block (Event.key_gen_complained e) f =
      framed-From _ _ (complained-IsRolloverOnly self s block e).framed f
  event-From self s block (Event.key_gen_complaint_responded e) f =
      framed-From _ _ (responded-IsRolloverOnly self s block e).framed f
  event-From self s block (Event.sign e) f = sorted-sign self s block e f
  event-From self s block (Event.sign_committed_nonces e) f = sorted-committed self s block e f
  event-From self s block (Event.sign_shared e) f = sorted-shared s e f
  event-From self s block (Event.sign_completed sid) f = sorted-completed self s block sid f
  event-From self s block (Event.epoch_staged e) f = sorted-staged s e f
  event-From self s block (Event.transaction_proposed e) f = sorted-proposed self s block e f
  event-From self s block (Event.transaction_attested e) f =
      sorted-attested s (attested_message self e) f
  event-From self s block (Event.oracle_result o e) f = sorted-oracle self s block o e f
  event-From self s block Event.other_event f = f

  pub apply_transition-From :
      (self : Transition) (s : State) (message : Message)
      → From 0 s.signing
      → From 0 (apply_transition self s message).0.signing
  unfolding apply_transition apply_new_block apply_resume handle_group_reconciliation handle_nonces
      handle_nonce_commitments handle_signing_timeouts
  apply_transition-From self s (event block e) f = event-From self s block e f
  apply_transition-From self s (new_block block) f =
      let s1 = (handle_rollover_new_block self s block).0 in
      let s2 = (handle_key_gen_timeouts self s1 block).0 in
      retain-From self block 0 s2.signing s2.signature_id_to_message (
        framed-From s1 s2 (timeouts-IsRolloverOnly self s1 block).framed
          (framed-From s s1 (new_block-IsFramed self s block) f))
  apply_transition-From self s (resume Resume.noop) f = f
  apply_transition-From self s (resume (Resume.setup gid x)) f =
      framed-From _ _ (setup-IsRolloverOnly self s gid x).framed f
  apply_transition-From self s (resume (Resume.nonce_commitments sid n)) f = ground arith
  apply_transition-From self s (resume (Resume.nonces m n)) f = ground arith
