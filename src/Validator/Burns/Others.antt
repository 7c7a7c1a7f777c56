-- ===== src/Validator/Burns/Others.antt =====
-- Burns under the handlers of key generation, of transactions and of reconciliation
-- (keygen.rs, transactions.rs and secrets.rs of crates/validator/src/state).
use safenet.Prelude.{ℕ, ◌≡◌, Option, arith}
use safenet.Prelude.BTree.Sorted.{From}
use safenet.Alloy.{Alloy, B256}
use safenet.Validator.Frost.{Frost}
use safenet.Validator.State.{Transition, State}
use safenet.Validator.KeyGen.Start.{restart_key_gen_excluding, confirm_key_gen}
use safenet.Validator.KeyGen.Rounds.{
  KeyGenCommittedEvent, KeyGenSecretSharedEvent, handle_genesis_key_gen, handle_key_gen_setup,
  handle_key_gen_committed, handle_key_gen_secret_shared,
}
use safenet.Validator.KeyGen.Complaints.{
  KeyGenComplainedEvent, KeyGenComplaintRespondedEvent, handle_key_gen_complained,
  handle_key_gen_complaint_responded, finish_confirmation,
}
use safenet.Validator.KeyGen.Rollover.{
  KeyGenConfirmedEvent, EpochStagedEvent, handle_key_gen_confirmed, handle_epoch_staged,
  handle_rollover_new_block,
}
use safenet.Validator.KeyGen.Timeouts.{handle_key_gen_timeouts}
use safenet.Validator.Transactions.{TransactionProposedEvent, handle_transaction_proposed}
use safenet.Validator.Reconcile.{handle_group_reconciliation}
use safenet.Consensus.Epoch.{EpochId}
use safenet.Prelude.BTree.{BTreeSet}
use safenet.Validator.Burns.Count.{
  burns, is_open_at, open_sessions-insert, open_sessions-remove, burns-append,
}
use safenet.Validator.Burns.Signing.{Spends}

module _ ⦃A : Alloy⦄ ⦃F : Frost⦄ where
  restart-burns :
      (self : Transition) (s : State) (e : EpochId) (x : BTreeSet) (d : Option ℕ) (sid : B256)
      → burns sid (restart_key_gen_excluding self s e x d).1 ≡ 0
  unfolding restart_key_gen_excluding burns
  restart-burns self s e x d sid = ground arith

  pub genesis_key_gen-burns :
      (self : Transition) (s : State) (gid sid : B256)
      → burns sid (handle_genesis_key_gen self s gid).1 ≡ 0
  unfolding handle_genesis_key_gen burns
  genesis_key_gen-burns self s gid sid = ground arith

  pub setup-burns :
      (self : Transition) (s : State) (gid : B256) (x : F.Secrets) (sid : B256)
      → burns sid (handle_key_gen_setup self s gid x).1 ≡ 0
  unfolding handle_key_gen_setup burns
  setup-burns self s gid x sid = grind (arith, burns-append)

  pub committed-burns :
      (self : Transition) (s : State) (block : ℕ) (e : KeyGenCommittedEvent) (sid : B256)
      → burns sid (handle_key_gen_committed self s block e).1 ≡ 0
  unfolding handle_key_gen_committed burns
  committed-burns self s block e sid = ground arith

  pub shared-burns :
      (self : Transition) (s : State) (block : ℕ) (e : KeyGenSecretSharedEvent) (sid : B256)
      → burns sid (handle_key_gen_secret_shared self s block e).1 ≡ 0
  unfolding handle_key_gen_secret_shared burns
  shared-burns self s block e sid = grind (arith, burns-append)

  pub complained-burns :
      (self : Transition) (s : State) (block : ℕ) (e : KeyGenComplainedEvent) (sid : B256)
      → burns sid (handle_key_gen_complained self s block e).1 ≡ 0
  unfolding handle_key_gen_complained burns
  complained-burns self s block e sid = grind (arith, restart-burns)

  pub responded-burns :
      (self : Transition) (s : State) (block : ℕ) (e : KeyGenComplaintRespondedEvent) (sid : B256)
      → burns sid (handle_key_gen_complaint_responded self s block e).1 ≡ 0
  unfolding handle_key_gen_complaint_responded finish_confirmation confirm_key_gen burns
  responded-burns self s block e sid = grind (arith, restart-burns)

  pub timeouts-burns :
      (self : Transition) (s : State) (block : ℕ) (sid : B256)
      → burns sid (handle_key_gen_timeouts self s block).1 ≡ 0
  unfolding handle_key_gen_timeouts burns
  timeouts-burns self s block sid = grind (arith, restart-burns)

  pub new_block-burns :
      (self : Transition) (s : State) (block : ℕ) (sid : B256)
      → burns sid (handle_rollover_new_block self s block).1 ≡ 0
  unfolding handle_rollover_new_block burns
  new_block-burns self s block sid = ground arith

  pub reconciliation-burns :
      (s : State) (block : ℕ) (sid : B256) → burns sid (handle_group_reconciliation s block).1 ≡ 0
  unfolding handle_group_reconciliation burns
  reconciliation-burns s block sid = ground arith

  pub proposed-Spends :
      (self : Transition) (s : State) (block : ℕ) (e : TransactionProposedEvent) (sid : B256)
      → From 0 s.signing
      → Spends sid s 0 (handle_transaction_proposed self s block e)
  unfolding handle_transaction_proposed burns is_open_at
  proposed-Spends self s block e sid f = grind (arith, open_sessions-insert)

  pub staged-Spends :
      (s : State) (e : EpochStagedEvent) (sid : B256)
      → From 0 s.signing
      → Spends sid s 0 (handle_epoch_staged s e)
  unfolding handle_epoch_staged burns is_open_at
  staged-Spends s e sid f = grind (arith, open_sessions-remove)

  pub confirmed-Spends :
      (self : Transition) (s : State) (block : ℕ) (e : KeyGenConfirmedEvent) (sid : B256)
      → From 0 s.signing
      → Spends sid s 0 (handle_key_gen_confirmed self s block e)
  unfolding handle_key_gen_confirmed burns is_open_at
  confirmed-Spends self s block e sid f = grind (arith, open_sessions-insert)
