-- ===== src/Validator/Rollovers/Tolerance.antt =====
-- The complaints of a key generation that goes on, and the threshold
-- (crates/validator/src/state/keygen.rs).
use safenet.Prelude.{ℕ, ◌<◌, ◌≡◌, refl, Option, none, some, arith}
use safenet.Prelude.BTree.{BTreeSet, BTreeMap, get, get-insert}
use safenet.Alloy.{Alloy, Address}
use safenet.Consensus.Epoch.{EpochId}
use safenet.Consensus.Group.{Group}
use safenet.Validator.Frost.{Frost}
use safenet.Validator.State.{
  Transition, State, RolloverState, Complaint, CollectingShares, CollectingConfirmations,
  collecting_shares, collecting_confirmations,
}
use safenet.Validator.Sign.{
  handle_sign, handle_sign_completed, handle_oracle_result, handle_sign_committed_nonces,
  handle_sign_shared, handle_nonce_commitments, handle_nonces,
}
use safenet.Validator.KeyGen.Start.{restart_key_gen_excluding, confirm_key_gen, rollover_failure}
use safenet.Validator.KeyGen.Rounds.{
  handle_genesis_key_gen, handle_key_gen_setup, handle_key_gen_committed,
  handle_key_gen_secret_shared,
}
use safenet.Validator.KeyGen.Complaints.{
  handle_key_gen_complained, handle_key_gen_complaint_responded, answer_complaint,
  KeyGenComplainedEvent, KeyGenComplaintRespondedEvent, finish_confirmation,
}
use safenet.Validator.KeyGen.Rollover.{
  handle_key_gen_confirmed, handle_epoch_staged, handle_rollover_new_block,
}
use safenet.Validator.KeyGen.Timeouts.{handle_key_gen_timeouts}
use safenet.Validator.Sign.Timeouts.{handle_signing_timeouts}
use safenet.Validator.Transactions.{handle_transaction_proposed, handle_transaction_attested}
use safenet.Validator.Reconcile.{handle_group_reconciliation}
use safenet.Validator.Step.{
  Event, Message, Resume, apply_event, apply_new_block, apply_resume, apply_transition, new_block,
  event, resume,
}

unfoldable pub Below : Option Complaint → Group → Type 0
Below none group = Unit
Below (some complaint) group = complaint.total < group.threshold

module _ ⦃F : Frost⦄ where
  -- The complaints against an address are fewer than the group's threshold.
  unfoldable pub IsTolerated : Address → RolloverState → Type 0
  unfolding Below
  IsTolerated a (collecting_shares c) = Below (get a c.complaints) c.group
  IsTolerated a (collecting_confirmations c) = Below (get a c.complaints) c.group
  IsTolerated a _ = Unit

  shares-IsTolerated :
      (a : Address) (c : CollectingShares)
      → Below (get a c.complaints) c.group
      → IsTolerated a (collecting_shares c)
  unfolding IsTolerated
  shares-IsTolerated a c h = h

  confirmations-IsTolerated :
      (a : Address) (c : CollectingConfirmations)
      → Below (get a c.complaints) c.group
      → IsTolerated a (collecting_confirmations c)
  unfolding IsTolerated
  confirmations-IsTolerated a c h = h

  failure-IsTolerated : (a : Address) (e : EpochId) → IsTolerated a (rollover_failure e)
  unfolding IsTolerated rollover_failure
  failure-IsTolerated a e = ground arith

module _ ⦃A : Alloy⦄ ⦃F : Frost⦄ where
  restart-IsTolerated :
      (self : Transition) (s : State) (a : Address) (e : EpochId) (x : BTreeSet) (d : Option ℕ)
      → IsTolerated a (restart_key_gen_excluding self s e x d).0.rollover
  unfolding restart_key_gen_excluding IsTolerated
  restart-IsTolerated self s a e x d = ground arith

  finish-IsTolerated :
      (self : Transition) (s : State) (a : Address) (c : CollectingConfirmations)
      → Below (get a c.complaints) c.group
      → IsTolerated a (finish_confirmation self s c).0.rollover
  unfolding finish_confirmation confirm_key_gen rollover_failure IsTolerated
  finish-IsTolerated self s a c h = ground arith

  counted-IsTolerated :
      (self : Transition) (s : State) (a : Address) (block : ℕ) (e : KeyGenComplainedEvent)
      (r : RolloverState)
      → s.rollover ≡ r
      → IsTolerated a r
      → IsTolerated a (handle_key_gen_complained self s block e).0.rollover
  unfolding handle_key_gen_complained Below
  counted-IsTolerated self s a block e (collecting_shares c) eq h =
      let below : Below (get a c.complaints) c.group = unfold IsTolerated in h in
      grind (arith, restart-IsTolerated, get-insert, shares-IsTolerated)
  counted-IsTolerated self s a block e (collecting_confirmations c) eq h =
      let below : Below (get a c.complaints) c.group = unfold IsTolerated in h in
      grind (arith, restart-IsTolerated, get-insert, confirmations-IsTolerated)
  counted-IsTolerated self s a block e other eq h = unfold IsTolerated in ground arith

  answered-Below :
      (complaints left : BTreeMap Complaint) (a accused plaintiff : Address) (group : Group)
      → answer_complaint complaints accused plaintiff ≡ some left
      → Below (get a complaints) group
      → Below (get a left) group
  unfolding answer_complaint Below
  answered-Below complaints left a accused plaintiff group eq h = grind (arith, get-insert)

  responded-IsTolerated :
      (self : Transition) (s : State) (a : Address) (block : ℕ) (e : KeyGenComplaintRespondedEvent)
      (r : RolloverState)
      → s.rollover ≡ r
      → IsTolerated a r
      → IsTolerated a (handle_key_gen_complaint_responded self s block e).0.rollover
  unfolding handle_key_gen_complaint_responded
  responded-IsTolerated self s a block e (collecting_shares c) eq h =
      let below : Below (get a c.complaints) c.group = unfold IsTolerated in h in
      grind (arith, restart-IsTolerated, answered-Below, shares-IsTolerated)
  responded-IsTolerated self s a block e (collecting_confirmations c) eq h =
      let below : Below (get a c.complaints) c.group = unfold IsTolerated in h in
      grind (arith, restart-IsTolerated, answered-Below, finish-IsTolerated)
  responded-IsTolerated self s a block e other eq h =
      unfold handle_key_gen_complaint_responded IsTolerated in ground arith

  event-IsTolerated :
      (self : Transition) (s : State) (a : Address) (block : ℕ) (e : Event)
      → IsTolerated a s.rollover
      → IsTolerated a (apply_event self s block e).0.rollover
  unfolding apply_event
  event-IsTolerated self s a block (Event.key_gen gid) h =
      unfold handle_genesis_key_gen IsTolerated in ground arith
  event-IsTolerated self s a block (Event.key_gen_committed e) h =
      unfold handle_key_gen_committed rollover_failure IsTolerated get in ground arith
  event-IsTolerated self s a block (Event.key_gen_secret_shared e) h =
      unfold handle_key_gen_secret_shared rollover_failure IsTolerated in ground arith
  event-IsTolerated self s a block (Event.key_gen_confirmed e) h =
      unfold handle_key_gen_confirmed IsTolerated in ground arith
  event-IsTolerated self s a block (Event.key_gen_complained e) h =
      counted-IsTolerated self s a block e s.rollover refl h
  event-IsTolerated self s a block (Event.key_gen_complaint_responded e) h =
      responded-IsTolerated self s a block e s.rollover refl h
  event-IsTolerated self s a block (Event.sign e) h = unfold handle_sign in ground arith
  event-IsTolerated self s a block (Event.sign_committed_nonces e) h =
      unfold handle_sign_committed_nonces in ground arith
  event-IsTolerated self s a block (Event.sign_shared e) h =
      unfold handle_sign_shared in ground arith
  event-IsTolerated self s a block (Event.sign_completed sid) h =
      unfold handle_sign_completed in ground arith
  event-IsTolerated self s a block (Event.epoch_staged e) h =
      unfold handle_epoch_staged IsTolerated in ground arith
  event-IsTolerated self s a block (Event.transaction_proposed e) h =
      unfold handle_transaction_proposed in ground arith
  event-IsTolerated self s a block (Event.transaction_attested e) h =
      unfold handle_transaction_attested in ground arith
  event-IsTolerated self s a block (Event.oracle_result o e) h =
      unfold handle_oracle_result in ground arith
  event-IsTolerated self s a block Event.other_event h = h

  new_block-IsTolerated :
      (self : Transition) (s : State) (a : Address) (block : ℕ)
      → IsTolerated a s.rollover
      → IsTolerated a (handle_rollover_new_block self s block).0.rollover
  unfolding handle_rollover_new_block IsTolerated
  new_block-IsTolerated self s a block h = ground arith

  timeouts-IsTolerated :
      (self : Transition) (s : State) (a : Address) (block : ℕ)
      → IsTolerated a s.rollover
      → IsTolerated a (handle_key_gen_timeouts self s block).0.rollover
  unfolding handle_key_gen_timeouts
  timeouts-IsTolerated self s a block h = grind (arith, restart-IsTolerated, failure-IsTolerated)

  resume-IsTolerated :
      (self : Transition) (s : State) (a : Address) (r : Resume)
      → IsTolerated a s.rollover
      → IsTolerated a (apply_resume self s r).0.rollover
  unfolding apply_resume
  resume-IsTolerated self s a Resume.noop h = h
  resume-IsTolerated self s a (Resume.setup gid x) h =
      unfold handle_key_gen_setup rollover_failure IsTolerated get in ground arith
  resume-IsTolerated self s a (Resume.nonce_commitments x n) h =
      unfold handle_nonce_commitments in ground arith
  resume-IsTolerated self s a (Resume.nonces m n) h = unfold handle_nonces in ground arith

  -- While shares or confirmations are collected, the complaints against any participant stay below
  -- the group's threshold: every message keeps this, since a complaint that reaches the threshold
  -- ends the key generation and the next one starts without complaints.
  pub apply_transition-IsTolerated :
      (self : Transition) (s : State) (a : Address) (message : Message)
      → IsTolerated a s.rollover
      → IsTolerated a (apply_transition self s message).0.rollover
  unfolding apply_transition apply_new_block handle_group_reconciliation handle_signing_timeouts
  apply_transition-IsTolerated self s a (event block e) h = event-IsTolerated self s a block e h
  apply_transition-IsTolerated self s a (new_block block) h =
      let s1 = (handle_rollover_new_block self s block).0 in
      timeouts-IsTolerated self s1 a block (new_block-IsTolerated self s a block h)
  apply_transition-IsTolerated self s a (resume r) h = resume-IsTolerated self s a r h
