-- ===== src/Validator/Rollovers/Clock.antt =====
-- The active epoch, the epoch that is prepared, and the block clock
-- (crates/validator/src/state/keygen.rs).
use safenet.Prelude.{ℕ, ◌≤◌, ◌<◌, ◌≡◌, refl, Option, some, arith, and_then, ap}
use safenet.Prelude.BTree.{BTreeSet}
use safenet.Alloy.{Alloy, B256}
use safenet.Consensus.Epoch.{EpochId, genesis, number, raw_value, epoch_number, next_number}
use safenet.Validator.Frost.{Frost}
use safenet.Validator.State.{
  Transition, State, RolloverState, CollectingConfirmations, waiting_for_genesis, halted,
  epoch_staged, epoch_skipped, collecting_commitments, collecting_shares, collecting_confirmations,
  signing_rollover,
}
use safenet.Validator.Sign.{
  handle_sign, handle_sign_completed, handle_oracle_result, handle_sign_committed_nonces,
  handle_sign_shared, handle_nonce_commitments, handle_nonces,
}
use safenet.Validator.KeyGen.Frames.{responded-IsRolloverOnly}
use safenet.Validator.KeyGen.Start.{
  restart_key_gen_excluding, next_epoch_of, confirm_key_gen, rollover_failure,
}
use safenet.Validator.KeyGen.Rounds.{
  handle_genesis_key_gen, handle_key_gen_setup, handle_key_gen_committed,
  handle_key_gen_secret_shared,
}
use safenet.Validator.KeyGen.Complaints.{
  handle_key_gen_complained, handle_key_gen_complaint_responded, KeyGenComplaintRespondedEvent,
  finish_confirmation,
}
use safenet.Validator.KeyGen.Rollover.{
  handle_key_gen_confirmed, handle_epoch_staged, handle_rollover_new_block,
}
use safenet.Validator.KeyGen.Timeouts.{handle_key_gen_timeouts}
use safenet.Validator.Sign.Timeouts.{handle_signing_timeouts}
use safenet.Validator.Transactions.{handle_transaction_proposed, handle_transaction_attested}
use safenet.Validator.Reconcile.{handle_group_reconciliation}
use safenet.Validator.Step.{
  Event, Message, Resume, apply_event, apply_new_block, apply_resume, apply_transition, new_block,
  event, resume,
}

-- The epoch is the one to prepare after `active`: genesis only before there is any other.
unfoldable pub Precedes : EpochId → EpochId → Type 0
unfolding raw_value
Precedes active genesis = raw_value active ≡ 0
Precedes active (number n) = raw_value active < n

module _ ⦃F : Frost⦄ where
  unfoldable pub IsAhead : EpochId → RolloverState → Type 0
  unfolding Precedes
  IsAhead active waiting_for_genesis = raw_value active ≡ 0
  IsAhead active halted = Unit
  IsAhead active (epoch_staged n) = raw_value active < n
  IsAhead active (epoch_skipped n) = raw_value active < n
  IsAhead active (collecting_commitments c) = Precedes active c.next_epoch
  IsAhead active (collecting_shares c) = Precedes active c.next_epoch
  IsAhead active (collecting_confirmations c) = Precedes active c.next_epoch
  IsAhead active (signing_rollover r) = raw_value active < r.next_epoch

  -- The rollover state of `t` is ahead of its active epoch, which is not before that of `s`.
  record Advances (s t : State) : Type 0 where
    ahead : IsAhead t.active_epoch t.rollover
    forward : raw_value s.active_epoch ≤ raw_value t.active_epoch

  failure-IsAhead : (active e : EpochId) → Precedes active e → IsAhead active (rollover_failure e)
  unfolding IsAhead rollover_failure
  failure-IsAhead active e h = ground arith

module _ ⦃A : Alloy⦄ ⦃F : Frost⦄ where
  restart-Advances :
      (self : Transition) (s t : State) (e : EpochId) (x : BTreeSet) (d : Option ℕ)
      → Precedes s.active_epoch e
      → s.active_epoch ≡ t.active_epoch
      → Advances s (restart_key_gen_excluding self t e x d).0
  unfolding restart_key_gen_excluding IsAhead
  restart-Advances self s t genesis x d h eq = ground arith
  restart-Advances self s t (number n) x d h eq = ground arith

  genesis_key_gen-Advances :
      (self : Transition) (s : State) (gid : B256)
      → IsAhead s.active_epoch s.rollover
      → Advances s (handle_genesis_key_gen self s gid).0
  unfolding handle_genesis_key_gen IsAhead
  genesis_key_gen-Advances self s gid h = ground arith

  restart-IsAhead :
      (self : Transition) (s : State) (active e : EpochId) (x : BTreeSet) (d : Option ℕ)
      → Precedes active e
      → IsAhead active (restart_key_gen_excluding self s e x d).0.rollover
  unfolding restart_key_gen_excluding IsAhead
  restart-IsAhead self s active genesis x d h = ground arith
  restart-IsAhead self s active (number n) x d h = ground arith

  finish-IsAhead :
      (self : Transition) (s : State) (active : EpochId) (c : CollectingConfirmations)
      → Precedes active c.next_epoch
      → IsAhead active (finish_confirmation self s c).0.rollover
  unfolding finish_confirmation confirm_key_gen IsAhead
  finish-IsAhead self s active c h = grind (arith, failure-IsAhead)

  responded-IsAhead :
      (self : Transition) (s : State) (block : ℕ) (e : KeyGenComplaintRespondedEvent)
      (r : RolloverState)
      → s.rollover ≡ r
      → IsAhead s.active_epoch r
      → IsAhead s.active_epoch (handle_key_gen_complaint_responded self s block e).0.rollover
  unfolding handle_key_gen_complaint_responded
  responded-IsAhead self s block e (collecting_shares c) eq h =
      unfold IsAhead in grind (arith, restart-IsAhead)
  responded-IsAhead self s block e (collecting_confirmations c) eq h =
      let next : Precedes s.active_epoch c.next_epoch = unfold IsAhead in h in
      grind (arith, restart-IsAhead, finish-IsAhead)
  responded-IsAhead self s block e other eq h = unfold IsAhead in ground arith

  event-Advances :
      (self : Transition) (s : State) (block : ℕ) (e : Event)
      → IsAhead s.active_epoch s.rollover
      → Advances s (apply_event self s block e).0
  unfolding apply_event
  event-Advances self s block (Event.key_gen gid) h = genesis_key_gen-Advances self s gid h
  event-Advances self s block (Event.key_gen_committed e) h =
      unfold handle_key_gen_committed rollover_failure IsAhead in ground arith
  event-Advances self s block (Event.key_gen_secret_shared e) h =
      unfold handle_key_gen_secret_shared rollover_failure IsAhead in ground arith
  event-Advances self s block (Event.key_gen_confirmed e) h =
      unfold handle_key_gen_confirmed IsAhead next_number in ground arith
  event-Advances self s block (Event.key_gen_complained e) h =
      unfold handle_key_gen_complained IsAhead in grind (arith, restart-Advances)
  event-Advances self s block (Event.key_gen_complaint_responded e) h =
      let kept = (responded-IsRolloverOnly self s block e).active_epoch in
      record {
        ahead = rw kept (responded-IsAhead self s block e s.rollover refl h);
        forward = omega (arith, ap raw_value kept);
      }
  event-Advances self s block (Event.sign e) h = unfold handle_sign in ground arith
  event-Advances self s block (Event.sign_committed_nonces e) h =
      unfold handle_sign_committed_nonces in ground arith
  event-Advances self s block (Event.sign_shared e) h = unfold handle_sign_shared in ground arith
  event-Advances self s block (Event.sign_completed sid) h =
      unfold handle_sign_completed in ground arith
  event-Advances self s block (Event.epoch_staged e) h =
      unfold handle_epoch_staged IsAhead in ground arith
  event-Advances self s block (Event.transaction_proposed e) h =
      unfold handle_transaction_proposed in ground arith
  event-Advances self s block (Event.transaction_attested e) h =
      unfold handle_transaction_attested in ground arith
  event-Advances self s block (Event.oracle_result o e) h =
      unfold handle_oracle_result in ground arith
  event-Advances self s block Event.other_event h = ground arith

  new_block-Advances :
      (self : Transition) (s : State) (block : ℕ)
      → IsAhead s.active_epoch s.rollover
      → Advances s (handle_rollover_new_block self s block).0
  unfolding handle_rollover_new_block IsAhead
  new_block-Advances self s block h = ground arith

  timeouts-Advances :
      (self : Transition) (s : State) (block : ℕ)
      → IsAhead s.active_epoch s.rollover
      → Advances s (handle_key_gen_timeouts self s block).0
  unfolding handle_key_gen_timeouts rollover_failure IsAhead
  timeouts-Advances self s block h = grind (arith, restart-Advances)

  resume-Advances :
      (self : Transition) (s : State) (r : Resume)
      → IsAhead s.active_epoch s.rollover
      → Advances s (apply_resume self s r).0
  unfolding apply_resume
  resume-Advances self s Resume.noop h = ground arith
  resume-Advances self s (Resume.setup gid x) h =
      unfold handle_key_gen_setup rollover_failure IsAhead in ground arith
  resume-Advances self s (Resume.nonce_commitments x n) h =
      unfold handle_nonce_commitments in ground arith
  resume-Advances self s (Resume.nonces m n) h = unfold handle_nonces in ground arith

  block-Advances :
      (self : Transition) (s : State) (block : ℕ)
      → IsAhead s.active_epoch s.rollover
      → Advances s (apply_new_block self s block).0
  unfolding apply_new_block handle_group_reconciliation handle_signing_timeouts
  block-Advances self s block h =
      let s1 = (handle_rollover_new_block self s block).0 in
      let first = new_block-Advances self s block h in
      let second = timeouts-Advances self s1 block first.ahead in
      ground (arith, first.forward, second.forward, second.ahead)

  -- The rollover state stays ahead of the active epoch: what is prepared, skipped or staged is a
  -- later epoch, and genesis only where no epoch has been active. From such a state no message
  -- takes the active epoch back to an earlier one, and it leads to such a state again.
  pub apply_transition-Advances :
      (self : Transition) (s : State) (message : Message)
      → IsAhead s.active_epoch s.rollover
      → (IsAhead
          (apply_transition self s message).0.active_epoch
          (apply_transition self s message).0.rollover)
        × (raw_value s.active_epoch ≤ raw_value (apply_transition self s message).0.active_epoch)
  unfolding apply_transition
  apply_transition-Advances self s (event block e) h =
      let a = event-Advances self s block e h in (a.ahead, a.forward)
  apply_transition-Advances self s (new_block block) h =
      let a = block-Advances self s block h in (a.ahead, a.forward)
  apply_transition-Advances self s (resume r) h =
      let a = resume-Advances self s r h in (a.ahead, a.forward)

  -- After a block has been read, no epoch that should have started by then is still prepared: the
  -- epoch that the rollover state is about, if it is about one, is the next epoch of the block or
  -- a later one.
  pub handle_rollover_new_block-next_number :
      (self : Transition) (s : State) (block target : ℕ)
      → and_then (next_epoch_of (handle_rollover_new_block self s block).0.rollover) epoch_number
        ≡ some target
      → next_number block self.config.blocks_per_epoch ≤ target
  unfolding handle_rollover_new_block next_epoch_of epoch_number
  handle_rollover_new_block-next_number self s block target h = ground arith
