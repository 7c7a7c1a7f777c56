-- ===== src/Validator/Rollovers/Activation.antt =====
-- When the active epoch changes (crates/validator/src/state/mod.rs and keygen.rs).
use safenet.Prelude.{ℕ, ◌<◌, ◌≡◌, refl, arith, inl, inr, ◌⊎◌, Bool-cases, ltb, ltb→lt, ◌∙◌}
use safenet.Alloy.{Alloy}
use safenet.Consensus.Epoch.{number, next_number}
use safenet.Validator.Frost.{Frost}
use safenet.Validator.State.{Transition, State, RolloverState, epoch_staged}
use safenet.Validator.Sign.{
  handle_sign, handle_sign_completed, handle_oracle_result, handle_sign_committed_nonces,
  handle_sign_shared, handle_nonce_commitments, handle_nonces,
}
use safenet.Validator.KeyGen.Frames.{
  genesis_key_gen-IsRolloverOnly, setup-IsRolloverOnly, committed-IsRolloverOnly,
  shared-IsRolloverOnly, complained-IsRolloverOnly, responded-IsRolloverOnly,
  timeouts-IsRolloverOnly,
}
use safenet.Validator.KeyGen.Rollover.{
  handle_key_gen_confirmed, handle_epoch_staged, handle_rollover_new_block,
}
use safenet.Validator.Sign.Timeouts.{handle_signing_timeouts}
use safenet.Validator.Transactions.{handle_transaction_proposed, handle_transaction_attested}
use safenet.Validator.Reconcile.{handle_group_reconciliation}
use safenet.Validator.Step.{
  Event, Message, Resume, apply_event, apply_new_block, apply_resume, apply_transition, new_block,
  event, resume,
}

module _ ⦃A : Alloy⦄ ⦃F : Frost⦄ where
  event-active_epoch :
      (self : Transition) (s : State) (block : ℕ) (e : Event)
      → (apply_event self s block e).0.active_epoch ≡ s.active_epoch
  unfolding apply_event
  event-active_epoch self s block (Event.key_gen gid) =
      (genesis_key_gen-IsRolloverOnly self s gid).active_epoch
  event-active_epoch self s block (Event.key_gen_committed e) =
      (committed-IsRolloverOnly self s block e).active_epoch
  event-active_epoch self s block (Event.key_gen_secret_shared e) =
      (shared-IsRolloverOnly self s block e).active_epoch
  event-active_epoch self s block (Event.key_gen_confirmed e) =
      unfold handle_key_gen_confirmed in ground arith
  event-active_epoch self s block (Event.key_gen_complained e) =
      (complained-IsRolloverOnly self s block e).active_epoch
  event-active_epoch self s block (Event.key_gen_complaint_responded e) =
      (responded-IsRolloverOnly self s block e).active_epoch
  event-active_epoch self s block (Event.sign e) = unfold handle_sign in ground arith
  event-active_epoch self s block (Event.sign_committed_nonces e) =
      unfold handle_sign_committed_nonces in ground arith
  event-active_epoch self s block (Event.sign_shared e) = unfold handle_sign_shared in ground arith
  event-active_epoch self s block (Event.sign_completed sid) =
      unfold handle_sign_completed in ground arith
  event-active_epoch self s block (Event.epoch_staged e) =
      unfold handle_epoch_staged in ground arith
  event-active_epoch self s block (Event.transaction_proposed e) =
      unfold handle_transaction_proposed in ground arith
  event-active_epoch self s block (Event.transaction_attested e) =
      unfold handle_transaction_attested in ground arith
  event-active_epoch self s block (Event.oracle_result o e) =
      unfold handle_oracle_result in ground arith
  event-active_epoch self s block Event.other_event = refl

  resume-active_epoch :
      (self : Transition) (s : State) (r : Resume)
      → (apply_resume self s r).0.active_epoch ≡ s.active_epoch
  unfolding apply_resume
  resume-active_epoch self s Resume.noop = refl
  resume-active_epoch self s (Resume.setup gid x) = (setup-IsRolloverOnly self s gid x).active_epoch
  resume-active_epoch self s (Resume.nonce_commitments x n) =
      unfold handle_nonce_commitments in ground arith
  resume-active_epoch self s (Resume.nonces m n) = unfold handle_nonces in ground arith

  block-active_epoch :
      (self : Transition) (s : State) (block : ℕ)
      → (apply_new_block self s block).0.active_epoch
        ≡ (handle_rollover_new_block self s block).0.active_epoch
  unfolding apply_new_block handle_group_reconciliation handle_signing_timeouts
  block-active_epoch self s block =
      (timeouts-IsRolloverOnly self (handle_rollover_new_block self s block).0 block).active_epoch

  rollover-active_epoch :
      (self : Transition) (s : State) (block : ℕ) (r : RolloverState)
      → s.rollover ≡ r
      → ((handle_rollover_new_block self s block).0.active_epoch ≡ s.active_epoch)
        ⊎ ((staged : ℕ) × (r ≡ epoch_staged staged)
            × (staged < next_number block self.config.blocks_per_epoch)
            × ((handle_rollover_new_block self s block).0.active_epoch ≡ number staged))
  unfolding handle_rollover_new_block
  rollover-active_epoch self s block (epoch_staged n) h =
      elim (Bool-cases (ltb n (next_number block self.config.blocks_per_epoch))) [
        | inl due ↦ inr (n, refl, ltb→lt _ _ due, ground arith)
        | inr early ↦ inl (ground arith)
      ]
  rollover-active_epoch self s block other h = inl (ground arith)

  -- The active epoch changes only with a new block, and only to an epoch that was staged and that
  -- was to start by then: every other message leaves it, as does a block that comes before the
  -- staged epoch or finds none staged.
  pub apply_transition-active_epoch :
      (self : Transition) (s : State) (message : Message)
      → ((apply_transition self s message).0.active_epoch ≡ s.active_epoch)
        ⊎ ((block : ℕ) × (staged : ℕ) × (message ≡ new_block block)
            × (s.rollover ≡ epoch_staged staged)
            × (staged < next_number block self.config.blocks_per_epoch)
            × ((apply_transition self s message).0.active_epoch ≡ number staged))
  unfolding apply_transition
  apply_transition-active_epoch self s (event block e) = inl (event-active_epoch self s block e)
  apply_transition-active_epoch self s (resume r) = inl (resume-active_epoch self s r)
  apply_transition-active_epoch self s (new_block block) =
      let same = block-active_epoch self s block in
      elim (rollover-active_epoch self s block s.rollover refl) [
        | inl kept ↦ inl (same ∙ kept)
        | inr (staged, at, due, moved) ↦ inr (block, staged, refl, at, due, same ∙ moved)
      ]
