-- ===== src/Validator/Links/Transition.antt =====
-- The sessions and the signature index under the transitions of
-- crates/validator/src/state/mod.rs.
use safenet.Prelude.{ℕ, ◌≡◌, refl, none, arith, ◌==◌, Bool-cases, inl, inr}
use safenet.Prelude.BTree.{get-insert}
use safenet.Prelude.BTree.Sorted.{From, insert-From}
use safenet.Alloy.{Alloy, B256}
use safenet.Validator.Frost.{Frost}
use safenet.Validator.State.{
  Transition, State, RolloverState, collecting_confirmations, signing_rollover, epoch_staged,
  CollectingConfirmations,
}
use safenet.Validator.Sign.{handle_sign_attested, handle_nonce_commitments, handle_nonces}
use safenet.Validator.Sign.Timeouts.{handle_signing_timeouts}
use safenet.Validator.Sign.Sweep.{retain-From}
use safenet.Validator.KeyGen.Frames.{
  IsFramed, genesis_key_gen-IsRolloverOnly, setup-IsRolloverOnly, committed-IsRolloverOnly,
  shared-IsRolloverOnly, complained-IsRolloverOnly, responded-IsRolloverOnly,
  timeouts-IsRolloverOnly, new_block-IsFramed,
}
use safenet.Validator.KeyGen.Rollover.{
  KeyGenConfirmedEvent, EpochStagedEvent, handle_key_gen_confirmed, handle_epoch_staged,
  rollover_message, handle_rollover_new_block,
}
use safenet.Validator.KeyGen.Timeouts.{handle_key_gen_timeouts}
use safenet.Validator.Transactions.{
  TransactionProposedEvent, handle_transaction_proposed, handle_transaction_attested,
  attested_message,
}
use safenet.Validator.Reconcile.{handle_group_reconciliation}
use safenet.Validator.Step.{
  Event, Message, Resume, apply_event, apply_new_block, apply_resume, apply_transition, new_block,
  event, resume,
}
use safenet.Validator.KeyGen.Start.{finalize_key_gen}
use safenet.Consensus.Epoch.{number}
use safenet.Validator.Links.Order.{
  sorted-sign, sorted-completed, sorted-oracle, sorted-committed, sorted-shared, sorted-attested,
}
use safenet.Validator.Links.Inverse.{IsInverse-same}
use safenet.Validator.Links.Handlers.{
  IsLinked, id_at, message_at, handle_sign-IsLinked, handle_sign_completed-IsLinked,
  handle_oracle_result-IsLinked, handle_sign_committed_nonces-IsLinked, handle_sign_shared-IsLinked,
  handle_sign_attested-IsLinked,
}
use safenet.Validator.Links.Sweep.{handle_signing_timeouts-IsLinked}

module _ ⦃F : Frost⦄ where
  pub record IsConsistent (s : State) : Type 0 where
    pub sorted : From 0 s.signing
    pub linked : IsLinked s

  same-IsConsistent :
      (s t : State)
      → t.signing ≡ s.signing
      → t.signature_id_to_message ≡ s.signature_id_to_message
      → IsConsistent s
      → IsConsistent t
  same-IsConsistent s t signing index c = record {
    sorted = rw signing c.sorted;
    linked = IsInverse-same _ _ _ _ c.linked (λ m. rw signing refl) (λ x. rw index refl);
  }

  framed-IsConsistent : (s t : State) → IsFramed s t → IsConsistent s → IsConsistent t
  framed-IsConsistent s t f c = same-IsConsistent s t f.signing f.index c

  attested-IsConsistent :
      (s : State) (m : B256) → IsConsistent s → IsConsistent (handle_sign_attested s m).0
  attested-IsConsistent s m c = record {
    sorted = sorted-attested s m c.sorted;
    linked = handle_sign_attested-IsLinked s m c.linked;
  }

module _ ⦃A : Alloy⦄ ⦃F : Frost⦄ where
  -- The contracts give out a signature id once, and the message of a rollover that is confirmed
  -- has no session with an id yet.
  abbrev pub IsFresh : Transition → State → Event → Type 0
  IsFresh self s (Event.sign e) = message_at s e.sid ≡ none
  IsFresh self s (Event.key_gen_confirmed e) =
      (n : ℕ) (c : CollectingConfirmations)
      → s.rollover ≡ collecting_confirmations c
      → id_at s (rollover_message self s n c) ≡ none
  IsFresh self s _ = Unit

  abbrev pub IsFreshMessage : Transition → State → Message → Type 0
  IsFreshMessage self s (event block e) = IsFresh self s e
  IsFreshMessage self s _ = Unit

  -- The handler of confirmations, once the round is known.
  confirmed_at :
      (self : Transition) (s : State) (block : ℕ) (e : KeyGenConfirmedEvent) (r : RolloverState)
      → s.rollover ≡ r
      → ((n : ℕ) (c : CollectingConfirmations)
          → s.rollover ≡ collecting_confirmations c
          → id_at s (rollover_message self s n c) ≡ none)
      → IsConsistent s
      → (From 0 (handle_key_gen_confirmed self s block e).0.signing)
        × ((m : B256) → id_at (handle_key_gen_confirmed self s block e).0 m ≡ id_at s m)
        × ((x : B256) → message_at (handle_key_gen_confirmed self s block e).0 x ≡ message_at s x)
  unfolding handle_key_gen_confirmed
  confirmed_at self s block e (collecting_confirmations c) h fresh v =
      let clear = λ (n : ℕ). fresh n c h in
      let sorted = v.sorted in
      (grind (arith, insert-From), λ m. grind (arith, get-insert), λ x. grind arith)
  confirmed_at self s block e other h fresh v =
      let sorted = v.sorted in (ground arith, λ m. ground arith, λ x. ground arith)

  proposed-IsConsistent :
      (self : Transition) (s : State) (block : ℕ) (e : TransactionProposedEvent)
      → IsConsistent s
      → IsConsistent (handle_transaction_proposed self s block e).0
  unfolding handle_transaction_proposed
  proposed-IsConsistent self s block e c =
      let sorted = c.sorted in
      record {
        sorted = grind (arith, insert-From);
        linked =
            IsInverse-same _ _ _ _ c.linked (λ m. grind (arith, get-insert)) (λ x. grind arith);
      }

  staged_at :
      (s : State) (e : EpochStagedEvent) (r : RolloverState)
      → s.rollover ≡ r
      → IsConsistent s
      → IsConsistent (handle_epoch_staged s e).0
  unfolding handle_epoch_staged finalize_key_gen
  staged_at s e (signing_rollover q) h c = elim (Bool-cases (q.group.id == e.group_id)) [
    | inr other ↦ same-IsConsistent s _ (ground arith) (ground arith) c
    | inl here ↦
        let t =
          finalize_key_gen (record s { rollover = epoch_staged q.next_epoch }) (number q.next_epoch)
            q.group q.key_share in
        let eq : handle_epoch_staged s e ≡ handle_sign_attested t q.message = ground arith in
        rw eq (
          attested-IsConsistent t q.message (same-IsConsistent s t (ground arith) (ground arith) c))
  ]
  staged_at s e other h c = same-IsConsistent s _ (ground arith) (ground arith) c

  staged-IsConsistent :
      (s : State) (e : EpochStagedEvent) → IsConsistent s → IsConsistent (handle_epoch_staged s e).0
  staged-IsConsistent s e c = staged_at s e s.rollover refl c

  event-IsConsistent :
      (self : Transition) (s : State) (block : ℕ) (e : Event)
      → IsFresh self s e
      → IsConsistent s
      → IsConsistent (apply_event self s block e).0
  unfolding apply_event handle_transaction_attested
  event-IsConsistent self s block (Event.key_gen gid) h c =
      framed-IsConsistent _ _ (genesis_key_gen-IsRolloverOnly self s gid).framed c
  event-IsConsistent self s block (Event.key_gen_committed e) h c =
      framed-IsConsistent _ _ (committed-IsRolloverOnly self s block e).framed c
  event-IsConsistent self s block (Event.key_gen_secret_shared e) h c =
      framed-IsConsistent _ _ (shared-IsRolloverOnly self s block e).framed c
  event-IsConsistent self s block (Event.key_gen_confirmed e) h c =
      let (sorted, ids, messages) = confirmed_at self s block e s.rollover refl h c in
      record { sorted = sorted; linked = IsInverse-same _ _ _ _ c.linked ids messages }
  event-IsConsistent self s block (Event.key_gen_complained e) h c =
      framed-IsConsistent _ _ (complained-IsRolloverOnly self s block e).framed c
  event-IsConsistent self s block (Event.key_gen_complaint_responded e) h c =
      framed-IsConsistent _ _ (responded-IsRolloverOnly self s block e).framed c
  event-IsConsistent self s block (Event.sign e) h c = record {
    sorted = sorted-sign self s block e c.sorted;
    linked = handle_sign-IsLinked self s block e h c.linked;
  }
  event-IsConsistent self s block (Event.sign_committed_nonces e) h c = record {
    sorted = sorted-committed self s block e c.sorted;
    linked = handle_sign_committed_nonces-IsLinked self s block e c.linked;
  }
  event-IsConsistent self s block (Event.sign_shared e) h c = record {
    sorted = sorted-shared s e c.sorted;
    linked = handle_sign_shared-IsLinked s e c.linked;
  }
  event-IsConsistent self s block (Event.sign_completed sid) h c = record {
    sorted = sorted-completed self s block sid c.sorted;
    linked = handle_sign_completed-IsLinked self s block sid c.linked;
  }
  event-IsConsistent self s block (Event.epoch_staged e) h c = staged-IsConsistent s e c
  event-IsConsistent self s block (Event.transaction_proposed e) h c =
      proposed-IsConsistent self s block e c
  event-IsConsistent self s block (Event.transaction_attested e) h c =
      attested-IsConsistent s (attested_message self e) c
  event-IsConsistent self s block (Event.oracle_result o e) h c = record {
    sorted = sorted-oracle self s block o e c.sorted;
    linked = handle_oracle_result-IsLinked self s block o e c.linked;
  }
  event-IsConsistent self s block Event.other_event h c = c

  signing_timeouts-IsConsistent :
      (self : Transition) (s : State) (block : ℕ)
      → IsConsistent s
      → IsConsistent (handle_signing_timeouts self s block).0
  signing_timeouts-IsConsistent self s block c = record {
    sorted =
        unfold handle_signing_timeouts in
        retain-From self block 0 s.signing s.signature_id_to_message c.sorted;
    linked = handle_signing_timeouts-IsLinked self s block c.sorted c.linked;
  }

  block-IsConsistent :
      (self : Transition) (s : State) (block : ℕ)
      → IsConsistent s
      → IsConsistent (apply_new_block self s block).0
  unfolding apply_new_block handle_group_reconciliation
  block-IsConsistent self s block c =
      let s1 = (handle_rollover_new_block self s block).0 in
      let s2 = (handle_key_gen_timeouts self s1 block).0 in
      let s3 = (handle_signing_timeouts self s2 block).0 in
      same-IsConsistent s3 _ refl refl (
        signing_timeouts-IsConsistent self s2 block (
          framed-IsConsistent s1 s2 (timeouts-IsRolloverOnly self s1 block).framed
            (framed-IsConsistent s s1 (new_block-IsFramed self s block) c)))

  resume-IsConsistent :
      (self : Transition) (s : State) (r : Resume)
      → IsConsistent s
      → IsConsistent (apply_resume self s r).0
  unfolding apply_resume handle_nonce_commitments handle_nonces
  resume-IsConsistent self s Resume.noop c = c
  resume-IsConsistent self s (Resume.setup gid x) c =
      framed-IsConsistent _ _ (setup-IsRolloverOnly self s gid x).framed c
  resume-IsConsistent self s (Resume.nonce_commitments sid n) c =
      same-IsConsistent s _ (ground arith) (ground arith) c
  resume-IsConsistent self s (Resume.nonces m n) c =
      same-IsConsistent s _ (ground arith) (ground arith) c

  -- Every message keeps the sessions in the order of their messages and the signature index their
  -- exact inverse: an id is in the index exactly if a session has it, and leads to that session's
  -- message. A `Sign` event is to bring a signature id that is not in the index, and the rollover
  -- message of a confirmed key generation is to have no session with a signature id.
  pub apply_transition-IsConsistent :
      (self : Transition) (s : State) (message : Message)
      → IsFreshMessage self s message
      → IsConsistent s
      → IsConsistent (apply_transition self s message).0
  unfolding apply_transition
  apply_transition-IsConsistent self s (event block e) h c = event-IsConsistent self s block e h c
  apply_transition-IsConsistent self s (new_block block) h c = block-IsConsistent self s block c
  apply_transition-IsConsistent self s (resume r) h c = resume-IsConsistent self s r c
