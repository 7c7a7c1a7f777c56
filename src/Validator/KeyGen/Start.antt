-- ===== src/Validator/KeyGen/Start.antt =====
-- How a key generation starts, restarts, fails and ends (the private methods of
-- crates/validator/src/state/keygen.rs).
use safenet.Prelude.{
  ℕ, Option, none, some, [], ◌∷◌, Bool, true, saturating_add, saturating_mul, map_option, leb,
}
use safenet.Prelude.BTree.{BTreeMap, BTreeSet, insert}
use safenet.Alloy.{Alloy}
use safenet.Consensus.Epoch.{EpochId, genesis, number, raw_value}
use safenet.Consensus.Group.{
  Group, ParticipantSet, participants_set, participate_as, group_of, GroupEpoch,
}
use safenet.Validator.Frost.{Frost}
use safenet.Validator.State.{
  Transition, State, RolloverState, halted, epoch_skipped, collecting_commitments,
  collecting_shares, KeyGenCommitment, KeyGenParticipation, KeyGenConfirmation,
  ConfirmationDeadlines, Commands, Result, action, effect, Action, Effect, Callback,
}

-- `deadline.map(|_| block.saturating_add(key_gen_timeout))`
abbrev pub key_gen_deadline : Transition → ℕ → ℕ
key_gen_deadline self block = saturating_add block self.config.key_gen_timeout

-- `is_none_or(|deadlines| block <= deadlines.complain)`, and the same for `response`.
abbrev pub within : Option ℕ → ℕ → Bool
within none block = true
within (some deadline) block = leb block deadline

-- The epochs from which a participant set is formed anew.
abbrev pub fresh_epoch : Transition → ℕ → BTreeSet → GroupEpoch
fresh_epoch self n excluded = GroupEpoch.number self.config.consensus n excluded

module _ ⦃F : Frost⦄ where
  unfoldable pub rollover_failure : EpochId → RolloverState
  rollover_failure (number n) = epoch_skipped n
  rollover_failure genesis = halted

  -- The macro `fail_rollover!`.
  abbrev pub fail_rollover : State → EpochId → Result
  fail_rollover s next_epoch = (record s { rollover = rollover_failure next_epoch }, [])

  -- `KeyGenParticipation::group_commitments`
  abbrev pub group_commitments_of : KeyGenParticipation → F.GroupCommitments
  group_commitments_of (KeyGenParticipation.participating sharing) =
      F.sharing_group_commitments sharing
  group_commitments_of (KeyGenParticipation.observing commitments) = commitments

  -- `KeyGenConfirmation::key_share`
  abbrev pub key_share_of : KeyGenConfirmation → Option F.KeyShare
  key_share_of (KeyGenConfirmation.confirmed key_share) = some key_share
  key_share_of (KeyGenConfirmation.collecting shares) = none
  key_share_of KeyGenConfirmation.observing = none

  -- `RolloverState::next_epoch`
  unfoldable pub next_epoch_of : RolloverState → Option EpochId
  next_epoch_of RolloverState.waiting_for_genesis = some genesis
  next_epoch_of RolloverState.halted = none
  next_epoch_of (RolloverState.epoch_staged n) = some (number n)
  next_epoch_of (RolloverState.epoch_skipped n) = some (number n)
  next_epoch_of (RolloverState.collecting_commitments c) = some c.next_epoch
  next_epoch_of (RolloverState.collecting_shares c) = some c.next_epoch
  next_epoch_of (RolloverState.collecting_confirmations c) = some c.next_epoch
  next_epoch_of (RolloverState.signing_rollover r) = some (number r.next_epoch)

  unfoldable pub finalize_key_gen : State → EpochId → Group → Option F.KeyShare → State
  unfolding raw_value
  finalize_key_gen s epoch group none = s
  finalize_key_gen s epoch group (some key_share) = record s {
    epochs = insert (raw_value epoch) (record { group = group; key_share = key_share }) s.epochs;
  }

  -- The commitment round of a fresh key generation.
  abbrev pub commitment_round : EpochId → Group → KeyGenCommitment → Option ℕ → RolloverState
  commitment_round next_epoch group secrets deadline = collecting_commitments (record {
    next_epoch = next_epoch;
    group = group;
    secrets = secrets;
    commitments = [];
    deadline = deadline;
  })

  -- The share round that follows a commitment round.
  abbrev pub share_round : EpochId → Group → KeyGenParticipation → Option ℕ → RolloverState
  share_round next_epoch group participation deadline = collecting_shares (record {
    next_epoch = next_epoch;
    group = group;
    participation = participation;
    shared = [];
    shares = [];
    complaints = [];
    deadline = deadline;
  })

  unfoldable pub finalize_key_gen_commitments :
      EpochId
      → Group
      → Option F.Secrets
      → BTreeMap F.VerifiedCommitment
      → Option ℕ
      → RolloverState × Commands
  unfolding rollover_failure
  finalize_key_gen_commitments next_epoch group (some secrets) commitments deadline =
      elim (F.generate_secret_shares secrets commitments) [
        | some (sharing, share) ↦ (
          share_round next_epoch group (KeyGenParticipation.participating sharing) deadline,
          action (Action.key_gen_secret_share group.id share deadline) ∷ [],
        )
        | none ↦ (rollover_failure next_epoch, [])
      ]
  finalize_key_gen_commitments next_epoch group none commitments deadline =
      elim (F.group_commitments commitments) [
        | some group_commitments ↦ (
          share_round next_epoch group (KeyGenParticipation.observing group_commitments) deadline,
          [],
        )
        | none ↦ (rollover_failure next_epoch, [])
      ]

module _ ⦃A : Alloy⦄ ⦃F : Frost⦄ where
  unfoldable pub start_key_gen : Transition → State → EpochId → ParticipantSet → Option ℕ → Result
  start_key_gen self s next_epoch participants deadline =
      elim (participate_as participants self.account) [
        | some (group, poap) ↦ (
          record s {
            rollover =
                commitment_round next_epoch group (KeyGenCommitment.participating poap none)
                  deadline;
          },
          effect (Effect.key_gen_setup group.id group.count group.threshold) ∷ [],
        )
        | none ↦ (
          record s {
            rollover =
                commitment_round next_epoch (group_of participants) KeyGenCommitment.observing
                  deadline;
          },
          [],
        )
      ]

  -- Genesis cannot be restarted.
  unfoldable pub restart_participants : Transition → EpochId → BTreeSet → Option ParticipantSet
  restart_participants self genesis excluded = none
  restart_participants self (number n) excluded =
      participants_set self.config.participants (fresh_epoch self n excluded)

  unfoldable pub restart_key_gen_excluding :
      Transition → State → EpochId → BTreeSet → Option ℕ → Result
  unfolding start_key_gen restart_participants rollover_failure
  restart_key_gen_excluding self s next_epoch excluded deadline =
      elim (restart_participants self next_epoch excluded) [
        | some participants ↦ start_key_gen self s next_epoch participants deadline
        | none ↦ fail_rollover s next_epoch
      ]

  unfoldable pub key_gen_confirmation_callback : Transition → EpochId → Option Callback
  key_gen_confirmation_callback self genesis = none
  key_gen_confirmation_callback self (number n) = some (record {
    target = self.config.consensus;
    context = A.pair_encode n (saturating_mul n self.config.blocks_per_epoch);
  })

  unfoldable pub confirm_key_gen :
      Transition
      → EpochId
      → Group
      → F.SharingState
      → BTreeMap F.VerifiedShare
      → Option ConfirmationDeadlines
      → Option (KeyGenConfirmation × Commands)
  unfolding key_gen_confirmation_callback
  confirm_key_gen self epoch group sharing shares deadlines =
      map_option
        (λ key_share. (
          KeyGenConfirmation.confirmed key_share,
          action (
                Action.key_gen_confirm group.id (key_gen_confirmation_callback self epoch)
                  (map_option (λ d. d.confirm) deadlines))
              ∷ [],
        ))
        (F.finalize sharing shares)
