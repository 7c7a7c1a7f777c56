-- ===== src/Validator/KeyGen/Timeouts.antt =====
-- Stalled key generations (`handle_key_gen_timeouts` of crates/validator/src/state/keygen.rs).
use safenet.Prelude.{
  ℕ, Option, none, some, [], ◌∷◌, Bool, true, false, ◌&&◌, not, if◌then◌else◌, leb, map, filter,
}
use safenet.Prelude.BTree.{BTreeMap, BTreeSet, elements, extend}
use safenet.Alloy.{Alloy}
use safenet.Consensus.Epoch.{EpochId}
use safenet.Consensus.Group.{Group, also_exclude, exclude_all_others}
use safenet.Validator.Frost.{Frost}
use safenet.Validator.State.{
  Transition, State, Complaint, ConfirmationDeadlines, RolloverState, collecting_commitments,
  collecting_shares, collecting_confirmations, CollectingCommitments, KeyGenCommitment, Result,
}
use safenet.Validator.KeyGen.Start.{restart_key_gen_excluding, fail_rollover, key_gen_deadline}
use safenet.Validator.KeyGen.Rounds.{is_complete}

-- `block >= deadline`, with no deadline for genesis.
abbrev pub is_due : Option ℕ → ℕ → Bool
is_due none block = false
is_due (some deadline) block = leb deadline block

abbrev pub is_empty : BTreeSet → Bool
is_empty [] = true
is_empty (x ∷ xs) = false

-- The accused with an unanswered complaint.
unfoldable pub unresponded : BTreeMap Complaint → BTreeSet
unresponded complaints =
    extend (map (λ e. e.0) (filter (λ e. not (is_empty e.1.unresponded)) complaints)) []

unfoldable pub confirmations_excluded :
    Group → BTreeMap Complaint → BTreeSet → ConfirmationDeadlines → ℕ → Option BTreeSet
unfolding unresponded
confirmations_excluded group complaints confirmations deadlines block =
    let silent = unresponded complaints in
    if leb deadlines.response block && not (is_empty silent)
    then some (also_exclude group (elements silent))
    else if leb deadlines.confirm block
    then some (exclude_all_others group (elements confirmations))
    else none

module _ ⦃F : Frost⦄ where
  abbrev lacks_secrets : KeyGenCommitment → Bool
  lacks_secrets (KeyGenCommitment.participating poap none) = true
  lacks_secrets (KeyGenCommitment.participating poap (some secrets)) = false
  lacks_secrets KeyGenCommitment.observing = false

  -- Every participant has committed, but this validator's own setup never resumed.
  unfoldable pub is_stuck : CollectingCommitments → ℕ → Bool
  is_stuck c block =
      lacks_secrets c.secrets && (is_due c.deadline block && is_complete c.commitments c.group)

  -- The epoch to restart, and who is excluded from it.
  unfoldable pub stalled : RolloverState → ℕ → Option (EpochId × BTreeSet)
  unfolding confirmations_excluded
  stalled (collecting_commitments c) block =
      if is_due c.deadline block
      then some (c.next_epoch, exclude_all_others c.group (map (λ e. e.0) c.commitments))
      else none
  stalled (collecting_shares c) block =
      if is_due c.deadline block
      then some (c.next_epoch, exclude_all_others c.group (elements c.shared))
      else none
  stalled (collecting_confirmations c) block = elim c.deadlines [
    | none ↦ none
    | some deadlines ↦
        elim (confirmations_excluded c.group c.complaints c.confirmations deadlines block) [
          | some excluded ↦ some (c.next_epoch, excluded)
          | none ↦ none
        ]
  ]
  stalled _ block = none

  unfoldable pub stuck_epoch : RolloverState → ℕ → Option EpochId
  unfolding is_stuck
  stuck_epoch (collecting_commitments c) block =
      if is_stuck c block then some c.next_epoch else none
  stuck_epoch _ block = none

module _ ⦃A : Alloy⦄ ⦃F : Frost⦄ where
  unfoldable pub handle_key_gen_timeouts : Transition → State → ℕ → Result
  unfolding stuck_epoch stalled
  handle_key_gen_timeouts self s block = elim (stuck_epoch s.rollover block) [
    | some next_epoch ↦ fail_rollover s next_epoch
    | none ↦ elim (stalled s.rollover block) [
      | some (next_epoch, excluded) ↦
          restart_key_gen_excluding self s next_epoch excluded (some (key_gen_deadline self block))
      | none ↦ (s, [])
    ]
  ]
