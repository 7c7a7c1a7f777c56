-- ===== src/Validator/Reconcile.antt =====
-- Which epochs and group secrets stay (crates/validator/src/state/secrets.rs).
use safenet.Prelude.{ℕ, none, some, List, [], ◌∷◌, filter, map, leb}
use safenet.Prelude.BTree.{BTreeMap, values, insert}
use safenet.Alloy.{B256}
use safenet.Consensus.Epoch.{EpochId, epoch_min, raw_value}
use safenet.Consensus.Group.{Group}
use safenet.Validator.Frost.{Frost}
use safenet.Validator.State.{
  State, Epoch, RolloverState, collecting_commitments, collecting_shares, collecting_confirmations,
  signing_rollover, KeyGenCommitment, KeyGenParticipation, KeyGenConfirmation, SigningState,
  RetainedSecrets, nonces, all, Result, effect, Effect,
}
use safenet.Validator.Sign.Packets.{packet_of, packet_epoch}

-- `collect::<BTreeMap<_, _>>()` and `extend`
unfoldable pub insert_all :
    List (B256 × RetainedSecrets) → BTreeMap RetainedSecrets → BTreeMap RetainedSecrets
insert_all [] m = m
insert_all ((k, v) ∷ xs) m = insert_all xs (insert k v m)

module _ ⦃F : Frost⦄ where
  -- The oldest epoch that the active one or a signing session needs.
  unfoldable pub oldest_epoch : EpochId → List SigningState → EpochId
  unfolding packet_epoch epoch_min
  oldest_epoch oldest [] = oldest
  oldest_epoch oldest (session ∷ rest) =
      oldest_epoch (epoch_min oldest (packet_epoch (packet_of session))) rest

  -- `epochs.split_off(&oldest)`
  unfoldable pub split_off : EpochId → BTreeMap Epoch → BTreeMap Epoch
  split_off oldest epochs = filter (λ e. leb (raw_value oldest) e.0) epochs

  -- What is kept of the commitment round.
  abbrev pub commitment_secrets : Group → KeyGenCommitment → List (B256 × RetainedSecrets)
  commitment_secrets group (KeyGenCommitment.participating poap secrets) = (group.id, all) ∷ []
  commitment_secrets group KeyGenCommitment.observing = []

  abbrev pub participation_secrets : Group → KeyGenParticipation → List (B256 × RetainedSecrets)
  participation_secrets group (KeyGenParticipation.participating sharing) = (group.id, all) ∷ []
  participation_secrets group (KeyGenParticipation.observing commitments) = []

  -- What is kept of the key generation in progress.
  unfoldable pub rollover_secrets : RolloverState → List (B256 × RetainedSecrets)
  rollover_secrets (collecting_commitments c) = commitment_secrets c.group c.secrets
  rollover_secrets (collecting_shares c) = participation_secrets c.group c.participation
  rollover_secrets (collecting_confirmations c) = elim c.status [
    | KeyGenConfirmation.confirmed key_share ↦ (c.group.id, nonces) ∷ []
    | _ ↦ participation_secrets c.group c.participation
  ]
  rollover_secrets (signing_rollover r) = elim r.key_share [
    | some key_share ↦ (r.group.id, nonces) ∷ []
    | none ↦ []
  ]
  rollover_secrets _ = []

  unfoldable pub retained_groups : BTreeMap Epoch → RolloverState → BTreeMap RetainedSecrets
  unfolding insert_all rollover_secrets
  retained_groups epochs rollover =
      insert_all (rollover_secrets rollover)
        (insert_all (map (λ e. (e.1.group.id, nonces)) epochs) [])

  unfoldable pub handle_group_reconciliation : State → ℕ → Result
  unfolding oldest_epoch split_off retained_groups
  handle_group_reconciliation s block =
      let epochs = split_off (oldest_epoch s.active_epoch (values s.signing)) s.epochs in
      (
        record s { epochs = epochs },
        effect (Effect.reconcile_group_secrets block (retained_groups epochs s.rollover)) ∷ [],
      )
