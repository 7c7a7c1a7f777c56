-- ===== src/Validator/KeyGen/Rollover.antt =====
-- Confirmations, staged epochs and the block clock (`handle_key_gen_confirmed`,
-- `handle_epoch_staged`, `handle_rollover_new_block` of crates/validator/src/state/keygen.rs).
use safenet.Prelude.{
  ℕ, none, some, [], false, if◌then◌else◌, saturating_add, saturating_mul, and_then, ◌==◌, leb,
}
use safenet.Prelude.BTree.{get, set_insert}
use safenet.Alloy.{Alloy, Address, B256}
use safenet.Consensus.Epoch.{genesis, number, raw_value, epoch_number, next_number}
use safenet.Consensus.Group.{participants_set}
use safenet.Consensus.Hashing.{epoch_rollover_hash}
use safenet.Validator.Frost.{Frost}
use safenet.Validator.State.{
  Transition, State, RolloverState, waiting_for_genesis, halted, epoch_staged, epoch_skipped,
  collecting_confirmations, signing_rollover, CollectingConfirmations, Packet, waiting_for_request,
  Result,
}
use safenet.Validator.KeyGen.Start.{
  start_key_gen, finalize_key_gen, key_share_of, group_commitments_of, key_gen_deadline,
  fresh_epoch, next_epoch_of,
}
use safenet.Validator.KeyGen.Rounds.{is_complete}
use safenet.Validator.Sign.{handle_sign_attested, put_session}

pub record KeyGenConfirmedEvent : Type 0 where
  pub gid : B256
  pub participant : Address

pub record EpochStagedEvent : Type 0 where
  pub proposed_epoch : ℕ
  pub group_id : B256

module _ ⦃A : Alloy⦄ ⦃F : Frost⦄ where
  -- A ceremony for the epoch with everyone again, if they form a participant set.
  unfoldable pub start_fresh : Transition → State → ℕ → ℕ → State → Result
  unfolding start_key_gen
  start_fresh self s block n otherwise =
      elim (participants_set self.config.participants (fresh_epoch self n [])) [
        | some participants ↦
            start_key_gen self s (number n) participants (some (key_gen_deadline self block))
        | none ↦ (otherwise, [])
      ]

  unfoldable pub genesis_confirmed : Transition → State → ℕ → CollectingConfirmations → Result
  unfolding start_fresh finalize_key_gen
  genesis_confirmed self s block c =
      let n = next_number block self.config.blocks_per_epoch in
      let s' =
        finalize_key_gen (record s { rollover = epoch_skipped n }) genesis c.group
          (key_share_of c.status) in
      start_fresh self s' block n s'

  -- The signing session for the rollover of epoch `n`, if this validator signs in the active one.
  unfoldable pub register_rollover :
      Transition → State → ℕ → Address → ℕ → CollectingConfirmations → B256 → State
  register_rollover self s block participant n c message =
      elim (get (raw_value s.active_epoch) s.epochs) [
        | none ↦ s
        | some epoch ↦
            put_session message
              (waiting_for_request (record {
                key_share = epoch.key_share;
                group_id = epoch.group.id;
                responsible = some participant;
                packet =
                    Packet.epoch_rollover s.active_epoch n
                      (saturating_mul n self.config.blocks_per_epoch) c.group.id
                      (F.group_key (group_commitments_of c.participation));
                oracle_approved = false;
                signers = epoch.group.participants;
                deadline = saturating_add block self.config.signing_timeout;
              }))
              s
      ]

  -- The message that the active epoch signs for the rollover to epoch `n`.
  unfoldable pub rollover_message : Transition → State → ℕ → CollectingConfirmations → B256
  rollover_message self s n c =
      epoch_rollover_hash self.consensus s.active_epoch n
        (saturating_mul n self.config.blocks_per_epoch)
        (F.group_key (group_commitments_of c.participation))

  unfoldable pub epoch_confirmed :
      Transition → State → ℕ → Address → ℕ → CollectingConfirmations → Result
  unfolding register_rollover rollover_message
  epoch_confirmed self s block participant n c =
      let message = rollover_message self s n c in
      let s' = register_rollover self s block participant n c message in
      (
        record s' {
          rollover = signing_rollover (record {
            next_epoch = n;
            group = c.group;
            key_share = key_share_of c.status;
            message = message;
          });
        },
        [],
      )

  unfoldable pub handle_key_gen_confirmed : Transition → State → ℕ → KeyGenConfirmedEvent → Result
  unfolding genesis_confirmed epoch_confirmed
  handle_key_gen_confirmed self s block event = elim s.rollover [
    | collecting_confirmations c ↦
        if c.group.id == event.gid
        then (let c' = record c { confirmations = set_insert event.participant c.confirmations } in
            if is_complete c'.confirmations c'.group
            then (elim c'.next_epoch [
              | genesis ↦ genesis_confirmed self s block c'
              | number n ↦ epoch_confirmed self s block event.participant n c'
            ])
            else (record s { rollover = collecting_confirmations c' }, []))
        else (s, [])
    | _ ↦ (s, [])
  ]

  -- `active_epoch` moves on with the block clock, not here.
  unfoldable pub handle_epoch_staged : State → EpochStagedEvent → Result
  unfolding finalize_key_gen handle_sign_attested
  handle_epoch_staged s event = elim s.rollover [
    | signing_rollover r ↦
        if r.group.id == event.group_id
        then handle_sign_attested
            (finalize_key_gen (record s { rollover = epoch_staged r.next_epoch })
              (number r.next_epoch) r.group r.key_share)
            r.message
        else (s, [])
    | waiting_for_genesis ↦ (
      record s {
        rollover = if event.proposed_epoch == 0 then halted else epoch_skipped event.proposed_epoch;
      },
      [],
    )
    | _ ↦ (s, [])
  ]

  -- An epoch that was staged in time becomes the active one.
  unfoldable pub activate : RolloverState → ℕ → State → State
  activate (epoch_staged n) target s = record s { active_epoch = number target }
  activate _ target s = s

  unfoldable pub handle_rollover_new_block : Transition → State → ℕ → Result
  unfolding activate start_fresh next_epoch_of epoch_number
  handle_rollover_new_block self s block = elim (and_then (next_epoch_of s.rollover) epoch_number) [
    | none ↦ (s, [])
    | some target ↦
        let n = next_number block self.config.blocks_per_epoch in
        if leb n target
        then (s, [])
        else (let s' = activate s.rollover target s in
            start_fresh self s' block n (record s' { rollover = epoch_skipped n }))
  ]
