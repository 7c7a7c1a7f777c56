-- ===== src/Validator/Tests.antt =====
-- The theorems of the validator's state machine at concrete inputs.
use safenet.Prelude.{
  ℕ, ◌+◌, min, u64_max, ◌≤◌, ◌<◌, ◌≡◌, refl, none, some, List, [], ◌∷◌, true, ◌⊎◌, arith, ◌&&◌,
  ◌||◌, not,
}
use safenet.Prelude.BTree.{BTreeSet, contains, contains_key, get, insert, extend, remove_all}
use safenet.Alloy.{Address, be_bytes}
use safenet.Consensus.Hashing.{
  transaction_packet_hash, transaction_proposal_hash, safe_tx_hash, to_safe_tx,
}
use safenet.Consensus.Epoch.{number, next_number, raw_value}
use safenet.Consensus.Group.{participants_set, is_participant, min_participants, participate_as}
use safenet.Validator.State.{RolloverState, SigningState}
use safenet.Validator.Sign.{SignEvent, SignCommittedNoncesEvent, handle_sign_committed_nonces}
use safenet.Validator.Sign.Packets.{deadline_of, packet_epoch}
use safenet.Validator.Sign.Timeouts.{handle_signing_timeouts}
use safenet.Validator.Sign.Expiry.{
  CanSign, handle_signing_timeouts-deadline, handle_signing_timeouts-CanSign,
}
use safenet.Validator.Sign.Nonces.{
  collects_for, shares_for, handle_sign_committed_nonces-use_nonces,
}
use safenet.Validator.KeyGen.Rollover.{handle_rollover_new_block}
use safenet.Validator.KeyGen.Timeouts.{handle_key_gen_timeouts}
use safenet.Validator.Transactions.{
  TransactionProposedEvent, handle_transaction_proposed, handle_transaction_attested,
  proposed_message,
}
use safenet.Validator.Reconcile.{handle_group_reconciliation, retained_groups}
use safenet.Validator.Step.{Message, Event, event, new_block, apply_transition}
use safenet.Validator.Links.Transition.{IsConsistent, apply_transition-IsConsistent}
use safenet.Validator.Burns.Count.{burns, open_sessions}
use safenet.Validator.Burns.Trace.{apply_all, requests, apply_all-burns}
use safenet.Validator.Rollovers.Clock.{
  IsAhead, apply_transition-Advances, handle_rollover_new_block-next_number,
}
use safenet.Validator.Rollovers.Activation.{apply_transition-active_epoch}
use safenet.Validator.Rollovers.Tolerance.{IsTolerated, apply_transition-IsTolerated}
use safenet.Validator.Rollovers.Restart.{
  Restarts, IsStuck, handle_key_gen_timeouts-shares, handle_key_gen_timeouts-commitments,
}
use safenet.Validator.Proposals.{
  attestation_of, handle_transaction_attested-proposed, handle_transaction_proposed-again,
}
use safenet.Validator.Retention.{
  retained_groups-epoch, handle_group_reconciliation-session, handle_group_reconciliation-active,
}
use safenet.Samples.{
  sample_alloy, sample_frost, machine, staged, sharing, committing_keys, half_shared,
  half_committed, sample_transaction, waiting, sample_group, sample_packet,
}

abbrev requested : SignEvent
requested = record { gid = 77; message = 500; sid = 70 }

abbrev last_commitment : SignCommittedNoncesEvent
last_commitment = record { sid = 60; participant = 3; nonces = 13 }

abbrev messages : List Message
messages =
    event 12 (Event.sign requested)
    ∷ event 13 (Event.sign_committed_nonces last_commitment)
    ∷ new_block 14
    ∷ []

-- The first block of epoch 2.
abbrev following : Message
following = new_block 20

apply_all-burns_example :
    burns 60 (apply_all machine staged messages).1
    ≤ open_sessions 60 staged.signing + requests 60 messages
apply_all-burns_example =
    apply_all-burns machine staged messages 60 (omega arith, (omega arith, tt))

-- The nonces of the open session are used once indeed.
burns_test : burns 60 (handle_sign_committed_nonces machine staged 13 last_commitment).1 ≡ 1
unfolding handle_sign_committed_nonces burns get insert
burns_test = refl

staged-IsConsistent : IsConsistent staged
unfolding get
staged-IsConsistent = record {
  sorted = (omega arith, (omega arith, tt));
  linked = record { forth = λ m x h. ground arith; back = λ m x h. ground arith };
}

apply_transition-IsConsistent_example :
    IsConsistent (apply_transition machine staged (event 12 (Event.sign requested))).0
unfolding get
apply_transition-IsConsistent_example =
    apply_transition-IsConsistent machine staged (event 12 (Event.sign requested)) refl
      staged-IsConsistent

apply_transition-Advances_example :
    (IsAhead
      (apply_transition machine staged following).0.active_epoch
      (apply_transition machine staged following).0.rollover)
    × (1 ≤ raw_value (apply_transition machine staged following).0.active_epoch)
unfolding IsAhead
apply_transition-Advances_example = apply_transition-Advances machine staged following (omega arith)

apply_transition-active_epoch_example :
    ((apply_transition machine staged following).0.active_epoch ≡ number 1)
    ⊎ ((block : ℕ) × (n : ℕ) × (following ≡ new_block block)
        × (staged.rollover ≡ RolloverState.epoch_staged n)
        × (n < next_number block 10)
        × ((apply_transition machine staged following).0.active_epoch ≡ number n))
apply_transition-active_epoch_example = apply_transition-active_epoch machine staged following

apply_transition-IsTolerated_example :
    IsTolerated 3 (apply_transition machine sharing (new_block 11)).0.rollover
unfolding IsTolerated get
apply_transition-IsTolerated_example =
    apply_transition-IsTolerated machine sharing 3 (new_block 11) (omega arith)

handle_key_gen_timeouts-shares_example :
    (excluded : BTreeSet) × ((a : Address)
      → contains a excluded ≡ (
          contains a half_shared.group.excluded
          || (contains a half_shared.group.participants && not (contains a half_shared.shared))))
    × Restarts machine 2 excluded
        (some (min (12 + machine.config.key_gen_timeout) u64_max))
        (handle_key_gen_timeouts machine sharing 12).0.rollover
handle_key_gen_timeouts-shares_example =
    handle_key_gen_timeouts-shares machine sharing 12 2 12 half_shared refl refl refl (omega arith)

handle_key_gen_timeouts-commitments_example :
    (excluded : BTreeSet) × ((a : Address)
      → contains a excluded ≡ (
          contains a half_committed.group.excluded
          || (contains a half_committed.group.participants
              && not (contains_key a half_committed.commitments))))
    × ((IsStuck half_committed
          × ((handle_key_gen_timeouts machine committing_keys 13).0.rollover
              ≡ RolloverState.epoch_skipped 2))
        ⊎ ((¬ IsStuck half_committed)
            × Restarts machine 2 excluded
                (some (min (13 + machine.config.key_gen_timeout) u64_max))
                (handle_key_gen_timeouts machine committing_keys 13).0.rollover))
handle_key_gen_timeouts-commitments_example =
    handle_key_gen_timeouts-commitments machine committing_keys 13 2 12 half_committed refl refl
      refl (omega arith)

handle_rollover_new_block-next_number_example : next_number 25 10 ≤ 3
unfolding handle_rollover_new_block next_number participants_set extend is_participant insert
    remove_all min_participants participate_as get
handle_rollover_new_block-next_number_example =
    handle_rollover_new_block-next_number machine staged 25 3 refl

handle_signing_timeouts-deadline_example : 14 < deadline_of waiting
unfolding handle_signing_timeouts get
handle_signing_timeouts-deadline_example =
    handle_signing_timeouts-deadline machine staged 14 500 waiting (omega arith) (omega arith)
      (omega arith, (omega arith, tt)) refl

-- At its deadline, the session of message 600 goes on without the signer that has not committed.
abbrev continued : SigningState
continued = SigningState.collect_signing_shares (record {
  key_share = 8;
  group_id = 77;
  signature_id = 60;
  committed = (1, 11) ∷ (2, 12) ∷ [];
  selections = [];
  packet = sample_packet;
  signers = (1, tt) ∷ (2, tt) ∷ [];
  deadline = 20;
})

handle_signing_timeouts-CanSign_example :
    ((get 600 staged.signing ≡ some continued) × (15 < deadline_of continued))
    ⊎ CanSign machine continued
unfolding handle_signing_timeouts get
handle_signing_timeouts-CanSign_example =
    handle_signing_timeouts-CanSign machine staged 15 600 continued (omega arith, (omega arith, tt))
      refl

handle_sign_committed_nonces-use_nonces_example :
    (collects_for (get 600 staged.signing) ≡ some 60)
    × (shares_for
          (get 600 (handle_sign_committed_nonces machine staged 13 last_commitment).0.signing)
        ≡ some 60)
    × (collects_for
          (get 600 (handle_sign_committed_nonces machine staged 13 last_commitment).0.signing)
        ≡ none)
unfolding handle_sign_committed_nonces get insert
handle_sign_committed_nonces-use_nonces_example =
    handle_sign_committed_nonces-use_nonces machine staged 13 last_commitment 600 60 refl

abbrev proposal : TransactionProposedEvent
proposal = record {
  epoch = 1;
  oracle = 50;
  oracle_data = 1 ∷ 2 ∷ [];
  transaction = sample_transaction;
}

handle_transaction_attested-proposed_example :
    handle_transaction_attested machine
      (handle_transaction_proposed machine staged 12 proposal).0
      (attestation_of proposal)
    ≡ (staged, [])
unfolding proposed_message get transaction_packet_hash transaction_proposal_hash be_bytes raw_value
    safe_tx_hash to_safe_tx
handle_transaction_attested-proposed_example =
    handle_transaction_attested-proposed machine staged 12 proposal refl

handle_transaction_proposed-again_example :
    handle_transaction_proposed machine
      (handle_transaction_proposed machine staged 12 proposal).0
      13
      proposal
    ≡ ((handle_transaction_proposed machine staged 12 proposal).0, [])
handle_transaction_proposed-again_example =
    handle_transaction_proposed-again machine staged 12 13 proposal

retained_groups-epoch_example :
    contains_key sample_group.id (retained_groups staged.epochs staged.rollover) ≡ true
unfolding get
retained_groups-epoch_example =
    retained_groups-epoch staged.epochs staged 2 (record { group = sample_group; key_share = 9 })
      refl

handle_group_reconciliation-session_example :
    get 1 (handle_group_reconciliation staged 14).0.epochs ≡ get 1 staged.epochs
unfolding get packet_epoch raw_value
handle_group_reconciliation-session_example =
    handle_group_reconciliation-session staged 14 1 500 waiting refl (omega arith)

handle_group_reconciliation-active_example :
    get 2 (handle_group_reconciliation staged 14).0.epochs ≡ get 2 staged.epochs
unfolding raw_value
handle_group_reconciliation-active_example =
    handle_group_reconciliation-active staged 14 2 (omega arith)
