-- ===== src/Validator/Sign/Packets.antt =====
-- Packets and sessions (the `impl` blocks of crates/validator/src/state/sign.rs).
use safenet.Prelude.{ℕ, Option, none, some, Bool, true, false}
use safenet.Alloy.{Alloy, Address, B256, stage_epoch_call, attest_transaction_call}
use safenet.Consensus.Epoch.{EpochId, raw_value}
use safenet.Consensus.Hashing.{safe_tx_struct_hash}
use safenet.Validator.Frost.{Frost}
use safenet.Validator.State.{
  Packet, epoch_rollover, transaction, SigningState, waiting_for_request, waiting_for_oracle,
  collect_nonce_commitments, collect_signing_shares, waiting_for_attestation, Callback, Action,
}

-- `Packet::epoch`
unfoldable pub packet_epoch : Packet → EpochId
packet_epoch (epoch_rollover active_epoch proposed_epoch rollover_block gid key) = active_epoch
packet_epoch (transaction epoch oracle oracle_data tx) = epoch

-- The oracle whose result `handle_sign` must wait for, if any.
unfoldable pub awaits_oracle : Packet → Bool → Option Address
awaits_oracle (transaction epoch oracle oracle_data tx) false = some oracle
awaits_oracle (transaction epoch oracle oracle_data tx) true = none
awaits_oracle (epoch_rollover active_epoch proposed_epoch rollover_block gid key) approved = none

module _ ⦃A : Alloy⦄ where
  unfoldable pub attestation_callback : Packet → Address → Callback
  attestation_callback (transaction epoch oracle oracle_data tx) consensus = record {
    target = consensus;
    context = A.call_encode (
        attest_transaction_call (raw_value epoch) oracle (A.keccak256 oracle_data) tx.chain_id
          tx.safe (safe_tx_struct_hash tx) 0);
  }
  attestation_callback (epoch_rollover active_epoch proposed_epoch rollover_block gid key)
        consensus =
      record {
        target = consensus;
        context = A.call_encode (stage_epoch_call proposed_epoch rollover_block gid 0);
      }

module _ ⦃A : Alloy⦄ ⦃F : Frost⦄ where
  unfoldable pub attestation_action : Packet → B256 → ℕ → Action
  attestation_action (epoch_rollover active_epoch proposed_epoch rollover_block gid key) sid
        expires_at =
      Action.stage_epoch proposed_epoch rollover_block gid sid expires_at
  attestation_action (transaction epoch oracle oracle_data tx) sid expires_at =
      Action.attest_transaction epoch oracle (A.keccak256 oracle_data) tx.chain_id tx.safe
        (safe_tx_struct_hash tx) sid expires_at

module _ ⦃F : Frost⦄ where
  -- `SigningState::deadline`
  abbrev pub deadline_of : SigningState → ℕ
  deadline_of (waiting_for_request w) = w.deadline
  deadline_of (waiting_for_oracle w) = w.deadline
  deadline_of (collect_nonce_commitments c) = c.deadline
  deadline_of (collect_signing_shares c) = c.deadline
  deadline_of (waiting_for_attestation w) = w.deadline

  -- `SigningState::signature_id`
  abbrev pub signing_id : SigningState → Option B256
  signing_id (waiting_for_request w) = none
  signing_id (waiting_for_oracle w) = some w.signature_id
  signing_id (collect_nonce_commitments c) = some c.signature_id
  signing_id (collect_signing_shares c) = some c.signature_id
  signing_id (waiting_for_attestation w) = some w.signature_id

  -- `SigningState::packet`
  abbrev pub packet_of : SigningState → Packet
  packet_of (waiting_for_request w) = w.packet
  packet_of (waiting_for_oracle w) = w.packet
  packet_of (collect_nonce_commitments c) = c.packet
  packet_of (collect_signing_shares c) = c.packet
  packet_of (waiting_for_attestation w) = w.packet
