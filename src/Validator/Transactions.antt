-- ===== src/Validator/Transactions.antt =====
-- Proposed and attested transactions (crates/validator/src/state/transactions.rs).
use safenet.Prelude.{ℕ, none, some, [], false, not, if◌then◌else◌, saturating_add}
use safenet.Prelude.BTree.{get, contains}
use safenet.Alloy.{Alloy, Address, B256, Bytes, SafeTransaction}
use safenet.Consensus.Epoch.{from_raw, raw_value}
use safenet.Consensus.Hashing.{transaction_packet_hash, transaction_proposal_hash}
use safenet.Validator.Frost.{Frost}
use safenet.Validator.State.{
  Transition, State, Epoch, Packet, SigningState, waiting_for_request, Result,
}
use safenet.Validator.Sign.{handle_sign_attested, put_session}

pub record TransactionProposedEvent : Type 0 where
  pub epoch : ℕ
  pub oracle : Address
  pub oracle_data : Bytes
  pub transaction : SafeTransaction

pub record TransactionAttestedEvent : Type 0 where
  pub epoch : ℕ
  pub oracle : Address
  pub oracle_data_hash : B256
  pub safe_tx_hash : B256

module _ ⦃A : Alloy⦄ where
  unfoldable pub proposed_message : Transition → TransactionProposedEvent → B256
  unfolding from_raw
  proposed_message self event =
      transaction_packet_hash self.consensus (from_raw event.epoch) event.oracle event.oracle_data
        event.transaction

  unfoldable pub attested_message : Transition → TransactionAttestedEvent → B256
  unfolding from_raw
  attested_message self event =
      transaction_proposal_hash self.consensus (from_raw event.epoch) event.oracle
        event.oracle_data_hash event.safe_tx_hash

module _ ⦃A : Alloy⦄ ⦃F : Frost⦄ where
  -- The session that a proposal opens.
  unfoldable pub proposed_session : Transition → ℕ → TransactionProposedEvent → Epoch → SigningState
  unfolding from_raw
  proposed_session self block event epoch = waiting_for_request (record {
    key_share = epoch.key_share;
    group_id = epoch.group.id;
    responsible = none;
    packet =
        Packet.transaction (from_raw event.epoch) event.oracle event.oracle_data event.transaction;
    oracle_approved = false;
    signers = epoch.group.participants;
    deadline = saturating_add block self.config.signing_timeout;
  })

  unfoldable pub handle_transaction_proposed :
      Transition → State → ℕ → TransactionProposedEvent → Result
  unfolding proposed_message proposed_session from_raw raw_value
  handle_transaction_proposed self s block event =
      elim (get (raw_value (from_raw event.epoch)) s.epochs) [
        | none ↦ (s, [])
        | some epoch ↦
            if not (contains event.oracle self.config.oracles)
            then (s, [])
            else (elim (get (proposed_message self event) s.signing) [
              | none ↦ (
                put_session (proposed_message self event) (proposed_session self block event epoch)
                    s,
                [],
              )
              | some session ↦ (s, [])
            ])
      ]

  unfoldable pub handle_transaction_attested :
      Transition → State → TransactionAttestedEvent → Result
  unfolding attested_message handle_sign_attested
  handle_transaction_attested self s event = handle_sign_attested s (attested_message self event)
