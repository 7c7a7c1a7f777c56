-- ===== src/Validator/Proposals.antt =====
-- Proposed and attested transactions together (crates/validator/src/state/transactions.rs).
use safenet.Prelude.{ℕ, ◌≡◌, refl, none, arith, []}
use safenet.Prelude.BTree.{get, get-insert, remove_absent, remove-insert}
use safenet.Alloy.{Alloy}
use safenet.Consensus.Hashing.{transaction_packet_hash, safe_tx_hash}
use safenet.Validator.Frost.{Frost}
use safenet.Validator.State.{Transition, State}
use safenet.Validator.Transactions.{
  TransactionProposedEvent, TransactionAttestedEvent, handle_transaction_proposed,
  handle_transaction_attested, proposed_message, attested_message, proposed_session,
}

module _ ⦃A : Alloy⦄ where
  -- The attestation of a proposed transaction.
  unfoldable pub attestation_of : TransactionProposedEvent → TransactionAttestedEvent
  attestation_of e = record {
    epoch = e.epoch;
    oracle = e.oracle;
    oracle_data_hash = A.keccak256 e.oracle_data;
    safe_tx_hash = safe_tx_hash e.transaction;
  }

  pub attested_message-attestation_of :
      (self : Transition) (e : TransactionProposedEvent)
      → attested_message self (attestation_of e) ≡ proposed_message self e
  unfolding attested_message proposed_message attestation_of transaction_packet_hash
  attested_message-attestation_of self e = refl

module _ ⦃A : Alloy⦄ ⦃F : Frost⦄ where
  -- Where a proposal's message has no signing session, the proposal and then its attestation leave
  -- the whole state as it was before the proposal: the session that the proposal opens, if it opens
  -- one, is the one that the attestation takes away, and nothing else changes.
  pub handle_transaction_attested-proposed :
      (self : Transition) (s : State) (block : ℕ) (e : TransactionProposedEvent)
      → get (proposed_message self e) s.signing ≡ none
      → let (proposed, _) = handle_transaction_proposed self s block e in
        handle_transaction_attested self proposed (attestation_of e) ≡ (s, [])
  unfolding handle_transaction_attested handle_transaction_proposed proposed_session
  handle_transaction_attested-proposed self s block e h =
      grind
        (arith, attested_message-attestation_of self e, get-insert, remove_absent, remove-insert)

  -- A proposal that comes again right after the first time, at any block, changes nothing and leads
  -- to no command: the session that the first one opened is not replaced.
  pub handle_transaction_proposed-again :
      (self : Transition) (s : State) (block later : ℕ) (e : TransactionProposedEvent)
      → let (proposed, _) = handle_transaction_proposed self s block e in
        handle_transaction_proposed self proposed later e ≡ (proposed, [])
  unfolding handle_transaction_proposed
  handle_transaction_proposed-again self s block later e = grind (arith, get-insert)
