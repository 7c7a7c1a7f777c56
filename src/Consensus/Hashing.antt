-- ===== src/Consensus/Hashing.antt =====
-- The hashes that a group signs (crates/validator/src/consensus/hashing.rs).
use safenet.Prelude.{ℕ, ◌∷◌, ◌++◌, ◌%◌}
use safenet.Alloy.{Alloy, Address, B256, Bytes, word, Point, SafeTransaction, SafeTx, Domain}
use safenet.Consensus.Epoch.{EpochId, raw_value}

-- `SafeTx::from`
unfoldable pub to_safe_tx : SafeTransaction → SafeTx
to_safe_tx tx = record {
  to = tx.to;
  value = tx.value;
  input = tx.input;
  operation = tx.operation % 256;
  safe_tx_gas = tx.safe_tx_gas;
  base_gas = tx.base_gas;
  gas_price = tx.gas_price;
  gas_token = tx.gas_token;
  refund_receiver = tx.refund_receiver;
  nonce = tx.nonce;
}

-- `ConsensusDomain::new`
unfoldable pub consensus_domain : ℕ → Address → Domain
consensus_domain chain consensus = record { chain = chain; contract = consensus }

module _ ⦃A : Alloy⦄ where
  unfoldable pub safe_tx_struct_hash : SafeTransaction → B256
  safe_tx_struct_hash tx = A.safe_tx_hash_struct (to_safe_tx tx)

  unfoldable pub safe_tx_hash : SafeTransaction → B256
  safe_tx_hash tx =
      A.safe_tx_signing_hash (record { chain = tx.chain_id; contract = tx.safe }) (to_safe_tx tx)

  unfoldable pub transaction_proposal_hash : Domain → EpochId → Address → B256 → B256 → B256
  transaction_proposal_hash domain epoch oracle oracle_data_hash safe_tx_hash =
      let type_hash = A.keccak256 A.transaction_proposal_type in
      let fields =
        word type_hash
        ++ (word (raw_value epoch)
            ++ (word oracle ++ (word oracle_data_hash ++ word safe_tx_hash))) in
      let struct_hash = A.keccak256 fields in
      A.keccak256 (0x19 ∷ 0x01 ∷ (word (A.separator domain) ++ word struct_hash))

  unfoldable pub transaction_packet_hash :
      Domain → EpochId → Address → Bytes → SafeTransaction → B256
  transaction_packet_hash domain epoch oracle oracle_data tx =
      transaction_proposal_hash domain epoch oracle (A.keccak256 oracle_data) (safe_tx_hash tx)

  unfoldable pub epoch_rollover_hash : Domain → EpochId → ℕ → ℕ → Point → B256
  epoch_rollover_hash domain active_epoch proposed_epoch rollover_block group_key =
      A.rollover_signing_hash domain (record {
        active_epoch = raw_value active_epoch;
        proposed_epoch = proposed_epoch;
        rollover_block = rollover_block;
        group_key_x = group_key.x;
        group_key_y = group_key.y;
      })
