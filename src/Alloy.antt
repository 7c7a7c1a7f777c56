-- ===== src/Alloy.antt =====
-- Ethereum types, and what the validator calls of the alloy crates.
use safenet.Prelude.{ℕ, zero, suc, ◌/◌, ◌%◌, ◌^◌, List, [], ◌∷◌}

-- An address is a number below 2 ^ 160, a `B256` or `U256` one below 2 ^ 256.
abbrev pub Address : Type 0
Address = ℕ

abbrev pub B256 : Type 0
B256 = ℕ

abbrev pub U256 : Type 0
U256 = ℕ

abbrev pub Bytes : Type 0
Bytes = List ℕ

-- `to_be_bytes` in `k` bytes.
unfoldable pub be_bytes : ℕ → ℕ → Bytes
be_bytes zero n = []
be_bytes (suc k) n = (n / 256 ^ k % 256) ∷ be_bytes k n

abbrev pub word : ℕ → Bytes
word = be_bytes 32

-- `bindings::Point`
pub record Point : Type 0 where
  pub x : U256
  pub y : U256

-- `bindings::SafeTransaction`
pub record SafeTransaction : Type 0 where
  pub chain_id : U256
  pub safe : Address
  pub to : Address
  pub value : U256
  pub input : Bytes
  pub operation : ℕ
  pub safe_tx_gas : U256
  pub base_gas : U256
  pub gas_price : U256
  pub gas_token : Address
  pub refund_receiver : Address
  pub nonce : U256

-- The EIP-712 structs of consensus/hashing.rs.
pub record SafeTx : Type 0 where
  pub to : Address
  pub value : U256
  pub input : Bytes
  pub operation : ℕ
  pub safe_tx_gas : U256
  pub base_gas : U256
  pub gas_price : U256
  pub gas_token : Address
  pub refund_receiver : Address
  pub nonce : U256

pub record EpochRollover : Type 0 where
  pub active_epoch : ℕ
  pub proposed_epoch : ℕ
  pub rollover_block : ℕ
  pub group_key_x : U256
  pub group_key_y : U256

pub record Domain : Type 0 where
  pub chain : U256
  pub contract : Address

-- Calls of the consensus contract that a callback carries.
pub data ConsensusCall : Type 0 where
  -- proposed epoch, rollover block, group id, signature id
  stage_epoch_call : ℕ → ℕ → B256 → B256 → ConsensusCall
  -- epoch, oracle, oracle data hash, chain id, safe, SafeTx struct hash, signature id
  attest_transaction_call : ℕ → Address → B256 → U256 → Address → B256 → B256 → ConsensusCall

-- The operations of the alloy crates, of which nothing is assumed here.
pub record Alloy : Type 0 where
  pub keccak256 : Bytes → B256
  pub separator : Domain → B256
  pub safe_tx_hash_struct : SafeTx → B256
  pub safe_tx_signing_hash : Domain → SafeTx → B256
  pub rollover_signing_hash : Domain → EpochRollover → B256
  pub transaction_proposal_type : Bytes
  pub call_encode : ConsensusCall → Bytes
  -- `(u64, u64).abi_encode()`
  pub pair_encode : ℕ → ℕ → Bytes
