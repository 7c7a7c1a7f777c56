-- ===== src/Core/Tx/Types.antt =====
-- Transactions of the queue (crates/core/src/tx/types.rs, fees.rs).
use safenet.Prelude.{ℕ, Option, [], ◌∷◌, ◌==◌, if◌then◌else◌, not, Bool}
use safenet.Alloy.{Address, B256, U256, Bytes, Alloy, be_bytes}

pub record Transaction : Type 0 where
  pub to : Address
  pub value : U256
  pub input : Bytes  -- `data`
  pub gas : ℕ

-- `Transaction::default()`
abbrev pub cancellation : Transaction
cancellation = record { to = 0; value = 0; input = []; gas = 21000 }

-- `Authorization`, its `address`
pub record Authorization : Type 0 where
  pub address : Address

pub record AccountStatus : Type 0 where
  pub nonce : ℕ
  pub code_hash : B256

-- `Eip1559Estimation`
pub record FeeEstimate : Type 0 where
  pub max_fee_per_gas : ℕ
  pub max_priority_fee_per_gas : ℕ

-- The fee fields are both set, by a submission, or neither is.
pub record AllocatedTransaction : Type 0 where
  pub nonce : ℕ
  pub transaction : Transaction
  pub authorization : Option Authorization
  pub fees : Option FeeEstimate

pub record UnsignedTransaction : Type 0 where
  pub chain_id : ℕ
  pub nonce : ℕ
  pub gas_limit : ℕ
  pub max_fee_per_gas : ℕ
  pub max_priority_fee_per_gas : ℕ
  pub to : Address
  pub value : U256
  pub input : Bytes
  pub authorization : Option Authorization

module _ ⦃A : Alloy⦄ where
  abbrev pub keccak_empty : B256
  keccak_empty = A.keccak256 []

  -- `Authorization::code_hash`
  unfoldable pub code_hash_of : Authorization → B256
  unfolding be_bytes
  code_hash_of a =
      if a.address == 0 then keccak_empty else A.keccak256 (239 ∷ 1 ∷ 0 ∷ be_bytes 20 a.address)

  -- `AccountStatus::new`
  unfoldable pub account_status : ℕ → B256 → AccountStatus
  account_status nonce code_hash = record {
    nonce = nonce;
    code_hash = if code_hash == 0 then keccak_empty else code_hash;
  }

  unfoldable pub is_delegated : AccountStatus → Bool
  is_delegated a = not (a.code_hash == keccak_empty)
