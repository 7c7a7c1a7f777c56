-- ===== src/Core/Updates.antt =====
-- What the indexer tells the state machine (crates/core/src/index: mod.rs, blocks.rs, events.rs).
use safenet.Prelude.{ℕ, List}
use safenet.Alloy.{Address, B256}

-- `RangeInclusive<u64>`
pub record BlockRange : Type 0 where
  pub start : ℕ
  pub last : ℕ

pub data BlockUpdate : Type 0 where
  warp : (from to : ℕ) → BlockUpdate
  uncle : (number : ℕ) → BlockUpdate
  -- number, hash, timestamp, logs bloom
  new : (number : ℕ) → B256 → ℕ → ℕ → BlockUpdate

pub record BlockStatus : Type 0 where
  pub latest : ℕ
  pub safe : ℕ

pub record EventBlock : Type 0 where
  pub number : ℕ
  pub timestamp : ℕ

pub record EventLog {ℓ} (E : Type ℓ) : Type ℓ where
  pub block : EventBlock
  pub index : ℕ
  pub address : Address
  pub payload : E  -- `data`

pub record EventUpdate {ℓ} (E : Type ℓ) : Type ℓ where
  pub blocks : BlockRange
  pub logs : List (EventLog E)

pub data Update {ℓ} (E : Type ℓ) : Type ℓ where
  block : BlockUpdate → Update E
  logs : EventUpdate E → Update E
