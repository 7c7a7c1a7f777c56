-- ===== src/Consensus/Epoch.antt =====
-- Epoch numbers (crates/validator/src/consensus/epoch.rs). A `NonZeroU64` is a number; that it is
-- not zero is stated where it matters.
use safenet.Prelude.{
  ℕ, zero, suc, ◌/◌, ◌+◌, ◌*◌, ◌≤◌, ◌<◌, ◌≡◌, refl, Option, none, some, arith, saturating_add, leb,
  if◌then◌else◌, u64_max,
}

unfoldable pub next_number : ℕ → ℕ → ℕ
next_number block blocks_per_epoch = saturating_add 1 (block / blocks_per_epoch)

pub data EpochId : Type 0 where
  genesis : EpochId
  number : ℕ → EpochId

unfoldable pub from_raw : ℕ → EpochId
from_raw zero = genesis
from_raw (suc n) = number (suc n)

unfoldable pub raw_value : EpochId → ℕ
raw_value genesis = 0
raw_value (number n) = n

unfoldable pub epoch_number : EpochId → Option ℕ
epoch_number genesis = none
epoch_number (number n) = some n

-- `Ord::min`: epochs are ordered by their raw values, and `min` keeps the first of two equals.
unfoldable pub epoch_min : EpochId → EpochId → EpochId
unfolding raw_value
epoch_min a b = if leb (raw_value a) (raw_value b) then a else b

abbrev pub IsEpoch : EpochId → Type 0
IsEpoch genesis = Unit
IsEpoch (number n) = 0 < n

-- The raw value of an epoch reads back as that epoch, if its number is not zero.
pub from_raw-raw_value : (e : EpochId) → IsEpoch e → from_raw (raw_value e) ≡ e
unfolding from_raw raw_value
from_raw-raw_value genesis h = refl
from_raw-raw_value (number zero) h = absurd (omega arith)
from_raw-raw_value (number (suc n)) h = refl

pub raw_value-from_raw : (n : ℕ) → raw_value (from_raw n) ≡ n
unfolding from_raw raw_value
raw_value-from_raw zero = refl
raw_value-from_raw (suc n) = refl

-- The next epoch starts after the block and no more than an epoch after it, and its number is not
-- zero, for epochs of at least one block and a block that is not the last `u64`.
pub next_number_bounds :
    (block b : ℕ)
    → 0 < b
    → block < u64_max
    → (block < next_number block b * b)
      × ((next_number block b) * b ≤ block + b)
      × (0 < next_number block b)
unfolding next_number
next_number_bounds block b h k = (grind arith, grind arith, grind arith)
