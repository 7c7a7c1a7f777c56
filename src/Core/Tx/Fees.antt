-- ===== src/Core/Tx/Fees.antt =====
-- Fees of submissions (crates/core/src/tx/fees.rs, types.rs). A fee is a `u128`; the percentage of
-- the cap, a float there, is given as the scaled whole number it is rounded to.
use safenet.Prelude.{
  ℕ, ◌+◌, ◌-◌, ◌*◌, ◌/◌, ◌≤◌, Option, none, some, if◌then◌else◌, min, max, leb, arith,
}
use safenet.Core.Tx.Types.{FeeEstimate, AllocatedTransaction, UnsignedTransaction}

abbrev pub u128_max : ℕ
u128_max = 340282366920938463463374607431768211455

-- `PRECISION`
abbrev pub precision : ℕ
precision = 1000000

unfoldable pub cap_priority_fee : FeeEstimate → ℕ → FeeEstimate
cap_priority_fee fees scaled_percent =
    if leb precision scaled_percent
    then fees
    else (let base_fee = fees.max_fee_per_gas - fees.max_priority_fee_per_gas in
        let capped = min (base_fee * scaled_percent) u128_max / (precision - scaled_percent) in
        let priority = min fees.max_priority_fee_per_gas capped in
        record { max_fee_per_gas = base_fee + priority; max_priority_fee_per_gas = priority })

-- `div_ceil(10)`
abbrev pub tenth : ℕ → ℕ
tenth n = (n + 9) / 10

unfoldable pub bump_fee : ℕ → ℕ → ℕ
bump_fee fresh previous = max fresh (min (previous + tenth previous) u128_max)

unfoldable pub bump : FeeEstimate → Option FeeEstimate → FeeEstimate
unfolding bump_fee
bump fresh none = fresh
bump fresh (some previous) = record {
  max_fee_per_gas = bump_fee fresh.max_fee_per_gas previous.max_fee_per_gas;
  max_priority_fee_per_gas =
      bump_fee fresh.max_priority_fee_per_gas previous.max_priority_fee_per_gas;
}

-- `AllocatedTransaction::build`
unfoldable pub build_unsigned : AllocatedTransaction → ℕ → FeeEstimate → UnsignedTransaction
unfolding bump
build_unsigned a chain_id estimate =
    let fees = bump estimate a.fees in
    record {
      chain_id = chain_id;
      nonce = a.nonce;
      gas_limit = a.transaction.gas;
      max_fee_per_gas = fees.max_fee_per_gas;
      max_priority_fee_per_gas = fees.max_priority_fee_per_gas;
      to = a.transaction.to;
      value = a.transaction.value;
      input = a.transaction.input;
      authorization = a.authorization;
    }

-- The replacement is at least a tenth above, unless that leaves the range of a `u128`.
pub bump_fee-ge :
    (fresh previous : ℕ)
    → previous * 11 ≤ u128_max * 10 - 100
    → (previous * 11 ≤ bump_fee fresh previous * 10) × (fresh ≤ bump_fee fresh previous)
unfolding bump_fee
bump_fee-ge fresh previous h = ground arith
