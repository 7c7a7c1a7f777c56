-- ===== src/Core/Tx/Bundle.antt =====
-- The bundling of queued transactions (crates/core/src/tx/bundle.rs). The encoding of the
-- executor's call is a parameter.
use safenet.Prelude.{
  ℕ, ◌+◌, ◌-◌, ◌*◌, ◌/◌, Option, none, some, List, [], ◌∷◌, ◌++◌, ◌==◌, if◌then◌else◌, not, Bool,
  true, false, ◌&&◌, ◌||◌, ltb, length, saturating_add, saturating_mul, map_option,
}
use safenet.Alloy.{Address, U256, Bytes}
use safenet.Core.Tx.Types.{Transaction, Authorization, AllocatedTransaction}

-- `ISafenet7702Executor::Call`
pub record Call : Type 0 where
  pub to : Address
  pub value : U256
  pub gas_limit : U256
  pub input : Bytes

pub record Batch : Type 0 where
  pub account : Address
  pub max_batch_gas : ℕ
  pub calls : List Call
  pub gas : ℕ
  pub full : Bool

pub data Bundle : Type 0 where
  direct : Option Transaction → Bundle
  batched : Batch → Bundle

pub record Bundler : Type 0 where
  pub inner : Bundle
  pub authorization : Option Authorization

abbrev pub calldata_gas_per_byte : ℕ
calldata_gas_per_byte = 16

abbrev pub batch_gas : ℕ
batch_gas = 26000 + calldata_gas_per_byte * (4 + 32 + 32)

abbrev pub call_overhead_gas : ℕ
call_overhead_gas = 5000

abbrev pub call_value_gas : ℕ
call_value_gas = 34000

-- `PER_EMPTY_ACCOUNT_COST`
abbrev pub per_empty_account_cost : ℕ
per_empty_account_cost = 25000

-- `div_ceil`
abbrev pub div_ceil : ℕ → ℕ → ℕ
div_ceil n d = (n + (d - 1)) / d

unfoldable pub call_gas : Transaction → ℕ
call_gas t =
    let data_len = div_ceil (length t.input) 32 * 32 in
    let calldata = saturating_mul calldata_gas_per_byte (32 + 4 * 32 + 32 + data_len) in
    let value = if t.value == 0 then 0 else call_value_gas in
    saturating_add
      (saturating_add (saturating_add (saturating_add calldata t.gas) (div_ceil t.gas 63))
        call_overhead_gas)
      value

-- `Bundler::direct`, `Bundler::batched`
abbrev pub direct_bundler : Option Authorization → Bundler
direct_bundler a = record { inner = direct none; authorization = a }

abbrev pub batched_bundler : Address → ℕ → Option Authorization → Bundler
batched_bundler account max_batch_gas a = record {
  inner = batched (record {
    account = account;
    max_batch_gas = max_batch_gas;
    calls = [];
    gas = batch_gas;
    full = false;
  });
  authorization = a;
}

abbrev pub call_of : Transaction → Call
call_of t = record { to = t.to; value = t.value; gas_limit = t.gas; input = t.input }

abbrev pub is_empty {ℓ} : {A : Type ℓ} → List A → Bool
is_empty [] = true
is_empty (x ∷ xs) = false

unfoldable pub push_batch : Batch → Transaction → Batch × Bool
unfolding call_gas
push_batch b t =
    let total = saturating_add b.gas (call_gas t) in
    if b.full || (not (is_empty b.calls) && ltb b.max_batch_gas total)
    then (record b { full = true }, false)
    else (record b { gas = total; calls = b.calls ++ (call_of t ∷ []) }, true)

unfoldable pub push : Bundler → Transaction → Bundler × Bool
unfolding push_batch
push b t = elim b.inner [
  | direct none ↦ (record b { inner = direct (some t) }, true)
  | direct (some u) ↦ (record b { inner = direct (some u) }, false)
  | batched c ↦ let r = push_batch c t in (record b { inner = batched r.0 }, r.1)
]

-- An authorization is charged as if the account were empty.
abbrev pub charge : Option Authorization → Transaction → Transaction
charge none t = t
charge (some a) t = record t { gas = saturating_add t.gas per_empty_account_cost }

module _ (encode_calls : List Call → Bytes) where
  unfoldable pub bundled : Bundle → Option Transaction
  bundled (direct t) = t
  bundled (batched b) =
      if is_empty b.calls
      then none
      else some (record { to = b.account; value = 0; input = encode_calls b.calls; gas = b.gas })

  unfoldable pub finish : Bundler → ℕ → Option AllocatedTransaction
  unfolding bundled
  finish b nonce =
      map_option
        (λ t. record {
          nonce = nonce;
          transaction = charge b.authorization t;
          authorization = b.authorization;
          fees = none;
        })
        (bundled b.inner)
