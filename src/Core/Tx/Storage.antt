-- ===== src/Core/Tx/Storage.antt =====
-- The two tables of the transaction queue and their queries (crates/core/src/tx/storage.rs). The
-- rows of `allocated_nonces` are a map from nonces, the rows of `transactions` a list in the order
-- of their ids. A request's JSON is the request; failures of the database are left out, and a
-- number that is no `i64` is an error, as it is when a query binds or reads it.
use safenet.Prelude.{
  ℕ, ◌+◌, Option, none, some, List, [], ◌∷◌, ◌++◌, if◌then◌else◌, not, Bool, true, false, ◌&&◌, ltb,
  leb, length, is_some, is_none, filter, max, map_option, Outcome, ok, err, ◌>>=◌,
}
use safenet.Prelude.BTree.{BTreeMap, get, insert}
use safenet.Alloy.{Address, Bytes}
use safenet.Core.Snapshots.{i64_max, current}
use safenet.Core.Tx.Types.{
  Transaction, cancellation, Authorization, FeeEstimate, AllocatedTransaction,
}
use safenet.Core.Tx.Bundle.{Bundler, push, finish, Call}

pub data TxStorageError : Type 0 where
  overflow : TxStorageError
  nonce_not_found : ℕ → TxStorageError

-- The column `request`: the transaction, and the fees of its last submission.
pub record StoredRequest : Type 0 where
  pub transaction : Transaction
  pub fees : Option FeeEstimate

pub record NonceRow : Type 0 where
  pub request : Option StoredRequest
  pub delegate : Option Address
  pub submitted_at : Option ℕ
  pub executed_at : Option ℕ

pub record QueuedRow : Type 0 where
  pub id : ℕ
  pub request : Transaction
  pub expires_at : Option ℕ
  pub nonce : Option ℕ

pub record TransactionStorage : Type 0 where
  pub allocated_nonces : BTreeMap NonceRow
  pub transactions : List QueuedRow

pub record Submission : Type 0 where
  pub block : Option ℕ
  pub nonce : ℕ
  pub fees : FeeEstimate

-- The account's nonce at the latest block.
pub record ChainStatus : Type 0 where
  pub block : ℕ
  pub nonce : ℕ

-- `i64::try_from`
abbrev pub to_i64 : ℕ → Outcome TxStorageError ℕ
to_i64 n = if ltb i64_max n then err overflow else ok n

abbrev pub optional_i64 : Option ℕ → Outcome TxStorageError (Option ℕ)
optional_i64 none = ok none
optional_i64 (some n) = to_i64 n >>= λ m. ok (some m)

-- SQLite's next id: one above the largest.
unfoldable pub next_id : List QueuedRow → ℕ
next_id [] = 1
next_id (r ∷ rs) = max (r.id + 1) (next_id rs)

unfoldable pub insert_queued :
    List (Transaction × Option ℕ) → List QueuedRow → Outcome TxStorageError (List QueuedRow)
unfolding next_id
insert_queued [] rows = ok rows
insert_queued ((t, expires_at) ∷ ts) rows = optional_i64 expires_at >>= λ e.
    insert_queued ts
      (rows ++ (record { id = next_id rows; request = t; expires_at = e; nonce = none } ∷ []))

unfoldable pub enqueue :
    List (Transaction × Option ℕ) → TransactionStorage → Outcome TxStorageError TransactionStorage
unfolding insert_queued
enqueue ts s = insert_queued ts s.transactions >>= λ rows. ok (record s { transactions = rows })

unfoldable pub count_rows : (NonceRow → Bool) → BTreeMap NonceRow → ℕ
count_rows p [] = 0
count_rows p ((n, r) ∷ m) = if p r then 1 + count_rows p m else count_rows p m

abbrev pub in_flight_row : NonceRow → Bool
in_flight_row r = is_some r.request && is_none r.executed_at

unfoldable pub count_in_flight : TransactionStorage → ℕ
unfolding count_rows
count_in_flight s = count_rows in_flight_row s.allocated_nonces

-- `nonce IS NULL AND (expires_at IS NULL OR expires_at > ?)`
abbrev pub is_live : ℕ → Option ℕ → Bool
is_live block none = true
is_live block (some e) = ltb block e

abbrev pub is_queued : ℕ → QueuedRow → Bool
is_queued block r = is_none r.nonce && is_live block r.expires_at

-- The loop over the queued transactions, and the id of the last one that the bundler took.
unfoldable pub take_queued : ℕ → Bundler → Option ℕ → List QueuedRow → Bundler × Option ℕ
unfolding push
take_queued block b last [] = (b, last)
take_queued block b last (r ∷ rows) =
    if is_queued block r
    then (let p = push b r.request in
        let rest = take_queued block p.0 (some r.id) rows in if p.1 then rest else (p.0, last))
    else take_queued block b last rows

-- `MAX(?, COALESCE((SELECT MAX(nonce) + 1 FROM allocated_nonces), 0))`
unfoldable pub next_nonce : ℕ → BTreeMap NonceRow → ℕ
unfolding current
next_nonce n m = elim (current m) [ none ↦ max n 0 | some (top, r) ↦ max n (top + 1) ]

abbrev pub request_row : Transaction → NonceRow
request_row t = record {
  request = some (record { transaction = t; fees = none });
  delegate = none;
  submitted_at = none;
  executed_at = none;
}

abbrev pub delegate_row : Address → NonceRow
delegate_row a = record {
  request = none;
  delegate = some a;
  submitted_at = none;
  executed_at = none;
}

unfoldable pub insert_allocated :
    AllocatedTransaction → BTreeMap NonceRow → Outcome TxStorageError (BTreeMap NonceRow)
insert_allocated a m =
    let m' = insert a.nonce (request_row a.transaction) m in
    elim a.authorization [
      | none ↦ ok m'
      | some z ↦ to_i64 (a.nonce + 1) >>= λ n. ok (insert n (delegate_row z.address) m')
    ]

-- `UPDATE transactions SET nonce = ? WHERE ... AND id <= ?`
unfoldable pub assign_nonce : ℕ → ℕ → ℕ → List QueuedRow → List QueuedRow
assign_nonce nonce block last [] = []
assign_nonce nonce block last (r ∷ rows) =
    let rest = assign_nonce nonce block last rows in
    if is_queued block r && leb r.id last then record r { nonce = some nonce } ∷ rest else r ∷ rest

module _ (encode_calls : List Call → Bytes) where
  -- The storage as the database transaction leaves it: unchanged unless it commits.
  unfoldable pub next_transaction :
      ChainStatus
      → Bundler
      → TransactionStorage
      → Outcome TxStorageError (Option AllocatedTransaction × TransactionStorage)
  unfolding take_queued next_nonce insert_allocated assign_nonce finish
  next_transaction status bundler s = to_i64 status.block >>= λ block.
      let taken = take_queued block bundler none s.transactions in
      elim taken.1 [
        | none ↦ ok (none, s)
        | some last ↦ to_i64 status.nonce >>= λ n.
            to_i64 (next_nonce n s.allocated_nonces) >>= λ nonce.
            elim (finish encode_calls taken.0 nonce) [
              | none ↦ ok (none, s)
              | some a ↦ insert_allocated a s.allocated_nonces >>= λ m. ok (
                some a,
                record {
                  allocated_nonces = m;
                  transactions = assign_nonce nonce block last s.transactions;
                },
              )
            ]
      ]

-- The row with the nonce is there and has a request.
unfoldable pub record_submission :
    Submission → TransactionStorage → Outcome TxStorageError TransactionStorage
record_submission u s = optional_i64 u.block >>= λ block. to_i64 u.nonce >>= λ nonce.
    elim (get nonce s.allocated_nonces) [
      | none ↦ err (nonce_not_found u.nonce)
      | some row ↦ elim row.request [
        | none ↦ err (nonce_not_found u.nonce)
        | some q ↦ ok (record s {
          allocated_nonces =
              insert nonce
                (record row {
                  submitted_at = block;
                  request = some (record q { fees = some u.fees });
                })
                s.allocated_nonces;
        })
      ]
    ]

unfoldable pub count_outstanding : ℕ → TransactionStorage → Outcome TxStorageError ℕ
unfolding count_rows
count_outstanding block s = to_i64 block >>= λ b. ok (
    count_rows (λ r. is_none r.executed_at) s.allocated_nonces
    + length (filter (is_queued b) s.transactions))

unfoldable pub mark_rows : ℕ → ℕ → BTreeMap NonceRow → BTreeMap NonceRow
mark_rows block nonce [] = []
mark_rows block nonce ((n, r) ∷ m) =
    let rest = mark_rows block nonce m in
    if ltb n nonce && is_none r.executed_at
    then (n, record r { executed_at = some block }) ∷ rest
    else (n, r) ∷ rest

unfoldable pub mark_executed :
    ChainStatus → TransactionStorage → Outcome TxStorageError TransactionStorage
unfolding mark_rows
mark_executed status s = to_i64 status.block >>= λ block. to_i64 status.nonce >>= λ nonce.
    ok (record s { allocated_nonces = mark_rows block nonce s.allocated_nonces })

-- Whether an authorization was recovered, and the storage.
unfoldable pub recover_authorization_gap :
    ℕ → TransactionStorage → Outcome TxStorageError (Bool × TransactionStorage)
recover_authorization_gap nonce s = to_i64 nonce >>= λ n. elim (get n s.allocated_nonces) [
  | none ↦ ok (false, s)
  | some row ↦
      if is_some row.delegate && is_none row.request
      then ok (
        true,
        record s {
          allocated_nonces =
              insert n
                (record row { request = some (record { transaction = cancellation; fees = none }) })
                s.allocated_nonces;
        },
      )
      else ok (false, s)
]

-- `column IS NOT NULL AND column <= ?`
abbrev pub at_most : ℕ → Option ℕ → Bool
at_most safe none = false
at_most safe (some n) = leb n safe

unfoldable pub is_final : ℕ → BTreeMap NonceRow → Option ℕ → Bool
is_final safe m none = false
is_final safe m (some nonce) = elim (get nonce m) [
  | none ↦ false
  | some row ↦ at_most safe row.executed_at
]

unfoldable pub prune_rows : ℕ → BTreeMap NonceRow → BTreeMap NonceRow
prune_rows safe [] = []
prune_rows safe ((n, r) ∷ m) =
    let rest = prune_rows safe m in if at_most safe r.executed_at then rest else (n, r) ∷ rest

unfoldable pub prune_storage : ℕ → TransactionStorage → Outcome TxStorageError TransactionStorage
unfolding is_final prune_rows
prune_storage safe_block s = to_i64 safe_block >>= λ safe. ok (record {
  allocated_nonces = prune_rows safe s.allocated_nonces;
  transactions =
      filter (λ r. not (is_none r.nonce && at_most safe r.expires_at))
        (filter (λ r. not (is_final safe s.allocated_nonces r.nonce)) s.transactions);
})

unfoldable pub unmark_rows : ℕ → BTreeMap NonceRow → BTreeMap NonceRow
unmark_rows block [] = []
unmark_rows block ((n, r) ∷ m) =
    let rest = unmark_rows block m in
    elim r.executed_at [
      | none ↦ (n, r) ∷ rest
      | some e ↦ if leb block e then (n, record r { executed_at = none }) ∷ rest else (n, r) ∷ rest
    ]

unfoldable pub unmark_executed : ℕ → TransactionStorage → Outcome TxStorageError TransactionStorage
unfolding unmark_rows
unmark_executed block s =
    to_i64 block >>= λ b. ok (record s { allocated_nonces = unmark_rows b s.allocated_nonces })

-- `submitted_at IS NULL OR submitted_at <= ?`; no bound is the bound `-1`.
abbrev pub is_stale : Option ℕ → Option ℕ → Bool
is_stale before none = true
is_stale none (some at) = false
is_stale (some b) (some at) = leb at b

unfoldable pub authorization_at : ℕ → BTreeMap NonceRow → Option Authorization
authorization_at n m = elim (get n m) [
  | none ↦ none
  | some row ↦ map_option (λ a. record { address = a }) row.delegate
]

unfoldable pub due_rows :
    Option ℕ → BTreeMap NonceRow → BTreeMap NonceRow → List AllocatedTransaction
unfolding authorization_at
due_rows before all [] = []
due_rows before all ((n, r) ∷ m) =
    let rest = due_rows before all m in
    elim r.request [
      | none ↦ rest
      | some q ↦
          if is_none r.executed_at && is_stale before r.submitted_at
          then record {
            nonce = n;
            transaction = q.transaction;
            authorization = authorization_at (n + 1) all;
            fees = q.fees;
          }
            ∷ rest
          else rest
    ]

unfoldable pub stale_submissions :
    Option ℕ → TransactionStorage → Outcome TxStorageError (List AllocatedTransaction)
unfolding due_rows
stale_submissions before s =
    optional_i64 before >>= λ b. ok (due_rows b s.allocated_nonces s.allocated_nonces)
