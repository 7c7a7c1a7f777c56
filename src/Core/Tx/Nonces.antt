-- ===== src/Core/Tx/Nonces.antt =====
-- The nonces that the storage hands out (crates/core/src/tx/storage.rs).
use safenet.Prelude.{
  ℕ, suc, ◌<◌, ◌≤◌, ◌≡◌, refl, Option, none, some, List, arith, ok, Option-cases, inl, inr,
  Outcome-cases,
}
use safenet.Prelude.BTree.{BTreeMap, get, insert, get-insert}
use safenet.Prelude.BTree.Sorted.{From, insert-From}
use safenet.Alloy.{Bytes}
use safenet.Core.Snapshots.{current}
use safenet.Core.Snapshots.Tip.{get-Follows, get_nil, current_empty}
use safenet.Core.Tx.Types.{Authorization, AllocatedTransaction}
use safenet.Core.Tx.Bundle.{Bundler, finish, bundled, Call}
use safenet.Core.Tx.Storage.{
  NonceRow, TransactionStorage, ChainStatus, next_nonce, request_row, delegate_row,
  insert_allocated, next_transaction, take_queued, authorization_at, assign_nonce,
}

get-next_nonce :
    (n k : ℕ) (m : BTreeMap NonceRow) {v : NonceRow}
    → From 0 m
    → get k m ≡ some v
    → k < next_nonce n m
unfolding next_nonce
get-next_nonce n k m f g = at (current m) refl
  where
    at : (c : Option (ℕ × NonceRow)) → current m ≡ c → k < next_nonce n m
    at none e = grind (arith, current_empty m, get_nil {S = NonceRow} k)
    at (some (t, r)) e = grind (arith, get-Follows 0 m (suc t) {k = k} f)

next_nonce-ge : (n : ℕ) (m : BTreeMap NonceRow) → n ≤ next_nonce n m
unfolding next_nonce
next_nonce-ge n m = at (current m) refl
  where
    at : (c : Option (ℕ × NonceRow)) → current m ≡ c → n ≤ next_nonce n m
    at none e = ground arith
    at (some (t, r)) e = ground arith

-- What is in the table once `a` is allocated.
abbrev pub Allocates : AllocatedTransaction → BTreeMap NonceRow → BTreeMap NonceRow → Type 0
Allocates a m m' =
    From 0 m'
    × (get a.nonce m' ≡ some (request_row a.transaction))
    × (authorization_at (suc a.nonce) m' ≡ a.authorization)
    × ((k : ℕ) → k < a.nonce → get k m' ≡ get k m)

insert_allocated-Allocates :
    (a : AllocatedTransaction) (m m' : BTreeMap NonceRow)
    → From 0 m
    → get (suc a.nonce) m ≡ none
    → insert_allocated a m ≡ ok m'
    → Allocates a m m'
unfolding insert_allocated authorization_at
insert_allocated-Allocates a m m' f g h = at a.authorization refl
  where
    row : NonceRow
    row = request_row a.transaction

    at : (z : Option Authorization) → a.authorization ≡ z → Allocates a m m'
    at none e = (
      grind (arith, insert-From 0 a.nonce (request_row a.transaction) m),
      grind (arith, get-insert a.nonce a.nonce (request_row a.transaction) m),
      grind (arith, get-insert a.nonce (suc a.nonce) (request_row a.transaction) m),
      λ k l. grind (arith, get-insert a.nonce k (request_row a.transaction) m),
    )
    at (some z) e =
        let n = insert a.nonce (request_row a.transaction) m in
        (
          grind (
            arith,
            insert-From 0 a.nonce (request_row a.transaction) m,
            insert-From 0 (suc a.nonce) (delegate_row z.address) n,
          ),
          grind (
            arith,
            get-insert a.nonce a.nonce (request_row a.transaction) m,
            get-insert (suc a.nonce) a.nonce (delegate_row z.address) n,
          ),
          grind (arith, get-insert (suc a.nonce) (suc a.nonce) (delegate_row z.address) n),
          λ k l. grind (
            arith,
            get-insert a.nonce k (request_row a.transaction) m,
            get-insert (suc a.nonce) k (delegate_row z.address) n,
          ),
        )

module _ (encode_calls : List Call → Bytes) where
  -- A successful allocation, taken apart.
  abbrev pub Allocation :
      ChainStatus
      → Bundler
      → TransactionStorage
      → AllocatedTransaction
      → TransactionStorage
      → Type 0
  Allocation status b s a s' =
      (last : ℕ) × ((take_queued status.block b none s.transactions).1 ≡ some last)
      × (finish encode_calls (take_queued status.block b none s.transactions).0 a.nonce ≡ some a)
      × (a.nonce ≡ next_nonce status.nonce s.allocated_nonces)
      × (insert_allocated a s.allocated_nonces ≡ ok s'.allocated_nonces)
      × (s'.transactions ≡ assign_nonce a.nonce status.block last s.transactions)

  finish-nonce :
      (b : Bundler) (n : ℕ) {a : AllocatedTransaction}
      → finish encode_calls b n ≡ some a
      → a.nonce ≡ n
  unfolding finish
  finish-nonce b n h = elim (Option-cases (bundled encode_calls b.inner)) [
    | inl e ↦ grind arith
    | inr (t, e) ↦ grind arith
  ]

  pub next_transaction-some :
      (status : ChainStatus) (b : Bundler) (s : TransactionStorage) (a : AllocatedTransaction)
      (s' : TransactionStorage)
      → next_transaction encode_calls status b s ≡ ok (some a, s')
      → Allocation status b s a s'
  unfolding next_transaction
  next_transaction-some status b s a s' h =
      at (take_queued status.block b none s.transactions).1 refl
    where
      at :
          (o : Option ℕ)
          → (take_queued status.block b none s.transactions).1 ≡ o
          → Allocation status b s a s'
      at none e = grind arith
      at (some last) e =
          built
            (finish encode_calls (take_queued status.block b none s.transactions).0
              (next_nonce status.nonce s.allocated_nonces))
            refl
        where
          built :
              (o : Option AllocatedTransaction)
              → finish encode_calls
                  (take_queued status.block b none s.transactions).0
                  (next_nonce status.nonce s.allocated_nonces)
                ≡ o
              → Allocation status b s a s'
          built none g = grind arith
          built (some z) g =
              let taken = (take_queued status.block b none s.transactions).0 in
              let f = finish-nonce taken (next_nonce status.nonce s.allocated_nonces) g in
              elim (Outcome-cases (insert_allocated z s.allocated_nonces)) [
                | inl (m, k) ↦ (last, e, grind arith, grind arith, grind arith, grind arith)
                | inr (x, k) ↦ grind arith
              ]

  -- Let the nonces' table be in order, and let an allocation succeed with a transaction. Its nonce
  -- is at least the account's and above every nonce that the table holds, so no nonce is handed out
  -- while a row has it or the one an earlier authorization uses. Afterwards the table is in order,
  -- the row at the nonce is the transaction as it was returned, without a submission; the table
  -- gives it back the authorization it carries, or none if it carries none; and the rows below are
  -- untouched.
  pub next_transaction-nonce :
      (status : ChainStatus) (b : Bundler) (s : TransactionStorage) (a : AllocatedTransaction)
      (s' : TransactionStorage)
      → From 0 s.allocated_nonces
      → next_transaction encode_calls status b s ≡ ok (some a, s')
      → (status.nonce ≤ a.nonce)
        × ((k : ℕ) (row : NonceRow) → get k s.allocated_nonces ≡ some row → k < a.nonce)
        × Allocates a s.allocated_nonces s'.allocated_nonces
  next_transaction-nonce status b s a s' f h =
      let (last, p, q, n, i, r) = next_transaction-some status b s a s' h in
      (
        grind (arith, next_nonce-ge status.nonce s.allocated_nonces),
        λ k row g. grind (arith, get-next_nonce status.nonce k s.allocated_nonces f g),
        insert_allocated-Allocates a s.allocated_nonces s'.allocated_nonces f
            (above (get (suc a.nonce) s.allocated_nonces) refl n) i,
      )
    where
      above :
          (o : Option NonceRow)
          → get (suc a.nonce) s.allocated_nonces ≡ o
          → a.nonce ≡ next_nonce status.nonce s.allocated_nonces
          → get (suc a.nonce) s.allocated_nonces ≡ none
      above none e n = e
      above (some row) e n =
          grind (arith, get-next_nonce status.nonce (suc a.nonce) s.allocated_nonces {v = row} f e)
