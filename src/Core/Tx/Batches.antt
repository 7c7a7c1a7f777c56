-- ===== src/Core/Tx/Batches.antt =====
-- The queued transactions that one allocated transaction carries (crates/core/src/tx/storage.rs,
-- bundle.rs).
use safenet.Prelude.{
  ℕ, suc, ◌<◌, ◌≤◌, ◌≡◌, ◌≢◌, refl, ◌∙◌, Option, none, some, List, [], ◌∷◌, ◌++◌, leb, ◌==◌,
  if◌then◌else◌, ◌&&◌, arith, ok, true, map, All, is_some, Option-cases, inl, inr,
}
use mathlib.Core.List.{append_assoc, append-nil}
use safenet.Prelude.BTree.{BTreeMap, get}
use safenet.Prelude.BTree.Sorted.{From}
use safenet.Alloy.{Bytes}
use safenet.Core.Tx.Types.{Transaction, AllocatedTransaction}
use safenet.Core.Tx.Bundle.{
  Bundle, Bundler, direct, batched, push, push_batch, finish, bundled, Call, charge, call_of,
}
use safenet.Core.Tx.Storage.{
  NonceRow, TransactionStorage, ChainStatus, QueuedRow, next_transaction, take_queued, assign_nonce,
  is_queued,
}
use safenet.Core.Tx.Nonces.{next_transaction-some, next_transaction-nonce}

-- The ids ascend, from `k` on.
abbrev pub Ascending : ℕ → List QueuedRow → Type 0
Ascending k [] = Unit
Ascending k (r ∷ rows) = (k ≤ r.id) × Ascending (suc r.id) rows

-- The foreign key: a row's nonce is allocated.
abbrev pub References : BTreeMap NonceRow → List QueuedRow → Type 0
References m = All (λ r. elim r.nonce [ none ↦ Unit | some n ↦ is_some (get n m) ≡ true ])

-- The requests of the rows with nonce `n`.
unfoldable pub requests_at : ℕ → List QueuedRow → List Transaction
requests_at n [] = []
requests_at n (r ∷ rows) = elim r.nonce [
  | none ↦ requests_at n rows
  | some m ↦ if m == n then r.request ∷ requests_at n rows else requests_at n rows
]

-- The requests that wait for a nonce at `block`.
unfoldable pub waiting : ℕ → List QueuedRow → List Transaction
waiting block [] = []
waiting block (r ∷ rows) =
    let rest = waiting block rows in if is_queued block r then r.request ∷ rest else rest

unfoldable chosen : ℕ → ℕ → List QueuedRow → List Transaction
chosen block l [] = []
chosen block l (r ∷ rows) =
    let rest = chosen block l rows in
    if is_queued block r && leb r.id l then r.request ∷ rest else rest

-- The calls that a bundle makes so far.
unfoldable pub calls_in : Bundle → List Call
calls_in (direct none) = []
calls_in (direct (some t)) = call_of t ∷ []
calls_in (batched b) = b.calls

abbrev pub calls_of : List Transaction → List Call
calls_of = map call_of

push-calls_in :
    (b : Bundler) (t : Transaction)
    → calls_in (push b t).0.inner
      ≡ (if (push b t).1 then calls_in b.inner ++ (call_of t ∷ []) else calls_in b.inner)
unfolding push push_batch calls_in
push-calls_in b t = at b.inner refl
  where
    at :
        (i : Bundle)
        → b.inner ≡ i
        → calls_in (push b t).0.inner
          ≡ (if (push b t).1 then calls_in b.inner ++ (call_of t ∷ []) else calls_in b.inner)
    at (direct none) e = grind arith
    at (direct (some u)) e = grind arith
    at (batched c) e = grind arith

chosen_above :
    (block l k : ℕ) (rows : List QueuedRow) → Ascending k rows → l < k → chosen block l rows ≡ []
unfolding chosen
chosen_above block l k [] a h = refl
chosen_above block l k (r ∷ rows) a h = ground (arith, chosen_above block l (suc r.id) rows a.1)

-- The last id taken is no earlier than the one before.
take_queued-ge :
    (block : ℕ) (b : Bundler) (l0 l k : ℕ) (rows : List QueuedRow)
    → Ascending k rows
    → l0 < k
    → (take_queued block b (some l0) rows).1 ≡ some l
    → l0 ≤ l
unfolding take_queued
take_queued-ge block b l0 l k [] a h e = grind arith
take_queued-ge block b l0 l k (r ∷ rows) a h e = grind (
  arith,
  take_queued-ge block (push b r.request).0 r.id l (suc r.id) rows a.1,
  take_queued-ge block b l0 l (suc r.id) rows a.1,
)

-- Every id taken so far is before `k`.
abbrev Before : Option ℕ → ℕ → Type 0
Before none k = Unit
Before (some l) k = l < k

take_queued-calls :
    (block : ℕ) (b : Bundler) (last : Option ℕ) (l k : ℕ) (rows : List QueuedRow)
    → Ascending k rows
    → Before last k
    → (take_queued block b last rows).1 ≡ some l
    → calls_in (take_queued block b last rows).0.inner
      ≡ calls_in b.inner ++ calls_of (chosen block l rows)
unfolding take_queued chosen
take_queued-calls block b last l k [] a h e = grind (arith, append-nil)
take_queued-calls block b none l k (r ∷ rows) a h e = grind (
  arith,
  append_assoc,
  append-nil,
  push-calls_in b r.request,
  take_queued-calls block (push b r.request).0 (some r.id) l (suc r.id) rows a.1,
  take_queued-ge block (push b r.request).0 r.id l (suc r.id) rows a.1,
  take_queued-calls block b none l (suc r.id) rows a.1,
)
take_queued-calls block b (some l0) l k (r ∷ rows) a h e = grind (
  arith,
  append_assoc,
  append-nil,
  push-calls_in b r.request,
  take_queued-calls block (push b r.request).0 (some r.id) l (suc r.id) rows a.1,
  take_queued-ge block (push b r.request).0 r.id l (suc r.id) rows a.1,
  take_queued-calls block b (some l0) l (suc r.id) rows a.1,
  chosen_above block l (suc r.id) rows a.1,
)

-- No row has the nonce yet.
requests_at-assign_nonce :
    (n block l : ℕ) (rows : List QueuedRow)
    → requests_at n rows ≡ []
    → requests_at n (assign_nonce n block l rows) ≡ chosen block l rows
unfolding requests_at assign_nonce chosen
requests_at-assign_nonce n block l [] h = refl
requests_at-assign_nonce n block l (r ∷ rows) h = elim (Option-cases r.nonce) [
  | inl e ↦ grind (arith, requests_at-assign_nonce n block l rows)
  | inr (m, e) ↦ grind (arith, requests_at-assign_nonce n block l rows)
]

assign_nonce_above :
    (n block l k : ℕ) (rows : List QueuedRow)
    → Ascending k rows
    → l < k
    → assign_nonce n block l rows ≡ rows
unfolding assign_nonce
assign_nonce_above n block l k [] a h = refl
assign_nonce_above n block l k (r ∷ rows) a h =
    ground (arith, assign_nonce_above n block l (suc r.id) rows a.1)

-- The rows that are chosen come before those that keep waiting.
waiting-assign_nonce :
    (n block l k : ℕ) (rows : List QueuedRow)
    → Ascending k rows
    → waiting block rows ≡ chosen block l rows ++ waiting block (assign_nonce n block l rows)
unfolding waiting assign_nonce chosen
waiting-assign_nonce n block l k [] a = refl
waiting-assign_nonce n block l k (r ∷ rows) a = grind (
  arith,
  waiting-assign_nonce n block l (suc r.id) rows a.1,
  chosen_above block l (suc r.id) rows a.1,
  assign_nonce_above n block l (suc r.id) rows a.1,
)

requests_at-fresh :
    (n : ℕ) (m : BTreeMap NonceRow) (rows : List QueuedRow)
    → get n m ≡ none
    → References m rows
    → requests_at n rows ≡ []
unfolding requests_at
requests_at-fresh n m [] h r = refl
requests_at-fresh n m (x ∷ rows) h r = elim (Option-cases x.nonce) [
  | inl e ↦ grind (arith, requests_at-fresh n m rows h r.1)
  | inr (k, e) ↦ grind (arith, requests_at-fresh n m rows h r.1)
]

module _ (encode_calls : List Call → Bytes) where
  -- The bundle is of the bundler's kind, a batch for the bundler's account.
  abbrev pub Bundles : Bundle → Bundle → Type 0
  Bundles (direct t) (direct u) = Unit
  Bundles (batched b) (batched c) = (c.account ≡ b.account) × (c.max_batch_gas ≡ b.max_batch_gas)
  Bundles _ _ = ⊥

  same-Bundles : (i : Bundle) → Bundles i i
  same-Bundles (direct t) = tt
  same-Bundles (batched b) = (refl, refl)

  push-authorization :
      (b : Bundler) (t : Transaction) → (push b t).0.authorization ≡ b.authorization
  unfolding push
  push-authorization b t = grind arith

  push-Bundles :
      (i : Bundle) (b : Bundler) (t : Transaction)
      → Bundles i b.inner
      → Bundles i (push b t).0.inner
  unfolding push push_batch
  push-Bundles i b t h = at i b.inner refl refl
    where
      at : (j k : Bundle) → i ≡ j → b.inner ≡ k → Bundles i (push b t).0.inner
      at (direct t) (direct none) e f = grind arith
      at (direct t) (direct (some u)) e f = grind arith
      at (direct t) (batched c) e f = grind arith
      at (batched c) (direct u) e f = grind arith
      at (batched c) (batched d) e f = grind arith

  take_queued-Bundles :
      (i : Bundle) (block : ℕ) (b : Bundler) (last : Option ℕ) (rows : List QueuedRow)
      → Bundles i b.inner
      → Bundles i (take_queued block b last rows).0.inner
  unfolding take_queued
  take_queued-Bundles i block b last [] h = h
  take_queued-Bundles i block b last (r ∷ rows) h = grind (
    arith,
    push-Bundles i b r.request h,
    take_queued-Bundles i block b last rows h,
    take_queued-Bundles i block (push b r.request).0 (some r.id) rows,
  )

  take_queued-authorization :
      (block : ℕ) (b : Bundler) (last : Option ℕ) (rows : List QueuedRow)
      → (take_queued block b last rows).0.authorization ≡ b.authorization
  unfolding take_queued push
  take_queued-authorization block b last [] = refl
  take_queued-authorization block b last (r ∷ rows) = grind (
    arith,
    push-authorization b r.request,
    take_queued-authorization block b last rows,
    take_queued-authorization block (push b r.request).0 (some r.id) rows,
  )

  -- The bundle's transaction: a single one as it is, or a call of the account to itself.
  abbrev pub Carries : Bundle → AllocatedTransaction → Type 0
  Carries (direct none) a = ⊥
  Carries (direct (some t)) a = a.transaction ≡ charge a.authorization t
  Carries (batched b) a =
      (b.calls ≢ [])
      × (a.transaction.to ≡ b.account)
      × (a.transaction.value ≡ 0)
      × (a.transaction.input ≡ encode_calls b.calls)

  finish-Carries :
      (b : Bundler) (n : ℕ) (a : AllocatedTransaction)
      → finish encode_calls b n ≡ some a
      → Carries b.inner a
  unfolding finish bundled
  finish-Carries b n a h = at b.inner refl
    where
      at : (i : Bundle) → b.inner ≡ i → Carries b.inner a
      at (direct none) e = grind arith
      at (direct (some t)) e = grind arith
      at (batched c) e = grind arith

  finish-authorization :
      (b : Bundler) (n : ℕ) (a : AllocatedTransaction)
      → finish encode_calls b n ≡ some a
      → a.authorization ≡ b.authorization
  unfolding finish
  finish-authorization b n a h = grind arith

  -- Let the ids of the queue's rows ascend, every row with a nonce reference an allocated one, and
  -- the bundler be new. When an allocation succeeds, the requests that wait at the block are, in
  -- order, those whose rows now have the new nonce, followed by those that still wait: the oldest
  -- are taken first, and none is lost or sent twice. The bundle that becomes the transaction holds
  -- exactly the calls of the rows with the nonce, in their order; a bundler of single
  -- transactions makes its request the transaction, with the gas of the authorization added, and a
  -- bundler of batches a call to its own account without value, with the encoding of these calls as
  -- data, at least one. The authorization is the bundler's.
  pub next_transaction-batch :
      (status : ChainStatus) (b : Bundler) (s : TransactionStorage) (a : AllocatedTransaction)
      (s' : TransactionStorage)
      → From 0 s.allocated_nonces
      → Ascending 0 s.transactions
      → References s.allocated_nonces s.transactions
      → calls_in b.inner ≡ []
      → next_transaction encode_calls status b s ≡ ok (some a, s')
      → (bundle : Bundle) × Bundles b.inner bundle
        × (calls_in bundle ≡ calls_of (requests_at a.nonce s'.transactions))
        × Carries bundle a
        × (a.authorization ≡ b.authorization)
        × (waiting status.block s.transactions
            ≡ requests_at a.nonce s'.transactions ++ waiting status.block s'.transactions)
  next_transaction-batch status b s a s' f i r c h =
      let (last, p, q, n, k, z) = next_transaction-some encode_calls status b s a s' h in
      let fresh = (next_transaction-nonce encode_calls status b s a s' f h).1 in
      let old =
        requests_at-fresh a.nonce s.allocated_nonces s.transactions
          (unallocated (get a.nonce s.allocated_nonces) refl fresh) r in
      let now = requests_at-assign_nonce a.nonce status.block last s.transactions old in
      (
        (take_queued status.block b none s.transactions).0.inner,
        take_queued-Bundles b.inner status.block b none s.transactions (same-Bundles b.inner),
        grind (arith, take_queued-calls status.block b none last 0 s.transactions i tt p),
        finish-Carries (take_queued status.block b none s.transactions).0 a.nonce a q,
        finish-authorization (take_queued status.block b none s.transactions).0 a.nonce a q
            ∙ take_queued-authorization status.block b none s.transactions,
        grind (arith, waiting-assign_nonce a.nonce status.block last 0 s.transactions i),
      )
    where
      unallocated :
          (o : Option NonceRow)
          → get a.nonce s.allocated_nonces ≡ o
          → ((k : ℕ) (row : NonceRow) → get k s.allocated_nonces ≡ some row → k < a.nonce)
          → get a.nonce s.allocated_nonces ≡ none
      unallocated none e g = e
      unallocated (some row) e g = grind (arith, g a.nonce row e)
