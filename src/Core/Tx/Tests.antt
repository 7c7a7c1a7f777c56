-- ===== src/Core/Tx/Tests.antt =====
-- Allocations at concrete queues.
use safenet.Prelude.{ℕ, ◌<◌, ◌≤◌, ◌≡◌, refl, Option, none, some, List, [], ◌∷◌, ◌++◌, arith}
use safenet.Prelude.BTree.{get, insert}
use safenet.Alloy.{Bytes}
use safenet.Core.Tx.Types.{Transaction, AllocatedTransaction}
use safenet.Core.Tx.Bundle.{Bundle, Call, batched_bundler}
use safenet.Core.Tx.Storage.{
  NonceRow, QueuedRow, TransactionStorage, ChainStatus, next_transaction, request_row,
}
use safenet.Core.Tx.Nonces.{Allocates, next_transaction-nonce}
use safenet.Core.Tx.Batches.{
  waiting, requests_at, calls_in, calls_of, Bundles, Carries, next_transaction-batch,
}

abbrev encode : List Call → Bytes
encode [] = []
encode (c ∷ cs) = c.to ∷ encode cs

abbrev call_to : ℕ → Transaction
call_to a = record { to = a; value = 0; input = []; gas = 63000 }

abbrev row : ℕ → Option ℕ → Option ℕ → QueuedRow
row id expires_at nonce = record {
  id = id;
  request = call_to id;
  expires_at = expires_at;
  nonce = nonce;
}

-- Row 1 is sent at nonce 4, row 2 has expired at block 20, rows 3 and 4 wait.
abbrev queue : TransactionStorage
queue = record {
  allocated_nonces = (4, request_row (call_to 1)) ∷ [];
  transactions =
      row 1 none (some 4) ∷ row 2 (some 20) none ∷ row 3 none none ∷ row 4 (some 30) none ∷ [];
}

abbrev at_20 : ChainStatus
at_20 = record { block = 20; nonce = 3 }

abbrev allocated : AllocatedTransaction
allocated = record {
  nonce = 5;
  transaction = record { to = 8; value = 0; input = 3 ∷ 4 ∷ []; gas = 196232 };
  authorization = some (record { address = 9 });
  fees = none;
}

abbrev after : TransactionStorage
after = record {
  allocated_nonces =
      (4, request_row (call_to 1))
      ∷ (5, request_row allocated.transaction)
      ∷ (6, record { request = none; delegate = some 9; submitted_at = none; executed_at = none })
      ∷ [];
  transactions =
      row 1 none (some 4)
      ∷ row 2 (some 20) none
      ∷ row 3 none (some 5)
      ∷ row 4 (some 30) (some 5)
      ∷ [];
}

next_transaction-nonce_example :
    (3 ≤ 5)
    × ((k : ℕ) (r : NonceRow) → get k queue.allocated_nonces ≡ some r → k < 5)
    × Allocates allocated queue.allocated_nonces after.allocated_nonces
unfolding next_transaction insert
next_transaction-nonce_example =
    next_transaction-nonce encode at_20 (batched_bundler 8 1000000 (some (record { address = 9 })))
      queue allocated after (omega arith, tt) refl

next_transaction-batch_example :
    (bundle : Bundle) × Bundles encode
      (batched_bundler 8 1000000 (some (record { address = 9 }))).inner
      bundle
    × (calls_in bundle ≡ calls_of (requests_at 5 after.transactions))
    × Carries encode bundle allocated
    × (allocated.authorization ≡ some (record { address = 9 }))
    × (waiting 20 queue.transactions
        ≡ requests_at 5 after.transactions ++ waiting 20 after.transactions)
unfolding next_transaction get calls_in insert
next_transaction-batch_example =
    next_transaction-batch encode at_20 (batched_bundler 8 1000000 (some (record { address = 9 })))
      queue allocated after (omega arith, tt)
      (omega arith, (omega arith, (omega arith, (omega arith, tt)))) (refl, (tt, (tt, (tt, tt))))
      refl refl
