-- ===== src/Core/Snapshots.antt =====
-- The store of one state snapshot for each block (crates/core/src/state/storage.rs): the rows of
-- the table are a map from block numbers, its queries functions on it. A state is stored as it is.
-- Failures of the database and of the JSON codec are left out; a number that is no `i64` is an
-- error, as it is when a query binds it.
pub mod Tip
use safenet.Prelude.{
  ℕ, ◌+◌, ◌-◌, ◌<◌, ◌≤◌, ◌≡◌, refl, Option, none, some, List, [], ◌∷◌, ltb, leb, ◌==◌,
  if◌then◌else◌, ◌&&◌, arith, Outcome, ok, err, Bool, ◌>>=◌, ok_or,
}
use safenet.Prelude.BTree.{BTreeMap, get, insert}
use safenet.Core.Updates.{BlockStatus}

pub data StorageError : Type 0 where
  block_number_overflow : StorageError
  missing_snapshot : ℕ → StorageError

abbrev pub i64_max : ℕ
i64_max = 9223372036854775807

-- `i64::try_from(n)?`
abbrev pub try_i64 : ℕ → Outcome StorageError ℕ
try_i64 n = if ltb i64_max n then err block_number_overflow else ok n

-- `checked_sub(1)`
abbrev pub parent_of : ℕ → Outcome StorageError ℕ
parent_of uncle = if uncle == 0 then err block_number_overflow else ok (uncle - 1)

module _ {ℓ} {S : Type ℓ} where
  -- `ORDER BY block_number DESC LIMIT 1`
  unfoldable pub current : BTreeMap S → Option (ℕ × S)
  current [] = none
  current ((k, v) ∷ []) = some (k, v)
  current (e ∷ f ∷ m) = current (f ∷ m)

  -- `SELECT MIN(block_number), MAX(block_number)`
  unfoldable pub bounds : BTreeMap S → Option BlockStatus
  unfolding current
  bounds [] = none
  bounds ((k, v) ∷ m) = elim (current ((k, v) ∷ m)) [
    | none ↦ none
    | some (latest, w) ↦ some (record { latest = latest; safe = k })
  ]

  -- `INSERT ... ON CONFLICT (block_number) DO UPDATE`
  unfoldable pub commit : ℕ → S → BTreeMap S → Outcome StorageError (BTreeMap S)
  commit number state m = try_i64 number >>= λ n. ok (insert n state m)

  -- `DELETE FROM snapshots WHERE block_number >= ?`
  unfoldable pub delete_from : ℕ → BTreeMap S → BTreeMap S
  delete_from n [] = []
  delete_from n ((k, v) ∷ m) = let rest = delete_from n m in if leb n k then rest else (k, v) ∷ rest

  -- The parent's number, its state, and the store once the deletion is committed.
  unfoldable pub reorg : ℕ → BTreeMap S → Outcome StorageError ((ℕ × S) × BTreeMap S)
  unfolding delete_from
  reorg uncle m = parent_of uncle >>= λ parent. try_i64 uncle >>= λ n.
      let kept = delete_from n m in
      ok_or (get parent kept) (missing_snapshot parent) >>= λ state. ok ((parent, state), kept)

  -- `DELETE ... WHERE block_number < ? AND block_number < (SELECT MAX(block_number) ...)`
  unfoldable pub delete_below : ℕ → ℕ → BTreeMap S → BTreeMap S
  delete_below safe top [] = []
  delete_below safe top ((k, v) ∷ m) =
      let rest = delete_below safe top m in if ltb k safe && ltb k top then rest else (k, v) ∷ rest

  unfoldable pub prune_snapshots : ℕ → BTreeMap S → Outcome StorageError (BTreeMap S)
  unfolding current delete_below
  prune_snapshots safe_block m = try_i64 safe_block >>= λ n. elim (current m) [
    | none ↦ ok []
    | some (top, v) ↦ ok (delete_below n top m)
  ]
