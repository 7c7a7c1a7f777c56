-- ===== src/Consensus/Merkle.antt =====
-- Sorted-pair Merkle trees (crates/validator/src/merkle.rs).
pub mod Inclusion
use safenet.Prelude.{
  ℕ, zero, suc, ◌+◌, ◌-◌, ◌*◌, ◌/◌, ◌%◌, ◌≤◌, ◌<◌, ◌≡◌, refl, sym, ap, Option, none, some, arith,
  ltb, leb, ◌==◌, if◌then◌else◌, Bool, true, false, List, [], ◌∷◌, ◌++◌, map, length, get_or,
  get_last?, range, range_from, unwrap_or, Bool-cases, inl, inr, ==_refl, ◌∙◌,
}
use safenet.Alloy.{Alloy, B256, word}

abbrev pub MerkleTree : Type 0
MerkleTree = List (List B256)

module _ ⦃A : Alloy⦄ where
  unfoldable pub hash_pair : B256 → B256 → B256
  hash_pair a b = A.keccak256 (if leb a b then word a ++ word b else word b ++ word a)

  -- One round of the loop of `MerkleTree::build`.
  unfoldable pub next_level : List B256 → List B256
  next_level level =
      map (λ i. hash_pair (get_or level (i * 2) 0) (get_or level (i * 2 + 1) 0))
        (range ((length level + 1) / 2))

  -- The loop of `MerkleTree::build`, on fuel: the levels from the given one up.
  unfoldable pub levels : ℕ → List B256 → MerkleTree
  levels zero level = level ∷ []
  levels (suc fuel) level = elim (ltb 1 (length level)) [
    | true ↦ level ∷ levels fuel (next_level level)
    | false ↦ level ∷ []
  ]

  unfoldable pub build : List B256 → MerkleTree
  unfolding levels next_level
  build leaves = levels (length leaves) leaves

unfoldable pub height : MerkleTree → ℕ
height tree = length tree

unfoldable pub root : MerkleTree → B256
root tree = get_or (unwrap_or (get_last? tree) []) 0 0

-- `current ^ 1`
unfoldable pub sibling : ℕ → ℕ
sibling current = if current % 2 == 0 then current + 1 else current - 1

-- The loop of `proof` over the first `n` levels.
unfoldable pub proof_from : ℕ → MerkleTree → ℕ → List B256
proof_from zero tree current = []
proof_from (suc n) [] current = []
proof_from (suc n) (level ∷ tree) current =
    get_or level (sibling current) 0 ∷ proof_from n tree (current / 2)

unfoldable pub proof : MerkleTree → ℕ → List B256
unfolding proof_from sibling height
proof tree index = proof_from (height tree - 1) tree index

module _ ⦃A : Alloy⦄ where
  -- The loop of `MerkleRoot::verify`.
  unfoldable pub climb : B256 → List B256 → B256
  climb node [] = node
  climb node (sib ∷ siblings) = climb (hash_pair node sib) siblings

  unfoldable pub verify : B256 → B256 → List B256 → Bool
  unfolding climb
  verify root leaf siblings = root == climb leaf siblings
