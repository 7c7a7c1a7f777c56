-- ===== src/Consensus/Merkle/Inclusion.antt =====
-- Inclusion proofs and levels of crates/validator/src/merkle.rs.
use safenet.Prelude.{
  ℕ, zero, suc, ◌+◌, ◌-◌, ◌*◌, ◌/◌, ◌%◌, ◌≤◌, ◌<◌, ◌≡◌, refl, sym, ap, arith, ltb, ◌==◌, ltb→lt,
  true, List, [], ◌∷◌, map, length, get_or, get_last?, range_from, unwrap_or, Bool-cases, inl, inr,
  ==_refl, ◌∙◌,
}
use safenet.Alloy.{Alloy, B256}
use safenet.Consensus.Merkle.{
  MerkleTree, hash_pair, next_level, levels, build, height, root, sibling, proof_from, proof, climb,
  verify,
}

get_or-map-range_from :
    (f : ℕ → ℕ) (a n i : ℕ) → i < n → get_or (map f (range_from a n)) i 0 ≡ f (a + i)
get_or-map-range_from f a zero i h = elim h [ ]
get_or-map-range_from f a (suc n) zero h = ap f (omega arith)
get_or-map-range_from f a (suc n) (suc i) h =
    get_or-map-range_from f (suc a) n i (omega arith) ∙ ap f (omega arith)

length-map-range_from : (f : ℕ → ℕ) (a n : ℕ) → length (map f (range_from a n)) ≡ n
length-map-range_from f a zero = refl
length-map-range_from f a (suc n) = ap suc (length-map-range_from f (suc a) n)

module _ ⦃A : Alloy⦄ where
  -- The order of the two nodes does not matter.
  pub hash_pair_comm : (a b : B256) → hash_pair a b ≡ hash_pair b a
  unfolding hash_pair
  hash_pair_comm a b = ground arith

  length-next_level : (l : List B256) → length (next_level l) ≡ (length l + 1) / 2
  unfolding next_level
  length-next_level l = length-map-range_from _ 0 ((length l + 1) / 2)

  next_level_pair :
      (l : List B256) (i : ℕ)
      → i < length l
      → hash_pair (get_or l i 0) (get_or l (sibling i) 0) ≡ get_or (next_level l) (i / 2) 0
  unfolding next_level sibling
  next_level_pair l i h =
      let at : get_or (next_level l) (i / 2) 0
          ≡ hash_pair (get_or l ((0 + i / 2) * 2) 0) (get_or l ((0 + i / 2) * 2 + 1) 0) =
        get_or-map-range_from _ 0 ((length l + 1) / 2) (i / 2) (omega arith) in
      elim (Bool-cases (i % 2 == 0)) [
        | inl even ↦ let e : (0 + i / 2) * 2 ≡ i = ground arith in rw even (rw at (rw e refl))
        | inr odd ↦
            let e : (0 + i / 2) * 2 ≡ i - 1 = ground arith in
            let e' : (i - 1) + 1 ≡ i = ground arith in
            rw odd (rw at (rw (e, e') (hash_pair_comm _ _)))
      ]

  levels_cons : (f : ℕ) (l : List B256) → (t : MerkleTree) × (levels f l ≡ l ∷ t)
  unfolding levels
  levels_cons zero l = ([], refl)
  levels_cons (suc f) l = elim (Bool-cases (ltb 1 (length l))) [
    | inl more ↦ (levels f (next_level l), ground arith)
    | inr done ↦ ([], ground arith)
  ]

  levels_single : (f : ℕ) (l : List B256) → length l ≤ 1 → levels f l ≡ l ∷ []
  unfolding levels
  levels_single zero l h = refl
  levels_single (suc f) l h = ground arith

  levels_more :
      (f : ℕ) (l : List B256) → 1 < length l → levels (suc f) l ≡ l ∷ levels f (next_level l)
  unfolding levels
  levels_more f l h = ground arith

  proof_from-cons :
      (l m : List B256) (t : MerkleTree) (i : ℕ)
      → proof_from (length (l ∷ m ∷ t) - 1) (l ∷ m ∷ t) i
        ≡ get_or l (sibling i) 0 ∷ proof_from (length (m ∷ t) - 1) (m ∷ t) (i / 2)
  unfolding proof_from
  proof_from-cons l m t i =
      let e : length (l ∷ m ∷ t) - 1 ≡ suc (length t) = omega arith in
      let e' : length (m ∷ t) - 1 ≡ length t = omega arith in rw (e, e') refl

  climb_single :
      (f : ℕ) (l : List B256) (i : ℕ)
      → length l ≤ 1
      → i < length l
      → climb (get_or l i 0) (proof_from (length (levels f l) - 1) (levels f l) i)
        ≡ root (levels f l)
  unfolding climb proof_from root
  climb_single f l i e h =
      let z : i ≡ 0 = omega arith in
      let n : length (l ∷ []) - 1 ≡ 0 = omega arith in rw (levels_single f l e, n, z) refl

  climb-cons :
      (l m : List B256) (t : MerkleTree) (i : ℕ)
      → i < length l
      → m ≡ next_level l
      → climb (get_or m (i / 2) 0) (proof_from (length (m ∷ t) - 1) (m ∷ t) (i / 2)) ≡ root (m ∷ t)
      → climb (get_or l i 0) (proof_from (length (l ∷ m ∷ t) - 1) (l ∷ m ∷ t) i) ≡ root (l ∷ m ∷ t)
  unfolding climb root
  climb-cons l m t i h e ih = rw (proof_from-cons l m t i) (
      ap (λ x. climb x (proof_from (length (m ∷ t) - 1) (m ∷ t) (i / 2)))
        (next_level_pair l i h ∙ ap (λ z. get_or z (i / 2) 0) (sym e))
      ∙ ih)

  climb-proof_from :
      (f : ℕ) (l : List B256) (i : ℕ)
      → length l ≤ suc f
      → i < length l
      → climb (get_or l i 0) (proof_from (length (levels f l) - 1) (levels f l) i)
        ≡ root (levels f l)
  climb-proof_from zero l i e h = climb_single zero l i e h
  climb-proof_from (suc f) l i e h = elim (Bool-cases (ltb 1 (length l))) [
    | inr few ↦ climb_single (suc f) l i (ground arith) h
    | inl more ↦
        let ih =
          climb-proof_from f (next_level l) (i / 2)
            (omega (arith, length-next_level l, ltb→lt 1 (length l) more))
            (omega (arith, length-next_level l)) in
        let (t, c) = levels_cons f (next_level l) in
        let eq : levels (suc f) l ≡ l ∷ next_level l ∷ t =
          levels_more f l (ltb→lt _ _ more) ∙ ap (◌∷◌ l) c in
        rw eq (climb-cons l (next_level l) t i h refl (rw c at ih))
  ]

  -- The proof that a tree gives for the leaf at an index below its number of leaves is accepted
  -- by `verify` against the tree's root and that leaf.
  pub verify-proof :
      (leaves : List B256) (index : ℕ)
      → index < length leaves
      → verify (root (build leaves)) (get_or leaves index 0) (proof (build leaves) index) ≡ true
  unfolding verify proof build height
  verify-proof leaves index h =
      rw (climb-proof_from (length leaves) leaves index (omega arith) h) (==_refl _)

  levels_end :
      (f : ℕ) (l : List B256)
      → length l ≤ suc f
      → length (unwrap_or (get_last? (levels f l)) []) ≤ 1
  levels_end zero l e = rw (levels_single zero l e) e
  levels_end (suc f) l e = elim (Bool-cases (ltb 1 (length l))) [
    | inr few ↦ rw (levels_single (suc f) l (ground arith)) (ground arith)
    | inl more ↦
        let ih =
          levels_end f (next_level l)
            (omega (arith, length-next_level l, ltb→lt 1 (length l) more)) in
        let (t, c) = levels_cons f (next_level l) in
        rw (levels_more f l (ltb→lt _ _ more), c) (rw c at ih)
  ]

  -- The last level of a tree has at most one node: the loop that builds the levels is done when
  -- the model's fuel is used up.
  pub build_ends : (leaves : List B256) → length (unwrap_or (get_last? (build leaves)) []) ≤ 1
  unfolding build
  build_ends leaves = levels_end (length leaves) leaves (omega arith)
