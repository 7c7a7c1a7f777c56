-- ===== src/Core/Snapshots/Tip.antt =====
-- The tip of the store under its queries (crates/core/src/state/storage.rs).
use safenet.Prelude.{
  ℕ, suc, ◌<◌, ◌≤◌, ◌≡◌, ◌≢◌, refl, Option, none, some, [], ◌∷◌, ltb, leb, if◌then◌else◌, ◌&&◌,
  arith, Option-cases, inl, inr,
}
use safenet.Prelude.BTree.{BTreeMap, get, insert}
use safenet.Prelude.BTree.Sorted.{From, get_below, From-weaken}
use safenet.Core.Snapshots.{current, delete_from, delete_below}

module _ {S : Type 0} where
  -- Block `n` is the one after the tip, or the store is empty.
  abbrev pub Follows : Option (ℕ × S) → ℕ → Type 0
  Follows none n = Unit
  Follows (some (t, s)) n = n ≡ suc t

  pub current-cons :
      (k : ℕ) (v : S) (m : BTreeMap S)
      → current ((k, v) ∷ m) ≡ elim (current m) [ none ↦ some (k, v) | some e ↦ some e ]
  unfolding current
  current-cons k v [] = refl
  current-cons k v (e ∷ []) = refl
  current-cons k v (e ∷ f ∷ m) = grind (arith, current-cons k v (f ∷ m))

  current_nil : current {S = S} [] ≡ none
  unfolding current
  current_nil = refl

  pub get_nil : (k : ℕ) → get {V = S} k [] ≡ none
  unfolding get
  get_nil k = refl

  pub current-From :
      (a : ℕ) (m : BTreeMap S) {t : ℕ} {v : S} → From a m → current m ≡ some (t, v) → a ≤ t
  current-From a [] f h = cc current_nil
  current-From a ((k, w) ∷ []) f h = grind (arith, current-cons k w [], current_nil)
  current-From a ((k, w) ∷ e ∷ m) f h =
      grind (arith, current-cons k w (e ∷ m), current-From (suc k) (e ∷ m))

  current-some : (e : ℕ × S) (m : BTreeMap S) → current (e ∷ m) ≢ none
  current-some (k, v) m h = elim (Option-cases (current m)) [
    | inl n ↦ grind (arith, current-cons k v m)
    | inr s ↦ grind (arith, current-cons k v m)
  ]

  pub current_empty : (m : BTreeMap S) → current m ≡ none → m ≡ []
  current_empty [] h = refl
  current_empty (e ∷ m) h = elim (current-some e m h) [ ]

  -- The store's tip after a commit at or after the block that follows it.
  Follows-cons :
      (k : ℕ) (v : S) (m : BTreeMap S) {n : ℕ}
      → From (suc k) m
      → Follows (current ((k, v) ∷ m)) n
      → Follows (current m) n × (k < n)
  Follows-cons k v m f h = elim (Option-cases (current m)) [
    | inl e ↦ grind (arith, current-cons k v m)
    | inr ((t, s), e) ↦ grind (arith, current-cons k v m, current-From (suc k) m f e)
  ]

  pub current-insert :
      (a : ℕ) (m : BTreeMap S) (n k : ℕ) (v : S)
      → From a m
      → Follows (current m) n
      → n ≤ k
      → current (insert k v m) ≡ some (k, v)
  unfolding insert current
  current-insert a [] n k v f h le = refl
  current-insert a ((j, w) ∷ m) n k v f h le = grind (
    arith,
    Follows-cons j w m f.1 h,
    current-cons j w (insert k v m),
    current-insert (suc j) m n k v f.1,
  )

  pub delete_from-From : (a n : ℕ) (m : BTreeMap S) → From a m → From a (delete_from n m)
  unfolding delete_from
  delete_from-From a n [] f = f
  delete_from-From a n ((k, v) ∷ m) f =
      ground (arith, delete_from-From (suc k) n m f.1, From-weaken a (suc k) (delete_from n m))

  pub get-delete_from :
      (n k : ℕ) (m : BTreeMap S) → get k (delete_from n m) ≡ (if leb n k then none else get k m)
  unfolding delete_from get
  get-delete_from n k [] = ground arith
  get-delete_from n k ((j, v) ∷ m) = ground (arith, get-delete_from n k m)

  delete_from_all : (n : ℕ) (m : BTreeMap S) → From n m → delete_from n m ≡ []
  unfolding delete_from
  delete_from_all n [] f = refl
  delete_from_all n ((k, v) ∷ m) f =
      ground (arith, delete_from_all n m (From-weaken n (suc k) m (omega arith) f.1))

  -- The parent is the tip of what a reorg leaves.
  pub current-delete_from :
      (a p : ℕ) (m : BTreeMap S) {s : S}
      → From a m
      → get p (delete_from (suc p) m) ≡ some s
      → current (delete_from (suc p) m) ≡ some (p, s)
  unfolding delete_from get
  current-delete_from a p [] f h = ground arith
  current-delete_from a p ((j, v) ∷ m) f h = grind (
    arith,
    current-cons j v (delete_from (suc p) m),
    current-delete_from (suc j) p m f.1,
    current_nil,
    delete_from_all (suc j) m f.1,
    get_below (suc j) p (delete_from (suc p) m) (delete_from-From (suc j) (suc p) m f.1),
  )

  pub delete_below-From : (a n t : ℕ) (m : BTreeMap S) → From a m → From a (delete_below n t m)
  unfolding delete_below
  delete_below-From a n t [] f = f
  delete_below-From a n t ((k, v) ∷ m) f =
      ground
        (arith, delete_below-From (suc k) n t m f.1, From-weaken a (suc k) (delete_below n t m))

  pub get-delete_below :
      (n t k : ℕ) (m : BTreeMap S)
      → get k (delete_below n t m) ≡ (if ltb k n && ltb k t then none else get k m)
  unfolding delete_below get
  get-delete_below n t k [] = ground arith
  get-delete_below n t k ((j, v) ∷ m) = ground (arith, get-delete_below n t k m)

  pub current-delete_below :
      (a n t : ℕ) (m : BTreeMap S) {v : S}
      → From a m
      → current m ≡ some (t, v)
      → current (delete_below n t m) ≡ some (t, v)
  unfolding delete_below
  current-delete_below a n t [] f h = grind (arith, current_nil)
  current-delete_below a n t ((j, w) ∷ []) f h = grind (arith, current-cons j w [], current_nil)
  current-delete_below a n t ((j, w) ∷ e ∷ m) f h = grind (
    arith,
    current-cons j w (e ∷ m),
    current-cons j w (delete_below n t (e ∷ m)),
    current-delete_below (suc j) n t (e ∷ m) f.1,
    current-some e m,
  )

  -- Every snapshot is below the block that follows the tip.
  pub get-Follows :
      (a : ℕ) (m : BTreeMap S) (n : ℕ) {k : ℕ} {v : S}
      → From a m
      → Follows (current m) n
      → get k m ≡ some v
      → k < n
  unfolding get
  get-Follows a [] n f h g = cc
  get-Follows a ((j, w) ∷ m) n {k = k} f h g =
      grind (arith, Follows-cons j w m f.1 h, get-Follows (suc j) m n {k = k} f.1)
