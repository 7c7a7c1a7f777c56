-- ===== src/Prelude/BTree/Sorted.antt =====
-- The order of the keys, and what it gives about sizes.
use Prim.Native.Nat.{ℕ, suc, ◌≤◌, ◌<◌}
use mathlib.Core.Path.{◌≡◌, refl}
use mathlib.Core.Bool.{true}
use mathlib.Core.List.{List, [], ◌∷◌}
use mathlib.Core.Option.{none}
use native.Mathlib.Omega.{arith}
use safenet.Prelude.Tests.{if◌then◌else◌, ==_refl}
use safenet.Prelude.Lists.{length}
use safenet.Prelude.BTree.{
  BTreeMap, BTreeSet, get, insert, remove, contains_key, contains, get-remove, set_insert, extend,
  remove_all,
}

module _ {ℓ} {V : Type ℓ} where
  -- The keys ascend, from `k` on.
  abbrev pub From : ℕ → BTreeMap V → Type 0
  From k [] = Unit
  From k ((j, v) ∷ m) = (k ≤ j) × From (suc j) m

  pub From-weaken : (i k : ℕ) (m : BTreeMap V) → i ≤ k → From k m → From i m
  From-weaken i k [] h s = tt
  From-weaken i k ((j, v) ∷ m) h s = (omega arith, s.1)

  pub insert-From : (a k : ℕ) (v : V) (m : BTreeMap V) → a ≤ k → From a m → From a (insert k v m)
  unfolding insert
  insert-From a k v [] h s = (h, tt)
  insert-From a k v ((j, w) ∷ m) h s = ground (arith, insert-From (suc j) k v m)

  pub remove-From : (a k : ℕ) (m : BTreeMap V) → From a m → From a (remove k m)
  unfolding remove
  remove-From a k [] s = tt
  remove-From a k ((j, w) ∷ m) s =
      ground (arith, remove-From (suc j) k m s.1, From-weaken a (suc j) (remove k m))

  pub get_below : (a k : ℕ) (m : BTreeMap V) → From a m → k < a → get k m ≡ none
  unfolding get
  get_below a k [] s h = refl
  get_below a k ((j, w) ∷ m) s h = ground (arith, get_below (suc j) k m s.1)

  pub length-insert : (k : ℕ) (v : V) (m : BTreeMap V) → length (insert k v m) ≤ suc (length m)
  unfolding insert
  length-insert k v [] = omega arith
  length-insert k v ((j, w) ∷ m) = ground (arith, length-insert k v m)

  pub length-insert-ge : (k : ℕ) (v : V) (m : BTreeMap V) → length m ≤ length (insert k v m)
  unfolding insert
  length-insert-ge k v [] = omega arith
  length-insert-ge k v ((j, w) ∷ m) = ground (arith, length-insert-ge k v m)

  pub remove_absent : (k : ℕ) (m : BTreeMap V) → get k m ≡ none → remove k m ≡ m
  unfolding get remove
  remove_absent k [] h = refl
  remove_absent k ((j, w) ∷ m) h = ground (arith, remove_absent k m)

  -- The entry at `k` counts once.
  pub length-remove :
      (a k : ℕ) (m : BTreeMap V)
      → From a m
      → length m ≡ (if contains_key k m then suc (length (remove k m)) else length (remove k m))
  unfolding get remove
  length-remove a k [] s = refl
  length-remove a k ((j, w) ∷ m) s =
      ground (arith, length-remove (suc j) k m s.1, get_below (suc j) k m s.1)

  pub length-remove-le : (k : ℕ) (m : BTreeMap V) → length (remove k m) ≤ length m
  unfolding remove
  length-remove-le k [] = omega arith
  length-remove-le k ((j, w) ∷ m) = ground (arith, length-remove-le k m)

-- Every key of the first is one of the second.
abbrev pub Subset : BTreeSet → BTreeSet → Type 0
Subset s t = (a : ℕ) → contains a s ≡ true → contains a t ≡ true

Subset-remove :
    (j : ℕ) (s t : BTreeSet) → From (suc j) s → Subset ((j, tt) ∷ s) t → Subset s (remove j t)
unfolding get
Subset-remove j s t f h a c = ground (arith, get-remove j a t, h a, get_below (suc j) a s f)

-- A subset is no larger.
pub length-Subset :
    (s t : BTreeSet) (a b : ℕ) → From a s → From b t → Subset s t → length s ≤ length t
unfolding get
length-Subset [] t a b f g h = omega arith
length-Subset ((j, _) ∷ s) t a b f g h = ground (
  arith,
  length-Subset s (remove j t) (suc j) b f.1 (remove-From b j t g) (Subset-remove j s t f.1 h),
  length-remove b j t g,
  h j,
  ==_refl j,
)

pub extend-From : (xs : List ℕ) (s : BTreeSet) → From 0 s → From 0 (extend xs s)
unfolding extend
extend-From [] s f = f
extend-From (a ∷ xs) s f = extend-From xs (set_insert a s) (insert-From 0 a tt s (omega arith) f)

pub remove_all-From : (xs : List ℕ) (s : BTreeSet) → From 0 s → From 0 (remove_all xs s)
unfolding remove_all
remove_all-From [] s f = f
remove_all-From (a ∷ xs) s f = remove_all-From xs (remove a s) (remove-From 0 a s f)

pub length-remove_all-le : (xs : List ℕ) (s : BTreeSet) → length (remove_all xs s) ≤ length s
unfolding remove_all
length-remove_all-le [] s = omega arith
length-remove_all-le (a ∷ xs) s =
    omega (arith, length-remove-le a s, length-remove_all-le xs (remove a s))
