-- ===== src/Prelude/BTree/Entries.antt =====
-- A property of every entry of a map, under the operations of the map.
use Prim.Native.Nat.{ℕ}
use mathlib.Core.Path.{◌≡◌}
use mathlib.Core.List.{[], ◌∷◌}
use mathlib.Core.Option.{some}
use native.Mathlib.Omega.{arith}
use safenet.Prelude.Lists.{All}
use safenet.Prelude.BTree.{BTreeMap, get, insert, remove}

module _ {V : Type 0} (P : ℕ × V → Type 0) where
  pub All-insert : (k : ℕ) (v : V) (m : BTreeMap V) → P (k, v) → All P m → All P (insert k v m)
  unfolding insert
  All-insert k v [] p h = (p, tt)
  All-insert k v ((j, w) ∷ m) p h = grind (arith, All-insert k v m p h.1)

  pub All-remove : (k : ℕ) (m : BTreeMap V) → All P m → All P (remove k m)
  unfolding remove
  All-remove k [] h = tt
  All-remove k ((j, w) ∷ m) h = grind (arith, All-remove k m h.1)

  pub All-get : (k : ℕ) (v : V) (m : BTreeMap V) → All P m → get k m ≡ some v → P (k, v)
  unfolding get
  All-get k v [] h e = cc
  All-get k v ((j, w) ∷ m) h e = grind (arith, All-get k v m h.1)
