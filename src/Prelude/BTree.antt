-- ===== src/Prelude/BTree.antt =====
-- The standard library's `BTreeMap` and `BTreeSet` as the program uses them: the entries in
-- ascending order of their keys. A key is a number: addresses and hashes are big-endian numbers,
-- which are ordered as their bytes are.
pub mod Sorted
pub mod Entries
use Prim.Native.Nat.{ℕ, suc, ◌+◌, ◌≤◌, ◌<◌}
use mathlib.Core.Path.{◌≡◌, refl, ap}
use mathlib.Core.Logic.{◌≢◌}
use mathlib.Core.Bool.{Bool, true, false, ◌||◌}
use mathlib.Core.List.{List, [], ◌∷◌, map, ◌++◌}
use mathlib.Core.Option.{Option, none, some}
use native.Mathlib.Omega.{arith}
use safenet.Prelude.Tests.{ltb, ◌==◌, ==_refl, ==_ne, if◌then◌else◌, is_some}
use safenet.Prelude.Lists.{length}

abbrev pub BTreeMap {ℓ} : Type ℓ → Type ℓ
BTreeMap V = List (ℕ × V)

abbrev pub BTreeSet : Type 0
BTreeSet = BTreeMap (Unit {0})

module _ {ℓ} {V : Type ℓ} where
  unfoldable pub get : ℕ → BTreeMap V → Option V
  get k [] = none
  get k ((j, v) ∷ m) = if j == k then some v else get k m

  unfoldable pub insert : ℕ → V → BTreeMap V → BTreeMap V
  insert k v [] = (k, v) ∷ []
  insert k v ((j, w) ∷ m) =
      if ltb k j then (k, v) ∷ (j, w) ∷ m else if j == k then (k, v) ∷ m else (j, w) ∷ insert k v m

  -- The keys of a map are distinct, so at most one entry goes.
  unfoldable pub remove : ℕ → BTreeMap V → BTreeMap V
  remove k [] = []
  remove k ((j, w) ∷ m) = if j == k then remove k m else (j, w) ∷ remove k m

  abbrev pub contains_key : ℕ → BTreeMap V → Bool
  contains_key k m = is_some (get k m)

  abbrev pub values : BTreeMap V → List V
  values = map (λ e. e.1)

  abbrev pub keys : BTreeMap V → BTreeSet
  keys = map (λ e. (e.0, tt))

  pub get-insert :
      (k j : ℕ) (v : V) (m : BTreeMap V)
      → get j (insert k v m) ≡ (if k == j then some v else get j m)
  unfolding get insert
  get-insert k j v [] = refl
  get-insert k j v ((i, w) ∷ m) = ground (arith, get-insert k j v m)

  pub get-remove :
      (k j : ℕ) (m : BTreeMap V) → get j (remove k m) ≡ (if k == j then none else get j m)
  unfolding get remove
  get-remove k j [] = ground arith
  get-remove k j ((i, w) ∷ m) = ground (arith, get-remove k j m)

  pub remove_absent : (k : ℕ) (m : BTreeMap V) → get k m ≡ none → remove k m ≡ m
  unfolding get remove
  remove_absent k [] h = refl
  remove_absent k ((j, w) ∷ m) h = ground (arith, remove_absent k m)

  pub remove-insert :
      (k : ℕ) (v : V) (m : BTreeMap V) → get k m ≡ none → remove k (insert k v m) ≡ m
  unfolding get remove insert
  remove-insert k v [] h = ground (arith, ==_refl k)
  remove-insert k v ((j, w) ∷ m) h = grind (arith, remove_absent k m, remove-insert k v m)

  pub get-insert_self : (k : ℕ) (v : V) (m : BTreeMap V) → get k (insert k v m) ≡ some v
  get-insert_self k v m = rw (get-insert k k v m, ==_refl k)

  pub get-insert_ne : (k j : ℕ) (v : V) (m : BTreeMap V) → k ≢ j → get j (insert k v m) ≡ get j m
  get-insert_ne k j v m h = rw (get-insert k j v m, ==_ne k j h)

  pub get-remove_self : (k : ℕ) (m : BTreeMap V) → get k (remove k m) ≡ none
  get-remove_self k m = rw (get-remove k k m, ==_refl k)

  pub get-remove_ne : (k j : ℕ) (m : BTreeMap V) → k ≢ j → get j (remove k m) ≡ get j m
  get-remove_ne k j m h = rw (get-remove k j m, ==_ne k j h)

module _ {ℓ} {V : Type ℓ} where
  pub get-keys : (k : ℕ) (m : BTreeMap V) → contains_key k (keys m) ≡ contains_key k m
  unfolding get
  get-keys k [] = refl
  get-keys k ((j, v) ∷ m) = ground (arith, get-keys k m)

  pub length-keys : (m : BTreeMap V) → length (keys m) ≡ length m
  length-keys [] = refl
  length-keys (e ∷ m) = ap suc (length-keys m)

-- Sets.
abbrev pub contains : ℕ → BTreeSet → Bool
contains = contains_key

abbrev pub set_insert : ℕ → BTreeSet → BTreeSet
set_insert a = insert a tt

-- `iter.collect::<BTreeSet<_>>()` and `extend`
unfoldable pub extend : List ℕ → BTreeSet → BTreeSet
extend [] s = s
extend (a ∷ xs) s = extend xs (set_insert a s)

abbrev pub elements : BTreeSet → List ℕ
elements = map (λ e. e.0)

-- `for a in xs { s.remove(a); }`
unfoldable pub remove_all : List ℕ → BTreeSet → BTreeSet
remove_all [] s = s
remove_all (a ∷ xs) s = remove_all xs (remove a s)

pub contains-set_insert :
    (a b : ℕ) (s : BTreeSet) → contains b (set_insert a s) ≡ (if a == b then true else contains b s)
contains-set_insert a b s = ground (arith, get-insert a b tt s)

pub contains-remove :
    (a b : ℕ) (s : BTreeSet) → contains b (remove a s) ≡ (if a == b then false else contains b s)
contains-remove a b s = ground (arith, get-remove a b s)

-- Membership of a number in a plain list.
unfoldable pub elem : ℕ → List ℕ → Bool
elem a [] = false
elem a (x ∷ xs) = if x == a then true else elem a xs

pub contains-extend :
    (a : ℕ) (xs : List ℕ) (s : BTreeSet)
    → contains a (extend xs s) ≡ (if elem a xs then true else contains a s)
unfolding extend elem
contains-extend a [] s = refl
contains-extend a (x ∷ xs) s =
    ground (arith, contains-extend a xs (set_insert x s), contains-set_insert x a s)

pub contains-remove_all :
    (a : ℕ) (xs : List ℕ) (s : BTreeSet)
    → contains a (remove_all xs s) ≡ (if elem a xs then false else contains a s)
unfolding remove_all elem
contains-remove_all a [] s = refl
contains-remove_all a (x ∷ xs) s =
    ground (arith, contains-remove_all a xs (remove x s), contains-remove x a s)

pub elem-elements : (a : ℕ) (s : BTreeSet) → elem a (elements s) ≡ contains a s
unfolding elem get
elem-elements a [] = refl
elem-elements a ((j, _) ∷ s) = ground (arith, elem-elements a s)

pub elem-append : (a : ℕ) (xs ys : List ℕ) → elem a (xs ++ ys) ≡ (elem a xs || elem a ys)
unfolding elem
elem-append a [] ys = refl
elem-append a (x ∷ xs) ys = ground (arith, elem-append a xs ys)

pub ruleset map_laws = (arith, get-insert, get-remove)
