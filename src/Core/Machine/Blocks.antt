-- ===== src/Core/Machine/Blocks.antt =====
-- The logs of consecutive blocks, and what the loop over a range's blocks does with them (crates/core/src/state/mod.rs).
use safenet.Prelude.{
  ℕ, suc, ◌+◌, ◌≤◌, ◌≡◌, refl, List, [], ◌∷◌, ◌++◌, ◌&&◌, arith, true, false, All, All-append,
  length, range_from,
}
use mathlib.Core.List.{append_assoc, append-nil}
use safenet.Core.Updates.{BlockRange, EventLog}
use safenet.Core.Machine.{
  StateTransition, apply_blocks, apply_logs, begin_block, accumulate_transition, new_block, event,
  is_sorted, all_in_range,
}

module _ {S E R C : Type 0} (T : StateTransition S E R C) where
  -- The logs of one block, and of consecutive blocks from the one whose transition was applied.
  unfoldable pub events : S → List (EventLog E) → S × List C
  events s [] = (s, [])
  events s (l ∷ ls) =
      let r = T.apply_transition s (event l) in let q = events r.0 ls in (q.0, r.1 ++ q.1)

  unfoldable pub replay : S → ℕ → List (EventLog E) → List (List (EventLog E)) → S × List C
  unfolding events
  replay s n c [] = events s c
  replay s n c (d ∷ cs) =
      let b = events s c in
      let a = T.apply_transition b.0 (new_block (suc n)) in
      let q = replay a.0 (suc n) d cs in (q.0, b.1 ++ (a.1 ++ q.1))

-- Sorted logs, all of block `n`; and so for consecutive blocks from `n` on.
module _ {E : Type 0} where
  unfoldable pub LogsOf : ℕ → List (EventLog E) → Type 0
  LogsOf n ls = All (λ l. l.block.number ≡ n) ls × (is_sorted ls ≡ true)

  abbrev pub Chunks : ℕ → List (List (EventLog E)) → Type 0
  Chunks n [] = Unit
  Chunks n (c ∷ cs) = LogsOf n c × Chunks (suc n) cs

  abbrev pub concat : List (List (EventLog E)) → List (EventLog E)
  concat [] = []
  concat (c ∷ cs) = c ++ concat cs

  -- No log of a block before `n`.
  abbrev pub Above : ℕ → List (EventLog E) → Type 0
  Above n = All (λ l. n ≤ l.block.number)

  Above-weaken : (k n : ℕ) (ls : List (EventLog E)) → k ≤ n → Above n ls → Above k ls
  Above-weaken k n [] h a = tt
  Above-weaken k n (l ∷ ls) h a = (omega (arith, a.0), Above-weaken k n ls h a.1)

  Above-of : (n : ℕ) (ls : List (EventLog E)) → All (λ l. l.block.number ≡ n) ls → Above n ls
  Above-of n [] h = tt
  Above-of n (l ∷ ls) h = (omega (arith, h.0), Above-of n ls h.1)

  Chunks-Above : (n : ℕ) (cs : List (List (EventLog E))) → Chunks n cs → Above n (concat cs)
  unfolding LogsOf
  Chunks-Above n [] h = tt
  Chunks-Above n (c ∷ cs) h =
      All-append (λ l. n ≤ l.block.number) c (concat cs) (Above-of n c h.0.0)
        (Above-weaken n (suc n) (concat cs) (omega arith) (Chunks-Above (suc n) cs h.1))

  is_sorted-append :
      (n : ℕ) (xs ys : List (EventLog E))
      → All (λ l. l.block.number ≡ n) xs
      → is_sorted xs ≡ true
      → Above (suc n) ys
      → is_sorted ys ≡ true
      → is_sorted (xs ++ ys) ≡ true
  unfolding is_sorted
  is_sorted-append n [] ys h s a t = t
  is_sorted-append n (x ∷ []) [] h s a t = refl
  is_sorted-append n (x ∷ []) (y ∷ ys) h s a t = grind arith
  is_sorted-append n (x ∷ z ∷ xs) ys h s a t = grind (arith, is_sorted-append n (z ∷ xs) ys h.1)

  pub Chunks-is_sorted :
      (n : ℕ) (cs : List (List (EventLog E))) → Chunks n cs → is_sorted (concat cs) ≡ true
  unfolding is_sorted LogsOf
  Chunks-is_sorted n [] h = refl
  Chunks-is_sorted n (c ∷ cs) h =
      is_sorted-append n c (concat cs) h.0.0 h.0.1 (Chunks-Above (suc n) cs h.1)
        (Chunks-is_sorted (suc n) cs h.1)

  all_in_range-append :
      (r : BlockRange) (xs ys : List (EventLog E))
      → all_in_range r (xs ++ ys) ≡ (all_in_range r xs && all_in_range r ys)
  unfolding all_in_range
  all_in_range-append r [] ys = refl
  all_in_range-append r (x ∷ xs) ys = ground (arith, all_in_range-append r xs ys)

  pub all_in_range-of :
      (r : BlockRange) (n : ℕ) (ls : List (EventLog E))
      → All (λ l. l.block.number ≡ n) ls
      → r.start ≤ n
      → n ≤ r.last
      → all_in_range r ls ≡ true
  unfolding all_in_range
  all_in_range-of r n [] h a b = refl
  all_in_range-of r n (l ∷ ls) h a b = ground (arith, all_in_range-of r n ls h.1)

  pub Chunks-all_in_range :
      (r : BlockRange) (n : ℕ) (cs : List (List (EventLog E)))
      → Chunks n cs
      → r.start ≤ n
      → n + length cs ≤ suc r.last
      → all_in_range r (concat cs) ≡ true
  unfolding all_in_range LogsOf
  Chunks-all_in_range r n [] h a b = refl
  Chunks-all_in_range r n (c ∷ cs) h a b = grind (
    arith,
    all_in_range-append r c (concat cs),
    all_in_range-of r n c h.0.0,
    Chunks-all_in_range r (suc n) cs h.1,
  )

module _ {S E R C : Type 0} (T : StateTransition S E R C) where
  -- One block's logs, with those of later blocks behind.
  pub apply_logs-events :
      (n : ℕ) (s : S) (acc : List C) (c rest : List (EventLog E))
      → All (λ l. l.block.number ≡ n) c
      → Above (suc n) rest
      → apply_logs T n s acc (c ++ rest) ≡ (((events T s c).0, acc ++ (events T s c).1), rest)
  unfolding apply_logs events accumulate_transition
  apply_logs-events n s acc [] [] h a = grind (arith, append-nil)
  apply_logs-events n s acc [] (l ∷ rest) h a = grind (arith, append-nil)
  apply_logs-events n s acc (l ∷ c) rest h a =
      let r = T.apply_transition s (event l) in
      grind (arith, append_assoc, apply_logs-events n r.0 (acc ++ r.1) c rest h.1 a)

  -- A warp over the blocks from `n` on.
  pub apply_blocks-replay :
      (n : ℕ) (s : S) (acc : List C) (c : List (EventLog E)) (cs : List (List (EventLog E)))
      → Chunks n (c ∷ cs)
      → let f = T.apply_transition s (new_block n) in
        let q = replay T f.0 n c cs in
        apply_blocks T true (range_from n (suc (length cs))) s acc (concat (c ∷ cs))
        ≡ (q.0, acc ++ (f.1 ++ q.1))
  unfolding apply_blocks begin_block replay accumulate_transition LogsOf
  apply_blocks-replay n s acc c [] h =
      let f = T.apply_transition s (new_block n) in
      grind (arith, append_assoc, apply_logs-events n f.0 (acc ++ f.1) c [] h.0.0 tt)
  apply_blocks-replay n s acc c (d ∷ cs) h =
      let f = T.apply_transition s (new_block n) in
      grind (
        arith,
        append_assoc,
        apply_logs-events n f.0 (acc ++ f.1) c (concat (d ∷ cs)) h.0.0
            (Chunks-Above (suc n) (d ∷ cs) h.1),
        apply_blocks-replay (suc n) (events T f.0 c).0 ((acc ++ f.1) ++ (events T f.0 c).1) d cs
            h.1,
      )

  -- The range of one block, its transition applied before.
  pub apply_blocks-events :
      (n : ℕ) (s : S) (c : List (EventLog E))
      → All (λ l. l.block.number ≡ n) c
      → apply_blocks T false (n ∷ []) s [] c ≡ events T s c
  unfolding apply_blocks begin_block
  apply_blocks-events n s c h = grind (arith, append-nil, apply_logs-events n s [] c [] h tt)
