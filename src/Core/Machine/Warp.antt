-- ===== src/Core/Machine/Warp.antt =====
-- A range of blocks indexed at once and block by block (crates/core/src/state/mod.rs).
use safenet.Prelude.{
  ℕ, suc, ◌+◌, ◌≤◌, ◌≡◌, some, List, [], ◌∷◌, ◌++◌, arith, ok, true, length, is_some,
}
use mathlib.Core.List.{append_assoc, append-nil}
use safenet.Prelude.BTree.{BTreeMap, insert}
use safenet.Prelude.BTree.Sorted.{From, insert-From}
use safenet.Core.Updates.{EventLog, Update, block, logs, warp, new}
use safenet.Core.Status.{
  Status, initialized, block_pending, block_applied, block_events, warp_events, accepts_warp,
  accepts_new,
}
use safenet.Core.Snapshots.{current, i64_max}
use safenet.Core.Snapshots.Tip.{Follows, current-insert}
use safenet.Core.Machine.{
  StateTransition, StateMachine, handle_warp, observe_block, update_state, put_back, handle_update,
  new_block, run_updates,
}
use safenet.Core.Machine.Blocks.{events, replay, Chunks, concat}
use safenet.Core.Machine.Batches.{handle_update-new, handle_update-LogsOf, handle_update-warp_logs}
use safenet.Core.Machine.Invariant.{Stands, Stands-Follows}

module _ {S E R C : Type 0} (T : StateTransition S E R C) where
  -- The updates of the same blocks one by one; a block's hash, time and bloom are arbitrary.
  module _ (header : ℕ → ℕ × (ℕ × ℕ)) where
    unfoldable pub live : ℕ → List (EventLog E) → List (List (EventLog E)) → List (Update E)
    live n c [] =
        block (new n (header n).0 (header n).1.0 (header n).1.1)
        ∷ logs (record { blocks = record { start = n; last = n }; logs = c })
        ∷ []
    live n c (d ∷ cs) =
        block (new n (header n).0 (header n).1.0 (header n).1.1)
        ∷ logs (record { blocks = record { start = n; last = n }; logs = c })
        ∷ live (suc n) d cs

    -- The snapshots that they commit.
    unfoldable committed :
        S → ℕ → List (EventLog E) → List (List (EventLog E)) → BTreeMap S → BTreeMap S
    committed s n c [] m = insert n (events T s c).0 m
    committed s n c (d ∷ cs) m =
        let b = events T s c in
        let a = T.apply_transition b.0 (new_block (suc n)) in
        committed a.0 (suc n) d cs (insert n b.0 m)

    run_updates-live :
        (s : S) (st : Status) (m : BTreeMap S) (n : ℕ) (c : List (EventLog E))
        (cs : List (List (EventLog E)))
        → accepts_new st n ≡ true
        → Chunks n (c ∷ cs)
        → n + length cs ≤ i64_max
        → let last = n + length cs in
          let o = observe_block T s st n in
          let q = replay T o.0 n c cs in
          let a = T.apply_transition q.0 (new_block (suc last)) in
          run_updates T (record { inner = some (s, st); snapshots = m }) (live n c cs) ≡ (
            record {
              inner = some (a.0, block_applied (suc last));
              snapshots = committed o.0 n c cs m;
            },
            ok (o.1 ++ (q.1 ++ a.1)),
          )
    unfolding run_updates live committed replay accepts_new observe_block
    run_updates-live s st m n c [] g h b = grind (
      arith,
      append-nil,
      handle_update-new T s st m n (header n).0 (header n).1.0 (header n).1.1 g,
      handle_update-LogsOf T (observe_block T s st n).0 m n c h.0,
    )
    run_updates-live s st m n c (d ∷ cs) g h b =
        let o = observe_block T s st n in
        let q = events T o.0 c in
        let a = T.apply_transition q.0 (new_block (suc n)) in
        grind (
          arith,
          append_assoc,
          handle_update-new T s st m n (header n).0 (header n).1.0 (header n).1.1 g,
          handle_update-LogsOf T o.0 m n c h.0,
          run_updates-live a.0 (block_applied (suc n)) (insert n q.0 m) (suc n) d cs,
        )

    current-committed :
        (s : S) (m : BTreeMap S) (n : ℕ) (c : List (EventLog E)) (cs : List (List (EventLog E)))
        → From 0 m
        → Follows (current m) n
        → current (committed s n c cs m) ≡ some (n + length cs, (replay T s n c cs).0)
    unfolding committed replay
    current-committed s m n c [] f g = grind (arith, current-insert 0 m n n (events T s c).0 f g)
    current-committed s m n c (d ∷ cs) f g =
        let q = events T s c in
        let a = T.apply_transition q.0 (new_block (suc n)) in
        grind (
          arith,
          insert-From 0 n q.0 m,
          current-insert 0 m n n q.0 f g,
          current-committed a.0 (insert n q.0 m) (suc n) d cs,
        )

    accepts_warp-new :
        (s : S) (st : Status) (n : ℕ)
        → accepts_warp st n ≡ true
        → (accepts_new st n ≡ true) × (observe_block T s st n ≡ T.apply_transition s (new_block n))
    unfolding accepts_warp accepts_new observe_block
    accepts_warp-new s initialized n h = grind arith
    accepts_warp-new s (block_pending p) n h = grind arith
    accepts_warp-new s (block_applied p) n h = cc
    accepts_warp-new s (block_events l) n h = cc
    accepts_warp-new s (warp_events r) n h = cc

    -- The updates of a warp over the blocks from `n` on.
    abbrev pub warped : ℕ → List (EventLog E) → List (List (EventLog E)) → List (Update E)
    warped n c cs =
        let last = n + length cs in
        block (warp n last)
        ∷ logs (record { blocks = record { start = n; last = last }; logs = concat (c ∷ cs) })
        ∷ []

    run_updates-warp :
        (s : S) (st : Status) (m : BTreeMap S) (n : ℕ) (c : List (EventLog E))
        (cs : List (List (EventLog E)))
        → accepts_warp st n ≡ true
        → Chunks n (c ∷ cs)
        → n + length cs ≤ i64_max
        → let last = n + length cs in
          let o = T.apply_transition s (new_block n) in
          let q = replay T o.0 n c cs in
          let a = T.apply_transition q.0 (new_block (suc last)) in
          run_updates T (record { inner = some (s, st); snapshots = m }) (warped n c cs) ≡ (
            record { inner = some (a.0, block_applied (suc last)); snapshots = insert last q.0 m },
            ok (o.1 ++ (q.1 ++ a.1)),
          )
    unfolding run_updates handle_update update_state handle_warp put_back
    run_updates-warp s st m n c cs g h b =
        grind (arith, append_assoc, append-nil, handle_update-warp_logs T s m n c cs h b)

    -- Where the machine expects block `n` and has not applied its transition, its snapshots and its
    -- status agreeing, let consecutive blocks from `n` on (at least one) have logs, each block's in
    -- strictly ascending order, and let the last block's number be one that the database can hold.
    -- Indexing them with one warp and one batch of logs, and indexing them live, each block observed
    -- (with any hash, time and bloom) and then its logs, both succeed, emit the same commands in the
    -- same order, and leave the same state, status and latest snapshot.
    pub run_updates-warp_live :
        (s : S) (st : Status) (m : BTreeMap S) (n : ℕ) (c : List (EventLog E))
        (cs : List (List (EventLog E)))
        → From 0 m
        → Stands st m
        → accepts_warp st n ≡ true
        → Chunks n (c ∷ cs)
        → n + length cs ≤ i64_max
        → let sm : StateMachine S = record { inner = some (s, st); snapshots = m } in
          let w = run_updates T sm (warped n c cs) in
          let l = run_updates T sm (live n c cs) in
          (commands : List C) × (w.1 ≡ ok commands)
          × (l.1 ≡ ok commands)
          × (is_some w.0.inner ≡ true)
          × (w.0.inner ≡ l.0.inner)
          × (current w.0.snapshots ≡ current l.0.snapshots)
    run_updates-warp_live s st m n c cs f g a h b =
        let o = T.apply_transition s (new_block n) in
        let q = replay T o.0 n c cs in
        let z = T.apply_transition q.0 (new_block (suc (n + length cs))) in
        let e = accepts_warp-new s st n a in
        let w = run_updates-warp s st m n c cs a h b in
        let l = run_updates-live s st m n c cs e.0 h b in
        let t = Stands-Follows st m n g a in
        (
          o.1 ++ (q.1 ++ z.1),
          grind arith,
          grind arith,
          grind arith,
          grind arith,
          grind (
            arith,
            current-committed o.0 m n c cs f t,
            current-insert 0 m n (n + length cs) q.0 f t,
          ),
        )
