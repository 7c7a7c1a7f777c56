-- ===== src/Core/Machine/Batches.antt =====
-- One update of a machine: a block that is observed, a batch of logs (crates/core/src/state/mod.rs).
use safenet.Prelude.{
  ℕ, suc, ◌+◌, ◌-◌, ◌≤◌, ◌≡◌, some, List, [], ◌∷◌, ◌++◌, arith, ok, true, false, length, subst,
  range_from,
}
use safenet.Prelude.BTree.{BTreeMap, insert}
use safenet.Core.Updates.{BlockRange, EventLog, EventUpdate, block, logs, new}
use safenet.Core.Status.{
  Status, block_pending, block_applied, block_events, warp_events, accepts_new, accepts_logs,
  status_after, is_warping,
}
use safenet.Core.Snapshots.{commit, i64_max}
use safenet.Core.Machine.{
  StateTransition, handle_new, handle_logs, observe_block, optimistic, apply_blocks, update_state,
  put_back, handle_update, accumulate_transition, new_block, is_sorted, all_in_range, blocks_of,
}
use safenet.Core.Machine.Blocks.{
  events, replay, LogsOf, Chunks, concat, Chunks-is_sorted, all_in_range-of, Chunks-all_in_range,
  apply_blocks-replay, apply_blocks-events,
}

one : (n : ℕ) → 1 ≡ suc n - n
one n = omega arith

many : (n k : ℕ) → suc k ≡ suc (n + k) - n
many n k = omega arith

module _ {S E R C : Type 0} (T : StateTransition S E R C) where
  pub handle_update-new :
      (s : S) (st : Status) (m : BTreeMap S) (n h t b : ℕ)
      → accepts_new st n ≡ true
      → handle_update T (record { inner = some (s, st); snapshots = m }) (block (new n h t b)) ≡ (
        record { inner = some ((observe_block T s st n).0, block_events n); snapshots = m },
        ok (observe_block T s st n).1,
      )
  unfolding handle_update update_state handle_new put_back
  handle_update-new s st m n h t b a = grind arith

  handle_logs-ok :
      (s : S) (st : Status) (m : BTreeMap S) (u : EventUpdate E) (r : S × List C) (p : ℕ)
      → is_sorted u.logs ≡ true
      → all_in_range u.blocks u.logs ≡ true
      → apply_blocks T (is_warping st) (blocks_of u.blocks) s [] u.logs ≡ r
      → status_after st u.blocks ≡ ok (block_pending p)
      → u.blocks.last ≤ i64_max
      → let a = T.apply_transition r.0 (new_block p) in
        handle_logs T s st m u
        ≡ ok (record {
          state = a.0;
          status = block_applied p;
          commands = r.1 ++ a.1;
          snapshots = insert u.blocks.last r.0 m;
        })
  unfolding handle_logs commit optimistic accumulate_transition
  handle_logs-ok s st m u r p a b e f g = grind arith

  handle_update-logs_ok :
      (s : S) (st : Status) (m : BTreeMap S) (u : EventUpdate E) (r : S × List C) (p : ℕ)
      → accepts_logs st u.blocks ≡ true
      → is_sorted u.logs ≡ true
      → all_in_range u.blocks u.logs ≡ true
      → apply_blocks T (is_warping st) (blocks_of u.blocks) s [] u.logs ≡ r
      → status_after st u.blocks ≡ ok (block_pending p)
      → u.blocks.last ≤ i64_max
      → let a = T.apply_transition r.0 (new_block p) in
        handle_update T (record { inner = some (s, st); snapshots = m }) (logs u) ≡ (
          record { inner = some (a.0, block_applied p); snapshots = insert u.blocks.last r.0 m },
          ok (r.1 ++ a.1),
        )
  unfolding handle_update update_state put_back
  handle_update-logs_ok s st m u r p g a b e f h =
      grind (arith, handle_logs-ok s st m u r p a b e f h)

  -- One block's logs, its transition applied.
  pub handle_update-LogsOf :
      (s : S) (m : BTreeMap S) (n : ℕ) (c : List (EventLog E))
      → LogsOf n c
      → n ≤ i64_max
      → let q = events T s c in
        let a = T.apply_transition q.0 (new_block (suc n)) in
        handle_update T
          (record { inner = some (s, block_events n); snapshots = m })
          (logs (record { blocks = record { start = n; last = n }; logs = c }))
        ≡ (
          record { inner = some (a.0, block_applied (suc n)); snapshots = insert n q.0 m },
          ok (q.1 ++ a.1),
        )
  unfolding accepts_logs status_after LogsOf
  handle_update-LogsOf s m n c h b =
      handle_update-logs_ok s (block_events n) m
        (record { blocks = record { start = n; last = n }; logs = c }) (events T s c) (suc n)
        (ground arith) h.1
        (all_in_range-of (record { start = n; last = n }) n c h.0 (omega arith) (omega arith))
        (subst (λ k. apply_blocks T false (range_from n k) s [] c ≡ events T s c) (one n)
          (apply_blocks-events T n s c h.0))
        (ground arith) b

  -- All the logs of a warp over the blocks from `n` on.
  pub handle_update-warp_logs :
      (s : S) (m : BTreeMap S) (n : ℕ) (c : List (EventLog E)) (cs : List (List (EventLog E)))
      → Chunks n (c ∷ cs)
      → n + length cs ≤ i64_max
      → let last = n + length cs in
        let f = T.apply_transition s (new_block n) in
        let q = replay T f.0 n c cs in
        let a = T.apply_transition q.0 (new_block (suc last)) in
        let r : BlockRange = record { start = n; last = last } in
        handle_update T
          (record { inner = some (s, warp_events r); snapshots = m })
          (logs (record { blocks = r; logs = concat (c ∷ cs) }))
        ≡ (
          record { inner = some (a.0, block_applied (suc last)); snapshots = insert last q.0 m },
          ok ((f.1 ++ q.1) ++ a.1),
        )
  unfolding accepts_logs status_after
  handle_update-warp_logs s m n c cs h b =
      let r : BlockRange = record { start = n; last = n + length cs } in
      let f = T.apply_transition s (new_block n) in
      let q = replay T f.0 n c cs in
      handle_update-logs_ok s (warp_events r) m (record { blocks = r; logs = concat (c ∷ cs) })
        (q.0, f.1 ++ q.1) (suc (n + length cs)) (ground arith) (Chunks-is_sorted n (c ∷ cs) h)
        (Chunks-all_in_range r n (c ∷ cs) h (omega arith) (omega arith))
        (subst
          (λ k. apply_blocks T true (range_from n k) s [] (concat (c ∷ cs)) ≡ (q.0, f.1 ++ q.1))
          (many n (length cs)) (apply_blocks-replay T n s [] c cs h))
        (ground arith) b
