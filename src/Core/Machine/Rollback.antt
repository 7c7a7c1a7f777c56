-- ===== src/Core/Machine/Rollback.antt =====
-- What an uncle restores (crates/core/src/state/mod.rs, storage.rs).
use safenet.Prelude.{
  ℕ, suc, ◌-◌, ◌<◌, ◌≤◌, ◌≡◌, refl, Option, none, some, List, [], ◌∷◌, leb, arith, Outcome, ok, err,
  Option-cases, inl, inr, true,
}
use safenet.Prelude.BTree.{BTreeMap, get, get-insert}
use safenet.Prelude.BTree.Sorted.{From}
use safenet.Core.Updates.{EventUpdate, Update, block, logs, warp, uncle, new}
use safenet.Core.Status.{
  Status, initialized, block_pending, block_applied, block_events, warp_events, MachineError,
  accepts_uncle, accepts_logs, status_after,
}
use safenet.Core.Snapshots.{current, commit, delete_from, reorg, prune_snapshots, i64_max}
use safenet.Core.Snapshots.Tip.{
  current_empty, current-delete_from, get-Follows, get_nil, get-delete_from, get-delete_below,
}
use safenet.Core.Machine.{
  StateTransition, StateMachine, Stepped, handle_warp, handle_uncle, handle_new, handle_logs,
  optimistic, update_state, put_back, handle_update, handle_resume, prune_machine, Call, update,
  resumed, prune_to, perform, perform_all, spares, spare_all,
}
use safenet.Core.Machine.Invariant.{calls-IsWellFormed, Stands, IsWellFormed, perform-IsWellFormed}

module _ {S E R C : Type 0} (T : StateTransition S E R C) (n : ℕ) (v : S) where
  abbrev Keeps : Outcome MachineError (Stepped S C) → Type 0
  Keeps (ok r) = get n r.snapshots ≡ some v
  Keeps (err e) = Unit

  handle_uncle-Keeps :
      (m : BTreeMap S) (k : ℕ) → n < k → get n m ≡ some v → Keeps (handle_uncle T m k)
  unfolding handle_uncle reorg
  handle_uncle-Keeps m k h g = elim (Option-cases (get (k - 1) (delete_from k m))) [
    | inl e ↦ grind arith
    | inr (s, e) ↦ grind (arith, get-delete_from k n m)
  ]

  handle_logs-Keeps :
      (s : S) (st : Status) (m : BTreeMap S) (u : EventUpdate E)
      → From 0 m
      → accepts_logs st u.blocks ≡ true
      → Stands st m
      → get n m ≡ some v
      → Keeps (handle_logs T s st m u)
  unfolding handle_logs accepts_logs commit status_after optimistic
  handle_logs-Keeps s initialized m u f g h k = cc
  handle_logs-Keeps s (block_pending p) m u f g h k = cc
  handle_logs-Keeps s (block_applied p) m u f g h k = cc
  handle_logs-Keeps s (block_events l) m u f g h k =
      grind (arith, get-insert u.blocks.last n _ m, get-Follows 0 m l f h k)
  handle_logs-Keeps s (warp_events r) m u f g h k =
      grind (arith, get-insert u.blocks.last n _ m, get-Follows 0 m r.start f h.0 k)

  update_state-Keeps :
      (s : S) (st : Status) (m : BTreeMap S) (u : Update E)
      → From 0 m
      → Stands st m
      → spares {R = R} n (update u) ≡ true
      → get n m ≡ some v
      → Keeps (update_state T s st m u)
  unfolding update_state handle_warp handle_new spares
  update_state-Keeps s st m (block (warp a b)) f h p g = grind arith
  update_state-Keeps s st m (block (uncle k)) f h p g = grind (arith, handle_uncle-Keeps m k)
  update_state-Keeps s st m (block (new k x y z)) f h p g = grind arith
  update_state-Keeps s st m (logs u) f h p g = grind (arith, handle_logs-Keeps s st m u f)

  put_back-Keeps :
      (m : BTreeMap S) (o : Outcome MachineError (Stepped S C))
      → get n m ≡ some v
      → Keeps o
      → get n (put_back T m o).0.snapshots ≡ some v
  unfolding put_back
  put_back-Keeps m (ok r) g h = h
  put_back-Keeps m (err e) g h = g

  handle_update-get :
      (sm : StateMachine S) (u : Update E)
      → IsWellFormed sm
      → spares {R = R} n (update u) ≡ true
      → get n sm.snapshots ≡ some v
      → get n (handle_update T sm u).0.snapshots ≡ some v
  unfolding handle_update
  handle_update-get sm u h p g = at sm.inner refl
    where
      at :
          (i : Option (S × Status))
          → sm.inner ≡ i
          → get n (handle_update T sm u).0.snapshots ≡ some v
      at none e = grind arith
      at (some (s, st)) e = grind (
        arith,
        put_back-Keeps sm.snapshots (update_state T s st sm.snapshots u) g,
        update_state-Keeps s st sm.snapshots u h.0,
      )

  handle_resume-get :
      (sm : StateMachine S) (r : R)
      → get n sm.snapshots ≡ some v
      → get n (handle_resume T sm r).0.snapshots ≡ some v
  unfolding handle_resume
  handle_resume-get sm r g = at sm.inner refl
    where
      at :
          (i : Option (S × Status))
          → sm.inner ≡ i
          → get n (handle_resume T sm r).0.snapshots ≡ some v
      at none e = grind arith
      at (some (s, st)) e = grind arith

  prune_machine-get :
      (sm : StateMachine S) (k : ℕ)
      → leb k n ≡ true
      → get n sm.snapshots ≡ some v
      → get n (prune_machine sm k).0.snapshots ≡ some v
  unfolding prune_machine prune_snapshots
  prune_machine-get sm k p g = at (current sm.snapshots) refl
    where
      at :
          (c : Option (ℕ × S))
          → current sm.snapshots ≡ c
          → get n (prune_machine sm k).0.snapshots ≡ some v
      at none e = grind (arith, current_empty sm.snapshots, get_nil n)
      at (some (t, s)) e = grind (arith, get-delete_below k t n sm.snapshots)

  perform-get :
      (sm : StateMachine S) (c : Call E R)
      → IsWellFormed sm
      → spares n c ≡ true
      → get n sm.snapshots ≡ some v
      → get n (perform T sm c).snapshots ≡ some v
  unfolding perform spares
  perform-get sm (update u) h p g = handle_update-get sm u h p g
  perform-get sm (resumed r) h p g = handle_resume-get sm r g
  perform-get sm (prune_to k) h p g = prune_machine-get sm k p g

  perform_all-get :
      (sm : StateMachine S) (cs : List (Call E R))
      → IsWellFormed sm
      → spare_all n cs ≡ true
      → get n sm.snapshots ≡ some v
      → get n (perform_all T sm cs).snapshots ≡ some v
  unfolding perform_all spare_all
  perform_all-get sm [] h p g = g
  perform_all-get sm (c ∷ cs) h p g = grind (
    arith,
    perform_all-get (perform T sm c) cs,
    perform-get sm c h,
    perform-IsWellFormed T sm c h,
  )

  uncle-restore :
      (sm : StateMachine S) (s : S) (st : Status) (at : sm.inner ≡ some (s, st))
      → accepts_uncle st (suc n) ≡ true
      → suc n ≤ i64_max
      → get n sm.snapshots ≡ some v
      → handle_update T sm (block (uncle (suc n))) ≡ (
        record {
          inner = some (v, block_pending (suc n));
          snapshots = delete_from (suc n) sm.snapshots;
        },
        ok [],
      )
  unfolding handle_update update_state handle_uncle reorg put_back
  uncle-restore sm s st e a b g = grind (arith, get-delete_from (suc n) n sm.snapshots)

  -- On a machine whose status and snapshots agree, where block `n` has its snapshot, make any calls
  -- that uncle no block up to `n` and prune no block above it: updates, resumes and prunes, whether
  -- they are accepted or refused. If the machine still runs and its status admits it (and the
  -- numbers are ones the database can hold), an uncle of block `n + 1` succeeds without commands,
  -- the state is again exactly the one committed at `n`, the next block expected is `n + 1`, and
  -- the latest snapshot is the one of block `n`.
  pub perform_all-uncle :
      (sm : StateMachine S) (cs : List (Call E R)) (s : S) (st : Status)
      → IsWellFormed sm
      → get n sm.snapshots ≡ some v
      → spare_all n cs ≡ true
      → (perform_all T sm cs).inner ≡ some (s, st)
      → accepts_uncle st (suc n) ≡ true
      → suc n ≤ i64_max
      → ((handle_update T (perform_all T sm cs) (block (uncle (suc n)))).1 ≡ ok [])
        × ((handle_update T (perform_all T sm cs) (block (uncle (suc n)))).0.inner
            ≡ some (v, block_pending (suc n)))
        × (current (handle_update T (perform_all T sm cs) (block (uncle (suc n)))).0.snapshots
            ≡ some (n, v))
  perform_all-uncle sm cs s st h g p e a b =
      let last = perform_all T sm cs in
      let kept = perform_all-get sm cs h p g in
      let f = (calls-IsWellFormed T sm cs h).0 in
      grind (
        arith,
        uncle-restore last s st e a b kept,
        get-delete_from (suc n) n last.snapshots,
        current-delete_from 0 n last.snapshots f,
      )
