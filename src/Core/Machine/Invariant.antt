-- ===== src/Core/Machine/Invariant.antt =====
-- Where the status stands relative to the tip of the snapshots (crates/core/src/state/mod.rs).
use safenet.Prelude.{
  ℕ, suc, ◌-◌, ◌≤◌, ◌≡◌, refl, Option, none, some, List, [], ◌∷◌, arith, Outcome, ok, err,
  Option-cases, inl, inr, true,
}
use safenet.Prelude.BTree.{BTreeMap, get}
use safenet.Prelude.BTree.Sorted.{From, insert-From}
use safenet.Core.Updates.{EventUpdate, Update, block, logs, warp, uncle, new}
use safenet.Core.Status.{
  Status, initialized, block_pending, block_applied, block_events, warp_events, MachineError,
  accepts_warp, accepts_new, accepts_logs, status_after,
}
use safenet.Core.Snapshots.{current, commit, delete_from, reorg, prune_snapshots}
use safenet.Core.Snapshots.Tip.{
  Follows, current-insert, delete_from-From, current-delete_from, delete_below-From,
  current-delete_below, current_empty,
}
use safenet.Core.Machine.{
  StateTransition, StateMachine, Stepped, handle_warp, handle_uncle, handle_new, handle_logs,
  optimistic, update_state, put_back, handle_update, handle_resume, prune_machine, with_init, Call,
  update, resumed, prune_to, perform, perform_all,
}

module _ {S : Type 0} where
  -- Block `p` is the one after the tip.
  abbrev pub Tips : Option (ℕ × S) → ℕ → Type 0
  Tips none p = ⊥
  Tips (some (t, s)) p = p ≡ suc t

  abbrev pub Stands : Status → BTreeMap S → Type 0
  Stands initialized m = m ≡ []
  Stands (block_pending p) m = Tips (current m) p
  Stands (block_applied p) m = Tips (current m) p
  Stands (block_events l) m = Follows (current m) l
  Stands (warp_events r) m = Follows (current m) r.start × (r.start ≤ r.last)

  abbrev pub IsWellFormed : StateMachine S → Type 0
  IsWellFormed sm =
      From 0 sm.snapshots
      × (elim sm.inner [ none ↦ Unit | some (s, status) ↦ Stands status sm.snapshots ])

  pub Tips-Follows : (o : Option (ℕ × S)) (p : ℕ) → Tips o p → Follows o p
  Tips-Follows none p h = elim h [ ]
  Tips-Follows (some e) p h = h

module _ {S : Type 0} where
  pub Stands-Follows :
      (st : Status) (m : BTreeMap S) (n : ℕ)
      → Stands st m
      → accepts_warp st n ≡ true
      → Follows (current m) n
  unfolding accepts_warp current
  Stands-Follows initialized m n h a = grind arith
  Stands-Follows (block_pending p) m n h a = grind (arith, Tips-Follows (current m) p)
  Stands-Follows (block_applied p) m n h a = cc
  Stands-Follows (block_events l) m n h a = cc
  Stands-Follows (warp_events r) m n h a = cc

module _ {S E R C : Type 0} (T : StateTransition S E R C) where
  abbrev Sound : Outcome MachineError (Stepped S C) → Type 0
  Sound (ok r) = From 0 r.snapshots × Stands r.status r.snapshots
  Sound (err e) = Unit

  handle_uncle-Sound : (m : BTreeMap S) (n : ℕ) → From 0 m → Sound (handle_uncle T m n)
  unfolding handle_uncle reorg
  handle_uncle-Sound m n f = elim (Option-cases (get (n - 1) (delete_from n m))) [
    | inl e ↦ grind (arith)
    | inr (s, e) ↦ grind (arith, delete_from-From 0 n m f, current-delete_from 0 (n - 1) m f)
  ]

  handle_warp-Sound :
      (s : S) (st : Status) (m : BTreeMap S) (a b : ℕ)
      → From 0 m
      → accepts_warp st a ≡ true
      → Stands st m
      → Sound (handle_warp T s st m a b)
  unfolding handle_warp accepts_warp current
  handle_warp-Sound s initialized m a b f g h = ground arith
  handle_warp-Sound s (block_pending p) m a b f g h = ground (arith, Tips-Follows (current m) p)
  handle_warp-Sound s (block_applied p) m a b f g h = cc
  handle_warp-Sound s (block_events l) m a b f g h = cc
  handle_warp-Sound s (warp_events r) m a b f g h = cc

  handle_new-Sound :
      (s : S) (st : Status) (m : BTreeMap S) (n : ℕ)
      → From 0 m
      → accepts_new st n ≡ true
      → Stands st m
      → Sound (ok (handle_new T s st m n))
  unfolding handle_new accepts_new current
  handle_new-Sound s initialized m n f g h = ground arith
  handle_new-Sound s (block_pending p) m n f g h = ground (arith, Tips-Follows (current m) p)
  handle_new-Sound s (block_applied p) m n f g h = ground (arith, Tips-Follows (current m) p)
  handle_new-Sound s (block_events l) m n f g h = cc
  handle_new-Sound s (warp_events r) m n f g h = cc

  -- The logs of a range that starts at the block after the tip.
  handle_logs-Sound :
      (s : S) (st : Status) (m : BTreeMap S) (u : EventUpdate E)
      → From 0 m
      → accepts_logs st u.blocks ≡ true
      → Stands st m
      → Sound (handle_logs T s st m u)
  unfolding handle_logs accepts_logs commit status_after optimistic
  handle_logs-Sound s initialized m u f g h = cc
  handle_logs-Sound s (block_pending p) m u f g h = cc
  handle_logs-Sound s (block_applied p) m u f g h = cc
  handle_logs-Sound s (block_events l) m u f g h =
      grind (arith, insert-From 0 u.blocks.last _ m, current-insert 0 m l u.blocks.last _ f h)
  handle_logs-Sound s (warp_events r) m u f g h =
      grind
        (arith, insert-From 0 u.blocks.last _ m, current-insert 0 m r.start u.blocks.last _ f h.0)

  pub update_state-Sound :
      (s : S) (st : Status) (m : BTreeMap S) (u : Update E)
      → From 0 m
      → Stands st m
      → Sound (update_state T s st m u)
  unfolding update_state
  update_state-Sound s st m (block (warp a b)) f h = grind (arith, handle_warp-Sound s st m a b f)
  update_state-Sound s st m (block (uncle n)) f h = grind (arith, handle_uncle-Sound m n f)
  update_state-Sound s st m (block (new n x y z)) f h = grind (arith, handle_new-Sound s st m n f)
  update_state-Sound s st m (logs u) f h = grind (arith, handle_logs-Sound s st m u f)

  put_back-Sound :
      (m : BTreeMap S) (o : Outcome MachineError (Stepped S C))
      → From 0 m
      → Sound o
      → IsWellFormed (put_back T m o).0
  unfolding put_back
  put_back-Sound m (ok r) f h = h
  put_back-Sound m (err e) f h = (f, tt)

  pub handle_update-IsWellFormed :
      (sm : StateMachine S) (u : Update E) → IsWellFormed sm → IsWellFormed (handle_update T sm u).0
  unfolding handle_update
  handle_update-IsWellFormed sm u h = at sm.inner refl
    where
      at : (i : Option (S × Status)) → sm.inner ≡ i → IsWellFormed (handle_update T sm u).0
      at none e = grind arith
      at (some (s, st)) e = grind (
        arith,
        put_back-Sound sm.snapshots (update_state T s st sm.snapshots u) h.0,
        update_state-Sound s st sm.snapshots u h.0,
      )

  pub handle_resume-IsWellFormed :
      (sm : StateMachine S) (r : R) → IsWellFormed sm → IsWellFormed (handle_resume T sm r).0
  unfolding handle_resume
  handle_resume-IsWellFormed sm u h = at sm.inner refl
    where
      at : (i : Option (S × Status)) → sm.inner ≡ i → IsWellFormed (handle_resume T sm u).0
      at none e = grind arith
      at (some (s, st)) e = grind arith

module _ {S : Type 0} where
  pub prune_machine-IsWellFormed :
      (sm : StateMachine S) (n : ℕ) → IsWellFormed sm → IsWellFormed (prune_machine sm n).0
  unfolding prune_machine prune_snapshots
  prune_machine-IsWellFormed sm n h = at (current sm.snapshots) refl
    where
      at : (c : Option (ℕ × S)) → current sm.snapshots ≡ c → IsWellFormed (prune_machine sm n).0
      at none e = grind (arith, current_empty sm.snapshots)
      at (some (t, s)) e = grind (
        arith,
        delete_below-From 0 n t sm.snapshots h.0,
        current-delete_below 0 n t sm.snapshots h.0,
      )

  with_init-IsWellFormed :
      (m : BTreeMap S) (s : S) (sm : StateMachine S)
      → From 0 m
      → with_init m s ≡ ok sm
      → IsWellFormed sm
  unfolding with_init
  with_init-IsWellFormed m s sm f h = at (current m) refl
    where
      at : (c : Option (ℕ × S)) → current m ≡ c → IsWellFormed sm
      at none e = grind (arith, current_empty m)
      at (some (t, s)) e = grind arith

module _ {S E R C : Type 0} (T : StateTransition S E R C) where
  pub perform-IsWellFormed :
      (sm : StateMachine S) (c : Call E R) → IsWellFormed sm → IsWellFormed (perform T sm c)
  unfolding perform
  perform-IsWellFormed sm (update u) h = handle_update-IsWellFormed T sm u h
  perform-IsWellFormed sm (resumed r) h = handle_resume-IsWellFormed T sm r h
  perform-IsWellFormed sm (prune_to n) h = prune_machine-IsWellFormed sm n h

  pub calls-IsWellFormed :
      (sm : StateMachine S) (cs : List (Call E R))
      → IsWellFormed sm
      → IsWellFormed (perform_all T sm cs)
  unfolding perform_all
  calls-IsWellFormed sm [] h = h
  calls-IsWellFormed sm (c ∷ cs) h =
      calls-IsWellFormed (perform T sm c) cs (perform-IsWellFormed sm c h)

  -- A state machine that is started on an empty store, or on one whose snapshots ascend, has after
  -- any sequence of updates, effect resumes and prunes, accepted or refused, ascending snapshots,
  -- and unless it is poisoned its status stands where the tip of the snapshots is: with a pending
  -- block, applied or not, the tip exists and is the block before it; with a block whose logs it
  -- waits for, or a warp in progress, the next block to commit is the one after the tip if there is
  -- a tip at all, and a warp's range is not empty; initialized, the store is empty.
  pub with_init-calls-IsWellFormed :
      (m : BTreeMap S) (s : S) (sm : StateMachine S) (cs : List (Call E R))
      → From 0 m
      → with_init m s ≡ ok sm
      → IsWellFormed (perform_all T sm cs)
  with_init-calls-IsWellFormed m s sm cs f h =
      calls-IsWellFormed sm cs (with_init-IsWellFormed m s sm f h)
