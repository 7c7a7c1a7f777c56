-- ===== src/Core/Machine/Restart.antt =====
-- The machine after an error, and after a restart (crates/core/src/state/mod.rs).
use safenet.Prelude.{◌≡◌, refl, Option, none, some, List, [], ◌∷◌, arith, Outcome, ok, err, true}
use safenet.Core.Updates.{EventUpdate, Update, logs}
use safenet.Core.Status.{Status, MachineError, poisoned, accepts_logs}
use safenet.Core.Machine.{
  StateTransition, StateMachine, Stepped, handle_logs, apply_blocks, update_state, put_back,
  handle_update, handle_resume, prune_machine, Call, update, resumed, prune_to, perform,
  perform_all, is_warping, blocks_of,
}

module _ {S E R C : Type 0} (T : StateTransition S E R C) where
  perform-poisoned :
      (sm : StateMachine S) (c : Call E R) → sm.inner ≡ none → (perform T sm c).inner ≡ none
  unfolding perform handle_update handle_resume prune_machine
  perform-poisoned sm (update u) h = grind arith
  perform-poisoned sm (resumed r) h = grind arith
  perform-poisoned sm (prune_to n) h = grind arith

  perform_all-poisoned :
      (sm : StateMachine S) (cs : List (Call E R))
      → sm.inner ≡ none
      → (perform_all T sm cs).inner ≡ none
  unfolding perform_all
  perform_all-poisoned sm [] h = h
  perform_all-poisoned sm (c ∷ cs) h =
      perform_all-poisoned (perform T sm c) cs (perform-poisoned sm c h)

  handle_update-err :
      (sm : StateMachine S) (u : Update E) {e : MachineError}
      → (handle_update T sm u).1 ≡ err e
      → ((handle_update T sm u).0.inner ≡ none)
        × ((handle_update T sm u).0.snapshots ≡ sm.snapshots)
  unfolding handle_update put_back
  handle_update-err sm u {e = e} h = at sm.inner refl
    where
      at :
          (i : Option (S × Status))
          → sm.inner ≡ i
          → ((handle_update T sm u).0.inner ≡ none)
            × ((handle_update T sm u).0.snapshots ≡ sm.snapshots)
      at none g = grind arith
      at (some (s, st)) g = outcome (update_state T s st sm.snapshots u) refl
        where
          outcome :
              (o : Outcome MachineError (Stepped S C))
              → update_state T s st sm.snapshots u ≡ o
              → ((handle_update T sm u).0.inner ≡ none)
                × ((handle_update T sm u).0.snapshots ≡ sm.snapshots)
          outcome (ok r) k = grind arith
          outcome (err x) k = grind arith

  -- An update that fails leaves the snapshots as they were and poisons the machine: whatever calls
  -- follow, of updates, effect resumes and prunes, every later update and every later resume is
  -- refused as poisoned.
  pub handle_update-poisoned :
      (sm : StateMachine S) (u : Update E) (e : MachineError) (cs : List (Call E R)) (w : Update E)
      (r : R)
      → (handle_update T sm u).1 ≡ err e
      → ((handle_update T sm u).0.snapshots ≡ sm.snapshots)
        × ((handle_update T (perform_all T (handle_update T sm u).0 cs) w).1 ≡ err poisoned)
        × ((handle_resume T (perform_all T (handle_update T sm u).0 cs) r).1 ≡ err poisoned)
  unfolding handle_update handle_resume
  handle_update-poisoned sm u e cs w r h =
      grind (arith, handle_update-err sm u h, perform_all-poisoned (handle_update T sm u).0 cs)

  -- The state that the logs' snapshot holds.
  abbrev indexed : S → Status → EventUpdate E → S × List C
  indexed s st u = apply_blocks T (is_warping st) (blocks_of u.blocks) s [] u.logs

  -- An accepted batch of logs, taken apart.
  abbrev Accepted : StateMachine S → EventUpdate E → StateMachine S → List C → Type 0
  Accepted sm u sm' cs =
      (s : S) × (st : Status) × (r : Stepped S C) × (sm.inner ≡ some (s, st))
      × (accepts_logs st u.blocks ≡ true)
      × (handle_logs T s st sm.snapshots u ≡ ok r)
      × (sm' ≡ record { inner = some (r.state, r.status); snapshots = r.snapshots })
      × (cs ≡ r.commands)
