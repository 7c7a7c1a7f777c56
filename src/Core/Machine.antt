-- ===== src/Core/Machine.antt =====
-- The state machine that drives a service's transition function over the indexer's updates
-- (crates/core/src/state/mod.rs). The state behind the mutex and the snapshots are a record, which
-- each method returns with its result; the state is taken out first, and put back on success only.
pub mod Invariant
pub mod Rollback
pub mod Restart
pub mod Blocks
pub mod Batches
pub mod Warp
mod Tests
use safenet.Prelude.{
  ℕ, ◌+◌, ◌-◌, ◌<◌, ◌≤◌, ◌≡◌, refl, Option, none, some, List, [], ◌∷◌, ◌++◌, ltb, leb, ◌==◌,
  if◌then◌else◌, ◌&&◌, ◌||◌, not, true, false, arith, Outcome, ok, err, Bool, ◌>>=◌, ok_or, suc,
  range_from, checked_add,
}
use safenet.Prelude.BTree.{BTreeMap}
use safenet.Core.Updates.{
  BlockRange, BlockUpdate, warp, uncle, new, EventLog, EventUpdate, Update, block, logs,
}
use safenet.Core.Status.{
  Status, initialized, block_pending, block_applied, block_events, warp_events, MachineError,
  storage, end_of_chain, bad_update, poisoned, next_block, block_range, in_range, accepts_warp,
  accepts_uncle, accepts_new, accepts_logs, is_warping, status_after,
}
use safenet.Core.Snapshots.{StorageError, current, commit, reorg, prune_snapshots}

pub data Input {ℓ} (E R : Type ℓ) : Type ℓ where
  new_block : ℕ → Input E R
  event : EventLog E → Input E R
  resume : R → Input E R

-- The trait `StateTransition`; `C` is a command, an action or an effect.
pub record StateTransition {ℓ} (S E R C : Type ℓ) : Type ℓ where
  pub apply_transition : S → Input E R → S × List C

pub record StateMachine {ℓ} (S : Type ℓ) : Type ℓ where
  pub inner : Option (S × Status)
  pub snapshots : BTreeMap S

-- The `?` on a storage error.
abbrev pub stored {ℓ} : {A : Type ℓ} → Outcome StorageError A → Outcome MachineError A
stored (ok a) = ok a
stored (err e) = err (storage e)

-- The blocks that `for block in blocks` visits.
abbrev pub blocks_of : BlockRange → List ℕ
blocks_of r = range_from r.start (suc r.last - r.start)

module _ {ℓ} {E : Type ℓ} where
  abbrev pub log_before : EventLog E → EventLog E → Bool
  log_before a b =
      ltb a.block.number b.block.number
      || ((a.block.number == b.block.number) && ltb a.index b.index)

  unfoldable pub is_sorted : List (EventLog E) → Bool
  is_sorted [] = true
  is_sorted (a ∷ []) = true
  is_sorted (a ∷ b ∷ ls) = log_before a b && is_sorted (b ∷ ls)

  unfoldable pub all_in_range : BlockRange → List (EventLog E) → Bool
  all_in_range r [] = true
  all_in_range r (l ∷ ls) = in_range r l.block.number && all_in_range r ls

module _ {ℓ} {S E R C : Type ℓ} (T : StateTransition S E R C) where
  unfoldable pub accumulate_transition : S → List C → Input E R → S × List C
  accumulate_transition s cs m = let r = T.apply_transition s m in (r.0, cs ++ r.1)

  -- `while let Some(log) = logs.next_if(...)`: the result, and the logs that are left.
  unfoldable pub apply_logs : ℕ → S → List C → List (EventLog E) → (S × List C) × List (EventLog E)
  unfolding accumulate_transition
  apply_logs number s cs [] = ((s, cs), [])
  apply_logs number s cs (l ∷ ls) =
      if l.block.number == number
      then (let r = accumulate_transition s cs (event l) in apply_logs number r.0 r.1 ls)
      else ((s, cs), l ∷ ls)

  unfoldable pub begin_block : Bool → ℕ → S → List C → S × List C
  unfolding accumulate_transition
  begin_block true number s cs = accumulate_transition s cs (new_block number)
  begin_block false number s cs = (s, cs)

  -- `for block in blocks`
  unfoldable pub apply_blocks : Bool → List ℕ → S → List C → List (EventLog E) → S × List C
  unfolding begin_block apply_logs
  apply_blocks warping [] s cs ls = (s, cs)
  apply_blocks warping (n ∷ ns) s cs ls =
      let b = begin_block warping n s cs in
      let r = apply_logs n b.0 b.1 ls in apply_blocks warping ns r.0.0 r.0.1 r.1

-- What an update leaves: the state and the status that are put back, the commands, the snapshots.
pub record Stepped {ℓ} (S C : Type ℓ) : Type ℓ where
  pub state : S
  pub status : Status
  pub commands : List C
  pub snapshots : BTreeMap S

module _ {ℓ} {S E R C : Type ℓ} (T : StateTransition S E R C) where
  -- The arms of `handle_update`, the state and the status taken out.
  unfoldable pub handle_warp : S → Status → BTreeMap S → ℕ → ℕ → Outcome MachineError (Stepped S C)
  handle_warp s status m from to = block_range from to >>= λ range.
      ok (record { state = s; status = warp_events range; commands = []; snapshots = m })

  unfoldable pub handle_uncle : BTreeMap S → ℕ → Outcome MachineError (Stepped S C)
  handle_uncle m number = stored (reorg number m) >>= λ r.
      ok (record { state = r.0.1; status = block_pending number; commands = []; snapshots = r.1 })

  -- The block's transition may already have been applied with the previous block's logs.
  unfoldable pub observe_block : S → Status → ℕ → S × List C
  observe_block s (block_applied p) number = (s, [])
  observe_block s initialized number = T.apply_transition s (new_block number)
  observe_block s (block_pending p) number = T.apply_transition s (new_block number)
  observe_block s (block_events l) number = T.apply_transition s (new_block number)
  observe_block s (warp_events r) number = T.apply_transition s (new_block number)

  unfoldable pub handle_new : S → Status → BTreeMap S → ℕ → Stepped S C
  unfolding observe_block
  handle_new s status m number =
      let r = observe_block s status number in
      record { state = r.0; status = block_events number; commands = r.1; snapshots = m }

  -- Optimistically apply the pending block's transition.
  unfoldable pub optimistic : S → List C → Status → BTreeMap S → Stepped S C
  unfolding accumulate_transition
  optimistic s cs (block_pending p) m =
      let r = accumulate_transition T s cs (new_block p) in
      record { state = r.0; status = block_applied p; commands = r.1; snapshots = m }
  optimistic s cs initialized m = record {
    state = s;
    status = initialized;
    commands = cs;
    snapshots = m;
  }
  optimistic s cs (block_applied p) m = record {
    state = s;
    status = block_applied p;
    commands = cs;
    snapshots = m;
  }
  optimistic s cs (block_events l) m = record {
    state = s;
    status = block_events l;
    commands = cs;
    snapshots = m;
  }
  optimistic s cs (warp_events r) m = record {
    state = s;
    status = warp_events r;
    commands = cs;
    snapshots = m;
  }

  unfoldable pub handle_logs :
      S → Status → BTreeMap S → EventUpdate E → Outcome MachineError (Stepped S C)
  unfolding is_sorted all_in_range apply_blocks status_after optimistic
  handle_logs s status m u =
      if is_sorted u.logs && all_in_range u.blocks u.logs
      then (let r = apply_blocks T (is_warping status) (blocks_of u.blocks) s [] u.logs in
          status_after status u.blocks >>= λ next.
          stored (commit u.blocks.last r.0 m) >>= λ m'. ok (optimistic r.0 r.1 next m'))
      else err bad_update

  unfoldable pub update_state :
      S → Status → BTreeMap S → Update E → Outcome MachineError (Stepped S C)
  unfolding handle_warp handle_uncle handle_new handle_logs accepts_warp accepts_uncle accepts_new
      accepts_logs
  update_state s status m (block (warp from to)) =
      if accepts_warp status from then handle_warp s status m from to else err bad_update
  update_state s status m (block (uncle number)) =
      if accepts_uncle status number then handle_uncle m number else err bad_update
  update_state s status m (block (new number hash timestamp bloom)) =
      if accepts_new status number then ok (handle_new s status m number) else err bad_update
  update_state s status m (logs u) =
      if accepts_logs status u.blocks then handle_logs s status m u else err bad_update

  -- `mem::take`, the update, and `*lock = Some((state, status))` when it succeeds.
  unfoldable pub put_back :
      BTreeMap S
      → Outcome MachineError (Stepped S C)
      → StateMachine S × Outcome MachineError (List C)
  put_back m (ok r) =
      (record { inner = some (r.state, r.status); snapshots = r.snapshots }, ok r.commands)
  put_back m (err e) = (record { inner = none; snapshots = m }, err e)

  unfoldable pub handle_update :
      StateMachine S → Update E → StateMachine S × Outcome MachineError (List C)
  unfolding update_state put_back
  handle_update sm u = elim sm.inner [
    | none ↦ (record sm { inner = none }, err poisoned)
    | some (s, status) ↦ put_back sm.snapshots (update_state s status sm.snapshots u)
  ]

  unfoldable pub handle_resume : StateMachine S → R → StateMachine S × Outcome MachineError (List C)
  handle_resume sm r = elim sm.inner [
    | none ↦ (record sm { inner = none }, err poisoned)
    | some (s, status) ↦
        let q = T.apply_transition s (resume r) in
        (record sm { inner = some (q.0, status) }, ok q.1)
  ]

module _ {ℓ} {S : Type ℓ} where
  -- `StateMachine::prune`
  unfoldable pub prune_machine :
      StateMachine S → ℕ → StateMachine S × Outcome MachineError (Unit {0})
  unfolding prune_snapshots
  prune_machine sm safe = elim (prune_snapshots safe sm.snapshots) [
    | ok m ↦ (record sm { snapshots = m }, ok tt)
    | err e ↦ (sm, err (storage e))
  ]

  -- The machine on a store that exists already, as after a restart.
  unfoldable pub with_init : BTreeMap S → S → Outcome MachineError (StateMachine S)
  unfolding current
  with_init m init = elim (current m) [
    | none ↦ ok (record { inner = some (init, initialized); snapshots = m })
    | some (latest, s) ↦
        next_block latest >>= λ p. ok (record { inner = some (s, block_pending p); snapshots = m })
  ]

-- The calls that the driver makes of a running machine.
pub data Call {ℓ} (E R : Type ℓ) : Type ℓ where
  update : Update E → Call E R
  resumed : R → Call E R
  prune_to : ℕ → Call E R

module _ {ℓ} {S E R C : Type ℓ} (T : StateTransition S E R C) where
  unfoldable pub perform : StateMachine S → Call E R → StateMachine S
  unfolding handle_update handle_resume prune_machine
  perform sm (update u) = (handle_update T sm u).0
  perform sm (resumed r) = (handle_resume T sm r).0
  perform sm (prune_to n) = (prune_machine sm n).0

  unfoldable pub perform_all : StateMachine S → List (Call E R) → StateMachine S
  unfolding perform
  perform_all sm [] = sm
  perform_all sm (c ∷ cs) = perform_all (perform sm c) cs

-- The calls that leave the snapshot of block `n` in the store: no block up to it is uncled, and it
-- is not below a safe block.
module _ {ℓ} {E R : Type ℓ} where
  unfoldable pub spares : ℕ → Call E R → Bool
  spares n (update (block (warp from to))) = true
  spares n (update (block (uncle number))) = ltb n number
  spares n (update (block (new number h t b))) = true
  spares n (update (logs u)) = true
  spares n (resumed r) = true
  spares n (prune_to safe) = leb safe n

  unfoldable pub spare_all : ℕ → List (Call E R) → Bool
  unfolding spares
  spare_all n [] = true
  spare_all n (c ∷ cs) = spares n c && spare_all n cs

module _ {ℓ} {S E R C : Type ℓ} (T : StateTransition S E R C) where
  -- Updates one after another, until one fails; the commands of all.
  unfoldable pub run_updates :
      StateMachine S → List (Update E) → StateMachine S × Outcome MachineError (List C)
  unfolding handle_update
  run_updates sm [] = (sm, ok [])
  run_updates sm (u ∷ us) =
      let r = handle_update T sm u in
      let rest = run_updates r.0 us in
      elim r.1 [ ok cs ↦ (rest.0, rest.1 >>= λ ds. ok (cs ++ ds)) | err e ↦ (r.0, err e) ]
