-- ===== src/Core/Watcher.antt =====
-- The watcher that combines the block watcher and the event watcher (crates/core/src/index/mod.rs).
-- Each call is given what the nodes answer.
pub mod Runs
mod Tests
use safenet.Prelude.{
  ℕ, Option, none, some, List, [], ◌∷◌, ◌==◌, if◌then◌else◌, Bool, true, false, Outcome, ok, err,
}
use safenet.Core.Updates.{Update, block, logs, EventUpdate, BlockUpdate, BlockStatus}
use safenet.Core.Blocks.{
  Answer, BlockWatcher, WatchError, poll, next_update, revalidate_last_block, watcher_status,
}
use safenet.Core.Events.{
  EventWatcher, EventError, Events, Node, rpc, next_events, on_block_update, on_block_invalidated,
}

pub record Watcher : Type 0 where
  pub blocks : BlockWatcher
  pub events : EventWatcher

pub data IndexError : Type 0 where
  of_blocks : WatchError → IndexError
  of_events : EventError → IndexError

-- What is answered during one call: to the event watcher, to a revalidation by number, and to the
-- polls for the pending block.
pub record Answers : Type 0 where
  pub node : Node
  pub get_block : ℕ → Answer
  pub polls : ℕ → List Answer

abbrev pub block_status : Watcher → BlockStatus
block_status w = watcher_status w.blocks

-- The block watcher after a `next` that fails: its polls have moved the expected time.
unfoldable pub polled : BlockWatcher → List Answer → BlockWatcher
unfolding poll
polled w answers = elim w.queue [
  | u ∷ queue ↦ w
  | [] ↦ elim (poll w 0 answers) [ none ↦ w | some r ↦ r.1 ]
]

-- `EthRpcErrorCode::ResourceNotFound` of the alloy crates is the parameter `missing`.
module _ {E : Type 0} (events : Events E) (missing : ℕ) where
  unfoldable pub is_resource_not_found : EventError → Bool
  is_resource_not_found (rpc (some code)) = code == missing
  is_resource_not_found e = false

  unfoldable pub recover_logs :
      Watcher → EventError → (ℕ → Answer) → Watcher × Outcome IndexError (Option (EventUpdate E))
  unfolding revalidate_last_block on_block_invalidated
  recover_logs w e get_block =
      let r = revalidate_last_block w.blocks get_block in
      let w' = record w { blocks = r.0 } in
      elim r.1 [
        | err x ↦ (w', err (of_blocks x))
        | ok none ↦ (w', err (of_events e))
        | ok (some invalidated) ↦ elim (on_block_invalidated w.events invalidated.hash) [
          | ok events' ↦ (record w' { events = events' }, ok none)
          | err x ↦ (w', err (of_events x))
        ]
      ]

  unfoldable pub next_logs :
      Watcher → Answers → Watcher × Outcome IndexError (Option (EventUpdate E))
  unfolding next_events is_resource_not_found recover_logs
  next_logs w a =
      let r = next_events events a.node w.events in
      let w' = record w { events = r.0 } in
      elim r.1 [
        | ok update ↦ (w', ok update)
        | err e ↦
            if is_resource_not_found e
            then recover_logs w' e a.get_block
            else (w', err (of_events e))
      ]

  -- The chain's head moves on; no result while the block watcher waits.
  unfoldable pub advance : Watcher → Answers → Watcher × Option (Outcome IndexError (Update E))
  unfolding next_update on_block_update polled
  advance w a =
      let answers = a.polls w.blocks.pending.number in
      elim (next_update w.blocks answers) [
        | none ↦ (w, none)
        | some (err e) ↦ (record w { blocks = polled w.blocks answers }, some (err (of_blocks e)))
        | some (ok r) ↦ elim (on_block_update w.events r.1) [
          | err e ↦ (record w { blocks = r.0 }, some (err (of_events e)))
          | ok events' ↦ (record { blocks = r.0; events = events' }, some (ok (block r.1)))
        ]
      ]

  -- `Watcher::next`
  unfoldable pub next : Watcher → Answers → Watcher × Option (Outcome IndexError (Update E))
  unfolding next_logs advance
  next w a =
      let r = next_logs w a in
      elim r.1 [
        | err e ↦ (r.0, some (err e))
        | ok (some update) ↦ (r.0, some (ok (logs update)))
        | ok none ↦ advance r.0 a
      ]

  -- Calls of `next`, also after errors, until one waits.
  unfoldable pub run_next : Watcher → List Answers → Watcher × List (Outcome IndexError (Update E))
  unfolding next
  run_next w [] = (w, [])
  run_next w (a ∷ answers) =
      let r = next w a in
      let rest = run_next r.0 answers in
      elim r.1 [ none ↦ (r.0, []) | some o ↦ (rest.0, o ∷ rest.1) ]
