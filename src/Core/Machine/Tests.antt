-- ===== src/Core/Machine/Tests.antt =====
-- The state machine on a small transition function: the state counts in base ten what it saw.
use safenet.Prelude.{ℕ, ◌+◌, ◌*◌, ◌≡◌, refl, some, List, [], ◌∷◌, ok, err, true, arith, is_some}
use safenet.Prelude.BTree.{BTreeMap, get, insert}
use safenet.Core.Updates.{EventLog, EventUpdate, block, logs, uncle, new}
use safenet.Core.Snapshots.{current, commit}
use safenet.Core.Status.{
  initialized, block_pending, block_applied, block_events, accepts_uncle, accepts_warp, bad_update,
  poisoned,
}
use safenet.Core.Machine.{
  StateTransition, StateMachine, Input, new_block, event, resume, Call, update, resumed, prune_to,
  handle_update, handle_resume, perform_all, run_updates, with_init, spare_all, is_sorted,
}
use safenet.Core.Machine.Invariant.{IsWellFormed, with_init-calls-IsWellFormed}
use safenet.Core.Machine.Rollback.{perform_all-uncle}
use safenet.Core.Machine.Restart.{handle_update-poisoned}
use safenet.Core.Machine.Warp.{warped, live, run_updates-warp_live}
use safenet.Core.Machine.Blocks.{LogsOf}

abbrev digit : ℕ → Input ℕ ℕ → ℕ × List ℕ
digit s (new_block n) = (s * 10 + n, n ∷ [])
digit s (event l) = (s * 10 + l.payload, l.payload ∷ [])
digit s (resume r) = (s + r, [])

abbrev digits : StateTransition ℕ ℕ ℕ ℕ
digits = record { apply_transition = digit }

abbrev log_at : ℕ → ℕ → ℕ → EventLog ℕ
log_at n i x = record {
  block = record { number = n; timestamp = 0 };
  index = i;
  address = 9;
  payload = x;
}

abbrev logs_at : ℕ → List (EventLog ℕ) → EventUpdate ℕ
logs_at n ls = record { blocks = record { start = n; last = n }; logs = ls }

abbrev saved : BTreeMap ℕ
saved = (3, 41) ∷ (4, 7) ∷ []

-- After blocks 3 and 4, block 5 expected.
abbrev running : StateMachine ℕ
running = record { inner = some (7, block_pending 5); snapshots = saved }

abbrev mined : List (Call ℕ ℕ)
mined =
    update (block (new 5 1 1 1))
    ∷ resumed 2
    ∷ update (logs (logs_at 5 (log_at 5 0 8 ∷ [])))
    ∷ prune_to 4
    ∷ []

with_init-calls-IsWellFormed_example : IsWellFormed (perform_all digits running mined)
unfolding with_init current
with_init-calls-IsWellFormed_example =
    with_init-calls-IsWellFormed digits saved 0 running mined (omega arith, (omega arith, tt)) refl

perform_all-uncle_example :
    ((handle_update digits (perform_all digits running mined) (block (uncle 5))).1 ≡ ok [])
    × ((handle_update digits (perform_all digits running mined) (block (uncle 5))).0.inner
        ≡ some (7, block_pending 5))
    × (current
          (handle_update digits (perform_all digits running mined) (block (uncle 5))).0.snapshots
        ≡ some (4, 7))
unfolding perform_all spare_all accepts_uncle get current commit insert
perform_all-uncle_example =
    perform_all-uncle digits 4 7 running mined 7786 (block_applied 6)
      ((omega arith, (omega arith, tt)), refl) refl refl refl refl (omega arith)

handle_update-poisoned_example :
    ((handle_update digits running (block (new 6 1 1 1))).0.snapshots ≡ running.snapshots)
    × ((handle_update digits
          (perform_all digits (handle_update digits running (block (new 6 1 1 1))).0 mined)
          (block (new 5 1 1 1))).1
        ≡ err poisoned)
    × ((handle_resume digits
          (perform_all digits (handle_update digits running (block (new 6 1 1 1))).0 mined)
          3).1
        ≡ err poisoned)
unfolding handle_update
handle_update-poisoned_example =
    handle_update-poisoned digits running (block (new 6 1 1 1)) bad_update mined
      (block (new 5 1 1 1)) 3 refl

abbrev observed : StateMachine ℕ
observed = record { inner = some (75, initialized); snapshots = [] }

run_updates-warp_live_example :
    (commands : List ℕ) × ((run_updates digits running
        (warped digits (λ n. (n, (n, n))) 5 (log_at 5 0 8 ∷ []) ([] ∷ []))).1
      ≡ ok commands)
    × ((run_updates digits running
          (live digits (λ n. (n, (n, n))) 5 (log_at 5 0 8 ∷ []) ([] ∷ []))).1
        ≡ ok commands)
    × (is_some
          (run_updates digits running
            (warped digits (λ n. (n, (n, n))) 5 (log_at 5 0 8 ∷ []) ([] ∷ []))).0.inner
        ≡ true)
    × ((run_updates digits running
          (warped digits (λ n. (n, (n, n))) 5 (log_at 5 0 8 ∷ []) ([] ∷ []))).0.inner
        ≡ (run_updates digits running
            (live digits (λ n. (n, (n, n))) 5 (log_at 5 0 8 ∷ []) ([] ∷ []))).0.inner)
    × (current
          (run_updates digits running
            (warped digits (λ n. (n, (n, n))) 5 (log_at 5 0 8 ∷ []) ([] ∷ []))).0.snapshots
        ≡ current
            (run_updates digits running
              (live digits (λ n. (n, (n, n))) 5 (log_at 5 0 8 ∷ []) ([] ∷ []))).0.snapshots)
unfolding accepts_warp current LogsOf is_sorted
run_updates-warp_live_example =
    run_updates-warp_live digits (λ n. (n, (n, n))) 7 (block_pending 5) saved 5 (log_at 5 0 8 ∷ [])
      ([] ∷ []) (omega arith, (omega arith, tt)) refl refl (((refl, tt), refl), ((tt, refl), tt))
      (omega arith)

abbrev ended : StateMachine ℕ
ended =
    (handle_update digits (record { inner = some (75, block_events 5); snapshots = saved })
      (logs (logs_at 5 (log_at 5 0 8 ∷ [])))).0
