-- ===== src/Core/Blocks.antt =====
-- The block watcher (crates/core/src/index/blocks.rs) after its initialization. What the node
-- answers is given to each call: the answers to its polls, or to its one request. The clock's
-- sleeps are left out.
pub mod View
pub mod Runs
mod Tests
use safenet.Prelude.{
  ℕ, suc, ◌+◌, ◌-◌, ◌*◌, ◌%◌, Option, none, some, List, [], ◌∷◌, ltb, ◌==◌, if◌then◌else◌, Bool,
  true, false, Outcome, ok, err, ◌>>=◌, length, get_elem?, u64_max,
}
use safenet.Alloy.{B256}
use safenet.Core.Updates.{BlockUpdate, warp, uncle, new, BlockStatus}

pub record BlockHeader : Type 0 where
  pub number : ℕ
  pub hash : B256
  pub parent_hash : B256
  pub timestamp : ℕ
  pub logs_bloom : ℕ

pub record PendingBlock : Type 0 where
  pub number : ℕ
  pub timestamp_ms : ℕ

pub record SafeBlock : Type 0 where
  pub number : ℕ
  pub hash : B256

-- `recent` has the newest block in front, where the program has it at the back.
pub record BlockWatcher : Type 0 where
  pub max_reorg_depth : ℕ
  pub block_time : ℕ
  pub block_retry_delays : List ℕ
  pub pending : PendingBlock
  pub safe : SafeBlock
  pub recent : List BlockHeader
  pub queue : List BlockUpdate

pub data WatchError : Type 0 where
  rpc : WatchError
  exceeded_max_reorg_depth : ℕ → WatchError

pub record InvalidatedBlock : Type 0 where
  pub number : ℕ
  pub hash : B256

abbrev pub watcher_status : BlockWatcher → BlockStatus
watcher_status w = record { latest = w.pending.number - 1; safe = w.safe.number }

abbrev pub pending_after_block : BlockWatcher → ℕ → ℕ → PendingBlock
pending_after_block w number timestamp = record {
  number = number + 1;
  timestamp_ms = timestamp * 1000 + w.block_time;
}

abbrev pub late : BlockWatcher → BlockWatcher
late w = record w {
  pending = record {
    number = w.pending.number;
    timestamp_ms = w.pending.timestamp_ms + w.block_time;
  };
}

-- A request for a block gives it, or nothing where the node does not have it, or fails.
abbrev pub Answer : Type 0
Answer = Outcome WatchError (Option BlockHeader)

-- The polls for the pending block, until one gives it or fails: a whole block time passes when the retries are exhausted. With
-- the answers at an end the watcher still waits.
unfoldable pub poll :
    BlockWatcher → ℕ → List Answer → Option (Outcome WatchError BlockHeader × BlockWatcher)
poll w retry_count [] = none
poll w retry_count (err e ∷ answers) = some (err e, w)
poll w retry_count (ok (some b) ∷ answers) = some (ok b, w)
poll w retry_count (ok none ∷ answers) =
    elim (get_elem? w.block_retry_delays (retry_count % suc (length w.block_retry_delays))) [
      | some delay ↦ poll w (suc retry_count) answers
      | none ↦ poll (late w) (suc retry_count) answers
    ]

-- `recent` without its oldest block, and that block.
unfoldable pub evict : BlockHeader → List BlockHeader → List BlockHeader × BlockHeader
evict b [] = ([], b)
evict b (c ∷ older) = let r = evict c older in (b ∷ r.0, r.1)

unfoldable pub accept_block : BlockWatcher → BlockHeader → BlockWatcher × BlockUpdate
unfolding evict
accept_block w b =
    let w' = record w { pending = pending_after_block w b.number b.timestamp } in
    let update = new b.number b.hash b.timestamp b.logs_bloom in
    if ltb w.max_reorg_depth (length (b ∷ w.recent))
    then (let r = evict b w.recent in
        (
          record w' { recent = r.0; safe = record { number = r.1.number; hash = r.1.hash } },
          update,
        ))
    else (record w' { recent = b ∷ w.recent }, update)

-- What `next` does with the block it fetched.
unfoldable pub next_header :
    BlockWatcher → BlockHeader → Outcome WatchError (BlockWatcher × BlockUpdate)
unfolding accept_block
next_header w b = elim w.recent [
  | last ∷ older ↦
      if last.hash == b.parent_hash
      then ok (accept_block w b)
      else ok (
        record w {
          recent = older;
          pending = record { number = last.number; timestamp_ms = last.timestamp * 1000 };
        },
        uncle last.number,
      )
  | [] ↦
      if w.safe.hash == b.parent_hash
      then ok (accept_block w b)
      else err (exceeded_max_reorg_depth w.max_reorg_depth)
]

-- `BlockWatcher::next`; nothing while the watcher waits.
unfoldable pub next_update :
    BlockWatcher → List Answer → Option (Outcome WatchError (BlockWatcher × BlockUpdate))
unfolding poll next_header
next_update w answers = elim w.queue [
  | u ∷ queue ↦ some (ok (record w { queue = queue }, u))
  | [] ↦ elim (poll w 0 answers) [
    | none ↦ none
    | some (ok b, w') ↦ some (next_header w' b)
    | some (err e, w') ↦ some (err e)
  ]
]

-- The newest tracked block below `number`, with the blocks before it.
unfoldable pub last_below : Option ℕ → List BlockHeader → Option (BlockHeader × List BlockHeader)
last_below bound [] = none
last_below none (b ∷ older) = some (b, older)
last_below (some n) (b ∷ older) =
    if ltb b.number n then some (b, older) else last_below (some n) older

unfoldable pub invalidate :
    BlockWatcher → BlockHeader → List BlockHeader → BlockWatcher × Option InvalidatedBlock
invalidate w b older = (
  record w {
    recent = older;
    pending = record { number = b.number; timestamp_ms = b.timestamp * 1000 };
    queue = uncle b.number ∷ [];
  },
  some (record { number = b.number; hash = b.hash }),
)

abbrev pub same_hash : Option BlockHeader → BlockHeader → Bool
same_hash none b = false
same_hash (some c) b = c.hash == b.hash

unfoldable pub revalidate_with :
    BlockWatcher
    → Option ℕ
    → (ℕ → Answer)
    → BlockWatcher × Outcome WatchError (Option InvalidatedBlock)
unfolding last_below invalidate
revalidate_with w next_number get_block = elim (last_below next_number w.recent) [
  | none ↦ (w, ok none)
  | some (b, older) ↦ elim (get_block b.number) [
    | err e ↦ (w, err e)
    | ok current ↦
        if same_hash current b
        then (w, ok none)
        else (let r = invalidate w b older in (r.0, ok r.1))
  ]
]

unfoldable pub revalidate_last_block :
    BlockWatcher → (ℕ → Answer) → BlockWatcher × Outcome WatchError (Option InvalidatedBlock)
unfolding revalidate_with
revalidate_last_block w get_block = elim w.queue [
  | [] ↦ revalidate_with w none get_block
  | u ∷ queue ↦ elim u [
    | new number hash timestamp bloom ↦ revalidate_with w (some number) get_block
    | warp from to ↦ (w, ok none)
    | uncle number ↦ (w, ok none)
  ]
]

-- Calls of `next` until one fails or waits; a call's node answers by the number it is asked for.
unfoldable pub run_watcher : BlockWatcher → List (ℕ → List Answer) → BlockWatcher × List BlockUpdate
unfolding next_update
run_watcher w [] = (w, [])
run_watcher w (ask ∷ asks) = elim (next_update w (ask w.pending.number)) [
  | none ↦ (w, [])
  | some (err e) ↦ (w, [])
  | some (ok r) ↦ let rest = run_watcher r.0 asks in (rest.0, r.1 ∷ rest.1)
]
