-- ===== src/Core/Watcher/Runs.antt =====
-- The order of the updates of the two watchers (crates/core/src/index/mod.rs).
use safenet.Prelude.{
  ℕ, ◌+◌, ◌≡◌, refl, sym, ◌∙◌, Option, none, some, List, [], ◌∷◌, ◌==◌, ltb, if◌then◌else◌, ◌&&◌,
  Bool, true, false, Outcome, ok, err, ◌>>=◌, arith, All, Outcome-cases, Bool-cases, inl, inr,
  get_elem?, subst, Option-cases, length, ◌%◌, suc, and_then,
}
use safenet.Prelude.BTree.{BTreeMap, insert}
use safenet.Alloy.{Address, B256}
use safenet.Core.Updates.{Update, block, logs, EventLog, EventUpdate, BlockUpdate, warp, uncle, new}
use safenet.Core.Blocks.{
  Answer, BlockHeader, BlockWatcher, WatchError, poll, late, evict, accept_block, next_header,
  next_update, last_below, invalidate, same_hash, revalidate_with, revalidate_last_block,
}
use safenet.Core.Events.{
  EventWatcher, EventError, Events, Node, Step, BlockStep, RawLog, BlockFilter, Fetch, idle,
  warping, block_step, unexpected_block_update, unexpected_block_invalidation, next_events,
  fetch_block, fetch_logs, block_fetch, query_topics, check_logs_limit, decode_and_sort,
  decode_logs, on_block_update, on_block_invalidated, single_query, multiple_queries,
  client_filtered, block_hash_filter,
}
use safenet.Core.Watcher.{
  Watcher, IndexError, Answers, of_blocks, of_events, polled, is_resource_not_found, recover_logs,
  next_logs, advance, next, run_next,
}

-- An error that no caller's misuse explains.
unfoldable pub is_foreseen : EventError → Bool
is_foreseen unexpected_block_update = false
is_foreseen unexpected_block_invalidation = false
is_foreseen e = true

unfoldable pub foreseen : IndexError → Bool
unfolding is_foreseen
foreseen (of_blocks e) = true
foreseen (of_events e) = is_foreseen e

-- The block whose logs are due.
abbrev pub due : Step → Option ℕ
due idle = none
due (warping s) = none
due (block_step b) = some b.block_number

-- What may follow while the logs of a block are due or none are: its logs or its removal, or else
-- another block or removal.
unfoldable pub turn : {E : Type 0} → Option ℕ → Update E → Option (Option ℕ)
turn none (block (new n h t bloom)) = some (some n)
turn none (block (uncle n)) = some none
turn (some n) (block (uncle m)) = if m == n then some none else none
turn (some n) (logs u) = if (u.blocks.start == n) && (u.blocks.last == n) then some none else none
turn d u = none

-- All results in their order: updates in turn, between errors that are foreseen.
unfoldable pub in_turn :
    {E : Type 0} → Option ℕ → List (Outcome IndexError (Update E)) → Option (Option ℕ)
unfolding turn foreseen
in_turn d [] = some d
in_turn d (ok u ∷ os) = and_then (turn d u) (λ d'. in_turn d' os)
in_turn d (err e ∷ os) = let rest = in_turn d os in if foreseen e then rest else none

-- The newest tracked block, if there is one, is the block.
abbrev pub IsTip : BlockStep → List BlockHeader → Type 0
IsTip b [] = Unit
IsTip b (h ∷ older) = (h.hash ≡ b.block_hash) × (h.number ≡ b.block_number)

-- No warp is left, and the block whose logs are due is the block watcher's newest.
abbrev pub SyncedStep : Step → List BlockHeader → Type 0
SyncedStep idle recent = Unit
SyncedStep (warping s) recent = ⊥
SyncedStep (block_step b) recent = IsTip b recent

abbrev pub Synced : Watcher → Type 0
Synced w = (w.blocks.queue ≡ []) × SyncedStep w.events.step w.blocks.recent

abbrev Foreseen : {A : Type 0} → Outcome EventError A → Type 0
Foreseen (ok a) = Unit
Foreseen (err e) = is_foreseen e ≡ true

-- The requests for logs fail with errors of the node only.
abbrev pub IsServed : Node → Type 0
IsServed node =
    (blocks : BlockFilter) (addresses : List Address) (topics : List B256) (e : EventError)
    → node.get_logs blocks addresses topics ≡ err e
    → is_foreseen e ≡ true

module _ {E : Type 0} (events : Events E) (node : Node) (served : IsServed node) where
  query-Foreseen :
      (w : EventWatcher) (blocks : BlockFilter) (addresses : List Address) (topics : List B256)
      → Foreseen (node.get_logs blocks addresses topics >>= check_logs_limit w.config)
  unfolding check_logs_limit is_foreseen
  query-Foreseen w blocks addresses topics =
      elim (Outcome-cases (node.get_logs blocks addresses topics)) [
        | inl (ls, e) ↦ ground arith
        | inr (x, e) ↦ grind (arith, served blocks addresses topics x e)
      ]

  query_topics-Foreseen :
      (w : EventWatcher) (blocks : BlockFilter) (topics : List B256)
      → Foreseen (query_topics events node w.config w.addresses blocks topics)
  unfolding query_topics
  query_topics-Foreseen w blocks [] = tt
  query_topics-Foreseen w blocks (t ∷ ts) =
      grind (arith, query-Foreseen w blocks w.addresses (t ∷ []), query_topics-Foreseen w blocks ts)

  decode_logs-Foreseen :
      (ts : BTreeMap ℕ) (ls : List RawLog) → Foreseen (decode_logs events node ts ls)
  unfolding decode_logs is_foreseen
  decode_logs-Foreseen ts [] = tt
  decode_logs-Foreseen ts (l ∷ ls) = grind (arith, decode_logs-Foreseen ts ls)

  fetch_logs-Foreseen : (w : EventWatcher) (f : Fetch) → Foreseen (fetch_logs events node w f)
  unfolding fetch_logs is_foreseen
  fetch_logs-Foreseen w (single_query blocks) = query-Foreseen w blocks w.addresses events.topics
  fetch_logs-Foreseen w (multiple_queries blocks) = query_topics-Foreseen w blocks events.topics
  fetch_logs-Foreseen w (client_filtered hash bloom) =
      elim (Outcome-cases (node.get_logs (block_hash_filter hash) [] [])) [
        | inl (ls, e) ↦ ground arith
        | inr (x, e) ↦ grind (arith, served (block_hash_filter hash) [] [] x e)
      ]

  decoded-Foreseen :
      (r : Outcome EventError (List RawLog)) (ts : BTreeMap ℕ)
      → Foreseen r
      → Foreseen (r >>= λ ls. decode_and_sort events node ls ts)
  unfolding decode_and_sort
  decoded-Foreseen (ok ls) ts h = grind (arith, decode_logs-Foreseen ts ls)
  decoded-Foreseen (err e) ts h = h

  -- A block's logs are an update over that block alone, or they stay due.
  abbrev Fetched : BlockStep → Step × Outcome EventError (EventUpdate E) → Type 0
  Fetched b (step, ok u) =
      (step ≡ idle) × (u.blocks ≡ record { start = b.block_number; last = b.block_number })
  Fetched b (step, err e) =
      (is_foreseen e ≡ true)
      × (b' : BlockStep) × (step ≡ block_step b')
      × (b'.block_number ≡ b.block_number)
      × (b'.block_hash ≡ b.block_hash)

  fetch_block-Fetched : (w : EventWatcher) (b : BlockStep) → Fetched b (fetch_block events node w b)
  unfolding fetch_block
  fetch_block-Fetched w b =
      settled
        (fetch_logs events node w (block_fetch events node w b) >>= λ ls.
          decode_and_sort events node ls (insert b.block_number b.block_timestamp []))
        (decoded-Foreseen (fetch_logs events node w (block_fetch events node w b))
          (insert b.block_number b.block_timestamp [])
          (fetch_logs-Foreseen w (block_fetch events node w b)))
    where
      settled :
          (r : Outcome EventError (List (EventLog E)))
          → Foreseen r
          → Fetched b (elim r [
            | err e ↦ (block_step (record b { retries = b.retries + 1 }), err e)
            | ok ls ↦ (
              idle,
              ok (record {
                blocks = record { start = b.block_number; last = b.block_number };
                logs = ls;
              }),
            )
          ])
      settled (ok ls) h = (refl, refl)
      settled (err e) h = (h, record b { retries = b.retries + 1 }, refl, refl, refl)

IsTip-same :
    (b b' : BlockStep) (recent : List BlockHeader)
    → b'.block_hash ≡ b.block_hash
    → b'.block_number ≡ b.block_number
    → IsTip b recent
    → IsTip b' recent
IsTip-same b b' [] p q h = tt
IsTip-same b b' (c ∷ older) p q h = (h.0 ∙ sym p, h.1 ∙ sym q)

-- Polls leave the tracked blocks and the queue as they are.
Keeps : BlockWatcher → Option (Outcome WatchError BlockHeader × BlockWatcher) → Type 0
Keeps w none = Unit
Keeps w (some (b, w')) = (w'.queue ≡ w.queue) × (w'.recent ≡ w.recent)

Keeps-late :
    (w : BlockWatcher) (r : Option (Outcome WatchError BlockHeader × BlockWatcher))
    → Keeps (late w) r
    → Keeps w r
unfolding Keeps
Keeps-late w none h = h
Keeps-late w (some r) h = h

poll-Keeps : (w : BlockWatcher) (k : ℕ) (answers : List Answer) → Keeps w (poll w k answers)
unfolding poll Keeps
poll-Keeps w k [] = tt
poll-Keeps w k (err e ∷ answers) = (refl, refl)
poll-Keeps w k (ok (some b) ∷ answers) = (refl, refl)
poll-Keeps w k (ok none ∷ answers) =
    let i = poll-Keeps w (suc k) answers in
    let j = poll-Keeps (late w) (suc k) answers in
    elim (Option-cases (get_elem? w.block_retry_delays (k % suc (length w.block_retry_delays)))) [
      | inl e ↦ grind (arith, Keeps-late w (poll (late w) (suc k) answers) j)
      | inr (d, e) ↦ grind (arith, i)
    ]

-- What `next` makes of a watcher: it is in step again, and its result was in turn.
abbrev pub InTurn :
    {E : Type 0} → Option ℕ → Watcher × Option (Outcome IndexError (Update E)) → Type 0
InTurn d (w, none) = Synced w × (due w.events.step ≡ d)
InTurn d (w, some (err e)) = Synced w × (due w.events.step ≡ d) × (foreseen e ≡ true)
InTurn d (w, some (ok u)) = Synced w × (turn d u ≡ some (due w.events.step))

accept_block-IsTip :
    (w : BlockWatcher) (b : BlockHeader) (s : BlockStep)
    → s.block_hash ≡ b.hash
    → s.block_number ≡ b.number
    → IsTip s (accept_block w b).0.recent
unfolding accept_block evict
accept_block-IsTip w b s p q = at w.recent refl
  where
    at : (bs : List BlockHeader) → w.recent ≡ bs → IsTip s (accept_block w b).0.recent
    at [] e = ground arith
    at (c ∷ bs) e = ground arith

abbrev HeaderKept :
    BlockWatcher → BlockHeader → Outcome WatchError (BlockWatcher × BlockUpdate) → Type 0
HeaderKept w b (err e) = Unit
HeaderKept w b (ok (w', new n h t bloom)) =
    (w'.queue ≡ w.queue)
    × ((s : BlockStep) → s.block_hash ≡ h → s.block_number ≡ n → IsTip s w'.recent)
HeaderKept w b (ok (w', uncle n)) = w'.queue ≡ w.queue
HeaderKept w b (ok (w', warp from to)) = ⊥

accept_block-HeaderKept :
    (w : BlockWatcher) (b : BlockHeader) → HeaderKept w b (ok (accept_block w b))
unfolding accept_block
accept_block-HeaderKept w b = elim (Bool-cases (ltb w.max_reorg_depth (length (b ∷ w.recent)))) [
  | inl e ↦ grind (arith, accept_block-IsTip w b)
  | inr e ↦ grind (arith, accept_block-IsTip w b)
]

next_header-HeaderKept : (w : BlockWatcher) (b : BlockHeader) → HeaderKept w b (next_header w b)
unfolding next_header
next_header-HeaderKept w b = at w.recent refl
  where
    at : (bs : List BlockHeader) → w.recent ≡ bs → HeaderKept w b (next_header w b)
    at [] e = elim (Bool-cases (w.safe.hash == b.parent_hash)) [
      | inl p ↦ grind (arith, accept_block-HeaderKept w b)
      | inr p ↦ grind arith
    ]
    at (last ∷ older) e = elim (Bool-cases (last.hash == b.parent_hash)) [
      | inl p ↦ grind (arith, accept_block-HeaderKept w b)
      | inr p ↦ grind arith
    ]

module _ {E : Type 0} (events : Events E) (missing : ℕ) where
  advance-uncle :
      (w : Watcher) (a : Answers) (n : ℕ)
      → w.blocks.queue ≡ uncle n ∷ []
      → w.events.step ≡ idle
      → InTurn (some n) (advance events missing w a)
  unfolding advance next_update on_block_update turn
  advance-uncle w a n q s = grind arith

  advance-InTurn :
      (w : Watcher) (a : Answers)
      → w.blocks.queue ≡ []
      → w.events.step ≡ idle
      → InTurn none (advance events missing w a)
  unfolding advance next_update polled Keeps on_block_update turn foreseen
  advance-InTurn w a q s =
      at (poll w.blocks 0 (a.polls w.blocks.pending.number)) refl
        (poll-Keeps w.blocks 0 (a.polls w.blocks.pending.number))
    where
      headed :
          (b : BlockHeader) (w' : BlockWatcher)
          (r : Outcome WatchError (BlockWatcher × BlockUpdate))
          → poll w.blocks 0 (a.polls w.blocks.pending.number) ≡ some (ok b, w')
          → w'.queue ≡ w.blocks.queue
          → next_header w' b ≡ r
          → HeaderKept w' b r
          → InTurn none (advance events missing w a)
      headed b w' (err e) p k h o = grind arith
      headed b w' (ok (w'', new n h t bloom)) p k f o = grind (arith, o)
      headed b w' (ok (w'', uncle n)) p k h o = grind (arith, o)
      headed b w' (ok (w'', warp from to)) p k h o = elim o [ ]

      at :
          (r : Option (Outcome WatchError BlockHeader × BlockWatcher))
          → poll w.blocks 0 (a.polls w.blocks.pending.number) ≡ r
          → Keeps w.blocks r
          → InTurn none (advance events missing w a)
      at none e k = grind arith
      at (some (err x, w')) e k = grind arith
      at (some (ok b, w')) e k =
          headed b w' (next_header w' b) e k.0 refl (next_header-HeaderKept w' b)

  -- The block watcher still has the block, or has it removed.
  abbrev Recovered :
      Watcher
      → BlockStep
      → EventError
      → Watcher × Outcome IndexError (Option (EventUpdate E))
      → Type 0
  Recovered w b e (w', err (of_blocks x)) = w' ≡ w
  Recovered w b e (w', err (of_events x)) = (x ≡ e) × (w' ≡ w)
  Recovered w b e (w', ok none) =
      (w'.blocks.queue ≡ uncle b.block_number ∷ []) × (w'.events.step ≡ idle)
  Recovered w b e (w', ok (some u)) = ⊥

  recover_logs-Recovered :
      (w : Watcher) (b : BlockStep) (e : EventError) (get_block : ℕ → Answer)
      → w.blocks.queue ≡ []
      → w.events.step ≡ block_step b
      → IsTip b w.blocks.recent
      → Recovered w b e (recover_logs events missing w e get_block)
  unfolding recover_logs revalidate_last_block revalidate_with last_below invalidate
      on_block_invalidated
  recover_logs-Recovered w b e get_block q s t = at w.blocks.recent refl
    where
      at :
          (bs : List BlockHeader)
          → w.blocks.recent ≡ bs
          → Recovered w b e (recover_logs events missing w e get_block)
      at [] p = grind arith
      at (h ∷ older) p = elim (Outcome-cases (get_block h.number)) [
        | inl (current, f) ↦ elim (Bool-cases (same_hash current h)) [
          | inl c ↦ grind arith
          | inr c ↦ grind arith
        ]
        | inr (x, f) ↦ grind arith
      ]

  next-InTurn :
      (w : Watcher) (a : Answers)
      → Synced w
      → IsServed a.node
      → InTurn (due w.events.step) (next events missing w a)
  unfolding next next_logs next_events foreseen turn
  next-InTurn w a o served = at w.events.step refl
    where
      recovered :
          (b : BlockStep) (e : EventError) (wf : Watcher)
          (r : Watcher × Outcome IndexError (Option (EventUpdate E)))
          → next_logs events missing w a ≡ r
          → due w.events.step ≡ some b.block_number
          → Synced wf
          → wf.events.step ≡ block_step b
          → is_foreseen e ≡ true
          → Recovered wf b e r
          → InTurn (due w.events.step) (next events missing w a)
      recovered b e wf (w', err (of_blocks x)) p d k s f h = grind (arith, k)
      recovered b e wf (w', err (of_events x)) p d k s f h = grind (arith, k)
      recovered b e wf (w', ok none) p d k s f h =
          grind (arith, advance-uncle w' a b.block_number h.0 h.1)
      recovered b e wf (w', ok (some u)) p d k s f h = elim h [ ]

      fetched :
          (b : BlockStep) (r : Step × Outcome EventError (EventUpdate E))
          → w.events.step ≡ block_step b
          → fetch_block events a.node w.events b ≡ r
          → Fetched events a.node served b r
          → InTurn (due w.events.step) (next events missing w a)
      fetched b (step, ok u) s p h = grind (arith, h)
      fetched b (step, err e) s p h =
          let wf = record w { events = record w.events { step = step } } in
          let tip : IsTip h.1 w.blocks.recent =
            IsTip-same b h.1 w.blocks.recent h.4 h.3
              (subst (λ k. SyncedStep k w.blocks.recent) s o.1) in
          let synced : Synced wf = (o.0, subst (λ k. SyncedStep k w.blocks.recent) (sym h.2) tip) in
          elim (Bool-cases (is_resource_not_found events missing e)) [
            | inl c ↦
                recovered h.1 e wf (recover_logs events missing wf e a.get_block) (grind arith)
                  (grind arith) synced h.2 h.0
                  (recover_logs-Recovered wf h.1 e a.get_block o.0 h.2 tip)
            | inr c ↦ grind (arith, synced)
          ]

      at : (k : Step) → w.events.step ≡ k → InTurn (due w.events.step) (next events missing w a)
      at idle s = grind (arith, advance-InTurn w a o.0 s)
      at (warping x) s = grind (arith, o)
      at (block_step b) s =
          fetched b (fetch_block events a.node w.events b) s refl
            (fetch_block-Fetched events a.node served w.events b)

  -- Let the event watcher be idle or at a block that is the block watcher's newest tracked one, if
  -- it tracks any, with nothing queued, as after the start's warp. Call `next` any number of times,
  -- also after errors, until a call waits, where requests for logs fail with errors of the node only.
  -- No call fails since the event watcher is handed an update or a removal that it does not expect.
  -- Between the errors, a new block is followed by a batch of logs over that block alone or by its
  -- removal, and a batch of logs comes nowhere else; so no block is passed by without its logs or its
  -- removal. Afterwards the two watchers are in step as they were before.
  pub run_next-in_turn :
      (w : Watcher) (answers : List Answers)
      → Synced w
      → All (λ a. IsServed a.node) answers
      → Synced (run_next events missing w answers).0
        × (in_turn (due w.events.step) (run_next events missing w answers).1
            ≡ some (due (run_next events missing w answers).0.events.step))
  unfolding run_next in_turn
  run_next-in_turn w [] o served = (o, refl)
  run_next-in_turn w (a ∷ answers) o served =
      at (next events missing w a) refl (next-InTurn w a o served.0)
        (λ w' o'. run_next-in_turn w' answers o' served.1)
    where
      Ends : Type 0
      Ends =
          Synced (run_next events missing w (a ∷ answers)).0
          × (in_turn (due w.events.step) (run_next events missing w (a ∷ answers)).1
              ≡ some (due (run_next events missing w (a ∷ answers)).0.events.step))

      at :
          (r : Watcher × Option (Outcome IndexError (Update E)))
          → next events missing w a ≡ r
          → InTurn (due w.events.step) r
          → ((w' : Watcher)
              → Synced w'
              → Synced (run_next events missing w' answers).0
                × (in_turn (due w'.events.step) (run_next events missing w' answers).1
                    ≡ some (due (run_next events missing w' answers).0.events.step)))
          → Ends
      at (w', none) p h ih = grind (arith, h)
      at (w', some (err e)) p h ih = grind (arith, ih w' h.0)
      at (w', some (ok u)) p h ih = grind (arith, ih w' h.0)
