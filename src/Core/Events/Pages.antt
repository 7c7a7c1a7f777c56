-- ===== src/Core/Events/Pages.antt =====
-- The pages of a warp, as the state machine takes them (crates/core/src/index/events.rs,
-- state/mod.rs).
use safenet.Prelude.{
  ℕ, suc, ◌≤◌, ◌<◌, ◌≡◌, refl, Option, none, some, List, [], ◌∷◌, ◌==◌, if◌then◌else◌, true,
  Outcome, ok, err, All, ◌&&◌, ◌||◌, Bool, arith, u64_max, Outcome-cases, Bool-cases, inl, inr,
}
use safenet.Core.Updates.{EventUpdate, BlockRange, warp}
use safenet.Core.Events.Order.{
  LogWithin, IsInRange, shares_place, decode_and_sort_lem, page_fetch_lem,
}
use safenet.Core.Machine.{is_sorted, all_in_range}
use safenet.Core.Status.{
  Status, initialized, block_pending, block_applied, block_events, warp_events, accepts_logs,
  status_after,
}
use safenet.Core.Events.{
  EventWatcher, EventError, Events, Node, Step, Warping, FetchedPage, idle, warping, block_step,
  warp_page, next_page, finish_page, warp_step, next_events, run_events, stepped, on_block_update,
  fetch_logs, page_fetch, fetch_missing_block_timestamps, decode_and_sort,
}

-- The state machine's checks of a batch of logs: its range is the next one, its logs stand in the
-- range, and in strict order unless two of them are of the same place.
unfoldable pub takes : {E : Type 0} → Status → EventUpdate E → Bool
unfolding accepts_logs all_in_range is_sorted shares_place
takes st u =
    accepts_logs st u.blocks
    && (all_in_range u.blocks u.logs && (is_sorted u.logs || shares_place u.logs))

-- The state machine's status after batches of logs, each of which has to pass its checks.
unfoldable pub accept_all : {E : Type 0} → Status → List (EventUpdate E) → Option Status
unfolding takes
accept_all st [] = some st
accept_all st (u ∷ us) =
    if takes st u
    then elim (status_after st u.blocks) [ ok next ↦ accept_all next us | err e ↦ none ]
    else none

abbrev pub PageWithin : ℕ → ℕ → Option FetchedPage → Type 0
PageWithin from to none = Unit
PageWithin from to (some page) =
    (from ≤ page.to_block) × (page.to_block ≤ to) × All (LogWithin from page.to_block) page.logs

-- The watcher's step and the machine's status agree on what is left of a warp up to `to`.
abbrev pub Agrees : ℕ → Step → Status → Type 0
Agrees to idle (block_pending p) = p ≡ suc to
Agrees to (warping s) (warp_events r) =
    (s.to_block ≡ to)
    × (r.last ≡ to)
    × (r.start ≡ s.from_block)
    × (s.from_block ≤ to)
    × (1 ≤ s.page_size)
    × PageWithin s.from_block to s.fetched
Agrees to _ _ = ⊥

-- What a step does to the status.
abbrev FollowsStatus :
    {E : Type 0} → ℕ → Status → Step × Outcome EventError (EventUpdate E) → Type 0
FollowsStatus to st (step, err e) = Agrees to step st
FollowsStatus to st (step, ok u) =
    (takes st u ≡ true)
    × (next : Status) × (status_after st u.blocks ≡ ok next)
    × Agrees to step next

module _ {E : Type 0} (events : Events E) (node : Node) (w : EventWatcher) (to : ℕ) where
  warp_page-within :
      (s : Warping) (r : BlockRange) (page : FetchedPage)
      → Agrees to (warping s) (warp_events r)
      → to < u64_max
      → IsInRange node
      → warp_page events node w s ≡ ok page
      → PageWithin s.from_block to (some page)
  unfolding warp_page
  warp_page-within s r page a b served h = at s.fetched refl
    where
      at : (f : Option FetchedPage) → s.fetched ≡ f → PageWithin s.from_block to (some page)
      at none e = elim (Outcome-cases (fetch_logs events node w (page_fetch s))) [
        | inl (logs, f) ↦ grind (arith, page_fetch_lem events node served w s logs f)
        | inr (x, f) ↦ grind arith
      ]
      at (some p) e = grind arith

  next_page-Agrees :
      (s : Warping) (r : BlockRange) (last : ℕ)
      → Agrees to (warping s) (warp_events r)
      → PageWithin s.from_block to
          (some (record { to_block = last; logs = []; block_timestamps = [] }))
      → 1 ≤ w.config.block_page_size
      → to < u64_max
      → (accepts_logs (warp_events r) (record { start = s.from_block; last = last }) ≡ true)
        × (next : Status) × (status_after
              (warp_events r)
              (record { start = s.from_block; last = last })
            ≡ ok next)
        × Agrees to (next_page events node w s last) next
  unfolding next_page accepts_logs status_after
  next_page-Agrees s r last a p c b = elim (Bool-cases (last == s.to_block)) [
    | inl e ↦ (ground arith, block_pending (suc last), ground arith, ground arith)
    | inr e ↦ (
      ground arith,
      warp_events (record { start = suc last; last = to }),
      ground arith,
      ground arith,
    )
  ]

  finish_page-FollowsStatus :
      (s : Warping) (r : BlockRange) (page : FetchedPage)
      → Agrees to (warping s) (warp_events r)
      → PageWithin s.from_block to (some page)
      → 1 ≤ w.config.block_page_size
      → to < u64_max
      → FollowsStatus to (warp_events r) (finish_page events node w s page)
  unfolding finish_page takes
  finish_page-FollowsStatus s r page a p c b =
      stamped (fetch_missing_block_timestamps events node page.logs page.block_timestamps).1 refl
    where
      stamped :
          (o : Option EventError)
          → (fetch_missing_block_timestamps events node page.logs page.block_timestamps).1 ≡ o
          → FollowsStatus to (warp_events r) (finish_page events node w s page)
      stamped (some x) e = grind arith
      stamped none e =
          elim (Outcome-cases (
            decode_and_sort events node page.logs
              (fetch_missing_block_timestamps events node page.logs page.block_timestamps).0)) [
                | inl (ls, f) ↦ grind (
                  arith,
                  next_page-Agrees s r page.to_block a (p.0, p.1, tt) c b,
                  decode_and_sort_lem events node s.from_block page.to_block
                      (fetch_missing_block_timestamps events node page.logs page.block_timestamps).0
                      page.logs ls p.2 f,
                )
                | inr (x, f) ↦ grind arith
              ]

  warp_step-FollowsStatus :
      (s : Warping) (r : BlockRange)
      → Agrees to (warping s) (warp_events r)
      → 1 ≤ w.config.block_page_size
      → to < u64_max
      → IsInRange node
      → FollowsStatus to (warp_events r) (warp_step events node w s)
  unfolding warp_step
  warp_step-FollowsStatus s r a c b served = elim (Outcome-cases (warp_page events node w s)) [
    | inl (page, e) ↦
        grind
          (arith, finish_page-FollowsStatus s r page a (warp_page-within s r page a b served e) c b)
    | inr (x, e) ↦ grind arith
  ]

-- One call of `next`: the configuration is kept, and an update moves the status on.
abbrev After :
    {E : Type 0}
    → ℕ
    → Status
    → EventWatcher
    → EventWatcher × Outcome EventError (Option (EventUpdate E))
    → Type 0
After to st w (w', err e) = (w'.config ≡ w.config) × Agrees to w'.step st
After to st w (w', ok none) = (w'.config ≡ w.config) × Agrees to w'.step st
After to st w (w', ok (some u)) =
    (w'.config ≡ w.config)
    × (takes st u ≡ true)
    × (next : Status) × (status_after st u.blocks ≡ ok next)
    × Agrees to w'.step next

module _ {E : Type 0} (events : Events E) (to : ℕ) where
  stepped-After :
      (node : Node) (w : EventWatcher) (st : Status) (r : Step × Outcome EventError (EventUpdate E))
      → FollowsStatus to st r
      → After to st w (stepped events node w r)
  stepped-After node w st (step, err e) h = (refl, h)
  stepped-After node w st (step, ok u) h = (refl, h.0, h.1, h.2, h.3)

  next_events-After :
      (node : Node) (w : EventWatcher) (st : Status)
      → Agrees to w.step st
      → 1 ≤ w.config.block_page_size
      → to < u64_max
      → IsInRange node
      → After to st w (next_events events node w)
  unfolding next_events
  next_events-After node w st a c b served = at w.step st refl refl
    where
      at : (k : Step) (x : Status) → w.step ≡ k → st ≡ x → After to st w (next_events events node w)
      at idle (block_pending p) e f = grind arith
      at (warping s) (warp_events r) e f = grind (
        arith,
        stepped-After node w (warp_events r) (warp_step events node w s)
            (warp_step-FollowsStatus events node w to s r (grind arith) c b served),
      )
      at idle initialized e f = grind arith
      at idle (block_applied p) e f = grind arith
      at idle (block_events l) e f = grind arith
      at idle (warp_events r) e f = grind arith
      at (warping s) initialized e f = grind arith
      at (warping s) (block_pending p) e f = grind arith
      at (warping s) (block_applied p) e f = grind arith
      at (warping s) (block_events l) e f = grind arith
      at (block_step z) initialized e f = grind arith
      at (block_step z) (block_pending p) e f = grind arith
      at (block_step z) (block_applied p) e f = grind arith
      at (block_step z) (block_events l) e f = grind arith
      at (block_step z) (warp_events r) e f = grind arith

  run_events-Agrees :
      (nodes : List Node) (w : EventWatcher) (st : Status)
      → Agrees to w.step st
      → 1 ≤ w.config.block_page_size
      → to < u64_max
      → All IsInRange nodes
      → (final : Status) × (accept_all st (run_events events w nodes).1 ≡ some final)
        × Agrees to (run_events events w nodes).0.step final
  unfolding run_events accept_all
  run_events-Agrees [] w st a c b served = (st, refl, a)
  run_events-Agrees (node ∷ nodes) w st a c b served =
      at (next_events events node w) refl (next_events-After node w st a c b served.0)
        (λ w' st' a' c'. run_events-Agrees nodes w' st' a' c' b served.1)
    where
      Ends : Type 0
      Ends =
          (final : Status) × (accept_all st (run_events events w (node ∷ nodes)).1 ≡ some final)
          × Agrees to (run_events events w (node ∷ nodes)).0.step final

      at :
          (r : EventWatcher × Outcome EventError (Option (EventUpdate E)))
          → next_events events node w ≡ r
          → After to st w r
          → ((w' : EventWatcher) (st' : Status)
              → Agrees to w'.step st'
              → 1 ≤ w'.config.block_page_size
              → (final : Status) × (accept_all st' (run_events events w' nodes).1 ≡ some final)
                × Agrees to (run_events events w' nodes).0.step final)
          → Ends
      at (w', err e) p h ih =
          let (final, f, g) = ih w' st h.1 (grind arith) in (final, grind arith, grind (arith, g))
      at (w', ok none) p h ih =
          let (final, f, g) = ih w' st h.1 (grind arith) in (final, grind arith, grind (arith, g))
      at (w', ok (some u)) p h ih =
          let (final, f, g) = ih w' h.2 h.4 (grind arith) in (final, grind arith, grind (arith, g))

  -- Hand an idle event watcher a warp over a range that is not empty and ends before the largest
  -- `u64`, the page size being positive, as its type says. Call `next` any number of times, each time
  -- on any node, also one that fails, that answers a query over a range with logs of its blocks, and
  -- collect the batches of logs that it gives. Each passes in turn the checks that a state machine
  -- which waits for the logs of this warp makes of it: its range starts where the machine's rest of
  -- the warp starts and ends in it, its logs stand in the range, and they are in strict order unless
  -- two of them are of the same place. Afterwards the two agree: either the watcher is idle and the
  -- machine expects the block after the warp, or the watcher continues, with a positive page size, at
  -- the block at which the machine's rest of the warp starts, and both end where the warp ends. So the
  -- pages cover the range without gap or overlap.
  pub run_events-accept_all :
      (w w' : EventWatcher) (from : ℕ) (nodes : List Node)
      → on_block_update w (warp from to) ≡ ok w'
      → from ≤ to
      → to < u64_max
      → 1 ≤ w.config.block_page_size
      → All IsInRange nodes
      → (final : Status) × (accept_all
            (warp_events (record { start = from; last = to }))
            (run_events events w' nodes).1
          ≡ some final)
        × Agrees to (run_events events w' nodes).0.step final
  unfolding on_block_update
  run_events-accept_all w w' from nodes h l b c served = at w.step refl
    where
      at :
          (k : Step)
          → w.step ≡ k
          → (final : Status) × (accept_all
                (warp_events (record { start = from; last = to }))
                (run_events events w' nodes).1
              ≡ some final)
            × Agrees to (run_events events w' nodes).0.step final
      at idle e =
          run_events-Agrees nodes w' (warp_events (record { start = from; last = to }))
            (grind arith) (grind arith) b served
      at (warping s) e = grind arith
      at (block_step z) e = grind arith
