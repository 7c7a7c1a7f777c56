-- ===== src/Core/Blocks/Runs.antt =====
-- Runs of the block watcher (crates/core/src/index/blocks.rs).
use safenet.Prelude.{
  ℕ, suc, ◌≡◌, refl, sym, ◌∙◌, Option, none, some, List, [], ◌∷◌, Outcome, ok, err, arith, All,
  and_then, length, ◌%◌, get_elem?, Option-cases, inl, inr,
}
use safenet.Core.Updates.{BlockUpdate}
use safenet.Core.Blocks.{
  Answer, BlockHeader, BlockWatcher, WatchError, poll, late, next_update, run_watcher,
}
use safenet.Core.Blocks.View.{View, follow, Watches, FollowsOn, next_header-FollowsOn}

-- The node's answers about a number are about that number.
abbrev pub Numbered : ℕ → List Answer → Type 0
Numbered n = All (λ a. elim a [
  | err e ↦ Unit
  | ok current ↦ elim current [ none ↦ Unit | some b ↦ b.number ≡ n ]
])

-- Polls change the time at which the pending block is expected, and nothing else.
Polled : BlockWatcher → View → ℕ → Option (Outcome WatchError BlockHeader × BlockWatcher) → Type 0
Polled w view n none = Unit
Polled w view n (some (err e, w')) = Unit
Polled w view n (some (ok b, w')) =
    (b.number ≡ n) × Watches w' view × (w'.queue ≡ w.queue) × (w'.pending.number ≡ w.pending.number)

late-Watches : (w : BlockWatcher) (view : View) → Watches w view → Watches (late w) view
late-Watches w view o = record {
  past = o.past;
  seen = o.seen;
  linked = o.linked;
  bounded = o.bounded;
  expects = o.expects;
}

Polled-late :
    (w : BlockWatcher) (view : View) (n : ℕ)
    (r : Option (Outcome WatchError BlockHeader × BlockWatcher))
    → Polled (late w) view n r
    → Polled w view n r
unfolding Polled
Polled-late w view n none h = h
Polled-late w view n (some (ok b, w')) h = h
Polled-late w view n (some (err e, w')) h = tt

poll-Polled :
    (w : BlockWatcher) (k n : ℕ) (answers : List Answer) (view : View)
    → Watches w view
    → Numbered n answers
    → Polled w view n (poll w k answers)
unfolding poll Polled
poll-Polled w k n [] view o h = tt
poll-Polled w k n (err e ∷ answers) view o h = tt
poll-Polled w k n (ok (some b) ∷ answers) view o h = (h.0, o, refl, refl)
poll-Polled w k n (ok none ∷ answers) view o h =
    let i = poll-Polled w (suc k) n answers view o h.1 in
    let j =
      Polled-late w view n (poll (late w) (suc k) answers)
        (poll-Polled (late w) (suc k) n answers view (late-Watches w view o) h.1) in
    elim (Option-cases (get_elem? w.block_retry_delays (k % suc (length w.block_retry_delays)))) [
      | inl e ↦ grind (arith, j)
      | inr (d, e) ↦ grind (arith, i)
    ]

-- All the updates, one after another.
unfoldable pub follow_all : View → List BlockUpdate → Option View
unfolding follow
follow_all view [] = some view
follow_all view (u ∷ us) = and_then (follow view u) (λ v. follow_all v us)

next_update-FollowsOn :
    (w : BlockWatcher) (answers : List Answer) (view : View) (r : BlockWatcher × BlockUpdate)
    → Watches w view
    → w.queue ≡ []
    → Numbered w.pending.number answers
    → next_update w answers ≡ some (ok r)
    → FollowsOn view r
unfolding next_update Polled
next_update-FollowsOn w answers view r o q h e =
    at (poll w 0 answers) refl (poll-Polled w 0 w.pending.number answers view o h)
  where
    at :
        (p : Option (Outcome WatchError BlockHeader × BlockWatcher))
        → poll w 0 answers ≡ p
        → Polled w view w.pending.number p
        → FollowsOn view r
    at none p l = grind arith
    at (some (err x, w')) p l = grind arith
    at (some (ok b, w')) p l =
        next_header-FollowsOn w' b view r l.1 (l.2 ∙ q) (l.0 ∙ sym l.3) (grind arith)

-- Let the blocks that a watcher tracks be linked by their hashes and numbers from its safe block on,
-- no more than the reorg depth, with the next number pending and nothing queued, and let a consumer
-- have seen exactly these blocks, the safe one and any older ones. Call `next` any number of times,
-- until one fails or still waits, where the node answers a request by number with a block of that
-- number or none, or fails. A consumer that adds every new block and removes every uncled one can follow all
-- the updates: what is uncled is always its newest block. It ends with exactly the blocks that the
-- watcher tracks, the safe one and older ones, and these are linked and bounded as before.
pub run_watcher-follow_all :
    (w : BlockWatcher) (asks : List (ℕ → List Answer)) (view : View)
    → Watches w view
    → w.queue ≡ []
    → All (λ ask. (n : ℕ) → Numbered n (ask n)) asks
    → (last : View) × (follow_all view (run_watcher w asks).1 ≡ some last)
      × Watches (run_watcher w asks).0 last
unfolding run_watcher follow_all
run_watcher-follow_all w [] view o q h = (view, refl, o)
run_watcher-follow_all w (ask ∷ asks) view o q h =
    at (next_update w (ask w.pending.number)) refl
      (λ w' v o' q'. run_watcher-follow_all w' asks v o' q' h.1)
  where
    Ends : Type 0
    Ends =
        (last : View) × (follow_all view (run_watcher w (ask ∷ asks)).1 ≡ some last)
        × Watches (run_watcher w (ask ∷ asks)).0 last

    at :
        (r : Option (Outcome WatchError (BlockWatcher × BlockUpdate)))
        → next_update w (ask w.pending.number) ≡ r
        → ((w' : BlockWatcher) (v : View)
            → Watches w' v
            → w'.queue ≡ []
            → (last : View) × (follow_all v (run_watcher w' asks).1 ≡ some last)
              × Watches (run_watcher w' asks).0 last)
        → Ends
    at none e ih = (view, grind arith, grind (arith, o))
    at (some (err x)) e ih = (view, grind arith, grind (arith, o))
    at (some (ok (w', u))) e ih =
        let (v, f, o', q') =
          next_update-FollowsOn w (ask w.pending.number) view (w', u) o q (h.0 w.pending.number)
            e in
        let (last, g, z) = ih w' v o' q' in (last, grind arith, grind (arith, z))
