-- ===== src/Core/Status.antt =====
-- Where the state machine stands between two updates, and which update it takes next
-- (crates/core/src/state/mod.rs).
use safenet.Prelude.{
  ℕ, ltb, leb, ◌==◌, if◌then◌else◌, ◌&&◌, true, false, Outcome, ok, err, Bool, ◌>>=◌, ok_or,
  checked_add,
}
use safenet.Core.Updates.{BlockRange}
use safenet.Core.Snapshots.{StorageError}

pub data MachineError : Type 0 where
  storage : StorageError → MachineError
  end_of_chain bad_update poisoned : MachineError

pub data Status : Type 0 where
  initialized : Status
  block_pending block_applied : (pending : ℕ) → Status
  block_events : (latest : ℕ) → Status
  warp_events : BlockRange → Status

abbrev pub next_block : ℕ → Outcome MachineError ℕ
next_block number = ok_or (checked_add number 1) end_of_chain

abbrev pub block_range : ℕ → ℕ → Outcome MachineError BlockRange
block_range from to =
    if leb from to then ok (record { start = from; last = to }) else err bad_update

-- `range.contains(&n)`
abbrev pub in_range : BlockRange → ℕ → Bool
in_range r n = leb r.start n && leb n r.last

abbrev pub is_next_in_range : BlockRange → BlockRange → Bool
is_next_in_range range sub = (range.start == sub.start) && in_range range sub.last

-- The guards of the arms of `handle_update`.
unfoldable pub accepts_warp : Status → ℕ → Bool
accepts_warp initialized from = true
accepts_warp (block_pending p) from = p == from
accepts_warp (block_applied p) from = false
accepts_warp (block_events l) from = false
accepts_warp (warp_events r) from = false

unfoldable pub accepts_uncle : Status → ℕ → Bool
accepts_uncle initialized number = false
accepts_uncle (block_pending p) number = ltb number p
accepts_uncle (block_applied p) number = ltb number p
accepts_uncle (block_events l) number = leb number l
accepts_uncle (warp_events r) number = false

unfoldable pub accepts_new : Status → ℕ → Bool
accepts_new initialized number = true
accepts_new (block_pending p) number = p == number
accepts_new (block_applied p) number = p == number
accepts_new (block_events l) number = false
accepts_new (warp_events r) number = false

unfoldable pub accepts_logs : Status → BlockRange → Bool
accepts_logs initialized blocks = false
accepts_logs (block_pending p) blocks = false
accepts_logs (block_applied p) blocks = false
accepts_logs (block_events l) blocks = is_next_in_range (record { start = l; last = l }) blocks
accepts_logs (warp_events r) blocks = is_next_in_range r blocks

abbrev pub is_warping : Status → Bool
is_warping (warp_events r) = true
is_warping initialized = false
is_warping (block_pending p) = false
is_warping (block_applied p) = false
is_warping (block_events l) = false

abbrev pub pending_after : ℕ → Outcome MachineError Status
pending_after last = next_block last >>= λ p. ok (block_pending p)

unfoldable pub status_after : Status → BlockRange → Outcome MachineError Status
status_after (warp_events range) blocks =
    if ltb blocks.last range.last
    then (next_block blocks.last >>= λ n.
        block_range n range.last >>= λ rest. ok (warp_events rest))
    else pending_after blocks.last
status_after initialized blocks = pending_after blocks.last
status_after (block_pending p) blocks = pending_after blocks.last
status_after (block_applied p) blocks = pending_after blocks.last
status_after (block_events l) blocks = pending_after blocks.last
