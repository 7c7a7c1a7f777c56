-- ===== src/Sentinel/Outcomes.antt =====
-- What blocks and the oracle's outcomes do with the requests (crates/sentinel/src/service.rs).
use safenet.Prelude.{
  ℕ, Option, none, some, List, [], ◌∷◌, ◌++◌, false, if◌then◌else◌, not, leb, is_none,
}
use safenet.Prelude.BTree.{get, insert, remove}
use safenet.Alloy.{Alloy, B256}
use safenet.Sentinel.State.{
  SentinelRequestState, waiting_for_engine_check, waiting_for_request, collecting_commitments,
  collecting_votes, waiting_for_outcome, waiting_for_dispute_resolution, Requests,
  approve_and_slash_amount, reveal, claim, timeout_arbitration, SentinelCommand, SentinelTransition,
  reveal_salt,
}
use safenet.Sentinel.Voting.{Handled, action, finalize}

module _ ⦃A : Alloy⦄ (self : SentinelTransition) where
  -- The entry that a block leaves, if it is retained, and its actions.
  unfoldable pub advance_entry :
      ℕ → B256 → SentinelRequestState → Option SentinelRequestState × List SentinelCommand
  unfolding finalize reveal_salt
  advance_entry block id (waiting_for_engine_check deadline none) =
      (if leb block deadline then some (waiting_for_engine_check deadline none) else none, [])
  advance_entry block id (waiting_for_engine_check deadline (some r)) = (
    if leb block r.commit_deadline then some (waiting_for_engine_check deadline (some r)) else none,
    [],
  )
  advance_entry block id (waiting_for_request approve reason deadline) =
      (if leb block deadline then some (waiting_for_request approve reason deadline) else none, [])
  advance_entry block id (collecting_commitments c) =
      if leb block c.commit_deadline
      then (some (collecting_commitments c), [])
      else if not c.self_committed
      then (none, [])
      else (
        some (
            collecting_votes (record {
              approve = c.approve;
              slash_amount = c.slash_amount;
              reveal_deadline = c.reveal_deadline;
              committed_count = c.committed_count;
              revealed_count = 0;
              approve_count = 0;
              deny_count = 0;
              self_revealed = false;
            })),
        action (reveal id c.approve (reveal_salt self id) c.reason) (some c.reveal_deadline) ∷ [],
      )
  advance_entry block id (collecting_votes v) =
      if leb block v.reveal_deadline then (some (collecting_votes v), []) else finalize self v id
  advance_entry block id (waiting_for_outcome a s) = (some (waiting_for_outcome a s), [])
  advance_entry block id (waiting_for_dispute_resolution a s arbitration_deadline) =
      if leb block arbitration_deadline
      then (some (waiting_for_dispute_resolution a s arbitration_deadline), [])
      else (none, action (timeout_arbitration id) none ∷ action (claim id) none ∷ [])

  -- `retain`, entry by entry.
  unfoldable pub handle_block_advance : Requests → ℕ → Handled
  unfolding advance_entry
  handle_block_advance [] block = ([], [])
  handle_block_advance ((id, entry) ∷ state) block =
      let r = advance_entry block id entry in
      let rest = handle_block_advance state block in
      elim r.0 [ none ↦ (rest.0, r.1 ++ rest.1) | some e ↦ ((id, e) ∷ rest.0, r.1 ++ rest.1) ]

  unfoldable pub handle_resolved : Requests → B256 → Handled
  handle_resolved state request_id =
      let taken = remove request_id state in
      elim (get request_id state) [
        | some (waiting_for_dispute_resolution a s d) ↦ (taken, action (claim request_id) none ∷ [])
        | some entry ↦ (insert request_id entry taken, [])
        | none ↦ (taken, [])
      ]

  unfoldable pub handle_arbitration_timeout : Requests → B256 → Handled
  handle_arbitration_timeout state request_id =
      let taken = remove request_id state in
      elim (get request_id state) [
        | some entry ↦ (taken, action (claim request_id) none ∷ [])
        | none ↦ (taken, [])
      ]

  -- What both terminal events do with an entry: claim, if a bond was posted.
  unfoldable pub handle_request_timed_out : Requests → B256 → Handled
  unfolding approve_and_slash_amount
  handle_request_timed_out state request_id =
      let taken = remove request_id state in
      elim (get request_id state) [
        | none ↦ (taken, [])
        | some entry ↦
            if is_none (approve_and_slash_amount entry)
            then (taken, [])
            else (taken, action (claim request_id) none ∷ [])
      ]

  unfoldable pub handle_dispute_triggered : Requests → B256 → ℕ → Handled
  unfolding approve_and_slash_amount
  handle_dispute_triggered state request_id deadline =
      let taken = remove request_id state in
      elim (get request_id state) [
        | none ↦ (taken, [])
        | some entry ↦ elim (approve_and_slash_amount entry) [
          | none ↦ (taken, [])
          | some (approve, slash) ↦
              (insert request_id (waiting_for_dispute_resolution approve slash deadline) taken, [])
        ]
      ]

  unfoldable pub handle_sentinel_oracle_result : Requests → B256 → Handled
  unfolding approve_and_slash_amount
  handle_sentinel_oracle_result state request_id =
      let taken = remove request_id state in
      elim (get request_id state) [
        | none ↦ (taken, [])
        | some entry ↦
            if is_none (approve_and_slash_amount entry)
            then (taken, [])
            else (taken, action (claim request_id) none ∷ [])
      ]
