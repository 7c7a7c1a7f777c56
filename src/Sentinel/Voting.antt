-- ===== src/Sentinel/Voting.antt =====
-- The handlers of proposals, engine verdicts, commitments and reveals (crates/sentinel/src/service.rs). Logs and metrics
-- are left out.
use safenet.Prelude.{
  ℕ, Option, none, some, List, [], ◌∷◌, Bool, true, false, if◌then◌else◌, not, ◌&&◌, ◌||◌, ◌==◌,
  ltb, saturating_add, wrapping_inc,
}
use safenet.Prelude.BTree.{get, insert, remove}
use safenet.Alloy.{Alloy, Address, B256, Bytes}
use safenet.Sentinel.State.{
  VotingTerms, Votes, SentinelRequestState, waiting_for_engine_check, waiting_for_request,
  collecting_commitments, collecting_votes, waiting_for_outcome, Requests, CheckOutcome, approved,
  denied, unknown, SentinelActionKind, approve_token, commit_vote_hash, finalize_request,
  SentinelCommand, act, engine_check, ProposedEvent, RequestEvent, CheckResult, SentinelTransition,
  reveal_salt, rule_text, commit_hash, oracle_tx_proposal_hash,
}

-- The requests and the commands that a handler returns.
abbrev pub Handled : Type 0
Handled = Requests × List SentinelCommand

abbrev pub action : SentinelActionKind → Option ℕ → SentinelCommand
action kind expires_at = act (record { kind = kind; expires_at = expires_at })

module _ ⦃A : Alloy⦄ (self : SentinelTransition) where
  unfoldable pub handle_oracle_transaction_proposed : Requests → ℕ → ℕ → ProposedEvent → Handled
  unfolding oracle_tx_proposal_hash
  handle_oracle_transaction_proposed state block block_timestamp e =
      if not (e.oracle == self.oracle)
      then (state, [])
      else (let request_id = oracle_tx_proposal_hash self e in
          elim (get request_id state) [
            | some entry ↦ (state, [])
            | none ↦ (
              insert request_id
                  (waiting_for_engine_check (saturating_add block self.voting_window) none) state,
              engine_check request_id e.transaction block_timestamp block ∷ [],
            )
          ])

  -- Voting starts: a bond is locked behind a blind commitment.
  unfoldable pub commit_vote : Requests → B256 → Bool → Bytes → VotingTerms → Handled
  unfolding commit_hash reveal_salt
  commit_vote state request_id approve reason request =
      let hash = commit_hash self.account request_id approve (reveal_salt self request_id) reason in
      (
        insert request_id
            (collecting_commitments (record {
              approve = approve;
              reason = reason;
              slash_amount = request.slash_amount;
              commit_deadline = request.commit_deadline;
              reveal_deadline = request.reveal_deadline;
              committed_count = 0;
              self_committed = false;
            }))
            state,
        action (approve_token request.bond_target) (some request.commit_deadline)
            ∷ action (commit_vote_hash request_id hash) (some request.commit_deadline)
            ∷ [],
      )

  -- The vote that an engine's outcome decides, and its reason.
  unfoldable pub vote_of : CheckOutcome → Option (Bool × Bytes)
  unfolding rule_text
  vote_of approved = some (true, [])
  vote_of (denied rule) = some (false, rule_text self rule)
  vote_of unknown = none

  unfoldable pub engine_checked : Requests → B256 → ℕ → Option VotingTerms → CheckOutcome → Handled
  unfolding commit_vote vote_of
  engine_checked state request_id deadline request outcome = elim (vote_of outcome) [
    | none ↦ (state, [])
    | some (approve, reason) ↦ elim request [
      | some r ↦ commit_vote state request_id approve reason r
      | none ↦ (insert request_id (waiting_for_request approve reason deadline) state, [])
    ]
  ]

  unfoldable pub handle_engine_check_result : Requests → CheckResult → Handled
  unfolding engine_checked
  handle_engine_check_result state r =
      let taken = remove r.request_id state in
      elim (get r.request_id state) [
        | some (waiting_for_engine_check deadline request) ↦
            engine_checked taken r.request_id deadline request r.outcome
        | some entry ↦ (insert r.request_id entry taken, [])
        | none ↦ (taken, [])
      ]

  unfoldable pub handle_new_request : Requests → RequestEvent → Handled
  unfolding commit_vote
  handle_new_request state e =
      let taken = remove e.request_id state in
      elim (get e.request_id state) [
        | some (waiting_for_request approve reason deadline) ↦
            commit_vote taken e.request_id approve reason e.terms
        | some (waiting_for_engine_check deadline none) ↦
            (insert e.request_id (waiting_for_engine_check deadline (some e.terms)) taken, [])
        | some entry ↦ (insert e.request_id entry taken, [])
        | none ↦ (taken, [])
      ]

  unfoldable pub handle_committed : Requests → B256 → Address → Handled
  handle_committed state request_id sentinel = elim (get request_id state) [
    | some (collecting_commitments c) ↦ (
      insert request_id
          (collecting_commitments (record c {
            committed_count = wrapping_inc c.committed_count;
            self_committed = c.self_committed || (sentinel == self.account);
          }))
          state,
      [],
    )
    | some entry ↦ (state, [])
    | none ↦ (state, [])
  ]

  unfoldable pub finalize : Votes → B256 → Option SentinelRequestState × List SentinelCommand
  finalize v request_id =
      if not v.self_revealed && not (v.revealed_count == 0) then (none, []) else (
        some (waiting_for_outcome v.approve v.slash_amount),
        action (finalize_request request_id) none ∷ [],
      )

  abbrev pub count_reveal : Votes → Address → Bool → Votes
  count_reveal v sentinel vote = record v {
    revealed_count = wrapping_inc v.revealed_count;
    approve_count = if vote then wrapping_inc v.approve_count else v.approve_count;
    deny_count = if vote then v.deny_count else wrapping_inc v.deny_count;
    self_revealed = if sentinel == self.account then true else v.self_revealed;
  }

  unfoldable pub handle_revealed : Requests → B256 → Address → Bool → Handled
  unfolding finalize
  handle_revealed state request_id sentinel vote = elim (get request_id state) [
    | some (collecting_votes v) ↦
        let w = count_reveal v sentinel vote in
        if ltb w.revealed_count w.committed_count
        then (insert request_id (collecting_votes w) state, [])
        else (let f = finalize w request_id in
            elim f.0 [
              | none ↦ (remove request_id state, f.1)
              | some entry ↦ (insert request_id entry state, f.1)
            ])
    | some entry ↦ (state, [])
    | none ↦ (state, [])
  ]
