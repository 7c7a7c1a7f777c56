-- ===== src/Sentinel/Trace/Handlers.antt =====
-- Each handler keeps what a sentinel can vouch for (crates/sentinel/src/service.rs).
use safenet.Prelude.{
  ℕ, ◌+◌, ◌≡◌, refl, Option, none, some, List, [], ◌∷◌, ◌++◌, Bool, true, false, if◌then◌else◌, not,
  ◌&&◌, ◌||◌, ◌==◌, ltb, arith, All, inl, inr, subst, sym, saturating_add, Bool-cases, ltb→lt, ◌<◌,
  length, u64_max, wrapping_inc,
}
use safenet.Prelude.BTree.{get, insert, remove}
use safenet.Prelude.BTree.Entries.{All-insert, All-remove, All-get}
use safenet.Alloy.{Alloy, Address, B256, Bytes}
use safenet.Core.Machine.{Input}
use safenet.Sentinel.State.{
  VotingTerms, Commitments, Votes, SentinelRequestState, waiting_for_engine_check,
  waiting_for_request, collecting_commitments, collecting_votes, waiting_for_outcome,
  waiting_for_dispute_resolution, Requests, approve_and_slash_amount, CheckOutcome, approved,
  denied, unknown, finalize_request, claim, SentinelCommand, engine_check, ProposedEvent,
  RequestEvent, SentinelEvent, CheckResult, SentinelTransition, oracle_tx_proposal_hash,
}
use safenet.Sentinel.Voting.{
  Handled, action, commit_vote, vote_of, engine_checked, handle_oracle_transaction_proposed,
  handle_new_request, handle_committed, handle_revealed, handle_engine_check_result, finalize,
  count_reveal,
}
use safenet.Sentinel.Outcomes.{
  handle_request_timed_out, handle_sentinel_oracle_result, handle_dispute_triggered,
  handle_resolved, handle_arbitration_timeout,
}
use safenet.Sentinel.Trace.{Messages, IsOurs, Landed, Vouched, Vouched-later, All-later, Truthful}

module _ ⦃A : Alloy⦄ (self : SentinelTransition) (m : Input SentinelEvent CheckResult)
    (ms : Messages) (cs : List SentinelCommand) where
  abbrev pub Good : Handled → Type 0
  Good h = All (Vouched self (m ∷ ms) (h.1 ++ cs)) h.0 × All (Truthful self ms cs) h.1

  via : (h k : Handled) → h ≡ k → Good k → Good h
  via h k e g = subst Good {x = k} {y = h} (sym e) g

  -- The shapes of a handler's result: the state kept, an entry put in or taken out.
  pub same : (s : Requests) → All (Vouched self ms cs) s → Good (s, [])
  same s h = (All-later self m ms [] cs s h, tt)

  put :
      (s : Requests) (id : ℕ) (e : SentinelRequestState) (out : List SentinelCommand)
      → All (Vouched self ms cs) s
      → Vouched self (m ∷ ms) (out ++ cs) (id, e)
      → All (Truthful self ms cs) out
      → Good (insert id e s, out)
  put s id e out h v t =
      (All-insert (Vouched self (m ∷ ms) (out ++ cs)) id e s v (All-later self m ms out cs s h), t)

  taken :
      (s : Requests) (id : ℕ) → All (Vouched self ms cs) s → All (Vouched self ms cs) (remove id s)
  taken s id h = All-remove (Vouched self ms cs) id s h

  gone :
      (s : Requests) (id : ℕ) (out : List SentinelCommand)
      → All (Vouched self ms cs) s
      → All (Truthful self ms cs) out
      → Good (remove id s, out)
  gone s id out h t = (All-later self m ms out cs (remove id s) (taken s id h), t)

  again :
      (s : Requests) (id : ℕ) (e : SentinelRequestState)
      → All (Vouched self ms cs) s
      → get id s ≡ some e
      → Good (insert id e (remove id s), [])
  again s id e h g =
      put (remove id s) id e [] (taken s id h)
        (Vouched-later self m ms [] cs (id, e) (All-get (Vouched self ms cs) id e s h g)) tt

  pub commit_vote-Good :
      (s : Requests) (id : B256) (approve : Bool) (reason : Bytes) (r : VotingTerms)
      → All (Vouched self ms cs) s
      → Good (commit_vote self s id approve reason r)
  unfolding commit_vote
  commit_vote-Good s id approve reason r h =
      put s id _ (commit_vote self s id approve reason r).1 h
        (inr (inl refl), λ f. cc, inr (omega arith, refl)) (tt, (tt, tt))

  pub engine_checked-Good :
      (s : Requests) (id : B256) (d : ℕ) (r : Option VotingTerms) (o : CheckOutcome)
      → All (Vouched self ms cs) s
      → Good (engine_checked self s id d r o)
  unfolding engine_checked vote_of
  engine_checked-Good s id d none approved h = put s id _ [] h tt tt
  engine_checked-Good s id d none (denied rule) h = put s id _ [] h tt tt
  engine_checked-Good s id d none unknown h = same s h
  engine_checked-Good s id d (some r) approved h = commit_vote-Good s id _ _ r h
  engine_checked-Good s id d (some r) (denied rule) h = commit_vote-Good s id _ _ r h
  engine_checked-Good s id d (some r) unknown h = same s h

  pub proposed-Good :
      (s : Requests) (n t : ℕ) (e : ProposedEvent)
      → All (Vouched self ms cs) s
      → Good (handle_oracle_transaction_proposed self s n t e)
  unfolding handle_oracle_transaction_proposed
  proposed-Good s n t e h =
      at (not (e.oracle == self.oracle)) refl (get (oracle_tx_proposal_hash self e) s) refl
    where
      at :
          (b : Bool)
          → not (e.oracle == self.oracle) ≡ b
          → (o : Option SentinelRequestState) → get (oracle_tx_proposal_hash self e) s ≡ o
          → Good (handle_oracle_transaction_proposed self s n t e)
      at true p o q = via _ (s, []) (grind arith) (same s h)
      at false p (some x) q = via _ (s, []) (grind arith) (same s h)
      at false p none q =
          let w = waiting_for_engine_check (saturating_add n self.voting_window) none in
          let out = engine_check (oracle_tx_proposal_hash self e) e.transaction t n ∷ [] in
          via _ (insert (oracle_tx_proposal_hash self e) w s, out) (grind arith)
            (put s (oracle_tx_proposal_hash self e) w out h tt (tt, tt))

  pub check_result-Good :
      (s : Requests) (r : CheckResult)
      → All (Vouched self ms cs) s
      → Good (handle_engine_check_result self s r)
  unfolding handle_engine_check_result
  check_result-Good s r h = at (get r.request_id s) refl
    where
      at :
          (o : Option SentinelRequestState)
          → get r.request_id s ≡ o
          → Good (handle_engine_check_result self s r)
      at none e = grind (arith, gone s r.request_id [] h tt)
      at (some (waiting_for_engine_check d q)) e = grind (
        arith,
        engine_checked-Good (remove r.request_id s) r.request_id d q r.outcome
            (taken s r.request_id h),
      )
      at (some (waiting_for_request a q d)) e = grind (arith, again s r.request_id _ h e)
      at (some (collecting_commitments c)) e = grind (arith, again s r.request_id _ h e)
      at (some (collecting_votes v)) e = grind (arith, again s r.request_id _ h e)
      at (some (waiting_for_outcome a q)) e = grind (arith, again s r.request_id _ h e)
      at (some (waiting_for_dispute_resolution a q d)) e = grind (arith, again s r.request_id _ h e)

  pub new_request-Good :
      (s : Requests) (q : RequestEvent)
      → All (Vouched self ms cs) s
      → Good (handle_new_request self s q)
  unfolding handle_new_request
  new_request-Good s q h = at (get q.request_id s) refl
    where
      at :
          (o : Option SentinelRequestState)
          → get q.request_id s ≡ o
          → Good (handle_new_request self s q)
      at none e = grind (arith, gone s q.request_id [] h tt)
      at (some (waiting_for_engine_check d none)) e = grind (
        arith,
        put (remove q.request_id s) q.request_id (waiting_for_engine_check d (some q.terms)) []
            (taken s q.request_id h) tt tt,
      )
      at (some (waiting_for_engine_check d (some x))) e = grind (arith, again s q.request_id _ h e)
      at (some (waiting_for_request a r d)) e = grind (
        arith,
        commit_vote-Good (remove q.request_id s) q.request_id a r q.terms (taken s q.request_id h),
      )
      at (some (collecting_commitments c)) e = grind (arith, again s q.request_id _ h e)
      at (some (collecting_votes v)) e = grind (arith, again s q.request_id _ h e)
      at (some (waiting_for_outcome a r)) e = grind (arith, again s q.request_id _ h e)
      at (some (waiting_for_dispute_resolution a r d)) e = grind (arith, again s q.request_id _ h e)

  -- The tally with one commitment self more.
  abbrev counted : Commitments → Address → Commitments
  counted c sender = record c {
    committed_count = wrapping_inc c.committed_count;
    self_committed = c.self_committed || (sender == self.account);
  }

  tallied :
      (c : Commitments) (id : B256) (sender : Address) (s : Requests)
      → All (Vouched self ms cs) s
      → get id s ≡ some (collecting_commitments c)
      → (sender ≡ self.account → IsOurs self id m)
      → Vouched self (m ∷ ms) cs (id, collecting_commitments (counted c sender))
  tallied c id sender s h e i = (
    old.0,
    λ f. landed c.self_committed (sender == self.account) refl refl f,
    elim old.2 [
      | inl over ↦ inl (omega arith)
      | inr (few, known) ↦ elim (Bool-cases (ltb u64_max (length ms + 1))) [
        | inl full ↦ inl (grind arith)
        | inr fits ↦ inr (grind arith, grind arith)
      ]
    ],
  )
    where
      old : Vouched self ms cs (id, collecting_commitments c)
      old = All-get (Vouched self ms cs) id (collecting_commitments c) s h e

      landed :
          (x b : Bool)
          → c.self_committed ≡ x
          → (sender == self.account) ≡ b
          → (x || b) ≡ true
          → Landed self id (m ∷ ms)
      landed true b p q r = inr (old.1 p)
      landed false true p q r = inl (i (ground arith))
      landed false false p q r = cc

  pub committed-Good :
      (s : Requests) (id : B256) (sender : Address)
      → All (Vouched self ms cs) s
      → (sender ≡ self.account → IsOurs self id m)
      → Good (handle_committed self s id sender)
  unfolding handle_committed
  committed-Good s id sender h i = at (get id s) refl
    where
      at :
          (o : Option SentinelRequestState)
          → get id s ≡ o
          → Good (handle_committed self s id sender)
      at none e = grind (arith, same s h)
      at (some (collecting_commitments c)) e = grind (
        arith,
        put s id (collecting_commitments (counted c sender)) [] h (tallied c id sender s h e i) tt,
      )
      at (some (waiting_for_engine_check d q)) e = grind (arith, same s h)
      at (some (waiting_for_request a q d)) e = grind (arith, same s h)
      at (some (collecting_votes v)) e = grind (arith, same s h)
      at (some (waiting_for_outcome a q)) e = grind (arith, same s h)
      at (some (waiting_for_dispute_resolution a q d)) e = grind (arith, same s h)

  revealed_sum :
      (v : Votes) (vote : Bool)
      → v.revealed_count < u64_max
      → v.revealed_count ≡ v.approve_count + v.deny_count
      → wrapping_inc v.revealed_count
        ≡ (if vote then wrapping_inc v.approve_count else v.approve_count)
          + (if vote then v.deny_count else wrapping_inc v.deny_count)
  revealed_sum v true l h = omega arith
  revealed_sum v false l h = omega arith

  counted_reveal :
      (id : B256) (v : Votes) (sender : Address) (vote : Bool)
      → Vouched self ms cs (id, collecting_votes v)
      → let w = count_reveal self v sender vote in
        ltb w.revealed_count w.committed_count ≡ true
        → Vouched self (m ∷ ms) cs (id, collecting_votes w)
  counted_reveal id v sender vote (inl over) l = inl (omega arith)
  counted_reveal id v sender vote (inr (few, fewer, sum)) l =
      elim (Bool-cases (ltb u64_max (length ms + 1))) [
        | inl full ↦ inl (grind arith)
        | inr fits ↦ inr (omega arith, ltb→lt _ _ l, revealed_sum v vote (grind arith) sum)
      ]

  pub revealed-Good :
      (s : Requests) (id : B256) (sender : Address) (vote : Bool)
      → All (Vouched self ms cs) s
      → Good (handle_revealed self s id sender vote)
  unfolding handle_revealed finalize
  revealed-Good s id sender vote h = at (get id s) refl
    where
      at :
          (o : Option SentinelRequestState)
          → get id s ≡ o
          → Good (handle_revealed self s id sender vote)
      at none e = grind (arith, same s h)
      at (some (collecting_votes v)) e =
          let old = All-get (Vouched self ms cs) id (collecting_votes v) s h e in
          let w = count_reveal self v sender vote in
          elim (Bool-cases (ltb w.revealed_count w.committed_count)) [
            | inl p ↦ grind (
              arith,
              put s id (collecting_votes w) [] h (counted_reveal id v sender vote old p) tt,
            )
            | inr p ↦ elim (Bool-cases (not w.self_revealed && not (w.revealed_count == 0))) [
              | inl q ↦ grind (arith, gone s id [] h tt)
              | inr q ↦ grind (
                arith,
                put s id (waiting_for_outcome w.approve w.slash_amount)
                    (action (finalize_request id) none ∷ []) h tt (tt, tt),
              )
            ]
          ]
      at (some (waiting_for_engine_check d q)) e = grind (arith, same s h)
      at (some (waiting_for_request a q d)) e = grind (arith, same s h)
      at (some (collecting_commitments c)) e = grind (arith, same s h)
      at (some (waiting_for_outcome a q)) e = grind (arith, same s h)
      at (some (waiting_for_dispute_resolution a q d)) e = grind (arith, same s h)

  pub resolved-Good :
      (s : Requests) (id : B256) → All (Vouched self ms cs) s → Good (handle_resolved self s id)
  unfolding handle_resolved
  resolved-Good s id h = at (get id s) refl
    where
      at : (o : Option SentinelRequestState) → get id s ≡ o → Good (handle_resolved self s id)
      at none e = grind (arith, gone s id [] h tt)
      at (some (waiting_for_dispute_resolution a q d)) e =
          grind (arith, gone s id (action (claim id) none ∷ []) h (tt, tt))
      at (some (waiting_for_engine_check d q)) e = grind (arith, again s id _ h e)
      at (some (waiting_for_request a q d)) e = grind (arith, again s id _ h e)
      at (some (collecting_commitments c)) e = grind (arith, again s id _ h e)
      at (some (collecting_votes v)) e = grind (arith, again s id _ h e)
      at (some (waiting_for_outcome a q)) e = grind (arith, again s id _ h e)

  pub arbitration-Good :
      (s : Requests) (id : B256)
      → All (Vouched self ms cs) s
      → Good (handle_arbitration_timeout self s id)
  unfolding handle_arbitration_timeout
  arbitration-Good s id h = at (get id s) refl
    where
      at :
          (o : Option SentinelRequestState)
          → get id s ≡ o
          → Good (handle_arbitration_timeout self s id)
      at none e = grind (arith, gone s id [] h tt)
      at (some x) e = grind (arith, gone s id (action (claim id) none ∷ []) h (tt, tt))

  pub timed_out-Good :
      (s : Requests) (id : B256)
      → All (Vouched self ms cs) s
      → Good (handle_request_timed_out self s id)
  unfolding handle_request_timed_out
  timed_out-Good s id h = at (get id s) refl
    where
      at :
          (o : Option SentinelRequestState)
          → get id s ≡ o
          → Good (handle_request_timed_out self s id)
      at none e = grind (arith, gone s id [] h tt)
      at (some x) e =
          grind (arith, gone s id (action (claim id) none ∷ []) h (tt, tt), gone s id [] h tt)

  pub oracle_result-Good :
      (s : Requests) (id : B256)
      → All (Vouched self ms cs) s
      → Good (handle_sentinel_oracle_result self s id)
  unfolding handle_sentinel_oracle_result
  oracle_result-Good s id h = at (get id s) refl
    where
      at :
          (o : Option SentinelRequestState)
          → get id s ≡ o
          → Good (handle_sentinel_oracle_result self s id)
      at none e = grind (arith, gone s id [] h tt)
      at (some x) e =
          grind (arith, gone s id (action (claim id) none ∷ []) h (tt, tt), gone s id [] h tt)

  pub dispute-Good :
      (s : Requests) (id : B256) (d : ℕ)
      → All (Vouched self ms cs) s
      → Good (handle_dispute_triggered self s id d)
  unfolding handle_dispute_triggered
  dispute-Good s id d h = at (get id s) refl
    where
      at :
          (o : Option SentinelRequestState)
          → get id s ≡ o
          → Good (handle_dispute_triggered self s id d)
      at none e = grind (arith, gone s id [] h tt)
      at (some x) e = recovered (approve_and_slash_amount x) refl
        where
          recovered :
              (o : Option (Bool × ℕ))
              → approve_and_slash_amount x ≡ o
              → Good (handle_dispute_triggered self s id d)
          recovered none f = grind (arith, gone s id [] h tt)
          recovered (some (a, q)) f = grind (
            arith,
            put (remove id s) id (waiting_for_dispute_resolution a q d) [] (taken s id h) tt tt,
          )
