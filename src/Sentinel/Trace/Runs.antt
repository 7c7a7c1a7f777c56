-- ===== src/Sentinel/Trace/Runs.antt =====
-- Runs of a sentinel from its start (crates/sentinel/src/service.rs).
use safenet.Prelude.{
  ℕ, ◌+◌, ◌<◌, ◌≡◌, refl, Option, some, List, [], ◌∷◌, ◌++◌, Bool, none, if◌then◌else◌, ◌==◌, ◌&&◌,
  ◌||◌, inl, inr, ◌≤◌, length, u64_max, Bool-cases, arith, All, subst, sym, ◌∙◌, ap,
}
use safenet.Prelude.BTree.{get, get-insert_self, get-remove_self}
use safenet.Prelude.BTree.Entries.{All-get}
use safenet.Alloy.{Alloy, Address, B256, Bytes}
use safenet.Core.Updates.{EventLog}
use safenet.Core.Machine.{Input, new_block, event, resume}
use safenet.Sentinel.State.{
  Votes, collecting_votes, Requests, reveal, finalize_request, waiting_for_outcome, SentinelCommand,
  SentinelEvent, transaction_proposed, new_request, committed, revealed, request_timed_out,
  oracle_result, dispute_triggered, dispute_resolved, arbitration_timed_out, dispute_out_of_scope,
  claimed, CheckResult, SentinelTransition, reveal_salt,
}
use safenet.Sentinel.Voting.{Handled, action, handle_revealed, finalize, count_reveal}
use safenet.Sentinel.Service.{handle_event, sentinel_transition}
use safenet.Sentinel.Trace.{
  Messages, Emitted, IsOurs, Landed, commitment, Vouched, All-said, Truthful, Emitted-All,
}
use safenet.Sentinel.Trace.Handlers.{
  Good, same, proposed-Good, check_result-Good, new_request-Good, committed-Good, revealed-Good,
  resolved-Good, arbitration-Good, timed_out-Good, oracle_result-Good, dispute-Good,
}
use safenet.Sentinel.Trace.Blocks.{Entries, block_advance-Entries}

module _ ⦃A : Alloy⦄ (self : SentinelTransition) (m : Input SentinelEvent CheckResult)
    (ms : Messages) (cs : List SentinelCommand) where
  Entries-Good : (h : Handled) → Entries self m ms cs h → Good self m ms cs h
  Entries-Good h e = (All-said self (m ∷ ms) h.1 cs h.0 e.0, e.1)

  handle_event-Good :
      (s : Requests) (log : EventLog SentinelEvent)
      → m ≡ event log
      → All (Vouched self ms cs) s
      → Good self m ms cs (handle_event self s log)
  unfolding handle_event
  handle_event-Good s log i h = at log.payload refl
    where
      at : (p : SentinelEvent) → log.payload ≡ p → Good self m ms cs (handle_event self s log)
      at (transaction_proposed e) p =
          grind (arith, proposed-Good self m ms cs s log.block.number log.block.timestamp e h)
      at (new_request e) p = grind (arith, new_request-Good self m ms cs s e h)
      at (committed id sender) p = grind (
        arith,
        committed-Good self m ms cs s id sender h
            (λ a. subst (IsOurs self id) (sym i) (p ∙ ap (committed id) a)),
      )
      at (revealed id sender vote) p = grind (arith, revealed-Good self m ms cs s id sender vote h)
      at (request_timed_out id) p = grind (arith, timed_out-Good self m ms cs s id h)
      at (oracle_result id) p = grind (arith, oracle_result-Good self m ms cs s id h)
      at (dispute_triggered id d) p = grind (arith, dispute-Good self m ms cs s id d h)
      at (dispute_resolved id) p = grind (arith, resolved-Good self m ms cs s id h)
      at (arbitration_timed_out id) p = grind (arith, arbitration-Good self m ms cs s id h)
      at (dispute_out_of_scope id) p = grind (arith, arbitration-Good self m ms cs s id h)
      at (claimed id) p = grind (arith, same self m ms cs s h)

  transition-Good :
      (s : Requests) (i : Input SentinelEvent CheckResult)
      → m ≡ i
      → All (Vouched self ms cs) s
      → Good self m ms cs (sentinel_transition self s i)
  unfolding sentinel_transition
  transition-Good s (new_block n) i h = Entries-Good _ (block_advance-Entries self m ms cs n s h)
  transition-Good s (event log) i h = handle_event-Good s log i h
  transition-Good s (resume r) i h = check_result-Good self m ms cs s r h

module _ ⦃A : Alloy⦄ (self : SentinelTransition) where
  -- The requests and the commands after the messages, which are given latest first.
  unfoldable pub run_sentinel : Messages → Handled
  unfolding sentinel_transition
  run_sentinel [] = ([], [])
  run_sentinel (m ∷ ms) =
      let r = run_sentinel ms in let h = sentinel_transition self r.0 m in (h.0, h.1 ++ r.1)

  run_sentinel-Vouched :
      (ms : Messages) → All (Vouched self ms (run_sentinel ms).1) (run_sentinel ms).0
  unfolding run_sentinel
  run_sentinel-Vouched [] = tt
  run_sentinel-Vouched (m ∷ ms) =
      (transition-Good self m ms (run_sentinel ms).1 (run_sentinel ms).0 m refl
        (run_sentinel-Vouched ms)).0

  -- Start a sentinel without requests and give it any messages: blocks, events and engine verdicts,
  -- in any order. When it then, on any further message, reveals a vote for a request, the salt is
  -- the one its key derives for the request; it has before emitted the commitment self whose hash is the
  -- hash of exactly this vote, salt and reason for its own account and this request; and it has
  -- seen its own commitment self for the request land onchain.
  pub run_sentinel-reveal :
      (ms : Messages) (m : Input SentinelEvent CheckResult) (id : B256) (approve : Bool)
      (salt : B256) (reason : Bytes) (expires_at : Option ℕ)
      → Emitted
          (action (reveal id approve salt reason) expires_at)
          (sentinel_transition self (run_sentinel ms).0 m).1
      → (deadline : ℕ) × (salt ≡ reveal_salt self id)
        × Emitted (commitment self id approve reason deadline) (run_sentinel ms).1
        × Landed self id ms
  run_sentinel-reveal ms m id approve salt reason expires_at h =
      Emitted-All (Truthful self ms (run_sentinel ms).1)
        (action (reveal id approve salt reason) expires_at)
        (sentinel_transition self (run_sentinel ms).0 m).1
        (transition-Good self m ms (run_sentinel ms).1 (run_sentinel ms).0 m refl
          (run_sentinel-Vouched ms)).1
        h

  -- A tally with one more reveal, whose counts do not wrap.
  abbrev pub with_reveal : Votes → Address → Bool → Votes
  with_reveal v sender vote = record v {
    revealed_count = v.revealed_count + 1;
    approve_count = if vote then v.approve_count + 1 else v.approve_count;
    deny_count = if vote then v.deny_count else v.deny_count + 1;
    self_revealed = v.self_revealed || (sender == self.account);
  }

  count_reveal-with_reveal :
      (v : Votes) (sender : Address) (vote : Bool)
      → v.committed_count ≤ u64_max
      → v.revealed_count < v.committed_count
      → v.revealed_count ≡ v.approve_count + v.deny_count
      → count_reveal self v sender vote ≡ with_reveal v sender vote
  count_reveal-with_reveal v sender vote fits fewer sum =
      elim (Bool-cases (sender == self.account)) [
        | inl e ↦ elim (Bool-cases vote) [ inl f ↦ grind arith | inr f ↦ grind arith ]
        | inr e ↦ elim (Bool-cases vote) [ inl f ↦ grind arith | inr f ↦ grind arith ]
      ]

  -- What a reveal leaves of a request, and its commands: with the last reveal it is finalized, or
  -- dropped where our own vote is missing.
  abbrev pub Reveals : B256 → Votes → Address → Bool → Handled → Type 0
  Reveals id v sender vote h =
      let last = v.revealed_count + 1 == v.committed_count in
      let ours = v.self_revealed || (sender == self.account) in
      (get id h.0 ≡ (
        if last
        then if ours then some (waiting_for_outcome v.approve v.slash_amount) else none
        else some (collecting_votes (with_reveal v sender vote))))
      × (h.1 ≡ (if last && ours then action (finalize_request id) none ∷ [] else []))

  revealed-Reveals :
      (s : Requests) (id : B256) (v : Votes) (sender : Address) (vote : Bool)
      → get id s ≡ some (collecting_votes v)
      → v.committed_count ≤ u64_max
      → v.revealed_count < v.committed_count
      → v.revealed_count ≡ v.approve_count + v.deny_count
      → Reveals id v sender vote (handle_revealed self s id sender vote)
  unfolding handle_revealed finalize
  revealed-Reveals s id v sender vote h fits fewer sum =
      let w = with_reveal v sender vote in
      let same = count_reveal-with_reveal v sender vote fits fewer sum in
      elim (Bool-cases (v.revealed_count + 1 == v.committed_count)) [
        | inl last ↦ elim (Bool-cases (v.self_revealed || (sender == self.account))) [
          | inl ours ↦
              grind
                (arith, same, get-insert_self id (waiting_for_outcome v.approve v.slash_amount) s)
          | inr theirs ↦ grind (arith, same, get-remove_self id s)
        ]
        | inr more ↦ grind (arith, same, get-insert_self id (collecting_votes w) s)
      ]

  -- Give a sentinel that starts without requests any messages, at most as many as a `u64` counts.
  -- A request whose votes are being collected then has fewer reveals than commitments, and its
  -- reveals are its approvals and its denials. The next reveal for it, of any sender and vote, is
  -- counted if commitments are left to be revealed; if it is the last, the request is finalized and
  -- waits for its outcome with our vote and the slash amount, or is dropped without a command if our
  -- own vote is not among the reveals.
  pub run_sentinel-tally :
      (ms : Messages) (id : B256) (v : Votes) (log : EventLog SentinelEvent) (sender : Address)
      (vote : Bool)
      → length ms ≤ u64_max
      → get id (run_sentinel ms).0 ≡ some (collecting_votes v)
      → log.payload ≡ revealed id sender vote
      → (v.revealed_count < v.committed_count)
        × (v.revealed_count ≡ v.approve_count + v.deny_count)
        × Reveals id v sender vote (sentinel_transition self (run_sentinel ms).0 (event log))
  unfolding sentinel_transition handle_event
  run_sentinel-tally ms id v log sender vote fits h p =
      elim (All-get (Vouched self ms (run_sentinel ms).1) id (collecting_votes v)
        (run_sentinel ms).0 (run_sentinel-Vouched ms) h) [
          | inl over ↦ absurd (omega arith)
          | inr (few, fewer, sum) ↦ (
            fewer,
            sum,
            grind (
              arith,
              revealed-Reveals (run_sentinel ms).0 id v sender vote h (omega arith) fewer sum,
            ),
          )
        ]
