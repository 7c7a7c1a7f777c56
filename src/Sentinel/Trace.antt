-- ===== src/Sentinel/Trace.antt =====
-- What a sentinel has said and heard when it reveals a vote (crates/sentinel/src/service.rs).
pub mod Handlers
pub mod Blocks
pub mod Runs
use safenet.Prelude.{
  ℕ, suc, ◌+◌, ◌<◌, ◌≤◌, ◌≡◌, refl, Option, none, some, List, [], ◌∷◌, ◌++◌, Bool, true, false,
  if◌then◌else◌, not, ◌&&◌, ◌||◌, ◌==◌, ltb, leb, arith, All, All-append, ◌⊎◌, inl, inr, subst, sym,
  ◌∙◌, ap, saturating_add, Bool-cases, ltb→lt, length, u64_max,
}
use safenet.Prelude.BTree.{BTreeMap, get, insert, remove}
use safenet.Prelude.BTree.Entries.{All-insert, All-remove, All-get}
use safenet.Alloy.{Alloy, Address, B256, Bytes}
use safenet.Core.Updates.{EventLog}
use safenet.Core.Machine.{Input, new_block, event, resume}
use safenet.Sentinel.State.{
  VotingTerms, Commitments, Votes, SentinelRequestState, waiting_for_engine_check,
  waiting_for_request, collecting_commitments, collecting_votes, waiting_for_outcome,
  waiting_for_dispute_resolution, Requests, approve_and_slash_amount, CheckOutcome, approved,
  denied, unknown, SentinelActionKind, approve_token, commit_vote_hash, reveal, finalize_request,
  claim, timeout_arbitration, SentinelCommand, act, engine_check, ProposedEvent, RequestEvent,
  SentinelEvent, transaction_proposed, new_request, committed, revealed, request_timed_out,
  oracle_result, dispute_triggered, dispute_resolved, arbitration_timed_out, dispute_out_of_scope,
  claimed, CheckResult, SentinelTransition, reveal_salt, commit_hash, oracle_tx_proposal_hash,
}
use safenet.Sentinel.Voting.{
  Handled, action, commit_vote, vote_of, engine_checked, handle_oracle_transaction_proposed,
  handle_new_request, handle_committed, handle_revealed, handle_engine_check_result, finalize,
  count_reveal,
}
use safenet.Sentinel.Outcomes.{
  advance_entry, handle_block_advance, handle_request_timed_out, handle_sentinel_oracle_result,
  handle_dispute_triggered, handle_resolved, handle_arbitration_timeout,
}
use safenet.Sentinel.Service.{handle_event, sentinel_transition}

-- The messages so far, and the commands so far, the latest in front.
abbrev pub Messages : Type 0
Messages = List (Input SentinelEvent CheckResult)

abbrev pub Emitted : SentinelCommand → List SentinelCommand → Type 0
Emitted c [] = ⊥
Emitted c (d ∷ cs) = (d ≡ c) ⊎ Emitted c cs

pub Emitted-later :
    (c : SentinelCommand) (out cs : List SentinelCommand) → Emitted c cs → Emitted c (out ++ cs)
Emitted-later c [] cs h = h
Emitted-later c (d ∷ out) cs h = inr (Emitted-later c out cs h)

pub Emitted-All :
    (P : SentinelCommand → Type 0) (c : SentinelCommand) (cs : List SentinelCommand)
    → All P cs
    → Emitted c cs
    → P c
Emitted-All P c [] h x = elim x [ ]
Emitted-All P c (d ∷ cs) h (inl e) = subst P e h.0
Emitted-All P c (d ∷ cs) h (inr e) = Emitted-All P c cs h.1 e

module _ ⦃A : Alloy⦄ (self : SentinelTransition) where
  abbrev pub IsOurs : B256 → Input SentinelEvent CheckResult → Type 0
  IsOurs id (new_block n) = ⊥
  IsOurs id (event log) = log.payload ≡ committed id self.account
  IsOurs id (resume r) = ⊥

  -- Our commitment for the request has landed onchain.
  abbrev pub Landed : B256 → Messages → Type 0
  Landed id [] = ⊥
  Landed id (m ∷ ms) = IsOurs id m ⊎ Landed id ms

  -- The command that commits to a vote.
  abbrev pub commitment : B256 → Bool → Bytes → ℕ → SentinelCommand
  commitment id approve reason deadline =
      action
        (commit_vote_hash id (commit_hash self.account id approve (reveal_salt self id) reason))
        (some deadline)

  -- What is known of the counts, which may have wrapped after 2 ^ 64 messages.
  abbrev pub Counted : Messages → Type 0 → Type 0
  Counted ms P = (u64_max < length ms) ⊎ P

  abbrev pub Vouched : Messages → List SentinelCommand → ℕ × SentinelRequestState → Type 0
  Vouched ms cs (id, collecting_commitments c) =
      Emitted (commitment id c.approve c.reason c.commit_deadline) cs
      × (c.self_committed ≡ true → Landed id ms)
      × Counted ms (
          (c.committed_count ≤ length ms)
          × (leb 1 c.committed_count || not c.self_committed) ≡ true)
  Vouched ms cs (id, collecting_votes v) = Counted ms (
      (v.committed_count ≤ length ms)
      × (v.revealed_count < v.committed_count)
      × (v.revealed_count ≡ v.approve_count + v.deny_count))
  Vouched ms cs (id, waiting_for_engine_check d r) = Unit
  Vouched ms cs (id, waiting_for_request a r d) = Unit
  Vouched ms cs (id, waiting_for_outcome a s) = Unit
  Vouched ms cs (id, waiting_for_dispute_resolution a s d) = Unit

  pub Vouched-later :
      (m : Input SentinelEvent CheckResult) (ms : Messages) (out cs : List SentinelCommand)
      (e : ℕ × SentinelRequestState)
      → Vouched ms cs e
      → Vouched (m ∷ ms) (out ++ cs) e
  Vouched-later m ms out cs (id, collecting_commitments c) h = (
    Emitted-later _ out cs h.0,
    λ s. inr (h.1 s),
    elim h.2 [ inl over ↦ inl (omega arith) | inr (few, known) ↦ inr (omega arith, known) ],
  )
  Vouched-later m ms out cs (id, collecting_votes v) (inl over) = inl (omega arith)
  Vouched-later m ms out cs (id, collecting_votes v) (inr (few, fewer, sum)) =
      inr (omega arith, fewer, sum)
  Vouched-later m ms out cs (id, waiting_for_engine_check d r) h = tt
  Vouched-later m ms out cs (id, waiting_for_request a r d) h = tt
  Vouched-later m ms out cs (id, waiting_for_outcome a s) h = tt
  Vouched-later m ms out cs (id, waiting_for_dispute_resolution a s d) h = tt

  pub All-later :
      (m : Input SentinelEvent CheckResult) (ms : Messages) (out cs : List SentinelCommand)
      (s : Requests)
      → All (Vouched ms cs) s
      → All (Vouched (m ∷ ms) (out ++ cs)) s
  All-later m ms out cs [] h = tt
  All-later m ms out cs (e ∷ s) h = (Vouched-later m ms out cs e h.0, All-later m ms out cs s h.1)

  pub Vouched-said :
      (ms : Messages) (out cs : List SentinelCommand) (e : ℕ × SentinelRequestState)
      → Vouched ms cs e
      → Vouched ms (out ++ cs) e
  Vouched-said ms out cs (id, collecting_commitments c) h = (Emitted-later _ out cs h.0, h.1, h.2)
  Vouched-said ms out cs (id, collecting_votes v) h = h
  Vouched-said ms out cs (id, waiting_for_engine_check d r) h = tt
  Vouched-said ms out cs (id, waiting_for_request a r d) h = tt
  Vouched-said ms out cs (id, waiting_for_outcome a s) h = tt
  Vouched-said ms out cs (id, waiting_for_dispute_resolution a s d) h = tt

  pub All-said :
      (ms : Messages) (out cs : List SentinelCommand) (s : Requests)
      → All (Vouched ms cs) s
      → All (Vouched ms (out ++ cs)) s
  All-said ms out cs [] h = tt
  All-said ms out cs (e ∷ s) h = (Vouched-said ms out cs e h.0, All-said ms out cs s h.1)

  -- What a command claims about the past: a reveal opens a commitment made and landed before.
  abbrev pub Truthful : Messages → List SentinelCommand → SentinelCommand → Type 0
  Truthful ms cs (engine_check id t p b) = Unit
  Truthful ms cs (act a) = elim a.kind [
    | reveal id approve salt reason ↦
        (deadline : ℕ) × (salt ≡ reveal_salt self id)
        × Emitted (commitment id approve reason deadline) cs
        × Landed id ms
    | _ ↦ Unit
  ]
