-- ===== src/Sentinel/Trace/Blocks.antt =====
-- A block keeps what a sentinel can vouch for (crates/sentinel/src/service.rs).
use safenet.Prelude.{
  ℕ, suc, ◌+◌, ◌≤◌, ◌<◌, true, length, ◌≡◌, refl, Option, none, some, List, [], ◌∷◌, ◌++◌, leb,
  arith, All, All-append, inl, inr, subst, sym, Bool-cases,
}
use safenet.Alloy.{Alloy, B256}
use safenet.Core.Machine.{Input}
use safenet.Sentinel.State.{
  Commitments, SentinelRequestState, waiting_for_engine_check, waiting_for_request,
  collecting_commitments, collecting_votes, waiting_for_outcome, waiting_for_dispute_resolution,
  Requests, reveal, SentinelCommand, SentinelEvent, CheckResult, SentinelTransition, reveal_salt,
}
use safenet.Sentinel.Voting.{Handled, action, finalize}
use safenet.Sentinel.Outcomes.{advance_entry, handle_block_advance}
use safenet.Sentinel.Trace.{Messages, Vouched, Vouched-later, Truthful, Counted}

module _ ⦃A : Alloy⦄ (self : SentinelTransition) (m : Input SentinelEvent CheckResult)
    (ms : Messages) (cs : List SentinelCommand) where
  abbrev Left : ℕ → Option SentinelRequestState → Type 0
  Left id none = Unit
  Left id (some x) = Vouched self (m ∷ ms) cs (id, x)

  -- The tally that a commitment phase with our own commitment leaves.
  opened :
      (id : B256) (c : Commitments)
      → Vouched self ms cs (id, collecting_commitments c)
      → c.self_committed ≡ true
      → Counted self
          (m ∷ ms)
          ((c.committed_count ≤ suc (length ms)) × (0 < c.committed_count) × (0 ≡ 0 + 0))
  opened id c v q = elim v.2 [
    | inl over ↦ inl (omega arith)
    | inr (few, known) ↦ inr (omega arith, ground arith, refl)
  ]

  advance_entry-Good :
      (n : ℕ) (id : B256) (e : SentinelRequestState)
      → Vouched self ms cs (id, e)
      → All (Truthful self ms cs) (advance_entry self n id e).1
        × Left id (advance_entry self n id e).0
  unfolding advance_entry finalize
  advance_entry-Good n id (waiting_for_engine_check d none) v = ground arith
  advance_entry-Good n id (waiting_for_engine_check d (some q)) v = ground arith
  advance_entry-Good n id (waiting_for_request a q d) v = ground arith
  advance_entry-Good n id (collecting_commitments c) v =
      elim (Bool-cases (leb n c.commit_deadline)) [
        | inl p ↦ grind (arith, Vouched-later self m ms [] cs (id, collecting_commitments c) v)
        | inr p ↦ elim (Bool-cases c.self_committed) [
          | inl q ↦
              let l = v.1 q in
              let t : Truthful self ms cs (
                  action (reveal id c.approve (reveal_salt self id) c.reason)
                    (some c.reveal_deadline)) =
                (c.commit_deadline, refl, v.0, l) in
              grind (arith, t, opened id c v q)
          | inr q ↦ grind arith
        ]
      ]
  advance_entry-Good n id (collecting_votes w) v = ground arith
  advance_entry-Good n id (waiting_for_outcome a q) v = ground arith
  advance_entry-Good n id (waiting_for_dispute_resolution a q d) v = ground arith

  abbrev pub Entries : Handled → Type 0
  Entries h = All (Vouched self (m ∷ ms) cs) h.0 × All (Truthful self ms cs) h.1

  abbrev join : ℕ → Option SentinelRequestState → List SentinelCommand → Handled → Handled
  join id none out rest = (rest.0, out ++ rest.1)
  join id (some x) out rest = ((id, x) ∷ rest.0, out ++ rest.1)

  join-Entries :
      (id : ℕ) (o : Option SentinelRequestState) (out : List SentinelCommand) (rest : Handled)
      → All (Truthful self ms cs) out
      → Left id o
      → Entries rest
      → Entries (join id o out rest)
  join-Entries id none out rest t l r = (r.0, All-append (Truthful self ms cs) out rest.1 t r.1)
  join-Entries id (some x) out rest t l r =
      ((l, r.0), All-append (Truthful self ms cs) out rest.1 t r.1)

  block_advance-cons :
      (n id : ℕ) (e : SentinelRequestState) (s : Requests)
      → handle_block_advance self ((id, e) ∷ s) n
        ≡ join id
            (advance_entry self n id e).0
            (advance_entry self n id e).1
            (handle_block_advance self s n)
  unfolding handle_block_advance
  block_advance-cons n id e s = at (advance_entry self n id e).0 refl
    where
      at :
          (o : Option SentinelRequestState)
          → (advance_entry self n id e).0 ≡ o
          → handle_block_advance self ((id, e) ∷ s) n
            ≡ join id
                (advance_entry self n id e).0
                (advance_entry self n id e).1
                (handle_block_advance self s n)
      at none p = grind arith
      at (some x) p = grind arith

  pub block_advance-Entries :
      (n : ℕ) (s : Requests) → All (Vouched self ms cs) s → Entries (handle_block_advance self s n)
  unfolding handle_block_advance
  block_advance-Entries n [] h = (tt, tt)
  block_advance-Entries n ((id, e) ∷ s) h =
      let a = advance_entry-Good n id e h.0 in
      subst Entries
        {x = join id (advance_entry self n id e).0 (advance_entry self n id e).1
          (handle_block_advance self s n)}
        {y = handle_block_advance self ((id, e) ∷ s) n} (sym (block_advance-cons n id e s))
        (join-Entries id (advance_entry self n id e).0 (advance_entry self n id e).1
          (handle_block_advance self s n) a.0 a.1 (block_advance-Entries n s h.1))
