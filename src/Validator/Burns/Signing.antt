-- ===== src/Validator/Burns/Signing.antt =====
-- Burns and open sessions under the handlers of crates/validator/src/state/sign.rs.
use safenet.Prelude.{ℕ, ◌+◌, ◌≤◌, [], ◌∷◌, arith, ◌==◌}
use safenet.Prelude.BTree.{BTreeMap}
use safenet.Prelude.BTree.Sorted.{From}
use safenet.Alloy.{Alloy, Address, B256}
use safenet.Validator.Frost.{Frost}
use safenet.Validator.State.{Transition, State, SigningState, Result}
use safenet.Validator.Sign.{
  SignEvent, handle_sign, handle_sign_completed, OracleResultEvent, handle_oracle_result,
  SignCommittedNoncesEvent, handle_sign_committed_nonces, SignSharedEvent, handle_sign_shared,
  handle_sign_attested, handle_nonce_commitments, handle_nonces,
}
use safenet.Validator.Sign.Timeouts.{handle_signing_timeouts, retain, session_timeout}
use safenet.Validator.Burns.Count.{
  burns, open_sessions, one_if, is_open, is_open_at, open_sessions-insert, open_sessions-replace,
  open_sessions-remove, burns-append,
}

module _ ⦃F : Frost⦄ where
  -- What a handler burns and leaves open, against what was open before and what it opened.
  abbrev pub Spends : B256 → State → ℕ → Result → Type 0
  Spends sid s opened r =
      burns sid r.1 + open_sessions sid r.0.signing ≤ open_sessions sid s.signing + opened

  pub handle_sign-Spends :
      (self : Transition) (s : State) (block : ℕ) (e : SignEvent) (sid : B256)
      → From 0 s.signing
      → Spends sid s (one_if (e.sid == sid)) (handle_sign self s block e)
  unfolding handle_sign burns is_open_at
  handle_sign-Spends self s block e sid f =
      grind (arith, open_sessions-replace, open_sessions-remove)

  pub handle_oracle_result-Spends :
      (self : Transition) (s : State) (block : ℕ) (o : Address) (e : OracleResultEvent) (sid : B256)
      → From 0 s.signing
      → Spends sid s 0 (handle_oracle_result self s block o e)
  unfolding handle_oracle_result burns is_open_at
  handle_oracle_result-Spends self s block o e sid f =
      grind (arith, open_sessions-replace, open_sessions-remove)

  pub handle_sign_committed_nonces-Spends :
      (self : Transition) (s : State) (block : ℕ) (e : SignCommittedNoncesEvent) (sid : B256)
      → From 0 s.signing
      → Spends sid s 0 (handle_sign_committed_nonces self s block e)
  unfolding handle_sign_committed_nonces burns is_open_at
  handle_sign_committed_nonces-Spends self s block e sid f =
      grind (arith, open_sessions-replace, open_sessions-remove)

  pub handle_sign_shared-Spends :
      (s : State) (e : SignSharedEvent) (sid : B256)
      → From 0 s.signing
      → Spends sid s 0 (handle_sign_shared s e)
  unfolding handle_sign_shared burns is_open_at
  handle_sign_shared-Spends s e sid f = grind (arith, open_sessions-insert)

  pub handle_sign_completed-Spends :
      (self : Transition) (s : State) (block : ℕ) (x : B256) (sid : B256)
      → From 0 s.signing
      → Spends sid s 0 (handle_sign_completed self s block x)
  unfolding handle_sign_completed burns is_open_at
  handle_sign_completed-Spends self s block x sid f =
      grind (arith, open_sessions-replace, open_sessions-remove)

  pub handle_sign_attested-Spends :
      (s : State) (m : B256) (sid : B256)
      → From 0 s.signing
      → Spends sid s 0 (handle_sign_attested s m)
  unfolding handle_sign_attested burns is_open_at
  handle_sign_attested-Spends s m sid f = grind (arith, open_sessions-remove)

  pub handle_nonce_commitments-Spends :
      (s : State) (x : B256) (n : F.SignNonces) (sid : B256)
      → Spends sid s 0 (handle_nonce_commitments s x n)
  unfolding handle_nonce_commitments burns
  handle_nonce_commitments-Spends s x n sid = ground arith

module _ ⦃A : Alloy⦄ ⦃F : Frost⦄ where
  pub handle_nonces-Spends :
      (self : Transition) (s : State) (m : B256) (n : F.SigningNonces) (sid : B256)
      → Spends sid s 0 (handle_nonces self s m n)
  unfolding handle_nonces burns
  handle_nonces-Spends self s m n sid = ground arith

  session_timeout-Spends :
      (self : Transition) (block : ℕ) (m : B256) (st : SigningState) (index : BTreeMap B256)
      (sid : B256)
      → burns sid (session_timeout self block m st index).2
          + is_open_at sid (session_timeout self block m st index).0
        ≤ is_open sid st
  unfolding session_timeout burns is_open_at
  session_timeout-Spends self block m st index sid = ground arith

  retain-Spends :
      (self : Transition) (block : ℕ) (l : BTreeMap SigningState) (index : BTreeMap B256)
      (sid : B256)
      → burns sid (retain self block l index).2 + open_sessions sid (retain self block l index).0
        ≤ open_sessions sid l
  unfolding retain burns open_sessions is_open_at
  retain-Spends self block [] index sid = omega arith
  retain-Spends self block ((m, st) ∷ l) index sid =
      let out = session_timeout self block m st index in
      ground (
        arith,
        session_timeout-Spends self block m st index sid,
        retain-Spends self block l out.1 sid,
        burns-append sid out.2 (retain self block l out.1).2,
      )

  pub handle_signing_timeouts-Spends :
      (self : Transition) (s : State) (block : ℕ) (sid : B256)
      → Spends sid s 0 (handle_signing_timeouts self s block)
  unfolding handle_signing_timeouts
  handle_signing_timeouts-Spends self s block sid =
      omega (arith, retain-Spends self block s.signing s.signature_id_to_message sid)
