-- ===== src/Validator/Burns/Trace.antt =====
-- The burns of a signature id over a sequence of messages to `apply_transition`
-- (crates/validator/src/state/mod.rs).
use safenet.Prelude.{ℕ, ◌+◌, ◌≤◌, ◌≡◌, refl, List, [], ◌∷◌, ◌++◌, arith, ◌==◌}
use safenet.Prelude.BTree.Sorted.{From}
use safenet.Alloy.{Alloy, B256}
use safenet.Validator.Frost.{Frost}
use safenet.Validator.State.{Transition, State, Result}
use safenet.Validator.KeyGen.Frames.{
  IsFramed, genesis_key_gen-IsRolloverOnly, setup-IsRolloverOnly, committed-IsRolloverOnly,
  shared-IsRolloverOnly, complained-IsRolloverOnly, responded-IsRolloverOnly,
  timeouts-IsRolloverOnly, new_block-IsFramed,
}
use safenet.Validator.KeyGen.Rollover.{handle_rollover_new_block}
use safenet.Validator.KeyGen.Timeouts.{handle_key_gen_timeouts}
use safenet.Validator.Sign.Timeouts.{handle_signing_timeouts}
use safenet.Validator.Reconcile.{handle_group_reconciliation}
use safenet.Validator.Transactions.{attested_message, handle_transaction_attested}
use safenet.Validator.Step.{
  Event, Message, Resume, apply_event, apply_new_block, apply_resume, apply_transition, new_block,
  event, resume,
}
use safenet.Validator.Links.Order.{apply_transition-From}
use safenet.Validator.Burns.Count.{burns, open_sessions, one_if, burns-append}
use safenet.Validator.Burns.Signing.{
  Spends, handle_sign-Spends, handle_oracle_result-Spends, handle_sign_committed_nonces-Spends,
  handle_sign_shared-Spends, handle_sign_completed-Spends, handle_sign_attested-Spends,
  handle_nonce_commitments-Spends, handle_nonces-Spends, handle_signing_timeouts-Spends,
}
use safenet.Validator.Burns.Others.{
  genesis_key_gen-burns, setup-burns, committed-burns, shared-burns, complained-burns,
  responded-burns, timeouts-burns, new_block-burns, reconciliation-burns, proposed-Spends,
  staged-Spends, confirmed-Spends,
}

module _ ⦃F : Frost⦄ where
  -- The messages that open the nonces of a signature id: its `Sign` events.
  unfoldable pub opened : B256 → Message → ℕ
  opened sid (event block (Event.sign e)) = one_if (e.sid == sid)
  opened sid _ = 0

  unfoldable pub requests : B256 → List Message → ℕ
  unfolding opened
  requests sid [] = 0
  requests sid (m ∷ ms) = opened sid m + requests sid ms

  -- A handler that keeps the sessions and burns nothing spends nothing.
  framed-Spends :
      (sid : B256) (s : State) (r : Result) → IsFramed s r.0 → burns sid r.1 ≡ 0 → Spends sid s 0 r
  framed-Spends sid s r f b = let h = f.signing in ground arith

module _ ⦃A : Alloy⦄ ⦃F : Frost⦄ where
  -- The state and the commands after a sequence of messages.
  unfoldable pub apply_all : Transition → State → List Message → Result
  unfolding apply_transition
  apply_all self s [] = (s, [])
  apply_all self s (m ∷ ms) =
      let (s1, commands) = apply_transition self s m in
      let (s2, rest) = apply_all self s1 ms in (s2, commands ++ rest)

  reconciliation-keeps :
      (s : State) (block : ℕ) → (handle_group_reconciliation s block).0.signing ≡ s.signing
  unfolding handle_group_reconciliation
  reconciliation-keeps s block = refl

  event-Spends :
      (self : Transition) (s : State) (block : ℕ) (e : Event) (sid : B256)
      → From 0 s.signing
      → Spends sid s (opened sid (event block e)) (apply_event self s block e)
  unfolding apply_event opened handle_transaction_attested burns
  event-Spends self s block (Event.key_gen gid) sid f =
      framed-Spends sid s _ (genesis_key_gen-IsRolloverOnly self s gid).framed
        (genesis_key_gen-burns self s gid sid)
  event-Spends self s block (Event.key_gen_committed e) sid f =
      framed-Spends sid s _ (committed-IsRolloverOnly self s block e).framed
        (committed-burns self s block e sid)
  event-Spends self s block (Event.key_gen_secret_shared e) sid f =
      framed-Spends sid s _ (shared-IsRolloverOnly self s block e).framed
        (shared-burns self s block e sid)
  event-Spends self s block (Event.key_gen_confirmed e) sid f =
      confirmed-Spends self s block e sid f
  event-Spends self s block (Event.key_gen_complained e) sid f =
      framed-Spends sid s _ (complained-IsRolloverOnly self s block e).framed
        (complained-burns self s block e sid)
  event-Spends self s block (Event.key_gen_complaint_responded e) sid f =
      framed-Spends sid s _ (responded-IsRolloverOnly self s block e).framed
        (responded-burns self s block e sid)
  event-Spends self s block (Event.sign e) sid f = handle_sign-Spends self s block e sid f
  event-Spends self s block (Event.sign_committed_nonces e) sid f =
      handle_sign_committed_nonces-Spends self s block e sid f
  event-Spends self s block (Event.sign_shared e) sid f = handle_sign_shared-Spends s e sid f
  event-Spends self s block (Event.sign_completed x) sid f =
      handle_sign_completed-Spends self s block x sid f
  event-Spends self s block (Event.epoch_staged e) sid f = staged-Spends s e sid f
  event-Spends self s block (Event.transaction_proposed e) sid f =
      proposed-Spends self s block e sid f
  event-Spends self s block (Event.transaction_attested e) sid f =
      handle_sign_attested-Spends s (attested_message self e) sid f
  event-Spends self s block (Event.oracle_result o e) sid f =
      handle_oracle_result-Spends self s block o e sid f
  event-Spends self s block Event.other_event sid f = omega arith

  block-Spends :
      (self : Transition) (s : State) (block : ℕ) (sid : B256)
      → Spends sid s 0 (apply_new_block self s block)
  unfolding apply_new_block
  block-Spends self s block sid =
      let (s1, c1) = handle_rollover_new_block self s block in
      let (s2, c2) = handle_key_gen_timeouts self s1 block in
      let (s3, c3) = handle_signing_timeouts self s2 block in
      let c4 = (handle_group_reconciliation s3 block).1 in
      let kept = (timeouts-IsRolloverOnly self s1 block).framed.signing in
      let still = (new_block-IsFramed self s block).signing in
      ground (
        arith,
        reconciliation-keeps s3 block,
        handle_signing_timeouts-Spends self s2 block sid,
        new_block-burns self s block sid,
        timeouts-burns self s1 block sid,
        reconciliation-burns s3 block sid,
        burns-append sid c1 (c2 ++ (c3 ++ c4)),
        burns-append sid c2 (c3 ++ c4),
        burns-append sid c3 c4,
      )

  resume-Spends :
      (self : Transition) (s : State) (r : Resume) (sid : B256)
      → Spends sid s 0 (apply_resume self s r)
  unfolding apply_resume burns
  resume-Spends self s Resume.noop sid = omega arith
  resume-Spends self s (Resume.setup gid x) sid =
      framed-Spends sid s _ (setup-IsRolloverOnly self s gid x).framed
        (setup-burns self s gid x sid)
  resume-Spends self s (Resume.nonce_commitments x n) sid =
      handle_nonce_commitments-Spends s x n sid
  resume-Spends self s (Resume.nonces m n) sid = handle_nonces-Spends self s m n sid

  apply_transition-Spends :
      (self : Transition) (s : State) (message : Message) (sid : B256)
      → From 0 s.signing
      → Spends sid s (opened sid message) (apply_transition self s message)
  unfolding apply_transition opened
  apply_transition-Spends self s (event block e) sid f = event-Spends self s block e sid f
  apply_transition-Spends self s (new_block block) sid f = block-Spends self s block sid
  apply_transition-Spends self s (resume r) sid f = resume-Spends self s r sid

  -- Over any sequence of messages, the commands to use the nonces of a signature id are at most as
  -- many as its sessions whose nonces were open at the start and the `Sign` events with that id: an
  -- id with one such event and no open session has its nonces used at most once, whatever times
  -- out, restarts or fails. The sessions are to be in the order of their messages at the start.
  pub apply_all-burns :
      (self : Transition) (s : State) (messages : List Message) (sid : B256)
      → From 0 s.signing
      → burns sid (apply_all self s messages).1
        ≤ open_sessions sid s.signing + requests sid messages
  unfolding apply_all requests burns
  apply_all-burns self s [] sid f = omega arith
  apply_all-burns self s (m ∷ ms) sid f =
      let (s1, commands) = apply_transition self s m in
      ground (
        arith,
        apply_transition-Spends self s m sid f,
        apply_all-burns self s1 ms sid (apply_transition-From self s m f),
        burns-append sid commands (apply_all self s1 ms).1,
      )
