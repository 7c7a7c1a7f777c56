-- ===== src/Validator/Sign/Sweep.antt =====
-- The sweep of `handle_signing_timeouts` (crates/validator/src/state/sign.rs), entry by entry.
use safenet.Prelude.{
  ℕ, suc, ◌≤◌, ◌≡◌, refl, Option, none, some, [], ◌∷◌, Bool, true, false, arith, ◌==◌,
  if◌then◌else◌, and_then, ◌∙◌, ap,
}
use safenet.Prelude.BTree.{BTreeMap, get}
use safenet.Prelude.BTree.Sorted.{From, get_below, From-weaken}
use safenet.Alloy.{Alloy, B256}
use safenet.Validator.Frost.{Frost}
use safenet.Validator.State.{Transition, SigningState, waiting_for_request}
use safenet.Validator.Sign.Timeouts.{keep_session, session_timeout, retain}

module _ ⦃F : Frost⦄ where
  keep_session-From :
      (k m : ℕ) (o : Option SigningState) (rest : BTreeMap SigningState)
      → k ≤ m
      → From (suc m) rest
      → From k (keep_session m o rest)
  keep_session-From k m none rest h f = From-weaken k (suc m) rest (omega arith) f
  keep_session-From k m (some st) rest h f = (h, f)

  get-keep_session :
      (j m : ℕ) (o : Option SigningState) (rest : BTreeMap SigningState)
      → From (suc m) rest
      → get j (keep_session m o rest) ≡ (if m == j then o else get j rest)
  unfolding get
  get-keep_session j m none rest f = ground (arith, get_below (suc m) j rest f)
  get-keep_session j m (some st) rest f = refl

module _ ⦃A : Alloy⦄ ⦃F : Frost⦄ where
  -- What the sweep makes of a session, which does not depend on the other sessions.
  unfoldable pub timed_out : Transition → ℕ → B256 → SigningState → Option SigningState
  unfolding session_timeout
  timed_out self block message session = (session_timeout self block message session []).0

  -- A session whose signature id is still known afterwards.
  keeps_id : Option SigningState → Bool
  keeps_id none = false
  keeps_id (some (waiting_for_request w)) = false
  keeps_id (some _) = true

  kept-session_timeout :
      (self : Transition) (block : ℕ) (m : B256) (st : SigningState) (index : BTreeMap B256)
      → (session_timeout self block m st index).0 ≡ timed_out self block m st
  unfolding timed_out
  kept-session_timeout self block m st index = ground arith

  pub retain-From :
      (self : Transition) (block k : ℕ) (l : BTreeMap SigningState) (index : BTreeMap B256)
      → From k l
      → From k (retain self block l index).0
  unfolding retain
  retain-From self block k [] index f = tt
  retain-From self block k ((m, st) ∷ l) index f =
      let out = session_timeout self block m st index in
      keep_session-From k m out.0 (retain self block l out.1).0 f.0
        (retain-From self block (suc m) l out.1 f.1)

  -- After the sweep the session at a message is what `timed_out` makes of the one before.
  pub get-retain :
      (self : Transition) (block k : ℕ) (l : BTreeMap SigningState) (index : BTreeMap B256)
      (j : B256)
      → From k l
      → get j (retain self block l index).0 ≡ and_then (get j l) (timed_out self block j)
  unfolding retain get
  get-retain self block k [] index j f = refl
  get-retain self block k ((m, st) ∷ l) index j f =
      let out = session_timeout self block m st index in
      let rest = (retain self block l out.1).0 in
      get-keep_session j m out.0 rest (retain-From self block (suc m) l out.1 f.1)
      ∙ ground (
        arith,
        kept-session_timeout self block m st index,
        get-retain self block (suc m) l out.1 j f.1,
        ap (λ x. timed_out self block x st),
      )
