-- ===== src/Validator/Sign/Expiry.antt =====
-- What is left after the timeouts of crates/validator/src/state/sign.rs.
use safenet.Prelude.{
  ℕ, ◌≤◌, ◌<◌, ◌≡◌, refl, sym, Option, none, some, [], true, arith, and_then, inl, inr, u64_max,
  ◌⊎◌, length, ◌∙◌,
}
use safenet.Prelude.BTree.{BTreeSet, get, contains, get-keys, length-keys}
use safenet.Prelude.BTree.Sorted.{From}
use safenet.Alloy.{Alloy, B256}
use safenet.Validator.Frost.{Frost}
use safenet.Validator.State.{
  Transition, State, SigningState, waiting_for_request, waiting_for_oracle,
  collect_nonce_commitments, collect_signing_shares, waiting_for_attestation,
}
use safenet.Validator.Sign.Packets.{deadline_of}
use safenet.Validator.Sign.Timeouts.{handle_signing_timeouts}
use safenet.Validator.Sign.Sweep.{timed_out, get-retain}

module _ ⦃F : Frost⦄ where
  -- The signers of a session and the quorum that they have to reach.
  abbrev pub signers_of : SigningState → BTreeSet
  signers_of (waiting_for_request w) = w.signers
  signers_of (waiting_for_oracle w) = w.signers
  signers_of (collect_nonce_commitments c) = c.signers
  signers_of (collect_signing_shares c) = c.signers
  signers_of (waiting_for_attestation w) = []

  abbrev pub quorum_of : SigningState → ℕ
  quorum_of (waiting_for_request w) = F.group_threshold w.key_share
  quorum_of (waiting_for_oracle w) = F.group_threshold w.key_share
  quorum_of (collect_nonce_commitments c) = F.group_threshold c.key_share
  quorum_of (collect_signing_shares c) = F.group_threshold c.key_share
  quorum_of (waiting_for_attestation w) = 0

  -- A quorum of signers is left, this validator among them.
  pub record CanSign (self : Transition) (st : SigningState) : Type 0 where
    pub quorum : quorum_of st ≤ length (signers_of st)
    pub included : contains self.account (signers_of st) ≡ true

module _ ⦃A : Alloy⦄ ⦃F : Frost⦄ where
  timed_out-live :
      (self : Transition) (block : ℕ) (m : B256) (st st' : SigningState)
      → 0 < self.config.signing_timeout
      → block < u64_max
      → timed_out self block m st ≡ some st'
      → block < deadline_of st'
  unfolding timed_out
  timed_out-live self block m (waiting_for_request w) st' h k e = ground arith
  timed_out-live self block m (waiting_for_oracle w) st' h k e = ground arith
  timed_out-live self block m (collect_nonce_commitments w) st' h k e = ground arith
  timed_out-live self block m (collect_signing_shares w) st' h k e = ground arith
  timed_out-live self block m (waiting_for_attestation w) st' h k e = ground arith

  timed_out-CanSign :
      (self : Transition) (block : ℕ) (m : B256) (st st' : SigningState)
      → timed_out self block m st ≡ some st'
      → ((st' ≡ st) × (block < deadline_of st)) ⊎ CanSign self st'
  unfolding timed_out
  timed_out-CanSign self block m (waiting_for_request w) st' e = ground arith
  timed_out-CanSign self block m (waiting_for_oracle w) st' e = ground arith
  timed_out-CanSign self block m (collect_nonce_commitments c) st' e =
      ground (arith, get-keys self.account c.committed, length-keys c.committed)
  timed_out-CanSign self block m (collect_signing_shares c) st' e = ground arith
  timed_out-CanSign self block m (waiting_for_attestation w) st' e = ground arith

  -- After the sweep at a block no session's deadline has passed: each later deadline lies after
  -- the block. The signing timeout is positive, and the block is not the last `u64`.
  pub handle_signing_timeouts-deadline :
      (self : Transition) (s : State) (block : ℕ) (m : B256) (st : SigningState)
      → 0 < self.config.signing_timeout
      → block < u64_max
      → From 0 s.signing
      → get m (handle_signing_timeouts self s block).0.signing ≡ some st
      → block < deadline_of st
  unfolding handle_signing_timeouts
  handle_signing_timeouts-deadline self s block m st h k f e =
      go (get m s.signing)
        (sym (get-retain self block 0 s.signing s.signature_id_to_message m f) ∙ e)
    where
      go :
          (o : Option SigningState)
          → and_then o (timed_out self block m) ≡ some st
          → block < deadline_of st
      go none e = absurd (ground arith)
      go (some st0) e = timed_out-live self block m st0 st h k e

  -- A session that the sweep keeps is either as it was, its deadline yet to come, or has a quorum
  -- of signers of which this validator is one.
  pub handle_signing_timeouts-CanSign :
      (self : Transition) (s : State) (block : ℕ) (m : B256) (st : SigningState)
      → From 0 s.signing
      → get m (handle_signing_timeouts self s block).0.signing ≡ some st
      → ((get m s.signing ≡ some st) × (block < deadline_of st)) ⊎ CanSign self st
  unfolding handle_signing_timeouts
  handle_signing_timeouts-CanSign self s block m st f e =
      go (get m s.signing) refl
        (sym (get-retain self block 0 s.signing s.signature_id_to_message m f) ∙ e)
    where
      go :
          (o : Option SigningState)
          → get m s.signing ≡ o
          → and_then o (timed_out self block m) ≡ some st
          → ((get m s.signing ≡ some st) × (block < deadline_of st)) ⊎ CanSign self st
      go none g e = absurd (ground arith)
      go (some st0) g e = elim (timed_out-CanSign self block m st0 st e) [
        | inl (same, live) ↦ inl (rw (g, same) refl, rw same live)
        | inr can ↦ inr can
      ]
