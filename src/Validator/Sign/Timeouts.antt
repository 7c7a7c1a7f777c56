-- ===== src/Validator/Sign/Timeouts.antt =====
-- Stalled signing ceremonies (`handle_signing_timeouts` of crates/validator/src/state/sign.rs).
use safenet.Prelude.{
  ℕ, Option, none, some, List, [], ◌∷◌, ◌++◌, Bool, true, false, not, ltb, leb, ◌==◌, if◌then◌else◌,
  ◌||◌, saturating_add, length, unwrap_or, filter,
}
use safenet.Prelude.BTree.{BTreeMap, BTreeSet, remove, contains, contains_key, keys, values}
use safenet.Alloy.{Alloy, Address, B256}
use safenet.Validator.Frost.{Frost}
use safenet.Validator.State.{
  Transition, State, SigningState, WaitingForRequest, CollectNonceCommitments, CollectSigningShares,
  waiting_for_request, waiting_for_oracle, collect_nonce_commitments, collect_signing_shares,
  waiting_for_attestation, SigningSelection, Commands, Result, action, effect, Action, Effect,
}
use safenet.Validator.Sign.Packets.{attestation_action}

-- `max_by_key(|selection| selection.shares_from.len())`: the last of the largest.
unfoldable pub largest_from :
    Option SigningSelection → List SigningSelection → Option SigningSelection
largest_from best [] = best
largest_from none (x ∷ xs) = largest_from (some x) xs
largest_from (some b) (x ∷ xs) =
    largest_from (some (if leb (length b.shares_from) (length x.shares_from) then x else b)) xs

unfoldable pub canonical_selection : ℕ → BTreeMap SigningSelection → SigningSelection
unfolding largest_from
canonical_selection threshold selections =
    unwrap_or
      (largest_from none (filter (λ x. leb threshold (length x.shares_from)) (values selections)))
      (record { shares_from = []; last_signer = none })

-- `Option<Address> == Some(account)`
unfoldable pub is_account : Option Address → Address → Bool
is_account none account = false
is_account (some a) account = a == account

module _ ⦃F : Frost⦄ where
  -- What becomes of one entry: the entry kept, if it is, the signature index, and the commands.
  abbrev pub Outcome : Type 0
  Outcome = Option SigningState × BTreeMap B256 × Commands

  -- Too few signers are left, or this validator is not one of them.
  abbrev pub cannot_sign : Transition → F.KeyShare → BTreeSet → Bool
  cannot_sign self key_share signers =
      ltb (length signers) (F.group_threshold key_share) || not (contains self.account signers)

  unfoldable pub request_timeout :
      Transition → ℕ → B256 → WaitingForRequest → BTreeMap B256 → Outcome
  request_timeout self next_deadline message w index = elim w.responsible [
    | none ↦ (none, index, [])
    | some previously_responsible ↦
        let signers = remove previously_responsible w.signers in
        if cannot_sign self w.key_share signers then (none, index, []) else (
          some (
              waiting_for_request
                (record w { responsible = none; signers = signers; deadline = next_deadline })),
          index,
          action (Action.sign w.group_id message next_deadline) ∷ [],
        )
  ]

  unfoldable pub commitments_timeout :
      Transition → ℕ → B256 → CollectNonceCommitments → BTreeMap B256 → Outcome
  commitments_timeout self next_deadline message c index =
      if ltb (length c.committed) (F.group_threshold c.key_share)
        || not (contains_key self.account c.committed)
      then (none, remove c.signature_id index, [])
      else (
        some (
            collect_signing_shares (record {
              key_share = c.key_share;
              group_id = c.group_id;
              signature_id = c.signature_id;
              committed = c.committed;
              selections = [];
              packet = c.packet;
              signers = keys c.committed;
              deadline = next_deadline;
            })),
        index,
        effect (Effect.use_nonces message c.signature_id) ∷ [],
      )

  unfoldable pub shares_timeout :
      Transition → ℕ → B256 → CollectSigningShares → BTreeMap B256 → Outcome
  shares_timeout self next_deadline message c index =
      let canonical = canonical_selection (F.group_threshold c.key_share) c.selections in
      if cannot_sign self c.key_share canonical.shares_from
      then (none, remove c.signature_id index, [])
      else (
        some (
            waiting_for_request (record {
              key_share = c.key_share;
              group_id = c.group_id;
              responsible = canonical.last_signer;
              packet = c.packet;
              oracle_approved = true;
              signers = canonical.shares_from;
              deadline = next_deadline;
            })),
        remove c.signature_id index,
        if is_account canonical.last_signer self.account
            then action (Action.sign c.group_id message next_deadline) ∷ []
            else [],
      )

  abbrev pub keep_session :
      B256 → Option SigningState → BTreeMap SigningState → BTreeMap SigningState
  keep_session message none rest = rest
  keep_session message (some session) rest = (message, session) ∷ rest

module _ ⦃A : Alloy⦄ ⦃F : Frost⦄ where
  -- The closure given to `retain`.
  unfoldable pub session_timeout : Transition → ℕ → B256 → SigningState → BTreeMap B256 → Outcome
  unfolding request_timeout commitments_timeout shares_timeout
  session_timeout self block message (waiting_for_request w) index =
      if leb w.deadline block
      then request_timeout self (saturating_add block self.config.signing_timeout) message w index
      else (some (waiting_for_request w), index, [])
  session_timeout self block message (waiting_for_oracle w) index =
      if leb w.deadline block
      then (none, remove w.signature_id index, [])
      else (some (waiting_for_oracle w), index, [])
  session_timeout self block message (collect_nonce_commitments c) index =
      if leb c.deadline block
      then commitments_timeout self (saturating_add block self.config.signing_timeout) message c
          index
      else (some (collect_nonce_commitments c), index, [])
  session_timeout self block message (collect_signing_shares c) index =
      if leb c.deadline block
      then shares_timeout self (saturating_add block self.config.signing_timeout) message c index
      else (some (collect_signing_shares c), index, [])
  session_timeout self block message (waiting_for_attestation w) index =
      if leb w.deadline block
      then (
        none,
        remove w.signature_id index,
        action (
              attestation_action w.packet w.signature_id
                (saturating_add block self.config.signing_timeout))
            ∷ [],
      )
      else (some (waiting_for_attestation w), index, [])

  -- `signing.retain`, in the order of the messages.
  unfoldable pub retain :
      Transition
      → ℕ
      → BTreeMap SigningState
      → BTreeMap B256
      → BTreeMap SigningState × BTreeMap B256 × Commands
  unfolding session_timeout
  retain self block [] index = ([], index, [])
  retain self block ((message, session) ∷ rest) index =
      let (kept, index', commands) = session_timeout self block message session index in
      let (rest', index'', commands') = retain self block rest index' in
      (keep_session message kept rest', index'', commands ++ commands')

  unfoldable pub handle_signing_timeouts : Transition → State → ℕ → Result
  unfolding retain
  handle_signing_timeouts self s block =
      let (signing, index, commands) = retain self block s.signing s.signature_id_to_message in
      (record s { signing = signing; signature_id_to_message = index }, commands)
