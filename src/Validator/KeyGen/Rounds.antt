-- ===== src/Validator/KeyGen/Rounds.antt =====
-- The commitment round and the share round (`handle_genesis_key_gen`, `handle_key_gen_setup`,
-- `handle_key_gen_committed`, `handle_key_gen_secret_shared` of
-- crates/validator/src/state/keygen.rs).
use safenet.Prelude.{
  ℕ, Option, none, some, List, [], ◌∷◌, ◌++◌, Bool, true, false, if◌then◌else◌, saturating_add,
  saturating_mul, map_option, ◌==◌, length, as_u16,
}
use safenet.Prelude.BTree.{BTreeMap, insert, contains_key, set_insert}
use safenet.Alloy.{Alloy, Address, B256}
use safenet.Consensus.Epoch.{genesis}
use safenet.Consensus.Group.{Group, group_of}
use safenet.Validator.Frost.{Frost}
use safenet.Validator.State.{
  Transition, State, waiting_for_genesis, collecting_commitments, collecting_shares,
  collecting_confirmations, CollectingCommitments, CollectingShares, KeyGenCommitment,
  KeyGenParticipation, KeyGenConfirmation, ConfirmationDeadlines, Commands, Result, action, Action,
}
use safenet.Validator.KeyGen.Start.{
  start_key_gen, finalize_key_gen_commitments, confirm_key_gen, fail_rollover, group_commitments_of,
  key_gen_deadline,
}

module _ ⦃F : Frost⦄ where
  -- The fields of the coordinator's events that the handlers read.
  pub record KeyGenCommittedEvent : Type 0 where
    pub gid : B256
    pub participant : Address
    pub commitment : F.Commitment

  pub record KeyGenSecretSharedEvent : Type 0 where
    pub gid : B256
    pub participant : Address
    pub share : F.SecretShare

  -- `commitments.len() as u16 == count`
  abbrev pub is_complete : {V : Type 0} → BTreeMap V → Group → Bool
  is_complete m group = as_u16 (length m) == group.count

  -- The setup's own commitment, unless a reorg has already replayed it.
  unfoldable pub setup_commands :
      Transition → CollectingCommitments → List B256 → F.Secrets → Commands
  setup_commands self c poap secrets =
      if contains_key self.account c.commitments
      then []
      else action (
          Action.key_gen_and_commit c.group.root c.group.count c.group.threshold c.group.context
            poap (F.commitment secrets) c.deadline)
        ∷ []

  unfoldable pub setup_resumed :
      Transition → State → CollectingCommitments → List B256 → F.Secrets → Result
  unfolding setup_commands finalize_key_gen_commitments
  setup_resumed self s c poap secrets =
      let commands = setup_commands self c poap secrets in
      if is_complete c.commitments c.group
      then (let deadline =
            map_option (λ d. saturating_add d self.config.key_gen_timeout) c.deadline in
          let (rollover, finalize_commands) =
            finalize_key_gen_commitments c.next_epoch c.group (some secrets) c.commitments
              deadline in
          (record s { rollover = rollover }, commands ++ finalize_commands))
      else (
        record s {
          rollover =
              collecting_commitments
                (record c { secrets = KeyGenCommitment.participating poap (some secrets) });
        },
        commands,
      )

  unfoldable pub handle_key_gen_setup : Transition → State → B256 → F.Secrets → Result
  unfolding setup_resumed
  handle_key_gen_setup self s group_id secrets = elim s.rollover [
    | collecting_commitments c ↦ elim c.secrets [
      | KeyGenCommitment.participating poap none ↦
          if group_id == c.group.id then setup_resumed self s c poap secrets else (s, [])
      | _ ↦ (s, [])
    ]
    | _ ↦ (s, [])
  ]

  -- Only valid commitments are kept.
  unfoldable pub add_commitment :
      CollectingCommitments → KeyGenCommittedEvent → BTreeMap F.VerifiedCommitment
  add_commitment c event = elim (F.verify_commitment event.participant event.commitment) [
    | some commitment ↦ insert event.participant commitment c.commitments
    | none ↦ c.commitments
  ]

  -- The secrets that a complete round goes on with: `none` while the setup is outstanding.
  unfoldable pub round_secrets : KeyGenCommitment → Option (Option F.Secrets)
  round_secrets KeyGenCommitment.observing = some none
  round_secrets (KeyGenCommitment.participating poap (some secrets)) = some (some secrets)
  round_secrets (KeyGenCommitment.participating poap none) = none

  unfoldable pub commitments_complete : Transition → State → ℕ → CollectingCommitments → Result
  unfolding round_secrets finalize_key_gen_commitments
  commitments_complete self s block c = elim (round_secrets c.secrets) [
    | none ↦ (record s { rollover = collecting_commitments c }, [])
    | some secrets ↦
        let deadline = map_option (λ d. key_gen_deadline self block) c.deadline in
        let (rollover, commands) =
          finalize_key_gen_commitments c.next_epoch c.group secrets c.commitments deadline in
        (record s { rollover = rollover }, commands)
  ]

  unfoldable pub handle_key_gen_committed : Transition → State → ℕ → KeyGenCommittedEvent → Result
  unfolding add_commitment commitments_complete
  handle_key_gen_committed self s block event = elim s.rollover [
    | collecting_commitments c ↦
        if c.group.id == event.gid
        then (let c' = record c { commitments = add_commitment c event } in
            if is_complete c'.commitments c'.group
            then commitments_complete self s block c'
            else (record s { rollover = collecting_commitments c' }, []))
        else (s, [])
    | _ ↦ (s, [])
  ]

  -- The public checks of a share, then the private check of the part encrypted to this validator.
  unfoldable pub add_share : CollectingShares → KeyGenSecretSharedEvent → CollectingShares × Bool
  add_share c event =
      elim (F.verify_secret_share (group_commitments_of c.participation) event.participant
        event.share) [
          | none ↦ (c, false)
          | some encrypted ↦
              let c' = record c { shared = set_insert event.participant c.shared } in
              elim c.participation [
                | KeyGenParticipation.observing commitments ↦ (c', false)
                | KeyGenParticipation.participating sharing ↦
                    elim (F.verify_encrypted_secret_share sharing event.participant encrypted) [
                      | some share ↦
                          (record c' { shares = insert event.participant share c.shares }, false)
                      | none ↦ (c', true)
                    ]
              ]
        ]

  unfoldable pub share_commands :
      Transition → ℕ → CollectingShares → KeyGenSecretSharedEvent → Bool → Commands
  share_commands self block c event false = []
  share_commands self block c event true =
      action (
        Action.key_gen_complain c.group.id event.participant
          (map_option (λ d. key_gen_deadline self block) c.deadline))
      ∷ []

  unfoldable pub confirmation_deadlines : Transition → ℕ → ConfirmationDeadlines
  confirmation_deadlines self block =
      let timeout = self.config.key_gen_timeout in
      record {
        complain = saturating_add block timeout;
        response = saturating_add block (saturating_mul timeout 2);
        confirm = saturating_add block (saturating_mul timeout 3);
      }

module _ ⦃A : Alloy⦄ ⦃F : Frost⦄ where
  unfoldable pub handle_genesis_key_gen : Transition → State → B256 → Result
  unfolding start_key_gen
  handle_genesis_key_gen self s gid = elim s.rollover [
    | waiting_for_genesis ↦
        if gid == (group_of self.genesis).id
        then start_key_gen self s genesis self.genesis none
        else (s, [])
    | _ ↦ (s, [])
  ]

  -- The status with which the confirmation round opens, or `none` if the key share cannot be
  -- finalized.
  unfoldable pub opening_status :
      Transition
      → CollectingShares
      → Option ConfirmationDeadlines
      → Option (KeyGenConfirmation × Commands)
  unfolding confirm_key_gen
  opening_status self c deadlines = elim c.participation [
    | KeyGenParticipation.observing commitments ↦ some (KeyGenConfirmation.observing, [])
    | KeyGenParticipation.participating sharing ↦
        if is_complete c.shares c.group
        then confirm_key_gen self c.next_epoch c.group sharing c.shares deadlines
        else some (KeyGenConfirmation.collecting c.shares, [])
  ]

  unfoldable pub shares_complete : Transition → State → ℕ → CollectingShares → Commands → Result
  unfolding opening_status confirmation_deadlines
  shares_complete self s block c commands =
      let deadlines = map_option (λ d. confirmation_deadlines self block) c.deadline in
      elim (opening_status self c deadlines) [
        | none ↦ fail_rollover s c.next_epoch
        | some (status, confirm_commands) ↦ (
          record s {
            rollover = collecting_confirmations (record {
              next_epoch = c.next_epoch;
              group = c.group;
              participation = c.participation;
              status = status;
              confirmations = [];
              complaints = c.complaints;
              deadlines = deadlines;
            });
          },
          commands ++ confirm_commands,
        )
      ]

  unfoldable pub handle_key_gen_secret_shared :
      Transition → State → ℕ → KeyGenSecretSharedEvent → Result
  unfolding add_share share_commands shares_complete
  handle_key_gen_secret_shared self s block event = elim s.rollover [
    | collecting_shares c ↦
        if c.group.id == event.gid
        then (let (c', complains) = add_share c event in
            let commands = share_commands self block c' event complains in
            if is_complete c'.shared c'.group
            then shares_complete self s block c' commands
            else (record s { rollover = collecting_shares c' }, commands))
        else (s, [])
    | _ ↦ (s, [])
  ]
