-- ===== src/Validator/Sign.antt =====
-- Signing ceremonies (crates/validator/src/state/sign.rs): one function for each handler. A map
-- entry that a handler removes and puts back is removed and put back here too.
pub mod Packets
pub mod Timeouts
pub mod Sweep
pub mod Nonces
pub mod Approval
pub mod Expiry
mod Tests
use safenet.Prelude.{
  ℕ, ◌≡◌, Option, none, some, List, [], ◌∷◌, Bool, true, false, not, ltb, ◌==◌, if◌then◌else◌, ◌&&◌,
  saturating_add, length, and_then, unwrap_or,
}
use safenet.Prelude.BTree.{
  BTreeMap, BTreeSet, get, insert, remove, contains, contains_key, set_insert,
}
use safenet.Alloy.{Alloy, Address, B256}
use safenet.Validator.Frost.{Frost}
use safenet.Validator.State.{
  Transition, State, SigningState, WaitingForRequest, WaitingForOracle, CollectNonceCommitments,
  CollectSigningShares, WaitingForAttestation, waiting_for_request, waiting_for_oracle,
  collect_nonce_commitments, collect_signing_shares, waiting_for_attestation, Packet,
  SigningSelection, Command, Commands, Result, action, effect, Action, Effect, Callback,
}
use Packets.{attestation_callback, awaits_oracle, signing_id}

-- The fields of the coordinator's and the oracle's events that the handlers read.
pub record SignEvent : Type 0 where
  pub gid : B256
  pub message : B256
  pub sid : B256

pub record OracleResultEvent : Type 0 where
  pub request_id : B256
  pub approved : Bool

pub record SignSharedEvent : Type 0 where
  pub sid : B256
  pub selection_root : B256
  pub participant : Address

module _ ⦃F : Frost⦄ where
  pub record SignCommittedNoncesEvent : Type 0 where
    pub sid : B256
    pub participant : Address
    pub nonces : F.SignNonces

  -- `state.signing.remove(&message)`
  abbrev pub take_session : B256 → State → State
  take_session message s = record s { signing = remove message s.signing }

  -- `state.signing.insert(message, session)`
  abbrev pub put_session : B256 → SigningState → State → State
  put_session message session s = record s { signing = insert message session s.signing }

  -- `state.signature_id_to_message.insert(sid, message)` and its `remove`
  abbrev pub link : B256 → B256 → State → State
  link sid message s = record s {
    signature_id_to_message = insert sid message s.signature_id_to_message;
  }

  abbrev pub unlink : B256 → State → State
  unlink sid s = record s { signature_id_to_message = remove sid s.signature_id_to_message }

  abbrev pub signing_deadline : Transition → ℕ → ℕ
  signing_deadline self block = saturating_add block self.config.signing_timeout

  -- The arms of `handle_sign` for a request that is waited for; `s` has the session taken out.
  unfoldable pub sign_requested : Transition → ℕ → SignEvent → WaitingForRequest → State → Result
  sign_requested self block event w s = elim (awaits_oracle w.packet w.oracle_approved) [
    | some oracle ↦ (
      link event.sid event.message (
          put_session event.message
            (waiting_for_oracle (record {
              key_share = w.key_share;
              oracle = oracle;
              group_id = w.group_id;
              signature_id = event.sid;
              packet = w.packet;
              signers = w.signers;
              deadline = saturating_add block self.config.oracle_timeout;
            }))
            s),
      [],
    )
    | none ↦ (
      link event.sid event.message (
          put_session event.message
            (collect_nonce_commitments (record {
              key_share = w.key_share;
              group_id = event.gid;
              signature_id = event.sid;
              committed = [];
              packet = w.packet;
              signers = w.signers;
              deadline = signing_deadline self block;
            }))
            s),
      effect (Effect.generate_nonces event.gid event.sid w.key_share) ∷ [],
    )
  ]

  unfoldable pub handle_sign : Transition → State → ℕ → SignEvent → Result
  unfolding sign_requested
  handle_sign self s block event =
      let taken = take_session event.message s in
      elim (get event.message s.signing) [
        | some (waiting_for_request w) ↦
            if w.group_id == event.gid
            then sign_requested self block event w taken
            else (put_session event.message (waiting_for_request w) taken, [])
        | some other ↦ (put_session event.message other taken, [])
        | none ↦ (taken, [])
      ]

  unfoldable pub handle_nonce_commitments : State → B256 → F.SignNonces → Result
  handle_nonce_commitments s signature_id nonces =
      elim (and_then (get signature_id s.signature_id_to_message) (λ m. get m s.signing)) [
        | some (collect_nonce_commitments c) ↦
            if c.signature_id == signature_id
            then (s, action (Action.commit_nonces signature_id nonces c.deadline) ∷ [])
            else (s, [])
        | _ ↦ (s, [])
      ]

  unfoldable pub handle_oracle_result :
      Transition → State → ℕ → Address → OracleResultEvent → Result
  handle_oracle_result self s block oracle event =
      let taken = take_session event.request_id s in
      elim (get event.request_id s.signing) [
        | some (waiting_for_oracle w) ↦
            if w.oracle == oracle
            then if event.approved
              then (
                put_session event.request_id
                    (collect_nonce_commitments (record {
                      key_share = w.key_share;
                      group_id = w.group_id;
                      signature_id = w.signature_id;
                      committed = [];
                      packet = w.packet;
                      signers = w.signers;
                      deadline = signing_deadline self block;
                    }))
                    taken,
                effect (Effect.generate_nonces w.group_id w.signature_id w.key_share) ∷ [],
              )
              else (unlink w.signature_id taken, [])
            else (put_session event.request_id (waiting_for_oracle w) taken, [])
        | some other ↦ (put_session event.request_id other taken, [])
        | none ↦ (taken, [])
      ]

  -- The first valid nonce commitment of a participant in the signing selection counts.
  unfoldable pub commit_nonces :
      CollectNonceCommitments → SignCommittedNoncesEvent → BTreeMap F.CommittedNonces
  commit_nonces c event =
      if not (contains event.participant c.signers)
      then c.committed
      else if contains_key event.participant c.committed
      then c.committed
      else (elim (F.verify_committed_nonces event.participant event.nonces) [
        | some nonces ↦ insert event.participant nonces c.committed
        | none ↦ c.committed
      ])

  unfoldable pub handle_sign_committed_nonces :
      Transition → State → ℕ → SignCommittedNoncesEvent → Result
  unfolding commit_nonces
  handle_sign_committed_nonces self s block event = elim (get event.sid s.signature_id_to_message) [
    | none ↦ (s, [])
    | some message ↦
        let taken = take_session message s in
        elim (get message s.signing) [
          | some (collect_nonce_commitments c) ↦
              let committed = commit_nonces c event in
              if ltb (length committed) (length c.signers)
              then (
                put_session message (collect_nonce_commitments (record c { committed = committed }))
                    taken,
                [],
              )
              else (
                put_session message
                    (collect_signing_shares (record {
                      key_share = c.key_share;
                      group_id = c.group_id;
                      signature_id = c.signature_id;
                      committed = committed;
                      selections = [];
                      packet = c.packet;
                      signers = c.signers;
                      deadline = signing_deadline self block;
                    }))
                    taken,
                effect (Effect.use_nonces message c.signature_id) ∷ [],
              )
          | some other ↦ (put_session message other taken, [])
          | none ↦ (taken, [])
        ]
  ]

  -- `selections.entry(root).or_default()`, then the share's signer.
  unfoldable pub record_share :
      BTreeMap SigningSelection → SignSharedEvent → BTreeMap SigningSelection
  record_share selections event =
      let selection =
        unwrap_or (get event.selection_root selections)
          (record { shares_from = []; last_signer = none }) in
      insert event.selection_root
        (record {
          shares_from = set_insert event.participant selection.shares_from;
          last_signer = some event.participant;
        })
        selections

  unfoldable pub handle_sign_shared : State → SignSharedEvent → Result
  unfolding record_share
  handle_sign_shared s event = elim (get event.sid s.signature_id_to_message) [
    | none ↦ (s, [])
    | some message ↦ elim (get message s.signing) [
      | some (collect_signing_shares c) ↦ (
        put_session message
            (collect_signing_shares (record c { selections = record_share c.selections event })) s,
        [],
      )
      | _ ↦ (s, [])
    ]
  ]

  unfoldable pub handle_sign_completed : Transition → State → ℕ → B256 → Result
  handle_sign_completed self s block sid = elim (get sid s.signature_id_to_message) [
    | none ↦ (s, [])
    | some message ↦
        let taken = take_session message s in
        elim (get message s.signing) [
          | some (collect_signing_shares c) ↦ (
            put_session message
                (waiting_for_attestation (record {
                  signature_id = c.signature_id;
                  packet = c.packet;
                  deadline = signing_deadline self block;
                }))
                taken,
            [],
          )
          | some other ↦ (put_session message other taken, [])
          | none ↦ (taken, [])
        ]
  ]

  -- The attested signature id is only logged.
  unfoldable pub handle_sign_attested : State → B256 → Result
  handle_sign_attested s message =
      let taken = take_session message s in
      elim (and_then (get message s.signing) signing_id) [
        | some sid ↦ (unlink sid taken, [])
        | none ↦ (taken, [])
      ]

module _ ⦃A : Alloy⦄ ⦃F : Frost⦄ where
  unfoldable pub handle_nonces : Transition → State → B256 → F.SigningNonces → Result
  handle_nonces self s message nonces = elim (get message s.signing) [
    | some (collect_signing_shares c) ↦
        elim (F.signature_share c.key_share nonces c.committed message) [
          | some (selection, share, proof) ↦ (
            s,
            action (
                  Action.sign_share c.signature_id selection share proof
                    (attestation_callback c.packet self.config.consensus) c.deadline)
                ∷ [],
          )
          | none ↦ (s, [])
        ]
    | _ ↦ (s, [])
  ]
