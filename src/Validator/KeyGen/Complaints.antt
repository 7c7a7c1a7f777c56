-- ===== src/Validator/KeyGen/Complaints.antt =====
-- Complaints and their responses (`handle_key_gen_complained`,
-- `handle_key_gen_complaint_responded` of crates/validator/src/state/keygen.rs).
use safenet.Prelude.{
  ℕ, ◌+◌, Option, none, some, [], ◌∷◌, Bool, true, ◌&&◌, if◌then◌else◌, map_option, unwrap_or, ◌==◌,
  leb, as_u16,
}
use safenet.Prelude.BTree.{BTreeMap, get, insert, remove, contains, set_insert}
use safenet.Alloy.{Alloy, Address, B256, U256}
use safenet.Consensus.Epoch.{EpochId}
use safenet.Consensus.Group.{Group, also_exclude}
use safenet.Validator.Frost.{Frost}
use safenet.Validator.State.{
  Transition, State, Complaint, collecting_shares, collecting_confirmations,
  CollectingConfirmations, KeyGenParticipation, KeyGenConfirmation, Commands, Result, action,
  Action,
}
use safenet.Validator.KeyGen.Start.{
  restart_key_gen_excluding, confirm_key_gen, fail_rollover, group_commitments_of, key_gen_deadline,
  within,
}
use safenet.Validator.KeyGen.Rounds.{is_complete}

pub record KeyGenComplainedEvent : Type 0 where
  pub gid : B256
  pub plaintiff : Address
  pub accused : Address

pub record KeyGenComplaintRespondedEvent : Type 0 where
  pub gid : B256
  pub plaintiff : Address
  pub accused : Address
  pub secret_share : U256

-- The complaint after one more; `total` wraps like the `u16` that it is.
unfoldable pub count_complaint : Option Complaint → Address → Bool → Complaint
count_complaint old plaintiff requires_response =
    let complaint = unwrap_or old (record { total = 0; unresponded = [] }) in
    record {
      total = as_u16 (complaint.total + 1);
      unresponded =
          if requires_response
          then set_insert plaintiff complaint.unresponded
          else complaint.unresponded;
    }

-- What `unresponded.remove(&plaintiff)` leaves, if the complaint was waiting for a response.
unfoldable pub answer_complaint :
    BTreeMap Complaint → Address → Address → Option (BTreeMap Complaint)
answer_complaint complaints accused plaintiff = elim (get accused complaints) [
  | none ↦ none
  | some complaint ↦
      if contains plaintiff complaint.unresponded
      then some (
          insert accused (record complaint { unresponded = remove plaintiff complaint.unresponded })
            complaints)
      else none
]

module _ ⦃F : Frost⦄ where
  -- This validator's answer, if it is the one accused.
  unfoldable pub complaint_response :
      Transition → Group → KeyGenParticipation → KeyGenComplainedEvent → Bool → Option ℕ → Commands
  complaint_response self group (KeyGenParticipation.observing commitments) event requires
        expires_at =
      []
  complaint_response self group (KeyGenParticipation.participating sharing) event requires
        expires_at =
      if event.accused == self.account && requires
      then (elim (F.reveal_secret_share sharing event.plaintiff) [
        | some secret_share ↦
            action
              (Action.key_gen_complaint_response group.id event.plaintiff secret_share expires_at)
            ∷ []
        | none ↦ []
      ])
      else []

  -- `shares.insert(accused, share)`, if this validator is the plaintiff.
  unfoldable pub reveal_to :
      Transition
      → KeyGenComplaintRespondedEvent
      → F.VerifiedShare
      → BTreeMap F.VerifiedShare
      → BTreeMap F.VerifiedShare
  reveal_to self event share shares =
      if event.plaintiff == self.account then insert event.accused share shares else shares

  unfoldable pub reveal_status :
      Transition
      → KeyGenComplaintRespondedEvent
      → F.VerifiedShare
      → KeyGenConfirmation
      → KeyGenConfirmation
  unfolding reveal_to
  reveal_status self event share (KeyGenConfirmation.collecting shares) =
      KeyGenConfirmation.collecting (reveal_to self event share shares)
  reveal_status self event share (KeyGenConfirmation.confirmed key_share) =
      KeyGenConfirmation.confirmed key_share
  reveal_status self event share KeyGenConfirmation.observing = KeyGenConfirmation.observing

module _ ⦃A : Alloy⦄ ⦃F : Frost⦄ where
  -- The end of `handle_key_gen_complained`: `s` has the complaint counted.
  unfoldable pub complaint_counted :
      Transition
      → State
      → ℕ
      → EpochId
      → Group
      → KeyGenParticipation
      → KeyGenComplainedEvent
      → Complaint
      → Bool
      → Option ℕ
      → Option ℕ
      → Result
  unfolding complaint_response
  complaint_counted self s block next_epoch group participation event complaint requires restart
        expires =
      if leb group.threshold complaint.total
      then restart_key_gen_excluding self s next_epoch (also_exclude group (event.accused ∷ []))
          restart
      else (s, complaint_response self group participation event requires expires)

  unfoldable pub handle_key_gen_complained : Transition → State → ℕ → KeyGenComplainedEvent → Result
  unfolding complaint_counted count_complaint
  handle_key_gen_complained self s block event = elim s.rollover [
    | collecting_shares c ↦
        if c.group.id == event.gid
        then (let restart = map_option (λ d. key_gen_deadline self block) c.deadline in
            let complaint = count_complaint (get event.accused c.complaints) event.plaintiff true in
            let c' = record c { complaints = insert event.accused complaint c.complaints } in
            complaint_counted self (record s { rollover = collecting_shares c' }) block c.next_epoch
              c.group c.participation event complaint true restart restart)
        else (s, [])
    | collecting_confirmations c ↦
        if c.group.id == event.gid
        then (let restart = map_option (λ d. key_gen_deadline self block) c.deadlines in
            let expires = map_option (λ d. d.response) c.deadlines in
            let requires = within (map_option (λ d. d.complain) c.deadlines) block in
            let complaint =
              count_complaint (get event.accused c.complaints) event.plaintiff requires in
            let c' = record c { complaints = insert event.accused complaint c.complaints } in
            complaint_counted self (record s { rollover = collecting_confirmations c' }) block
              c.next_epoch c.group c.participation event complaint requires restart expires)
        else (s, [])
    | _ ↦ (s, [])
  ]

  -- A revealed share that does not verify restarts the key generation without the accused.
  unfoldable pub reject_response :
      Transition → State → ℕ → EpochId → Group → Address → Option ℕ → Result
  reject_response self s block next_epoch group accused deadline =
      restart_key_gen_excluding self s next_epoch (also_exclude group (accused ∷ []))
        (map_option (λ d. key_gen_deadline self block) deadline)

  -- The confirmation that follows if the revealed share was the last one missing.
  unfoldable pub finish_confirmation : Transition → State → CollectingConfirmations → Result
  finish_confirmation self s c =
      let unchanged : Result = (record s { rollover = collecting_confirmations c }, []) in
      elim c.participation [
        | KeyGenParticipation.observing commitments ↦ unchanged
        | KeyGenParticipation.participating sharing ↦ elim c.status [
          | KeyGenConfirmation.collecting shares ↦
              if is_complete shares c.group
              then (elim (confirm_key_gen self c.next_epoch c.group sharing shares c.deadlines) [
                | some (status, commands) ↦ (
                  record s { rollover = collecting_confirmations (record c { status = status }) },
                  commands,
                )
                | none ↦ fail_rollover s c.next_epoch
              ])
              else unchanged
          | _ ↦ unchanged
        ]
      ]

  unfoldable pub handle_key_gen_complaint_responded :
      Transition → State → ℕ → KeyGenComplaintRespondedEvent → Result
  unfolding answer_complaint reveal_to reveal_status reject_response
  handle_key_gen_complaint_responded self s block event = elim s.rollover [
    | collecting_shares c ↦
        if c.group.id == event.gid
        then (elim (answer_complaint c.complaints event.accused event.plaintiff) [
          | none ↦ (s, [])
          | some complaints ↦
              let c' = record c { complaints = complaints } in
              elim (F.verify_revealed_secret_share (group_commitments_of c.participation)
                event.plaintiff event.accused event.secret_share) [
                  | some share ↦ (
                    record s {
                      rollover =
                          collecting_shares
                            (record c' { shares = reveal_to self event share c.shares });
                    },
                    [],
                  )
                  | none ↦
                      reject_response self (record s { rollover = collecting_shares c' }) block
                        c.next_epoch c.group event.accused c.deadline
                ]
        ])
        else (s, [])
    | collecting_confirmations c ↦
        if (c.group.id == event.gid) && within (map_option (λ d. d.response) c.deadlines) block
        then (elim (answer_complaint c.complaints event.accused event.plaintiff) [
          | none ↦ (s, [])
          | some complaints ↦
              let c' = record c { complaints = complaints } in
              elim (F.verify_revealed_secret_share (group_commitments_of c.participation)
                event.plaintiff event.accused event.secret_share) [
                  | some share ↦
                      finish_confirmation self s
                        (record c' { status = reveal_status self event share c.status })
                  | none ↦
                      reject_response self (record s { rollover = collecting_confirmations c' })
                        block c.next_epoch c.group event.accused
                        (map_option (λ d. d.response) c.deadlines)
                ]
        ])
        else (s, [])
    | _ ↦ (s, [])
  ]
