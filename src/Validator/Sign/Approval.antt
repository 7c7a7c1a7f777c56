-- ===== src/Validator/Sign/Approval.antt =====
-- When nonces are generated (crates/validator/src/state/sign.rs).
use safenet.Prelude.{ℕ, ◌≡◌, refl, Option, none, some, [], ◌∷◌, Bool, true, false, arith}
use safenet.Prelude.BTree.{get}
use safenet.Alloy.{Address, B256}
use safenet.Validator.Frost.{Frost}
use safenet.Validator.State.{
  Transition, State, SigningState, waiting_for_request, waiting_for_oracle, WaitingForRequest,
  WaitingForOracle, effect, Effect, Packet, transaction, epoch_rollover,
}
use safenet.Validator.Sign.{SignEvent, handle_sign, OracleResultEvent, handle_oracle_result}
use safenet.Validator.Sign.Packets.{awaits_oracle}

-- An oracle has approved the packet, where it needs one.
abbrev pub IsApproved : Packet → Bool → Type 0
IsApproved (transaction epoch oracle oracle_data tx) approved = approved ≡ true
IsApproved (epoch_rollover active_epoch proposed_epoch rollover_block gid key) approved = Unit

awaits_oracle-IsApproved :
    (p : Packet) (approved : Bool) → awaits_oracle p approved ≡ none → IsApproved p approved
unfolding awaits_oracle
awaits_oracle-IsApproved (transaction epoch oracle oracle_data tx) true h = refl
awaits_oracle-IsApproved (transaction epoch oracle oracle_data tx) false h = cc
awaits_oracle-IsApproved (epoch_rollover active_epoch proposed_epoch block gid key) approved h = tt

module _ ⦃F : Frost⦄ where
  requested_at :
      (self : Transition) (s : State) (block : ℕ) (e : SignEvent) (gid sid : B256)
      (key_share : F.KeyShare) (o : Option SigningState)
      → get e.message s.signing ≡ o
      → (handle_sign self s block e).1 ≡ effect (Effect.generate_nonces gid sid key_share) ∷ []
      → (w : WaitingForRequest) × (o ≡ some (waiting_for_request w))
        × (w.group_id ≡ e.gid)
        × IsApproved w.packet w.oracle_approved
        × (sid ≡ e.sid)
  unfolding handle_sign
  requested_at self s block e gid sid k (some (waiting_for_request w)) at h = (
    w,
    refl,
    ground arith,
    awaits_oracle-IsApproved w.packet w.oracle_approved (ground arith),
    ground arith,
  )
  requested_at self s block e gid sid k other at h = absurd (ground arith)

  -- A signing request leads to the generation of nonces only if its message waits for a request
  -- to its group and its packet is a rollover or was approved by its oracle, and then for the
  -- request's signature id.
  pub handle_sign-generate_nonces :
      (self : Transition) (s : State) (block : ℕ) (e : SignEvent) (gid sid : B256)
      (key_share : F.KeyShare)
      → (handle_sign self s block e).1 ≡ effect (Effect.generate_nonces gid sid key_share) ∷ []
      → (w : WaitingForRequest) × (get e.message s.signing ≡ some (waiting_for_request w))
        × (w.group_id ≡ e.gid)
        × IsApproved w.packet w.oracle_approved
        × (sid ≡ e.sid)
  handle_sign-generate_nonces self s block e gid sid k h =
      requested_at self s block e gid sid k (get e.message s.signing) refl h

  approved_at :
      (self : Transition) (s : State) (block : ℕ) (oracle : Address) (e : OracleResultEvent)
      (gid sid : B256) (key_share : F.KeyShare) (o : Option SigningState)
      → get e.request_id s.signing ≡ o
      → (handle_oracle_result self s block oracle e).1
        ≡ effect (Effect.generate_nonces gid sid key_share) ∷ []
      → (w : WaitingForOracle) × (o ≡ some (waiting_for_oracle w))
        × (w.oracle ≡ oracle)
        × (e.approved ≡ true)
        × (sid ≡ w.signature_id)
  unfolding handle_oracle_result
  approved_at self s block oracle e gid sid k (some (waiting_for_oracle w)) at h =
      (w, refl, ground arith, ground arith, ground arith)
  approved_at self s block oracle e gid sid k other at h = absurd (ground arith)

  -- An oracle's result leads to the generation of nonces only if it is an approval, from the
  -- oracle that the session of the message awaits, and then for that session's signature id.
  pub handle_oracle_result-generate_nonces :
      (self : Transition) (s : State) (block : ℕ) (oracle : Address) (e : OracleResultEvent)
      (gid sid : B256) (key_share : F.KeyShare)
      → (handle_oracle_result self s block oracle e).1
        ≡ effect (Effect.generate_nonces gid sid key_share) ∷ []
      → (w : WaitingForOracle) × (get e.request_id s.signing ≡ some (waiting_for_oracle w))
        × (w.oracle ≡ oracle)
        × (e.approved ≡ true)
        × (sid ≡ w.signature_id)
  handle_oracle_result-generate_nonces self s block oracle e gid sid k h =
      approved_at self s block oracle e gid sid k (get e.request_id s.signing) refl h
