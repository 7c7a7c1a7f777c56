-- ===== src/Validator/Sign/Tests.antt =====
-- The generation of nonces at concrete requests and approvals.
use safenet.Prelude.{◌≡◌, refl, some, [], ◌∷◌, true}
use safenet.Prelude.BTree.{get, insert}
use safenet.Validator.State.{State, SigningState, WaitingForRequest, WaitingForOracle}
use safenet.Validator.Sign.{SignEvent, handle_sign, OracleResultEvent, handle_oracle_result}
use safenet.Validator.Sign.Packets.{awaits_oracle}
use safenet.Validator.Sign.Approval.{
  IsApproved, handle_sign-generate_nonces, handle_oracle_result-generate_nonces,
}
use safenet.Samples.{sample_frost, machine, staged, sample_packet, one_two_three}

abbrev request : SignEvent
request = record { gid = 77; message = 500; sid = 70 }

handle_sign-generate_nonces_example :
    (w : WaitingForRequest) × (get 500 staged.signing ≡ some (SigningState.waiting_for_request w))
    × (w.group_id ≡ 77)
    × IsApproved w.packet w.oracle_approved
    × (70 ≡ request.sid)
unfolding handle_sign get insert awaits_oracle
handle_sign-generate_nonces_example =
    handle_sign-generate_nonces machine staged 12 request 77 70 8 refl

-- A session for message 500 that waits for oracle 50.
abbrev asked : WaitingForOracle
asked = record {
  key_share = 8;
  oracle = 50;
  group_id = 77;
  signature_id = 70;
  packet = sample_packet;
  signers = one_two_three;
  deadline = 15;
}

abbrev asking : State
asking = record staged {
  signing = (500, SigningState.waiting_for_oracle asked) ∷ [];
  signature_id_to_message = (70, 500) ∷ [];
}

abbrev approval : OracleResultEvent
approval = record { request_id = 500; approved = true }

handle_oracle_result-generate_nonces_example :
    (w : WaitingForOracle) × (get 500 asking.signing ≡ some (SigningState.waiting_for_oracle w))
    × (w.oracle ≡ 50)
    × (approval.approved ≡ true)
    × (70 ≡ w.signature_id)
unfolding handle_oracle_result get insert
handle_oracle_result-generate_nonces_example =
    handle_oracle_result-generate_nonces machine asking 13 50 approval 77 70 8 refl
