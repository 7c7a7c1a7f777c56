-- ===== src/Consensus/Tests.antt =====
-- Runs of crates/validator/src/consensus, and its theorems at concrete inputs.
use safenet.Prelude.{
  ◌+◌, ◌*◌, ◌^◌, ◌≤◌, ◌<◌, ◌≡◌, refl, none, some, List, [], ◌∷◌, true, false, length, if◌then◌else◌,
  get_or, get_last?, unwrap_or, ◌⊎◌, ◌↔◌, arith, ◌&&◌, ◌||◌, not,
}
use safenet.Prelude.BTree.{contains, get, insert, remove, extend, remove_all, elem}
use safenet.Alloy.{Address, B256, be_bytes}
use safenet.Consensus.Epoch.{
  number, next_number, from_raw, raw_value, next_number_bounds, from_raw-raw_value,
}
use safenet.Consensus.Merkle.{build, root, proof, verify}
use safenet.Consensus.Merkle.Inclusion.{verify-proof, build_ends}
use safenet.Consensus.Group.{
  GroupEpoch, ParticipantSet, participants_set, participate_as, group_of, eligible, excluded_of,
  exclude_all_others, min_participants, is_participant, group_threshold, group_context, Participant,
}
use safenet.Consensus.Group.Bounds.{
  quorums_meet, threshold_bounds, participants_set-IsViable, participants_set-none,
  participate_as-verify, contains-exclude_all_others,
}
use safenet.Samples.{sample_alloy, always, sample_participants, sample_set, sample_group}

next_number_tests : (next_number 0 10 ≡ 1) × (next_number 10 10 ≡ 2) × (next_number 19 10 ≡ 2)
unfolding next_number
next_number_tests = (refl, refl, refl)

next_number_bounds_example :
    (15 < next_number 15 10 * 10) × ((next_number 15 10) * 10 ≤ 15 + 10) × (0 < next_number 15 10)
next_number_bounds_example = next_number_bounds 15 10 (omega arith) (omega arith)

from_raw-raw_value_example : from_raw (raw_value (number 7)) ≡ number 7
from_raw-raw_value_example = from_raw-raw_value (number 7) (omega arith)

abbrev three_leaves : List B256
three_leaves = 11 ∷ 22 ∷ 33 ∷ []

verify-proof_example :
    verify (root (build three_leaves)) (get_or three_leaves 2 0) (proof (build three_leaves) 2)
    ≡ true
verify-proof_example = verify-proof three_leaves 2 (omega arith)

build_ends_example : length (unwrap_or (get_last? (build three_leaves)) []) ≤ 1
build_ends_example = build_ends three_leaves

quorums_meet_example :
    (x : Address) × (contains x ((1, tt) ∷ (2, tt) ∷ []) ≡ true)
    × (contains x ((2, tt) ∷ (3, tt) ∷ []) ≡ true)
unfolding group_of group_threshold get
quorums_meet_example =
    quorums_meet sample_set ((1, tt) ∷ (2, tt) ∷ []) ((2, tt) ∷ (3, tt) ∷ [])
      (omega arith, (omega arith, (omega arith, tt))) (omega arith) (omega arith, (omega arith, tt))
      (omega arith, (omega arith, tt)) (λ a h. ground arith) (λ a h. ground arith) (omega arith)
      (omega arith)

threshold_bounds_example :
    (0 < (group_of sample_set).threshold)
    × ((group_of sample_set).threshold ≤ (group_of sample_set).count)
    × ((group_of sample_set).count < 2 * (group_of sample_set).threshold)
threshold_bounds_example = threshold_bounds sample_set (omega arith) (omega arith)

abbrev second_epoch : GroupEpoch
second_epoch = GroupEpoch.number 200 2 ((3, tt) ∷ [])

abbrev four_participants : List Participant
four_participants = always 4 ∷ sample_participants

abbrev second_set : ParticipantSet
second_set = record {
  addresses = (1, tt) ∷ (2, tt) ∷ (4, tt) ∷ [];
  excluded = (3, tt) ∷ [];
  context = 200 * 2 ^ 64 + 2;
}

participants_set-IsViable_example :
    ((a : Address)
      → contains a second_set.addresses ≡ (
          if contains a (excluded_of second_epoch)
          then false
          else contains a (eligible four_participants second_epoch)))
    × (second_set.excluded ≡ excluded_of second_epoch)
    × (2 ≤ length second_set.addresses)
    × (2 * length (eligible four_participants second_epoch) < 3 * length second_set.addresses)
    × (length second_set.addresses ≤ length (eligible four_participants second_epoch))
    × (length (eligible four_participants second_epoch) ≤ 65535)
unfolding participants_set extend is_participant insert remove_all remove min_participants
    group_context be_bytes
participants_set-IsViable_example =
    participants_set-IsViable four_participants second_epoch second_set refl

participants_set-none_example :
    (participants_set sample_participants (GroupEpoch.number 200 2 ((2, tt) ∷ (3, tt) ∷ [])) ≡ none)
    ↔ ((65535 < 3) ⊎ (1 < 2) ⊎ (3 * 1 ≤ 2 * 3))
unfolding eligible is_participant extend remove_all insert remove
participants_set-none_example =
    participants_set-none sample_participants (GroupEpoch.number 200 2 ((2, tt) ∷ (3, tt) ∷ []))

participate_as-verify_example :
    (poap : List B256) × (participate_as sample_set 2 ≡ some (group_of sample_set, poap))
    × ((true && verify (group_of sample_set).root 2 poap) ≡ true)
unfolding get
participate_as-verify_example =
    participate_as-verify sample_set 2 (omega arith, (omega arith, (omega arith, tt)))

contains-exclude_all_others_example : contains 3 (exclude_all_others sample_group (1 ∷ 2 ∷ [])) ≡ (
    contains 3 sample_group.excluded
    || (contains 3 sample_group.participants && not (elem 3 (1 ∷ 2 ∷ []))))
contains-exclude_all_others_example = contains-exclude_all_others sample_group (1 ∷ 2 ∷ []) 3
