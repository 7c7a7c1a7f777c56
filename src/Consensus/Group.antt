-- ===== src/Consensus/Group.antt =====
-- Key-generation group derivation (crates/validator/src/consensus/group.rs).
pub mod Bounds
use safenet.Prelude.{
  ℕ, zero, suc, ◌+◌, ◌-◌, ◌*◌, ◌/◌, ◌%◌, ◌≤◌, ◌<◌, ◌≡◌, Option, none, some, arith, ltb, leb, ◌==◌,
  if◌then◌else◌, Bool, true, false, ◌&&◌, not, List, [], ◌∷◌, ◌++◌, map, length, filter, as_u16,
  try_u16, max, u16_max, and_then, is_none,
}
use safenet.Prelude.BTree.{BTreeSet, contains, extend, elements, remove_all}
use safenet.Alloy.{Alloy, Address, B256, Bytes, be_bytes, word}
use safenet.Consensus.Merkle.{MerkleTree, build, root, proof}

pub record Group : Type 0 where
  pub id : B256
  pub root : B256
  pub participants : BTreeSet
  pub excluded : BTreeSet
  pub count : ℕ  -- u16
  pub threshold : ℕ  -- u16
  pub context : B256

-- `Group::also_exclude`: what the group excludes already, and the given addresses.
unfoldable pub also_exclude : Group → List Address → BTreeSet
also_exclude g also_excluded = extend (elements g.excluded ++ also_excluded) []

-- `Group::exclude_all_others`
unfoldable pub exclude_all_others : Group → List Address → BTreeSet
unfolding also_exclude
exclude_all_others g include_only =
    also_exclude g (elements (remove_all include_only g.participants))

pub record ParticipantSet : Type 0 where
  pub addresses : BTreeSet
  pub excluded : BTreeSet
  pub context : B256

-- `config::Participant`
pub record Participant : Type 0 where
  pub address : Address
  pub active_from : ℕ
  pub active_before : Option ℕ

pub data GroupEpoch : Type 0 where
  -- salt
  genesis : B256 → GroupEpoch
  -- consensus, number, excluded
  number : Address → ℕ → BTreeSet → GroupEpoch

unfoldable pub group_threshold : ℕ → ℕ
group_threshold count = as_u16 (count / 2 + 1)

unfoldable pub min_participants : ℕ → ℕ
min_participants count = max 2 (as_u16 ((count * 2 % 4294967296) / 3 + 1))

-- The value of a big-endian text of bytes.
unfoldable pub from_bytes : ℕ → Bytes → ℕ
from_bytes acc [] = acc
from_bytes acc (b ∷ bs) = from_bytes (acc * 256 + b) bs

unfoldable pub group_context : Address → ℕ → B256
unfolding from_bytes
group_context consensus epoch =
    from_bytes 0 (be_bytes 4 0 ++ (be_bytes 20 consensus ++ be_bytes 8 epoch))

-- `b"genesis"`
abbrev genesis_text : Bytes
genesis_text = b'g' ∷ b'e' ∷ b'n' ∷ b'e' ∷ b's' ∷ b'i' ∷ b's' ∷ []

-- The filters of `participants_set`.
unfoldable pub is_genesis_participant : Participant → Bool
is_genesis_participant p = p.active_from == 0

unfoldable pub is_active_before : ℕ → Option ℕ → Bool
is_active_before n none = true
is_active_before n (some before) = ltb n before

unfoldable pub is_participant : ℕ → Participant → Bool
unfolding is_active_before
is_participant n p = leb p.active_from n && is_active_before n p.active_before

abbrev addresses_of : List Participant → BTreeSet
addresses_of ps = extend (map (λ p. p.address) ps) []

-- `addresses.range(..address).count()`
unfoldable pub position : Address → BTreeSet → ℕ
position address s = length (filter (λ e. ltb e.0 address) s)

-- The participants that the epoch's window or the genesis filter admits.
unfoldable pub eligible : List Participant → GroupEpoch → BTreeSet
eligible participants (genesis salt) = addresses_of (filter is_genesis_participant participants)
eligible participants (number consensus n excluded) =
    addresses_of (filter (is_participant n) participants)

abbrev pub excluded_of : GroupEpoch → BTreeSet
excluded_of (genesis salt) = []
excluded_of (number consensus n excluded) = excluded

module _ ⦃A : Alloy⦄ where
  unfoldable pub genesis_context : B256 → B256
  genesis_context salt = if salt == 0 then 0 else A.keccak256 (genesis_text ++ word salt)

  -- The low 64 bits are masked to zero.
  unfoldable pub group_id : B256 → ℕ → ℕ → B256 → B256
  group_id participants count threshold context =
      let buffer = word participants ++ (word count ++ (word threshold ++ word context)) in
      let id = A.keccak256 buffer in id - id % 18446744073709551616

  unfoldable pub participants_tree : BTreeSet → MerkleTree
  participants_tree participants = build (elements participants)

  -- The conversion of the size to a `u16` panics from 2 ^ 16 addresses on; `participants_set`
  -- makes no such set.
  unfoldable pub group_of : ParticipantSet → Group
  group_of s =
      let tree = participants_tree s.addresses in
      let count = length s.addresses in
      let threshold = group_threshold count in
      record {
        id = group_id (root tree) count threshold s.context;
        root = root tree;
        participants = s.addresses;
        excluded = s.excluded;
        count = count;
        threshold = threshold;
        context = s.context;
      }

  unfoldable pub participate_as : ParticipantSet → Address → Option (Group × List B256)
  participate_as s address =
      if not (contains address s.addresses)
      then none
      else some (group_of s, proof (participants_tree s.addresses) (position address s.addresses))

  abbrev context_of : GroupEpoch → B256
  context_of (genesis salt) = genesis_context salt
  context_of (number consensus n excluded) = group_context consensus n

  unfoldable pub participants_set : List Participant → GroupEpoch → Option ParticipantSet
  unfolding eligible
  participants_set participants epoch =
      and_then (try_u16 (length (eligible participants epoch))) λ total.
        let addresses = remove_all (elements (excluded_of epoch)) (eligible participants epoch) in
        and_then (try_u16 (length addresses)) λ count.
          if leb (min_participants total) count
          then some (record {
            addresses = addresses;
            excluded = excluded_of epoch;
            context = context_of epoch;
          })
          else none
