-- ===== src/Samples.antt =====
-- Concrete instances of what the model takes as parameters, and the data of the tests.
use safenet.Prelude.{
  ℕ, ◌+◌, ◌*◌, ◌%◌, ◌^◌, Option, none, some, List, [], ◌∷◌, ◌++◌, true, if◌then◌else◌, leb,
}
use safenet.Prelude.BTree.{BTreeSet}
use safenet.Alloy.{Alloy, Address, B256, Bytes, word, SafeTransaction}
use safenet.Consensus.Epoch.{number}
use safenet.Consensus.Group.{Group, ParticipantSet, Participant}
use safenet.Validator.Frost.{Frost}
use safenet.Validator.State.{
  Transition, State, SigningState, RolloverState, Packet, CollectingShares, CollectingCommitments,
  KeyGenParticipation, KeyGenCommitment,
}

-- A hash that a test can compute.
abbrev digest : ℕ → Bytes → B256
digest acc [] = acc
digest acc (b ∷ bs) = digest ((acc * 31 + b + 7) % 2 ^ 61) bs

instance abbrev pub sample_alloy : Alloy
sample_alloy = record {
  keccak256 = digest 1;
  separator = λ d. d.chain + d.contract;
  safe_tx_hash_struct = λ t. digest 2 t.input;
  safe_tx_signing_hash = λ d t. digest (d.chain + d.contract) t.input;
  rollover_signing_hash = λ d r. digest d.chain (r.active_epoch ∷ r.proposed_epoch ∷ []);
  transaction_proposal_type = b'T' ∷ b'x' ∷ [];
  call_encode = λ c. [];
  pair_encode = λ a b. word a ++ word b;
}

-- Every published value is accepted, unless it is zero.
abbrev checked : ℕ → Option ℕ
checked n = if leb 1 n then some n else none

instance abbrev pub sample_frost : Frost
sample_frost = record {
  Secrets = ℕ;
  VerifiedCommitment = ℕ;
  VerifiedShare = ℕ;
  SharingState = ℕ;
  GroupCommitments = ℕ;
  KeyShare = ℕ;
  EncryptedSecretShares = ℕ;
  CommittedNonces = ℕ;
  SigningNonces = ℕ;
  Commitment = ℕ;
  SecretShare = ℕ;
  SignNonces = ℕ;
  SignSelection = ℕ;
  SignatureShare = ℕ;
  commitment = λ s. s;
  verify_commitment = λ a c. checked c;
  generate_secret_shares = λ s cs. some (s, s);
  group_commitments = λ cs. some 9;
  sharing_group_commitments = λ s. s;
  group_key = λ g. record { x = g; y = g };
  verify_secret_share = λ g a s. checked s;
  verify_encrypted_secret_share = λ g a s. checked s;
  verify_revealed_secret_share = λ g a b s. checked s;
  reveal_secret_share = λ s a. some s;
  finalize = λ s shares. some s;
  group_threshold = λ k. 2;
  verify_committed_nonces = λ a n. checked n;
  signature_share = λ k n cs m. some (1, 2, []);
}

abbrev pub one_two_three : BTreeSet
one_two_three = (1, tt) ∷ (2, tt) ∷ (3, tt) ∷ []

abbrev pub sample_set : ParticipantSet
sample_set = record { addresses = one_two_three; excluded = []; context = 0 }

abbrev pub always : Address → Participant
always a = record { address = a; active_from = 0; active_before = none }

abbrev pub sample_participants : List Participant
sample_participants = always 1 ∷ always 2 ∷ always 3 ∷ []

abbrev pub machine : Transition
machine = record {
  account = 1;
  genesis = sample_set;
  consensus = record { chain = 100; contract = 200 };
  config = record {
    consensus = 200;
    participants = sample_participants;
    oracles = (50, tt) ∷ [];
    blocks_per_epoch = 10;
    key_gen_timeout = 5;
    signing_timeout = 5;
    oracle_timeout = 5;
  };
}

abbrev pub sample_group : Group
sample_group = record {
  id = 77;
  root = 5;
  participants = one_two_three;
  excluded = [];
  count = 3;
  threshold = 2;
  context = 0;
}

abbrev pub sample_transaction : SafeTransaction
sample_transaction = record {
  chain_id = 1;
  safe = 2;
  to = 3;
  value = 4;
  input = 5 ∷ 6 ∷ [];
  operation = 0;
  safe_tx_gas = 0;
  base_gas = 0;
  gas_price = 0;
  gas_token = 0;
  refund_receiver = 0;
  nonce = 9;
}

abbrev pub sample_packet : Packet
sample_packet = Packet.transaction (number 1) 0 [] sample_transaction

-- A session for message 500 that waits for its signing request until block 15.
abbrev pub waiting : SigningState
waiting = SigningState.waiting_for_request (record {
  key_share = 8;
  group_id = 77;
  responsible = none;
  packet = sample_packet;
  oracle_approved = true;
  signers = one_two_three;
  deadline = 15;
})

-- A session for message 600 under signature id 60, with all commitments but that of 3.
abbrev pub committing : SigningState
committing = SigningState.collect_nonce_commitments (record {
  key_share = 8;
  group_id = 77;
  signature_id = 60;
  committed = (1, 11) ∷ (2, 12) ∷ [];
  packet = sample_packet;
  signers = one_two_three;
  deadline = 15;
})

-- Epoch 2 is staged, epoch 1 active, and two messages are to be signed.
abbrev pub staged : State
staged = record {
  rollover = RolloverState.epoch_staged 2;
  active_epoch = number 1;
  epochs =
      (1, record { group = sample_group; key_share = 8 })
      ∷ (2, record { group = sample_group; key_share = 9 })
      ∷ [];
  signing = (500, waiting) ∷ (600, committing) ∷ [];
  signature_id_to_message = (60, 600) ∷ [];
}

-- Key generation for epoch 2 in which 1 and 2 have shared; 2 has complained about 3.
abbrev pub half_shared : CollectingShares
half_shared = record {
  next_epoch = number 2;
  group = sample_group;
  participation = KeyGenParticipation.participating 4;
  shared = (1, tt) ∷ (2, tt) ∷ [];
  shares = [];
  complaints = (3, record { total = 1; unresponded = (2, tt) ∷ [] }) ∷ [];
  deadline = some 12;
}

abbrev pub sharing : State
sharing = record staged { rollover = RolloverState.collecting_shares half_shared }

-- The same at its commitment round, where 3 has not committed.
abbrev pub half_committed : CollectingCommitments
half_committed = record {
  next_epoch = number 2;
  group = sample_group;
  secrets = KeyGenCommitment.participating [] (some 4);
  commitments = (1, 4) ∷ (2, 5) ∷ [];
  deadline = some 12;
}

abbrev pub committing_keys : State
committing_keys = record staged { rollover = RolloverState.collecting_commitments half_committed }
