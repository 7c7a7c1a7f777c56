-- ===== src/Sentinel/State.antt =====
-- The state of a sentinel's requests, its events, actions and effects
-- (crates/sentinel/src: state.rs, action.rs, effect.rs, engine.rs, hashing.rs, bindings).
use safenet.Prelude.{ℕ, Option, none, some, [], ◌∷◌, ◌++◌, Bool, if◌then◌else◌}
use safenet.Prelude.BTree.{BTreeMap}
use safenet.Alloy.{Alloy, Address, B256, U256, Bytes, SafeTransaction, Domain, word, be_bytes}

-- `state::Request`
pub record VotingTerms : Type 0 where
  pub bond_target : ℕ
  pub slash_amount : ℕ
  pub commit_deadline : ℕ
  pub reveal_deadline : ℕ

pub record Commitments : Type 0 where
  pub approve : Bool
  pub reason : Bytes
  pub slash_amount : ℕ
  pub commit_deadline : ℕ
  pub reveal_deadline : ℕ
  pub committed_count : ℕ
  pub self_committed : Bool

pub record Votes : Type 0 where
  pub approve : Bool
  pub slash_amount : ℕ
  pub reveal_deadline : ℕ
  pub committed_count : ℕ
  pub revealed_count : ℕ
  pub approve_count : ℕ
  pub deny_count : ℕ
  pub self_revealed : Bool

pub data SentinelRequestState : Type 0 where
  waiting_for_engine_check : (deadline : ℕ) → Option VotingTerms → SentinelRequestState
  -- approve, reason, deadline
  waiting_for_request : Bool → Bytes → ℕ → SentinelRequestState
  collecting_commitments : Commitments → SentinelRequestState
  collecting_votes : Votes → SentinelRequestState
  -- approve, slash amount
  waiting_for_outcome : Bool → ℕ → SentinelRequestState
  -- approve, slash amount, arbitration deadline
  waiting_for_dispute_resolution : Bool → ℕ → ℕ → SentinelRequestState

-- The requests by their id. The program's map has no order; here the ids are in order.
abbrev pub Requests : Type 0
Requests = BTreeMap SentinelRequestState

unfoldable pub approve_and_slash_amount : SentinelRequestState → Option (Bool × ℕ)
approve_and_slash_amount (waiting_for_engine_check d r) = none
approve_and_slash_amount (waiting_for_request a r d) = none
approve_and_slash_amount (collecting_commitments c) =
    if c.self_committed then some (c.approve, c.slash_amount) else none
approve_and_slash_amount (collecting_votes v) = some (v.approve, v.slash_amount)
approve_and_slash_amount (waiting_for_outcome a s) = some (a, s)
approve_and_slash_amount (waiting_for_dispute_resolution a s d) = some (a, s)

pub record RuleId : Type 0 where
  pub section : ℕ
  pub rule : ℕ

pub data CheckOutcome : Type 0 where
  approved : CheckOutcome
  denied : RuleId → CheckOutcome
  unknown : CheckOutcome

pub data SentinelActionKind : Type 0 where
  approve_token : (bond : U256) → SentinelActionKind
  commit_vote_hash : (id hash : B256) → SentinelActionKind
  -- id, approve, salt, reason
  reveal : B256 → Bool → B256 → Bytes → SentinelActionKind
  finalize_request claim timeout_arbitration : (id : B256) → SentinelActionKind

pub record SentinelAction : Type 0 where
  pub kind : SentinelActionKind
  pub expires_at : Option ℕ

pub data SentinelCommand : Type 0 where
  act : SentinelAction → SentinelCommand
  -- request id, transaction, proposal timestamp, block
  engine_check : B256 → SafeTransaction → ℕ → ℕ → SentinelCommand

pub record ProposedEvent : Type 0 where
  pub epoch : ℕ
  pub oracle : Address
  pub oracle_data : Bytes
  pub safe_tx_hash : B256
  pub transaction : SafeTransaction

pub record RequestEvent : Type 0 where
  pub request_id : B256
  pub terms : VotingTerms

-- The events of the consensus contract and of the oracle, with the fields that are read.
pub data SentinelEvent : Type 0 where
  transaction_proposed : ProposedEvent → SentinelEvent
  new_request : RequestEvent → SentinelEvent
  -- request id, sentinel
  committed : B256 → Address → SentinelEvent
  -- request id, sentinel, approved
  revealed : B256 → Address → Bool → SentinelEvent
  request_timed_out oracle_result : B256 → SentinelEvent
  -- request id, deadline
  dispute_triggered : B256 → ℕ → SentinelEvent
  dispute_resolved arbitration_timed_out dispute_out_of_scope claimed : B256 → SentinelEvent

-- `Resume::EngineCheckResult`
pub record CheckResult : Type 0 where
  pub request_id : B256
  pub outcome : CheckOutcome

-- The signer, and what is called of other crates: the text of a number, the derivation of a key and
-- a proposal's EIP-712 hash.
pub record SentinelTransition : Type 0 where
  pub oracle : Address
  pub consensus : Address
  pub account : Address
  pub chain_id : U256
  pub voting_window : ℕ
  pub derive_key : Bytes → Bytes → B256
  pub u32_text : ℕ → Bytes
  -- domain, epoch, oracle, oracle data, Safe transaction hash
  pub proposal_signing_hash : Domain → ℕ → Address → Bytes → B256 → B256

-- "safenet-sentinel-reveal-salt"
abbrev pub reveal_salt_domain : Bytes
reveal_salt_domain =
    115 ∷ 97 ∷ 102 ∷ 101 ∷ 110 ∷ 101 ∷ 116 ∷ 45 ∷ 115 ∷ 101 ∷ 110 ∷ 116 ∷ 105 ∷ 110 ∷ 101 ∷ 108 ∷ 45
    ∷ 114 ∷ 101 ∷ 118 ∷ 101 ∷ 97 ∷ 108 ∷ 45 ∷ 115 ∷ 97 ∷ 108 ∷ 116 ∷ []

unfoldable pub reveal_salt : SentinelTransition → B256 → B256
reveal_salt self request_id = self.derive_key reveal_salt_domain (word request_id)

-- `RuleId`'s `Display`: "R-{section}.{rule}".
unfoldable pub rule_text : SentinelTransition → RuleId → Bytes
rule_text self r = 82 ∷ 45 ∷ (self.u32_text r.section ++ (46 ∷ self.u32_text r.rule))

abbrev pub flag : Bool → ℕ
flag b = if b then 1 else 0

module _ ⦃A : Alloy⦄ where
  unfoldable pub commit_hash : Address → B256 → Bool → B256 → Bytes → B256
  unfolding be_bytes
  commit_hash sentinel request_id approve salt reason =
      A.keccak256
        (flag approve ∷ (word salt ++ (be_bytes 20 sentinel ++ (word request_id ++ reason))))

unfoldable pub oracle_tx_proposal_hash : SentinelTransition → ProposedEvent → B256
oracle_tx_proposal_hash self event =
    self.proposal_signing_hash (record { chain = self.chain_id; contract = self.consensus })
      event.epoch event.oracle event.oracle_data event.safe_tx_hash
