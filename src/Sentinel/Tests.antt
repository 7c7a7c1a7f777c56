-- ===== src/Sentinel/Tests.antt =====
-- A sentinel that proposes, commits and reveals at concrete numbers.
use safenet.Prelude.{ℕ, ◌≡◌, refl, none, arith, some, [], ◌∷◌, true, false, inl, ◌<◌, ◌+◌}
use safenet.Prelude.BTree.{get, insert, remove}
use safenet.Core.Updates.{EventLog}
use safenet.Core.Machine.{Input, new_block, event, resume}
use safenet.Sentinel.State.{
  SentinelTransition, SentinelEvent, transaction_proposed, new_request, committed, revealed,
  CheckResult, approved, waiting_for_outcome, finalize_request, Votes, reveal_salt,
}
use safenet.Sentinel.Voting.{action}
use safenet.Sentinel.Service.{sentinel_transition}
use safenet.Sentinel.Trace.{Messages, Emitted, Landed, commitment}
use safenet.Sentinel.Trace.Runs.{run_sentinel, Reveals, run_sentinel-reveal, run_sentinel-tally}
use safenet.Samples.{sample_alloy, sample_transaction}

abbrev me : SentinelTransition
me = record {
  oracle = 50;
  consensus = 60;
  account = 7;
  chain_id = 1;
  voting_window = 10;
  derive_key = λ d i. 99;
  u32_text = λ n. n ∷ [];
  proposal_signing_hash = λ d e o x h. 500;
}

abbrev heard : ℕ → SentinelEvent → Input SentinelEvent CheckResult
heard n e =
    event (record {
      block = record { number = n; timestamp = 0 };
      index = 0;
      address = 50;
      payload = e;
    })

-- The latest in front: our commitment and another's land, after the request opened.
abbrev committing : Messages
committing =
    heard 13 (committed 500 7)
    ∷ heard 13 (committed 500 8)
    ∷ heard 12 (
        new_request (record {
          request_id = 500;
          terms = record {
            bond_target = 3;
            slash_amount = 1;
            commit_deadline = 15;
            reveal_deadline = 20;
          };
        }))
    ∷ resume (record { request_id = 500; outcome = approved })
    ∷ heard 11 (
        transaction_proposed (record {
          epoch = 1;
          oracle = 50;
          oracle_data = [];
          safe_tx_hash = 77;
          transaction = sample_transaction;
        }))
    ∷ []

run_sentinel-reveal_example :
    (deadline : ℕ) × (99 ≡ reveal_salt me 500)
    × Emitted (commitment me 500 true [] deadline) (run_sentinel me committing).1
    × Landed me 500 committing
unfolding run_sentinel sentinel_transition get insert remove
run_sentinel-reveal_example =
    run_sentinel-reveal me committing (new_block 16) 500 true 99 [] (some 20) (inl refl)

abbrev voting : Messages
voting = heard 17 (revealed 500 8 false) ∷ new_block 16 ∷ committing

abbrev tally : Votes
tally = record {
  approve = true;
  slash_amount = 1;
  reveal_deadline = 20;
  committed_count = 2;
  revealed_count = 1;
  approve_count = 0;
  deny_count = 1;
  self_revealed = false;
}

-- Our own reveal is the last one.
abbrev own_reveal : EventLog SentinelEvent
own_reveal = record {
  block = record { number = 18; timestamp = 0 };
  index = 0;
  address = 50;
  payload = revealed 500 7 true;
}

run_sentinel-tally_example :
    (1 < 2)
    × (1 ≡ 0 + 1)
    × Reveals me 500 tally 7 true
        (sentinel_transition me (run_sentinel me voting).0 (event own_reveal))
unfolding run_sentinel get insert remove
run_sentinel-tally_example =
    run_sentinel-tally me voting 500 tally own_reveal 7 true (omega arith) refl refl

finalized :
    sentinel_transition me (run_sentinel me voting).0 (event own_reveal)
    ≡ ((500, waiting_for_outcome true 1) ∷ [], action (finalize_request 500) none ∷ [])
unfolding run_sentinel get insert remove
finalized = refl
