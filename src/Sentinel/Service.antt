-- ===== src/Sentinel/Service.antt =====
-- The sentinel's transition function (crates/sentinel/src/service.rs).
use safenet.Prelude.{[]}
use safenet.Alloy.{Alloy}
use safenet.Core.Updates.{EventLog}
use safenet.Core.Machine.{Input, new_block, event, resume, StateTransition}
use safenet.Sentinel.State.{
  Requests, SentinelCommand, SentinelEvent, transaction_proposed, new_request, committed, revealed,
  request_timed_out, oracle_result, dispute_triggered, dispute_resolved, arbitration_timed_out,
  dispute_out_of_scope, claimed, CheckResult, SentinelTransition,
}
use safenet.Sentinel.Voting.{
  Handled, handle_oracle_transaction_proposed, handle_new_request, handle_committed,
  handle_revealed, handle_engine_check_result,
}
use safenet.Sentinel.Outcomes.{
  handle_block_advance, handle_request_timed_out, handle_sentinel_oracle_result,
  handle_dispute_triggered, handle_resolved, handle_arbitration_timeout,
}

module _ ⦃A : Alloy⦄ (self : SentinelTransition) where
  unfoldable pub handle_event : Requests → EventLog SentinelEvent → Handled
  unfolding handle_oracle_transaction_proposed handle_new_request handle_committed handle_revealed
      handle_request_timed_out handle_sentinel_oracle_result handle_dispute_triggered
      handle_resolved handle_arbitration_timeout
  handle_event state log = elim log.payload [
    | transaction_proposed e ↦
        handle_oracle_transaction_proposed self state log.block.number log.block.timestamp e
    | new_request e ↦ handle_new_request self state e
    | committed id sentinel ↦ handle_committed self state id sentinel
    | revealed id sentinel vote ↦ handle_revealed self state id sentinel vote
    | request_timed_out id ↦ handle_request_timed_out self state id
    | oracle_result id ↦ handle_sentinel_oracle_result self state id
    | dispute_triggered id deadline ↦ handle_dispute_triggered self state id deadline
    | dispute_resolved id ↦ handle_resolved self state id
    | arbitration_timed_out id ↦ handle_arbitration_timeout self state id
    | dispute_out_of_scope id ↦ handle_arbitration_timeout self state id
    | claimed id ↦ (state, [])
  ]

  unfoldable pub sentinel_transition : Requests → Input SentinelEvent CheckResult → Handled
  unfolding handle_block_advance handle_event handle_engine_check_result
  sentinel_transition state (new_block block) = handle_block_advance self state block
  sentinel_transition state (event log) = handle_event state log
  sentinel_transition state (resume r) = handle_engine_check_result self state r

  -- The instance of the state machine's trait.
  abbrev pub sentinel : StateTransition Requests SentinelEvent CheckResult SentinelCommand
  sentinel = record { apply_transition = sentinel_transition }
