-- ===== src/Core/Events/Tests.antt =====
-- A warp in pages of two blocks, on a node that fails once.
use safenet.Prelude.{
  ℕ, ◌≡◌, refl, none, some, List, [], ◌∷◌, false, ok, err, arith, leb, ◌&&◌, if◌then◌else◌,
  Bool-cases, inl, inr,
}
use safenet.Core.Status.{Status, warp_events}
use safenet.Core.Events.{
  block_hash_filter, block_range_filter, EventConfig, EventWatcher, Events, Node, RawLog, Step,
  idle, rpc, run_events, on_block_update,
}
use safenet.Core.Events.Order.{IsInRange}
use safenet.Core.Events.Pages.{accept_all, Agrees, run_events-accept_all}

abbrev numbers : Events ℕ
numbers = record {
  topics = 1 ∷ [];
  decode_log = λ topics input. some 7;
  compute_logs_bloom = λ logs. 0;
}

abbrev raw_log : RawLog
raw_log = record {
  block_hash = some 110;
  block_number = some 10;
  block_timestamp = none;
  log_index = some 0;
  address = 9;
  topics = 1 ∷ [];
  input = [];
}

abbrev serving : Node
serving = record {
  get_logs = λ blocks addresses topics. elim blocks [
    | block_hash_filter hash ↦ ok []
    | block_range_filter from to ↦ if leb from 10 && leb 10 to then ok (raw_log ∷ []) else ok []
  ];
  get_timestamp = λ n. ok (some n);
}

abbrev failing : Node
failing = record {
  get_logs = λ blocks addresses topics. err (rpc none);
  get_timestamp = λ n. err (rpc none);
}

abbrev config : EventConfig
config = record {
  block_page_size = 2;
  block_single_query_retry_count = 3;
  use_client_filtering = false;
  max_logs_per_query = none;
  fallible_events = [];
}

abbrev resting : EventWatcher
resting = record { config = config; addresses = 9 ∷ []; step = idle }

abbrev paging : EventWatcher
paging = record resting {
  step = Step.warping (record { from_block = 10; to_block = 14; page_size = 2; fetched = none });
}

abbrev serving_nodes : List Node
serving_nodes = serving ∷ failing ∷ serving ∷ serving ∷ serving ∷ []

serving-IsInRange : IsInRange serving
serving-IsInRange from to addresses topics ls h = elim (Bool-cases (leb from 10 && leb 10 to)) [
  | inl e ↦ grind arith
  | inr e ↦ grind arith
]

failing-IsInRange : IsInRange failing
failing-IsInRange from to addresses topics ls h = cc

run_events-accept_all_example :
    (final : Status) × (accept_all
        (warp_events (record { start = 10; last = 14 }))
        (run_events numbers paging serving_nodes).1
      ≡ some final)
    × Agrees 14 (run_events numbers paging serving_nodes).0.step final
unfolding on_block_update
run_events-accept_all_example =
    run_events-accept_all numbers 14 resting paging 10 serving_nodes refl (omega arith)
      (omega arith) (omega arith)
      (
        serving-IsInRange,
        (failing-IsInRange, (serving-IsInRange, (serving-IsInRange, (serving-IsInRange, tt)))),
      )
