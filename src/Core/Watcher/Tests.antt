-- ===== src/Core/Watcher/Tests.antt =====
-- A block that the node does not serve logs for since it was uncled, and the block in its place.
use safenet.Prelude.{ℕ, ◌+◌, ◌≡◌, refl, none, some, List, [], ◌∷◌, false, ok, err, arith}
use safenet.Core.Updates.{block, logs, uncle, new}
use safenet.Core.Blocks.{BlockHeader, BlockWatcher, WatchError}
use safenet.Core.Events.{Events, Node, idle, rpc}
use safenet.Core.Watcher.{Watcher, IndexError, Answers, run_next}
use safenet.Core.Watcher.Runs.{Synced, in_turn, due, is_foreseen, run_next-in_turn, IsServed}

abbrev header_on : ℕ → ℕ → BlockHeader
header_on branch n = record {
  number = n;
  hash = branch + n;
  parent_hash = 111;
  timestamp = n;
  logs_bloom = 0;
}

abbrev tracking : BlockWatcher
tracking = record {
  max_reorg_depth = 2;
  block_time = 5000;
  block_retry_delays = [];
  pending = record { number = 12; timestamp_ms = 17000 };
  safe = record { number = 11; hash = 111 };
  recent = [];
  queue = [];
}

abbrev watcher : Watcher
watcher = record {
  blocks = tracking;
  events = record {
    config = record {
      block_page_size = 2;
      block_single_query_retry_count = 3;
      use_client_filtering = false;
      max_logs_per_query = none;
      fallible_events = [];
    };
    addresses = 9 ∷ [];
    step = idle;
  };
}

abbrev no_events : Events ℕ
no_events = record {
  topics = 1 ∷ [];
  decode_log = λ topics input. none;
  compute_logs_bloom = λ logs. 0;
}

abbrev not_found : Node
not_found = record {
  get_logs = λ blocks addresses topics. err (rpc (some 32001));
  get_timestamp = λ n. err (rpc none);
}

abbrev quiet : Node
quiet = record { get_logs = λ blocks addresses topics. ok []; get_timestamp = λ n. err (rpc none) }

-- The first block 12 is gone when its logs are asked for.
abbrev branch_answers : ℕ → Node → Answers
branch_answers branch node = record {
  node = node;
  get_block = λ n. ok (some (header_on 200 n));
  polls = λ n. ok none ∷ ok (some (header_on branch n)) ∷ [];
}

abbrev answers : List Answers
answers =
    record (branch_answers 100 quiet) { polls = λ n. err WatchError.rpc ∷ [] }
    ∷ branch_answers 100 quiet
    ∷ branch_answers 100 not_found
    ∷ branch_answers 200 quiet
    ∷ branch_answers 200 not_found
    ∷ branch_answers 200 quiet
    ∷ []

not_found-IsServed : IsServed not_found
unfolding is_foreseen
not_found-IsServed blocks addresses topics e h = grind arith

quiet-IsServed : IsServed quiet
quiet-IsServed blocks addresses topics e h = grind arith

run_next-in_turn_example :
    Synced (run_next no_events 32001 watcher answers).0
    × (in_turn (due watcher.events.step) (run_next no_events 32001 watcher answers).1
        ≡ some (due (run_next no_events 32001 watcher answers).0.events.step))
run_next-in_turn_example =
    run_next-in_turn no_events 32001 watcher answers (refl, tt)
      (
        quiet-IsServed,
        (
          quiet-IsServed,
          (not_found-IsServed, (quiet-IsServed, (not_found-IsServed, (quiet-IsServed, tt)))),
        ),
      )

-- The results of the run.
ran :
    (run_next no_events 32001 watcher answers).1
    ≡ err (IndexError.of_blocks WatchError.rpc)
      ∷ ok (block (new 12 112 12 0))
      ∷ ok (block (uncle 12))
      ∷ ok (block (new 12 212 12 0))
      ∷ err (IndexError.of_events (rpc (some 32001)))
      ∷ ok (logs (record { blocks = record { start = 12; last = 12 }; logs = [] }))
      ∷ []
unfolding run_next
ran = refl
