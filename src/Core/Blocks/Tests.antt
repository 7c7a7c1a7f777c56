-- ===== src/Core/Blocks/Tests.antt =====
-- A reorganisation that the block watcher follows.
use safenet.Prelude.{ℕ, ◌+◌, ◌≡◌, refl, ok, none, some, List, [], ◌∷◌, arith}
use safenet.Core.Blocks.{Answer, BlockHeader, BlockWatcher, run_watcher}
use safenet.Core.Blocks.View.{View, Watches}
use safenet.Core.Blocks.Runs.{follow_all, run_watcher-follow_all}

-- Block `n` of a branch, on the block before it of another.
abbrev header_on : ℕ → ℕ → ℕ → BlockHeader
header_on branch parent n = record {
  number = n;
  hash = branch + n;
  parent_hash = parent;
  timestamp = n;
  logs_bloom = 0;
}

abbrev watching : BlockWatcher
watching = record {
  max_reorg_depth = 1;
  block_time = 5000;
  block_retry_delays = 500 ∷ [];
  pending = record { number = 12; timestamp_ms = 17000 };
  safe = record { number = 10; hash = 110 };
  recent = header_on 100 110 11 ∷ [];
  queue = [];
}

abbrev seen_blocks : View
seen_blocks = (11, 111) ∷ (10, 110) ∷ []

-- Block 12 builds on another block 11; the answers then are of the other branch.
abbrev asks : List (ℕ → List Answer)
asks =
    (λ n. ok none ∷ ok none ∷ ok (some (header_on 200 211 n)) ∷ [])
    ∷ (λ n. ok (some (header_on 200 110 n)) ∷ [])
    ∷ (λ n. ok (some (header_on 200 211 n)) ∷ [])
    ∷ []

run_watcher-follow_all_example :
    (last : View) × (follow_all seen_blocks (run_watcher watching asks).1 ≡ some last)
    × Watches (run_watcher watching asks).0 last
run_watcher-follow_all_example =
    run_watcher-follow_all watching asks seen_blocks
      (record {
        past = [];
        seen = refl;
        linked = (refl, refl);
        bounded = omega arith;
        expects = refl;
      })
      refl ((λ n. (tt, (tt, (refl, tt)))), ((λ n. (refl, tt)), ((λ n. (refl, tt)), tt)))

-- What the consumer ends with.
followed :
    follow_all seen_blocks (run_watcher watching asks).1
    ≡ some ((12, 212) ∷ (11, 211) ∷ (10, 110) ∷ [])
unfolding run_watcher follow_all
followed = refl
