-- ===== src/Core/Events.antt =====
-- The event watcher (crates/core/src/index/events.rs). A node's answers, the decoding of an event
-- and the bloom filter of logs are parameters of each call. Logging is left out.
pub mod Order
pub mod Pages
mod Tests
use safenet.Prelude.{
  ℕ, suc, ◌+◌, ◌-◌, ◌/◌, ◌^◌, u64_max, Option, none, some, List, [], ◌∷◌, ◌++◌, ltb, leb, ◌==◌,
  if◌then◌else◌, ◌&&◌, ◌||◌, Bool, true, false, Outcome, ok, err, ◌>>=◌, length, map, filter, min,
  saturating_add, unwrap_or, is_none, is_some, and_then,
}
use safenet.Prelude.BTree.{BTreeMap, BTreeSet, get, insert, contains_key, elem, extend, elements}
use safenet.Alloy.{Address, B256, Bytes}
use safenet.Core.Updates.{
  BlockUpdate, warp, uncle, new, EventBlock, EventLog, EventUpdate, BlockRange,
}

-- The fields that are read of a log as the node returns it.
pub record RawLog : Type 0 where
  pub block_hash : Option B256
  pub block_number : Option ℕ
  pub block_timestamp : Option ℕ
  pub log_index : Option ℕ
  pub address : Address
  pub topics : List B256
  pub input : Bytes

pub data EventError : Type 0 where
  -- the error code that the node responds with, if it responds
  rpc : (code : Option ℕ) → EventError
  -- block hash, log index
  undecoded : B256 → ℕ → EventError
  too_many_logs : EventError
  incomplete_logs : B256 → EventError
  missing_block : ℕ → EventError
  unexpected_block_update unexpected_block_invalidation : EventError

pub record EventConfig : Type 0 where
  pub block_page_size : ℕ
  pub block_single_query_retry_count : ℕ
  pub use_client_filtering : Bool
  pub max_logs_per_query : Option ℕ
  pub fallible_events : BTreeSet

pub data BlockFilter : Type 0 where
  block_hash_filter : B256 → BlockFilter
  block_range_filter : (from to : ℕ) → BlockFilter

pub data Fetch : Type 0 where
  single_query multiple_queries : BlockFilter → Fetch
  -- block hash, logs bloom
  client_filtered : B256 → ℕ → Fetch

pub record FetchedPage : Type 0 where
  pub to_block : ℕ
  pub logs : List RawLog
  pub block_timestamps : BTreeMap ℕ

pub record Warping : Type 0 where
  pub from_block : ℕ
  pub to_block : ℕ
  pub page_size : ℕ
  pub fetched : Option FetchedPage

pub record BlockStep : Type 0 where
  pub block_number : ℕ
  pub block_hash : B256
  pub block_timestamp : ℕ
  pub logs_bloom : ℕ
  pub retries : ℕ

pub data Step : Type 0 where
  idle : Step
  warping : Warping → Step
  block_step : BlockStep → Step

-- The node, for the duration of one call: logs by filter, addresses and topics, and the timestamp
-- of a block by number, if it has the block.
pub record Node : Type 0 where
  pub get_logs : BlockFilter → List Address → List B256 → Outcome EventError (List RawLog)
  pub get_timestamp : ℕ → Outcome EventError (Option ℕ)

-- What is called of the alloy crates: the events' topics and decoding, the bloom filter of logs.
pub record Events (E : Type 0) : Type 0 where
  pub topics : List B256
  pub decode_log : List B256 → Bytes → Option E
  pub compute_logs_bloom : List RawLog → ℕ

pub record EventWatcher : Type 0 where
  pub config : EventConfig
  pub addresses : List Address
  pub step : Step

unfoldable pub on_block_update : EventWatcher → BlockUpdate → Outcome EventError EventWatcher
on_block_update w u = elim w.step [
  | idle ↦ elim u [
    | warp from to ↦ ok (record w {
      step = warping (record {
        from_block = from;
        to_block = to;
        page_size = w.config.block_page_size;
        fetched = none;
      });
    })
    | uncle number ↦ ok (record w { step = idle })
    | new number hash timestamp bloom ↦ ok (record w {
      step = block_step (record {
        block_number = number;
        block_hash = hash;
        block_timestamp = timestamp;
        logs_bloom = bloom;
        retries = 0;
      });
    })
  ]
  | _ ↦ err unexpected_block_update
]

unfoldable pub on_block_invalidated : EventWatcher → B256 → Outcome EventError EventWatcher
on_block_invalidated w hash = elim w.step [
  | block_step b ↦
      if b.block_hash == hash
      then ok (record w { step = idle })
      else err unexpected_block_invalidation
  | _ ↦ err unexpected_block_invalidation
]

unfoldable pub check_logs_limit : EventConfig → List RawLog → Outcome EventError (List RawLog)
check_logs_limit config logs = elim config.max_logs_per_query [
  | none ↦ ok logs
  | some max ↦ if leb max (length logs) then err too_many_logs else ok logs
]

abbrev pub is_watched : List Address → List B256 → RawLog → Bool
is_watched addresses topics log =
    elem log.address addresses && (elim log.topics [ [] ↦ false | t ∷ ts ↦ elem t topics ])

-- A log's place is its block and its index.
unfoldable pub insert_log : {E : Type 0} → EventLog E → List (EventLog E) → List (EventLog E)
insert_log a [] = a ∷ []
insert_log a (b ∷ ls) =
    let rest = insert_log a ls in
    if ltb a.block.number b.block.number
      || ((a.block.number == b.block.number) && leb a.index b.index)
    then a ∷ b ∷ ls
    else b ∷ rest

-- `sort_unstable_by_key`; logs of the same place may be in another order there.
unfoldable pub sort_logs : {E : Type 0} → List (EventLog E) → List (EventLog E)
unfolding insert_log
sort_logs [] = []
sort_logs (a ∷ ls) = insert_log a (sort_logs ls)

abbrev pub narrowed_warp : ℕ → ℕ → ℕ → Step
narrowed_warp from to page_size =
    warping
      (record { from_block = from; to_block = to; page_size = (page_size + 1) / 2; fetched = none })

-- The last block that a warp's page queries, and its query: for a page of one block one for each
-- event.
abbrev pub page_end : Warping → ℕ
page_end s = min s.to_block (saturating_add s.from_block (s.page_size - 1))

abbrev pub page_fetch : Warping → Fetch
page_fetch s =
    let blocks = block_range_filter s.from_block (page_end s) in
    if ltb 1 s.page_size then single_query blocks else multiple_queries blocks

-- `B256::repeat_byte(0xff)`
abbrev pub all_ones : B256
all_ones = 2 ^ 256 - 1

module _ {E : Type 0} (events : Events E) (node : Node) where
  -- One query for each topic, of which some may fail.
  unfoldable pub query_topics :
      EventConfig → List Address → BlockFilter → List B256 → Outcome EventError (List RawLog)
  unfolding check_logs_limit
  query_topics config addresses blocks [] = ok []
  query_topics config addresses blocks (t ∷ ts) =
      let rest = query_topics config addresses blocks ts in
      elim (node.get_logs blocks addresses (t ∷ []) >>= check_logs_limit config) [
        | ok logs ↦ (rest >>= λ more. ok (logs ++ more))
        | err e ↦ if contains_key t config.fallible_events then rest else err e
      ]

  unfoldable pub fetch_logs : EventWatcher → Fetch → Outcome EventError (List RawLog)
  unfolding check_logs_limit query_topics
  fetch_logs w (single_query blocks) =
      node.get_logs blocks w.addresses events.topics >>= check_logs_limit w.config
  fetch_logs w (multiple_queries blocks) = query_topics w.config w.addresses blocks events.topics
  fetch_logs w (client_filtered hash bloom) =
      node.get_logs (block_hash_filter hash) [] [] >>= λ logs.
      if events.compute_logs_bloom logs == bloom
      then ok (filter (is_watched w.addresses events.topics) logs)
      else err (incomplete_logs hash)

  -- The blocks of the logs without a timestamp, those already resolved left out.
  unfoldable pub missing_timestamps : List RawLog → BTreeMap ℕ → List ℕ
  missing_timestamps [] known = []
  missing_timestamps (l ∷ ls) known =
      let rest = missing_timestamps ls known in
      elim l.block_number [
        | none ↦ rest
        | some n ↦ if is_none l.block_timestamp && is_none (get n known) then n ∷ rest else rest
      ]

  abbrev pub header_timestamp : ℕ → Outcome EventError ℕ
  header_timestamp n = node.get_timestamp n >>= λ t. elim t [
    | none ↦ err (missing_block n)
    | some timestamp ↦ ok timestamp
  ]

  -- What was resolved, and the first failure if there is one.
  unfoldable pub fetch_timestamps : List ℕ → BTreeMap ℕ → BTreeMap ℕ × Option EventError
  fetch_timestamps [] known = (known, none)
  fetch_timestamps (n ∷ ns) known = elim (header_timestamp n) [
    | ok t ↦ fetch_timestamps ns (insert n t known)
    | err e ↦ ((fetch_timestamps ns known).0, some e)
  ]

  unfoldable pub fetch_missing_block_timestamps :
      List RawLog → BTreeMap ℕ → BTreeMap ℕ × Option EventError
  unfolding missing_timestamps fetch_timestamps extend
  fetch_missing_block_timestamps logs known =
      fetch_timestamps (elements (extend (missing_timestamps logs known) [])) known

  -- `Option`'s chain in `decode_and_sort`.
  unfoldable pub decode_one : BTreeMap ℕ → RawLog → Option (EventLog E)
  decode_one timestamps log = and_then (events.decode_log log.topics log.input) (λ payload.
      and_then log.block_number (λ number.
        and_then (elim log.block_timestamp [ some t ↦ some t | none ↦ get number timestamps ])
          (λ timestamp. and_then log.log_index (λ index. some (record {
            block = record { number = number; timestamp = timestamp };
            index = index;
            address = log.address;
            payload = payload;
          })))))

  unfoldable pub decode_logs : BTreeMap ℕ → List RawLog → Outcome EventError (List (EventLog E))
  unfolding decode_one
  decode_logs timestamps [] = ok []
  decode_logs timestamps (l ∷ ls) = elim (decode_one timestamps l) [
    | none ↦ err (undecoded (unwrap_or l.block_hash all_ones) (unwrap_or l.log_index u64_max))
    | some log ↦ (decode_logs timestamps ls >>= λ rest. ok (log ∷ rest))
  ]

  unfoldable pub decode_and_sort : List RawLog → BTreeMap ℕ → Outcome EventError (List (EventLog E))
  unfolding decode_logs sort_logs
  decode_and_sort logs timestamps = decode_logs timestamps logs >>= λ ls. ok (sort_logs ls)

  -- The page that a warp queries, unless it has been fetched.
  unfoldable pub warp_page : EventWatcher → Warping → Outcome EventError FetchedPage
  unfolding fetch_logs
  warp_page w s = elim s.fetched [
    | some page ↦ ok page
    | none ↦ fetch_logs w (page_fetch s) >>= λ logs.
        ok (record { to_block = page_end s; logs = logs; block_timestamps = [] })
  ]

  -- The step after a page whose logs are decoded.
  unfoldable pub next_page : EventWatcher → Warping → ℕ → Step
  next_page w s last =
      if last == s.to_block
      then idle
      else warping (record {
        from_block = last + 1;
        to_block = s.to_block;
        page_size = w.config.block_page_size;
        fetched = none;
      })

  -- A page whose logs are there: its timestamps, then its events.
  unfoldable pub finish_page :
      EventWatcher → Warping → FetchedPage → Step × Outcome EventError (EventUpdate E)
  unfolding fetch_missing_block_timestamps decode_and_sort next_page
  finish_page w s page =
      let t = fetch_missing_block_timestamps page.logs page.block_timestamps in
      elim t.1 [
        | some e ↦
            (warping (record s { fetched = some (record page { block_timestamps = t.0 }) }), err e)
        | none ↦ elim (decode_and_sort page.logs t.0) [
          | err e ↦ (narrowed_warp s.from_block s.to_block s.page_size, err e)
          | ok logs ↦ (
            next_page w s page.to_block,
            ok (record {
              blocks = record { start = s.from_block; last = page.to_block };
              logs = logs;
            }),
          )
        ]
      ]

  unfoldable pub warp_step : EventWatcher → Warping → Step × Outcome EventError (EventUpdate E)
  unfolding warp_page finish_page
  warp_step w s = elim (warp_page w s) [
    | err e ↦ (narrowed_warp s.from_block s.to_block s.page_size, err e)
    | ok page ↦ finish_page w s page
  ]

  unfoldable pub block_fetch : EventWatcher → BlockStep → Fetch
  block_fetch w b =
      if ltb b.retries w.config.block_single_query_retry_count
      then (if w.config.use_client_filtering
          then client_filtered b.block_hash b.logs_bloom
          else single_query (block_hash_filter b.block_hash))
      else multiple_queries (block_hash_filter b.block_hash)

  unfoldable pub fetch_block : EventWatcher → BlockStep → Step × Outcome EventError (EventUpdate E)
  unfolding fetch_logs block_fetch decode_and_sort
  fetch_block w b =
      let result = fetch_logs w (block_fetch w b) >>= λ logs.
      decode_and_sort logs (insert b.block_number b.block_timestamp []) in
      elim result [
        | err e ↦ (block_step (record b { retries = b.retries + 1 }), err e)
        | ok logs ↦ (
          idle,
          ok (record {
            blocks = record { start = b.block_number; last = b.block_number };
            logs = logs;
          }),
        )
      ]

  abbrev pub stepped :
      EventWatcher
      → Step × Outcome EventError (EventUpdate E)
      → EventWatcher × Outcome EventError (Option (EventUpdate E))
  stepped w r = (record w { step = r.0 }, r.1 >>= λ u. ok (some u))

  -- `EventWatcher::next`
  unfoldable pub next_events :
      EventWatcher → EventWatcher × Outcome EventError (Option (EventUpdate E))
  unfolding warp_step fetch_block
  next_events w = elim w.step [
    | idle ↦ (w, ok none)
    | warping s ↦ stepped w (warp_step w s)
    | block_step b ↦ stepped w (fetch_block w b)
  ]

-- Calls of `next`, each on its node, and the updates that they give.
module _ {E : Type 0} (events : Events E) where
  unfoldable pub run_events : EventWatcher → List Node → EventWatcher × List (EventUpdate E)
  unfolding next_events
  run_events w [] = (w, [])
  run_events w (node ∷ nodes) =
      let r = next_events events node w in
      let rest = run_events r.0 nodes in
      elim r.1 [ ok (some u) ↦ (rest.0, u ∷ rest.1) | ok none ↦ rest | err e ↦ rest ]
