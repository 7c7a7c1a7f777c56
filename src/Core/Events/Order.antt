-- ===== src/Core/Events/Order.antt =====
-- The logs of a batch stand in its range and in their order (crates/core/src/index/events.rs,
-- state/mod.rs).
use safenet.Prelude.{
  ℕ, ◌≤◌, ◌≡◌, refl, none, some, List, [], ◌∷◌, ◌++◌, ltb, leb, ◌==◌, ◌&&◌, ◌||◌, Bool, true, false,
  Outcome, ok, err, ◌>>=◌, All, All-append, arith, Outcome-cases, Option-cases, Bool-cases, inl,
  inr,
}
use safenet.Prelude.BTree.{BTreeMap}
use safenet.Alloy.{Address, B256}
use safenet.Core.Updates.{EventLog, BlockRange}
use safenet.Core.Status.{in_range}
use safenet.Core.Machine.{is_sorted, all_in_range}
use safenet.Core.Events.{
  EventWatcher, EventConfig, EventError, Events, Node, RawLog, block_range_filter, Warping,
  insert_log, sort_logs, decode_one, decode_logs, decode_and_sort, query_topics, check_logs_limit,
  fetch_logs, page_fetch, page_end,
}

-- A log whose block is in the range, if it has one.
abbrev pub LogWithin : ℕ → ℕ → RawLog → Type 0
LogWithin from to l = elim l.block_number [ none ↦ Unit | some n ↦ (from ≤ n) × (n ≤ to) ]

-- The answers to a query over a range of blocks are logs of these blocks.
abbrev pub IsInRange : Node → Type 0
IsInRange node =
    (from to : ℕ) (addresses : List Address) (topics : List B256) (ls : List RawLog)
    → node.get_logs (block_range_filter from to) addresses topics ≡ ok ls
    → All (LogWithin from to) ls

module _ {E : Type 0} where
  -- Two neighbours are of the same place.
  unfoldable pub shares_place : List (EventLog E) → Bool
  shares_place [] = false
  shares_place (a ∷ []) = false
  shares_place (a ∷ b ∷ ls) =
      ((a.block.number == b.block.number) && (a.index == b.index)) || shares_place (b ∷ ls)

  abbrev not_after : EventLog E → EventLog E → Bool
  not_after a b =
      ltb a.block.number b.block.number
      || ((a.block.number == b.block.number) && leb a.index b.index)

  unfoldable is_ordered : List (EventLog E) → Bool
  is_ordered [] = true
  is_ordered (a ∷ []) = true
  is_ordered (a ∷ b ∷ ls) = not_after a b && is_ordered (b ∷ ls)

  insert_log_ordered :
      (a : EventLog E) (ls : List (EventLog E))
      → is_ordered ls ≡ true
      → is_ordered (insert_log a ls) ≡ true
  unfolding insert_log is_ordered
  insert_log_ordered a [] h = refl
  insert_log_ordered a (b ∷ []) h = ground arith
  insert_log_ordered a (b ∷ c ∷ ls) h = grind (arith, insert_log_ordered a (c ∷ ls))

  sort_logs_ordered : (ls : List (EventLog E)) → is_ordered (sort_logs ls) ≡ true
  unfolding sort_logs is_ordered
  sort_logs_ordered [] = refl
  sort_logs_ordered (a ∷ ls) = insert_log_ordered a (sort_logs ls) (sort_logs_ordered ls)

  ordered_sorted :
      (ls : List (EventLog E)) → is_ordered ls ≡ true → (is_sorted ls || shares_place ls) ≡ true
  unfolding is_ordered is_sorted shares_place
  ordered_sorted [] h = refl
  ordered_sorted (a ∷ []) h = refl
  ordered_sorted (a ∷ b ∷ ls) h = grind (arith, ordered_sorted (b ∷ ls))

  all_in_range-insert_log :
      (r : BlockRange) (a : EventLog E) (ls : List (EventLog E))
      → all_in_range r (insert_log a ls) ≡ (in_range r a.block.number && all_in_range r ls)
  unfolding all_in_range insert_log
  all_in_range-insert_log r a [] = refl
  all_in_range-insert_log r a (b ∷ ls) = grind (arith, all_in_range-insert_log r a ls)

  all_in_range-sort_logs :
      (r : BlockRange) (ls : List (EventLog E)) → all_in_range r (sort_logs ls) ≡ all_in_range r ls
  unfolding all_in_range sort_logs
  all_in_range-sort_logs r [] = refl
  all_in_range-sort_logs r (a ∷ ls) =
      grind (arith, all_in_range-sort_logs r ls, all_in_range-insert_log r a (sort_logs ls))

module _ {E : Type 0} (events : Events E) (node : Node) where
  decode_one-in_range :
      (from to : ℕ) (ts : BTreeMap ℕ) (l : RawLog) (log : EventLog E)
      → LogWithin from to l
      → decode_one events node ts l ≡ some log
      → in_range (record { start = from; last = to }) log.block.number ≡ true
  unfolding decode_one
  decode_one-in_range from to ts l log h e = elim (Option-cases l.block_number) [
    | inl p ↦ ground arith
    | inr (n, p) ↦ ground arith
  ]

  decode_logs-all_in_range :
      (from to : ℕ) (ts : BTreeMap ℕ) (ls : List RawLog) (out : List (EventLog E))
      → All (LogWithin from to) ls
      → decode_logs events node ts ls ≡ ok out
      → all_in_range (record { start = from; last = to }) out ≡ true
  unfolding decode_logs all_in_range
  decode_logs-all_in_range from to ts [] out h e = grind arith
  decode_logs-all_in_range from to ts (l ∷ ls) out h e =
      elim (Option-cases (decode_one events node ts l)) [
        | inl p ↦ grind arith
        | inr (log, p) ↦ elim (Outcome-cases (decode_logs events node ts ls)) [
          | inl (rest, q) ↦ grind (
            arith,
            decode_one-in_range from to ts l log h.0 p,
            decode_logs-all_in_range from to ts ls rest h.1 q,
          )
          | inr (x, q) ↦ grind arith
        ]
      ]

  -- What a batch holds of logs in a range.
  pub decode_and_sort_lem :
      (from to : ℕ) (ts : BTreeMap ℕ) (ls : List RawLog) (out : List (EventLog E))
      → All (LogWithin from to) ls
      → decode_and_sort events node ls ts ≡ ok out
      → (all_in_range (record { start = from; last = to }) out ≡ true)
        × ((is_sorted out || shares_place out) ≡ true)
  unfolding decode_and_sort
  decode_and_sort_lem from to ts ls out h e = elim (Outcome-cases (decode_logs events node ts ls)) [
    | inl (logs, q) ↦ (
      grind (
        arith,
        all_in_range-sort_logs (record { start = from; last = to }) logs,
        decode_logs-all_in_range from to ts ls logs h q,
      ),
      grind (arith, ordered_sorted (sort_logs logs) (sort_logs_ordered logs)),
    )
    | inr (x, q) ↦ grind arith
  ]

  module _ (served : IsInRange node) where
    abbrev Fetches : ℕ → ℕ → Outcome EventError (List RawLog) → Type 0
    Fetches from to (ok ls) = All (LogWithin from to) ls
    Fetches from to (err e) = Unit

    query_Fetches :
        (c : EventConfig) (from to : ℕ) (addresses : List Address) (topics : List B256)
        → Fetches from to
            (node.get_logs (block_range_filter from to) addresses topics >>= check_logs_limit c)
    unfolding check_logs_limit
    query_Fetches c from to addresses topics =
        elim (Outcome-cases (node.get_logs (block_range_filter from to) addresses topics)) [
          | inl (ls, e) ↦ grind (arith, served from to addresses topics ls e)
          | inr (x, e) ↦ grind arith
        ]

    appended :
        (from to : ℕ) (ls : List RawLog) (r : Outcome EventError (List RawLog))
        → All (LogWithin from to) ls
        → Fetches from to r
        → Fetches from to (r >>= λ more. ok (ls ++ more))
    appended from to ls (ok more) h g = All-append (LogWithin from to) ls more h g
    appended from to ls (err e) h g = tt

    query_topics-Fetches :
        (c : EventConfig) (addresses : List Address) (from to : ℕ) (topics : List B256)
        → Fetches from to (query_topics events node c addresses (block_range_filter from to) topics)
    unfolding query_topics
    query_topics-Fetches c addresses from to [] = tt
    query_topics-Fetches c addresses from to (t ∷ ts) =
        at (node.get_logs (block_range_filter from to) addresses (t ∷ []) >>= check_logs_limit c)
          refl (query_Fetches c from to addresses (t ∷ []))
          (query_topics-Fetches c addresses from to ts)
      where
        at :
            (r : Outcome EventError (List RawLog))
            → (node.get_logs (block_range_filter from to) addresses (t ∷ []) >>= check_logs_limit c)
              ≡ r
            → Fetches from to r
            → Fetches from to (query_topics events node c addresses (block_range_filter from to) ts)
            → Fetches from to
                (query_topics events node c addresses (block_range_filter from to) (t ∷ ts))
        at (ok ls) e h g = grind (
          arith,
          appended from to ls (query_topics events node c addresses (block_range_filter from to) ts)
              h g,
        )
        at (err x) e h g = grind (arith, g)

    pub page_fetch_lem :
        (w : EventWatcher) (s : Warping) (ls : List RawLog)
        → fetch_logs events node w (page_fetch s) ≡ ok ls
        → All (LogWithin s.from_block (page_end s)) ls
    unfolding fetch_logs
    page_fetch_lem w s ls h = elim (Bool-cases (ltb 1 s.page_size)) [
      | inl e ↦
          grind (arith, query_Fetches w.config s.from_block (page_end s) w.addresses events.topics)
      | inr e ↦
          grind (
            arith,
            query_topics-Fetches w.config w.addresses s.from_block (page_end s) events.topics,
          )
    ]
