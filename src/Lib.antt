-- ===== src/Lib.antt =====
-- The services of Safenet: the validator under crates/validator, which takes part in distributed key
-- generation and threshold signing, and the sentinel under crates/sentinel, which votes on proposed
-- transactions, each as its deterministic state machine; and of the library under crates/core that
-- drives both: the block watcher, the state machine's persistence, and the submission of
-- transactions.
--
-- The parts and how they interact. The service feeds a state machine with messages: a new block, an
-- event of the contracts, or the result of an effect that it asked for. `apply_transition`
-- (crates/validator/src/state/mod.rs) takes the state and a message to a new state and a list of
-- commands: actions are transactions to submit, effects are work outside the machine. The state has
-- the key generation for the next epoch (`rollover`), the active epoch, the groups and key shares of
-- the epochs in which this validator participates, the signing sessions by message, and an index from
-- signature ids to messages.
-- The core library runs such a transition function. The block watcher turns what a node answers into
-- updates: a range to warp over, a new block, an uncled block. The event watcher fetches their logs, a
-- warp's in pages; one watcher asks both in turn, and has a block removed that the node no longer
-- serves. `StateMachine` takes the updates and the logs of the blocks, calls the transition function,
-- and commits a snapshot of the state for each batch of logs, from which an uncle or a
-- restart resumes. The actions become transactions, which are stored, bundled and given nonces. The
-- sentinel's transition function has the same trait, `StateTransition`; its state is a map of
-- requests, each in a phase of a commit-reveal vote.
--
-- Which file models what:
-- Prelude: shared helpers. Prelude.BTree has the ordered maps and sets of the Rust standard library
--   as lists of entries in ascending order of their keys, Prelude.BTree.Sorted that order, and
--   Prelude.Words the fixed-width arithmetic, with its wrap-around and saturation written out.
-- Alloy: the Ethereum types of crates/validator/src/bindings.rs and consensus/hashing.rs, and the
--   operations of the alloy crates as a record that is an instance argument of the model.
-- Consensus: crates/validator/src/consensus (epoch.rs, group.rs, hashing.rs) and merkle.rs, one
--   module for each.
-- Validator.Frost: what the machine calls of crates/validator/src/frost, as a record that is an
--   instance argument. Its types are opaque, `none` stands for an error, and nothing is assumed of it.
-- Validator.State: the state, commands and configuration (state/mod.rs, service/action.rs,
--   service/effect.rs, config.rs, secrets/store.rs for `RetainedSecrets`).
-- Validator.Sign, with Packets and Timeouts: state/sign.rs. Validator.KeyGen, with Start, Rounds,
--   Complaints, Rollover and Timeouts: state/keygen.rs. Validator.Transactions: state/transactions.rs.
--   Validator.Reconcile: state/secrets.rs. Validator.Step: `apply_transition` and the dispatch of
--   messages.
-- Core.Updates: the types of crates/core/src/index that reach the state machine. Core.Blocks: the
--   block watcher, index/blocks.rs. Core.Events: the event watcher, index/events.rs. Core.Watcher: the
--   two together, index/mod.rs. Core.Status, Core.Machine and Core.Snapshots: state/mod.rs and
--   state/storage.rs. Core.Tx, with Types, Fees, Bundle and Storage: crates/core/src/tx, the files of
--   those names.
-- Sentinel.State: crates/sentinel/src/state.rs, action.rs, effect.rs, engine.rs and hashing.rs, as far
--   as the machine uses them. Sentinel.Voting, Outcomes and Service: service.rs.
-- Core.Machine's, Core.Snapshots', Core.Blocks', Core.Events', Core.Watcher's and Core.Tx's other
--   modules and Sentinel.Trace have proofs, with the notions that these need: the logs of consecutive
--   blocks, a consumer's view of the chain, the messages and commands of a run.
-- Validator.Links, Burns, Rollovers, Proposals, Retention and the modules Sweep, Expiry, Nonces,
--   Approval and Frames have the proofs. Samples has concrete instances of the two records and
--   concrete states, the Tests modules run the model on them.
--
-- How code and model correspond. A handler has the name that it has in the code; its `self` is the
-- record `Transition`, and its result the pair of the new state and the commands. A helper that has no
-- name in the code is a part of a handler and named for what it does. Where a handler takes a session
-- out of the map and puts it back, so does the model. An address, a `B256` and a `U256` are the
-- numbers that their bytes spell, which are ordered as the bytes are. An `EpochId` as a key is its raw
-- value, by which the code orders it. A `NonZeroU64` is a number. An event has the fields that its
-- handler reads. A database table is a map or a list of its rows, and a query a function on it; a
-- number that is no `i64` is an error. The mutable object of a method is a record that the method
-- returns, and an error of the state machine leaves its state taken out. The recent blocks of the
-- watcher have the newest in front. What a node answers is an argument. The sentinel's map of requests
-- has no order in the code; here it is in the order of the ids.
--
-- Bounds and fuel. The levels of a Merkle tree are built on fuel, the number of leaves, which is
-- enough since each level has half as many nodes as the one before, rounded up. Every other loop is
-- structural. Block numbers saturate at the largest `u64`, counts are cut to `u16`, where the code
-- does so. The counters of a tally wrap at 2 ^ 64, as `u64`s do in a release build.
--
-- Not modelled: logging and metrics; the FROST computations and the hash function themselves; the
-- encoding of actions and the performing of effects; the stores of secrets and of verdicts; of
-- crates/core the block watcher's initialization, the transaction queue around its
-- storage, failures of the database, and the driver; crates/sentinel-engine; the contracts, which
-- the services see through their events; the explorer.
pub mod Prelude
pub mod Alloy
pub mod Consensus
pub mod Core
pub mod Validator
pub mod Sentinel
pub mod Samples
