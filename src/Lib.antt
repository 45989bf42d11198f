-- ===== src/Lib.antt =====
-- Models and theorems for muta, a framework for blockchains.
--
-- The program's parts and how they interact. A chain is a set of services that run in a virtual
-- machine: the executor (framework/src/executor) gives each transaction of a block to a service,
-- with a context that holds the caller and the cycles left, and a service keeps its data through an
-- SDK (framework/src/binding/sdk). The consensus engine orders the transactions that the memory
-- pool packages.
--
-- Files and the code they model:
--   * Prelude: Boolean tests, `Option`, lists, maps as association lists, results. No code.
--   * Protocol: protocol/src/types/primitive.rs (Primitive, Keys), protocol/src/traits/executor.rs
--     and what binding-macro/src/cycles.rs puts before a method (Response),
--     protocol/src/types/service_context.rs and receipt.rs (Context).
--   * Asset: built-in-services/asset/src. Types and Service hold the payloads and the operations
--     under the source's names; `_transfer` is `move_value`.
--   * MultiSig: built-in-services/multi-signature/src. Types has the methods of
--     `MultiSigPermission` (`add_account` of the type is `push_account`, `set_threshold` is
--     `set_threshold_to`), Verify the private functions that verify, Service the operations.
--   * Mempool: core/mempool/src. Buckets is map.rs, Roles and Cache are tx_cache.rs, Pool is lib.rs
--     with the adapter as a record. `package` is `package_txs` in the cache and `package_pool` in the pool.
--   * Framework: framework/src. State is binding/state/mod.rs, Executor is `catch_call` of
--     executor/mod.rs with the hooks of a transaction, Blocks is its `exec` and `commit`,
--     StoreBuckets is the buckets of keys of binding/store/mod.rs, StoreValues is
--     binding/store/primitive.rs, StoreArray is binding/store/array.rs. Committed, Executed and
--     Answers hold theorems on blocks, Transactions on hooks, Views and Numbers on values.
--   * Consensus: core/consensus/src. Status is status.rs, Adapter has the checks of adapter.rs, Sync
--     and Receive are synchronization.rs, Checks, Engine and Commit are engine.rs, with
--     `check_list_roots` and `digest_signed_transactions` of util.rs. The other modules hold
--     theorems: Splits and History on the status, Weights and Quorum on headers and proofs, Syncing,
--     Heights and Received on the synchronization, Proposal, Checked, Tries and Committed on the
--     engine.
--   * Network: core/network/src/peer_manager. Types has what common.rs and event.rs of
--     core/network/src declare, Retry is retry.rs, Tags is tags.rs with `PeerTag` of
--     protocol/src/traits/network.rs, Addrs is addr_set.rs, Peers is peer.rs with the counters of
--     trust_metric.rs, Sessions is session_book.rs. mod.rs is Manager (the state and
--     `new_session_pre_check`), Start (`new` with its allow list), Events (the events of sessions and of blame), Dialling (the events of
--     connections and addresses, and `process_event`), Routine (`poll`) and Handle (the
--     `PeerManagerHandle`, with shared.rs: its `peers` is `connected_sessions`). A handler whose name
--     is taken has `on_` before it. The other modules hold theorems: Linked and Counted on the session
--     book and the peers, Sound, PreCheck, Steps, Blames, Dials, Handled and Reached on what every
--     event keeps, Addressed on the messages, Waits on retries, Bans on tags, Replaced and
--     Admits on the checks.
--
-- How the code is read. A service is a function of a payload, a state and a context, and gives an
-- `Outcome`: the response, the new state and the new context. The state is a parameter with an
-- interface (`AssetSdk`, `MultiSigSdk`): the functions that the service calls, and the laws of a
-- store. Hashing, JSON, signature recovery and the text of an address are functions that the model
-- takes. Hashes and addresses are the numbers their bytes spell, and texts are strings. A machine
-- integer is a natural number, and its wrap-around is written out. The calls of the memory pool run
-- one after the other, each to its end. A `HashMap` is an association list, and where the code
-- drains one, the model picks an order: no key stands twice in it. An `async fn` of the consensus engine is an action: it takes
-- a state to a state and a result, and what it did before an error stays done. Its writes to the
-- storage, the mempool and the network are a list of effects in the state, the newest first, and
-- what it reads there is a function of that list. A change of the status by another task during a
-- delay is the function `wait`. The peer manager is a state that each event maps to the next one. The
-- clock, the draws of random numbers, the functions of the transport and the score of a trust metric
-- come with the event, as a `World`. An `ArcPeer` that several holders share is a peer id and an entry
-- of the book of peers. Logs and metrics are left out.
--
-- Bounds and fuel. The verification of a multi-signature calls itself through the accounts of a
-- permission, to a depth of eight that the code checks. The model gives it the depth as fuel, and
-- the code's own check stops it before the fuel is spent. The tries of an execution and the delays
-- before a synchronization, which the code repeats without end, are bounded by a fuel: one above the
-- number of refusals or delays is enough. The loop of a synchronization is bounded by the heights
-- that it has to go, and the requests for the transactions of a block by their number. The loop
-- that makes a peer wait after a short session has 256 rounds, as many as its counter has values.
--
-- Not modelled: the agreement protocol (the crate overlord), the network apart from the peer manager,
-- and of that the values of a trust metric, which are floating-point numbers, `bootstrap` and
-- the file of peers; the disk, the logs that
-- are written ahead, the GraphQL interface, and the code that the macros generate apart from the
-- cycles. Where the code panics, the model says at the definition what stands for it.
pub mod Prelude
pub mod Protocol
pub mod Asset
pub mod MultiSig
pub mod Mempool
pub mod Framework
pub mod Consensus
pub mod Network
