-- ===== src/Framework/Blocks.antt =====
-- A block under the executor (framework/src/executor/mod.rs, `exec`): the hooks of the block, its
-- transactions, the commit, and the receipts (protocol/src/types/receipt.rs).
use muta.Prelude.{
  List, Option, Result, String, [], err, none, ok, some, string_default, ℕ, ◌%◌, ◌+◌, ◌>>=◌, ◌∷◌,
}
use muta.Protocol.{Address, Event, Hash, ServiceContext, ServiceResponse, u64_mod}
use muta.Mempool.Types.{SignedTransaction}
use muta.Framework.State.{FixedCodec, GeneralServiceState, TrieOps, commit, insert_value, stash}
use muta.Framework.Executor.{
  ExecutorError, Service, ServiceStateMap, catch_call, read_write, revert_states, stash_states,
}

pub record ExecutorParams : Type 0 where
  pub state_root : Hash
  pub height : ℕ
  pub timestamp : ℕ
  pub cycles_limit : ℕ
  pub proposer : Address

pub record ReceiptResponse : Type 0 where
  pub service_name : String
  pub method : String
  pub response : ServiceResponse String

pub record Receipt : Type 0 where
  pub state_root : Hash
  pub height : ℕ
  pub tx_hash : Hash
  pub cycles_used : ℕ
  pub events : List Event
  pub response : ReceiptResponse

pub record ExecutorResp : Type 0 where
  pub receipts : List Receipt
  pub all_cycles_used : ℕ
  pub state_root : Hash

-- An error of the executor, or one of a state.
pub data BlockError (E : Type 0) : Type 0 where
  execution : ExecutorError → BlockError E
  storage : E → BlockError E

-- `MerkleRoot::from_empty`, the hash of no bytes, stands in a receipt until the commit.
unfoldable pub make_receipt :
    Hash → SignedTransaction → ServiceContext → ServiceContext → ServiceResponse String → Receipt
make_receipt empty stx given left exec_resp = record {
  state_root = empty;
  height = given.height;
  tx_hash = stx.tx_hash;
  cycles_used = left.cycles_used;
  events = left.events;
  response = record {
    service_name = given.service_name;
    method = given.service_method;
    response = exec_resp;
  };
}

unfoldable pub get_context : ExecutorParams → SignedTransaction → ServiceContext
get_context params stx = record {
  tx_hash = some stx.tx_hash;
  nonce = some stx.raw.nonce;
  cycles_limit = stx.raw.cycles_limit;
  cycles_price = stx.raw.cycles_price;
  cycles_used = 0;
  caller = stx.raw.sender;
  height = params.height;
  service_name = stx.raw.request.service_name;
  service_method = stx.raw.request.method;
  service_payload = stx.raw.request.payload;
  extra = none;
  timestamp = params.timestamp;
  events = [];
  canceled_reason = none;
}

-- The sum of the cycles is a `u64`.
unfoldable pub sum_cycles : List Receipt → ℕ → ℕ
sum_cycles [] total = total
sum_cycles (r ∷ receipts) total = sum_cycles receipts ((total + r.cycles_used) % u64_mod)

unfoldable pub set_roots : Hash → List Receipt → List Receipt
set_roots root [] = []
set_roots root (r ∷ receipts) = record r { state_root = root } ∷ set_roots root receipts

module _ {T E : Type 0} (ops : TrieOps T E) where
  -- A hook of a block ends, or panics with a text.
  abbrev pub BlockHook : Type 0
  BlockHook = ExecutorParams → ServiceStateMap ops → Result (Unit {0}) String × ServiceStateMap ops

  unfoldable pub settle_hook : Result (Unit {0}) String × ServiceStateMap ops → ServiceStateMap ops
  unfolding stash_states revert_states
  settle_hook (ok _, states) = stash_states ops states
  settle_hook (err e, states) = revert_states ops states

  -- `hook`: what a panicking hook wrote is dropped, and the next one runs.
  unfoldable pub block_hooks :
      List BlockHook → ExecutorParams → ServiceStateMap ops → ServiceStateMap ops
  unfolding settle_hook
  block_hooks [] params states = states
  block_hooks (hook ∷ hooks) params states =
      block_hooks hooks params (settle_hook (hook params states))

  -- The states of the services, and the state that holds their roots.
  pub record ServiceExecutor : Type 0 where
    pub states : ServiceStateMap ops
    pub root_state : GeneralServiceState T

  module _ (names : FixedCodec String E) (hashes : FixedCodec Hash E) where
    -- The loop of `commit`, which stops at the first failure.
    unfoldable pub commit_states :
        ServiceStateMap ops
        → GeneralServiceState T
        → Result (Unit {0}) E × (ServiceStateMap ops × GeneralServiceState T)
    unfolding commit insert_value
    commit_states [] root_state = (ok tt, ([], root_state))
    commit_states ((name, s) ∷ states) root_state =
        let (root, s') = commit ops s in
        elim (root >>= (λ h. insert_value ops names hashes name h root_state)) [
          | err e ↦ (err e, ((name, s') ∷ states, root_state))
          | ok root_state' ↦
              let (done, (states', root_state'')) = commit_states states root_state' in
              (done, ((name, s') ∷ states', root_state''))
        ]

    unfoldable pub commit_root :
        Result (Unit {0}) E × (ServiceStateMap ops × GeneralServiceState T)
        → Result Hash (BlockError E) × ServiceExecutor
    unfolding stash commit
    commit_root (err e, (states, root_state)) =
        (err (storage e), record { states = states; root_state = root_state })
    commit_root (ok _, (states, root_state)) =
        let (root, root_state') = commit ops (stash ops root_state) in
        (
          elim root [ err e ↦ err (storage e) | ok h ↦ ok h ],
          record { states = states; root_state = root_state' },
        )

    -- `ServiceExecutor::commit`
    unfoldable pub commit_all : ServiceExecutor → Result Hash (BlockError E) × ServiceExecutor
    unfolding commit_states commit_root
    commit_all x = commit_root (commit_states x.states x.root_state)

    module _ (empty : Hash) (find : String → Option (Service ops))
        (services : List (String × Service ops)) where
      unfoldable pub exec_tx :
          ExecutorParams
          → SignedTransaction
          → ServiceStateMap ops
          → Result Receipt (BlockError E) × ServiceStateMap ops
      unfolding get_context catch_call make_receipt
      exec_tx params stx states =
          let given = get_context params stx in
          let (r, w) =
            catch_call ops find read_write services (record { states = states; context = given }) in
          (
            elim r [
              | err e ↦ err (execution e)
              | ok exec_resp ↦ ok (make_receipt empty stx given w.context exec_resp)
            ],
            w.states,
          )

      -- The first error ends the block.
      unfoldable pub exec_txs :
          ExecutorParams
          → List SignedTransaction
          → ServiceStateMap ops
          → Result (List Receipt) (BlockError E) × ServiceStateMap ops
      unfolding exec_tx
      exec_txs params [] states = (ok [], states)
      exec_txs params (stx ∷ txs) states =
          let (r, states') = exec_tx params stx states in
          let (rest, states'') = exec_txs params txs states' in
          elim r [
            | err e ↦ (err e, states')
            | ok receipt ↦ (rest >>= (λ receipts. ok (receipt ∷ receipts)), states'')
          ]

      unfoldable pub respond :
          List Receipt
          → Result Hash (BlockError E) × ServiceExecutor
          → Result ExecutorResp (BlockError E) × ServiceExecutor
      unfolding set_roots sum_cycles
      respond receipts (err e, x) = (err e, x)
      respond receipts (ok root, x) = (
        ok (record {
          receipts = set_roots root receipts;
          all_cycles_used = sum_cycles receipts 0;
          state_root = root;
        }),
        x,
      )

      unfoldable pub finish_block :
          List BlockHook
          → ExecutorParams
          → GeneralServiceState T
          → Result (List Receipt) (BlockError E) × ServiceStateMap ops
          → Result ExecutorResp (BlockError E) × ServiceExecutor
      unfolding block_hooks commit_all respond
      finish_block hooks params root_state (err e, states) =
          (err e, record { states = states; root_state = root_state })
      finish_block hooks params root_state (ok receipts, states) = respond receipts (
          commit_all (record { states = block_hooks hooks params states; root_state = root_state }))

      -- `exec`, with the hooks of the services before and after a block.
      unfoldable pub exec :
          List BlockHook
          → List BlockHook
          → ExecutorParams
          → List SignedTransaction
          → ServiceExecutor
          → Result ExecutorResp (BlockError E) × ServiceExecutor
      unfolding block_hooks exec_txs finish_block
      exec befores afters params txs x =
          finish_block afters params x.root_state
            (exec_txs params txs (block_hooks befores params x.states))
