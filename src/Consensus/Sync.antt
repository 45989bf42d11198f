-- ===== src/Consensus/Sync.antt =====
-- Synchronization with another node (core/consensus/src/synchronization.rs). An action takes the two
-- statuses and the effects so far to what they become, with a result; what a failed action did
-- stays done. The storage, the network and the executor answer for the effects that there were. A
-- panic is the error `outside "panic"`.
use muta.Prelude.{
  List, Option, [], drop, ensure, err, false, get_or, if◌then◌else◌, length, ltb, map, nat_beq,
  none, ok, some, suc, take, true, zero, ℕ, ◌++◌, ◌+◌, ◌-◌, ◌∷◌,
}
use muta.Protocol.{Address, Bytes, Hash}
use muta.Consensus.Types.{
  Block, BlockHeader, ConsensusResult, Hex, MerkleRoot, Metadata, Proof, Validator, ValidatorExtend,
  invalid_order_signed_transactions_hash, outside,
}
use muta.Consensus.Status.{
  CurrentConsensusStatus, ExecutedInfo, get_latest_state_root, replace, update_by_committed,
  update_by_executed,
}
use muta.Consensus.Checks.{digest_signed_transactions}
use muta.Consensus.Actions.{Action, ask, lift, pure, ◌>>=◌, ◌>>◌}
use muta.Consensus.Adapter.{Chain, metadata_at, previous_height, verify_block_header, verify_proof}

pub record RichBlock (Tx : Type 0) : Type 0 where
  pub block : Block
  pub txs : List Tx

pub record ExecutorParams : Type 0 where
  pub state_root : MerkleRoot
  pub height : ℕ
  pub timestamp : ℕ
  pub cycles_limit : ℕ
  pub proposer : Address

pub record ExecutorResp (Receipt : Type 0) : Type 0 where
  pub receipts : List Receipt
  pub all_cycles_used : ℕ
  pub state_root : MerkleRoot

-- What is asked of the adapter and of the crypto, beside the questions.
pub data Effect (Tx Receipt : Type 0) : Type 0 where
  crypto_update : Metadata → Effect Tx Receipt
  set_args : ℕ → ℕ → ℕ → Effect Tx Receipt
  tag_consensus : List Bytes → Effect Tx Receipt
  save_signed_txs : ℕ → List Tx → Effect Tx Receipt
  save_receipts : ℕ → List Receipt → Effect Tx Receipt
  save_proof : Proof → Effect Tx Receipt
  save_block : Block → Effect Tx Receipt
  flush_mempool : List Hash → Effect Tx Receipt
  report_status : ℕ → ℕ → ℕ → ℕ → ℕ → ℕ → List Validator → Effect Tx Receipt

-- The effects are the newest first. `wait` is what the other tasks make of the status during
-- a delay, and `wait_execution` what they make of it while the commit is locked.
pub record Peer (Tx Receipt : Type 0) : Type 0 where
  pub chain : List (Effect Tx Receipt) → Chain
  pub perform : List (Effect Tx Receipt) → Effect Tx Receipt → ConsensusResult (Unit {0})
  pub get_block_from_remote : List (Effect Tx Receipt) → ℕ → ConsensusResult Block
  pub get_txs_from_remote : List (Effect Tx Receipt) → ℕ → List Hash → ConsensusResult (List Tx)
  pub get_proof_from_remote : List (Effect Tx Receipt) → ℕ → ConsensusResult Proof
  pub sync_exec :
      List (Effect Tx Receipt) → ExecutorParams → List Tx → ConsensusResult (ExecutorResp Receipt)
  pub encode_tx : Tx → ConsensusResult Bytes
  pub receipt_hash : Receipt → Hash
  pub digest : Bytes → Hash
  pub decode : Hex → Bytes
  pub merkle_root : List Hash → Option Hash
  pub wait : CurrentConsensusStatus → CurrentConsensusStatus
  pub wait_execution : CurrentConsensusStatus → CurrentConsensusStatus

pub record Syncing (Tx Receipt : Type 0) : Type 0 where
  pub status : CurrentConsensusStatus
  pub sync_status : CurrentConsensusStatus
  pub effects : List (Effect Tx Receipt)

abbrev pub once_sync_block_limit : ℕ
once_sync_block_limit = 50

-- The height that one synchronization goes to.
unfoldable pub sync_target : ℕ → ℕ → ℕ
sync_target current_height remote_height =
    if ltb remote_height (current_height + once_sync_block_limit)
    then remote_height
    else current_height + once_sync_block_limit

module _ {Tx Receipt : Type 0} (peer : Peer Tx Receipt) where
  abbrev Sync : Type 0 → Type 0
  Sync A = Action (Syncing Tx Receipt) A

  -- An effect that is refused did not happen.
  abbrev pub recorded : ConsensusResult (Unit {0}) → Effect Tx Receipt → Sync (Unit {0})
  recorded (ok u) e s = (record s { effects = e ∷ s.effects }, ok tt)
  recorded (err x) e s = (s, err x)

  abbrev pub act : Effect Tx Receipt → Sync (Unit {0})
  act e s = recorded (peer.perform s.effects e) e s

  abbrev pub changed : Option CurrentConsensusStatus → Sync (Unit {0})
  changed none s = (s, err (outside "panic"))
  changed (some new) s = (record s { sync_status = new }, ok tt)

  abbrev pub change : (CurrentConsensusStatus → Option CurrentConsensusStatus) → Sync (Unit {0})
  change f s = changed (f s.sync_status) s

  -- `ExecutedInfo::new`
  unfoldable pub new_executed_info : ℕ → MerkleRoot → ExecutorResp Receipt → ExecutedInfo
  new_executed_info height order_root resp = record {
    exec_height = height;
    cycles_used = resp.all_cycles_used;
    state_root = resp.state_root;
    receipt_root =
        get_or (peer.merkle_root (map (λ r. peer.receipt_hash r) resp.receipts)) (peer.digest []);
    confirm_root = order_root;
  }

  -- The transactions of a block, asked for in chunks; the fuel is their number, which is enough for
  -- chunks of at least one. The code panics at chunks of none.
  unfoldable pub get_txs : ℕ → ℕ → ℕ → List Hash → Sync (List Tx)
  get_txs chunk_size height zero hashes = pure []
  get_txs chunk_size height (suc n) [] = pure []
  get_txs chunk_size height (suc n) (hash ∷ hashes) = do
    remote_txs ←
        ask (λ s. peer.get_txs_from_remote s.effects height (take chunk_size (hash ∷ hashes)))
    rest ← get_txs chunk_size height n (drop chunk_size (hash ∷ hashes))
    pure (remote_txs ++ rest)

  unfoldable pub get_rich_block_from_remote : ℕ → ℕ → Sync (RichBlock Tx)
  get_rich_block_from_remote chunk_size height = do
    block ← ask (λ s. peer.get_block_from_remote s.effects height)
    txs ← get_txs chunk_size height (length block.ordered_tx_hashes) block.ordered_tx_hashes
    pure (record { block = block; txs = txs })

  unfoldable pub exec_params : BlockHeader → CurrentConsensusStatus → ExecutorParams
  exec_params header current_status = record {
    state_root = get_latest_state_root current_status;
    height = header.height;
    timestamp = header.timestamp;
    cycles_limit = current_status.cycles_limit;
    proposer = header.proposer;
  }

  unfoldable pub exec_block : RichBlock Tx → Sync (ExecutorResp Receipt)
  exec_block rich_block = do
    resp ← (λ s. (
      s,
      peer.sync_exec s.effects (exec_params rich_block.block.header s.sync_status) rich_block.txs,
    ))
    change (
        update_by_executed (
          new_executed_info rich_block.block.header.height rich_block.block.header.order_root resp))
    pure resp

  unfoldable pub save_chain_data : List Tx → List Receipt → Block → Sync (Unit {0})
  save_chain_data txs receipts block = do
    act (save_signed_txs block.header.height txs)
    act (save_receipts block.header.height receipts)
    act (save_proof block.header.proof)
    act (save_block block)

  unfoldable pub pub_keys : (Hex → Bytes) → List ValidatorExtend → List Bytes
  pub_keys decode [] = []
  pub_keys decode (v ∷ vs) = decode v.pub_key ∷ pub_keys decode vs

  -- The metadata of the block, handed to the crypto, the mempool and the network.
  unfoldable pub apply_metadata : Metadata → Sync (Unit {0})
  apply_metadata metadata = do
    act (crypto_update metadata)
    act (set_args metadata.timeout_gap metadata.cycles_limit metadata.max_tx_size)
    act (tag_consensus (pub_keys peer.decode metadata.verifier_list))

  unfoldable pub commit_block : RichBlock Tx → Proof → Sync (Unit {0})
  commit_block rich_block proof = do
    executor_resp ← exec_block rich_block
    block_hash ← ask (λ s. (peer.chain s.effects).header_hash rich_block.block.header)
    metadata ← ask (λ s. metadata_at (peer.chain s.effects) rich_block.block.header)
    apply_metadata metadata
    change (update_by_committed peer.decode metadata rich_block.block block_hash proof)
    save_chain_data rich_block.txs executor_resp.receipts rich_block.block
    act (flush_mempool rich_block.block.ordered_tx_hashes)

  unfoldable pub update_status : Sync (Unit {0})
  update_status s =
      act
        (report_status s.sync_status.latest_committed_height s.sync_status.consensus_interval
          s.sync_status.propose_ratio s.sync_status.prevote_ratio s.sync_status.precommit_ratio
          s.sync_status.brake_ratio s.sync_status.validators)
        (record s { status = replace s.sync_status s.status })

  -- The checks of a block before it is committed.
  unfoldable pub verify_rich_block : RichBlock Tx → Proof → Sync (Unit {0})
  verify_rich_block rich_block proof = do
    ask (λ s. verify_block_header (peer.chain s.effects) rich_block.block)
    ask (λ s. verify_proof (peer.chain s.effects) rich_block.block.header proof)
    previous_block_header ← ask (λ s.
        (peer.chain s.effects).get_block_header_by_height
          (previous_height rich_block.block.header.height))
    ask (λ s.
        verify_proof (peer.chain s.effects) previous_block_header rich_block.block.header.proof)
    hash ← lift (digest_signed_transactions peer.encode_tx peer.digest rich_block.txs)
    lift (
        ensure (nat_beq hash rich_block.block.header.order_signed_transactions_hash) (
          invalid_order_signed_transactions_hash hash
            rich_block.block.header.order_signed_transactions_hash))

  -- A turn of the loop.
  unfoldable pub sync_block : ℕ → ℕ → Sync (Unit {0})
  sync_block chunk_size height = do
    rich_block ← get_rich_block_from_remote chunk_size height
    proof ← ask (λ s. peer.get_proof_from_remote s.effects height)
    verify_rich_block rich_block proof
    commit_block rich_block proof
    update_status

  unfoldable pub sync_blocks : ℕ → ℕ → ℕ → ℕ → Sync (Unit {0})
  sync_blocks chunk_size remote_height zero current = pure tt
  sync_blocks chunk_size remote_height (suc n) current = elim (ltb current remote_height) [
    | false ↦ pure tt
    | true ↦
        sync_block chunk_size (current + 1) >> sync_blocks chunk_size remote_height n (current + 1)
  ]

  -- The loop, which has as many turns as there are heights to go.
  unfoldable pub start_sync : ℕ → ℕ → ℕ → Sync (Unit {0})
  start_sync chunk_size current_height remote_height =
      let target = sync_target current_height remote_height in
      sync_blocks chunk_size target (target - current_height) current_height
