-- ===== src/Consensus/Engine.antt =====
-- The engine under the agreement protocol: proposing, checking and committing blocks
-- (core/consensus/src/engine.rs). As for a synchronization, the storage, the mempool, the network
-- and the executor answer for the effects that there were, the newest first.
use muta.Prelude.{Bool, List, Option, [], ensure, err, get_or, nat_beq, ok, suc, zero, ℕ, ◌∷◌}
use muta.Protocol.{Address, Bytes, Hash}
use muta.Consensus.Types.{
  Block, BlockHeader, ConsensusResult, Hex, MerkleRoot, Metadata, Pill, Proof, Validator,
  invalid_timestamp, missing_block_header,
}
use muta.Consensus.Status.{CurrentConsensusStatus, get_latest_state_root}
use muta.Consensus.Checks.{
  check_block_roots, check_order_transactions, digest_signed_transactions, validate_timestamp,
}
use muta.Consensus.Actions.{Action, ask, lift, ◌>>=◌, ◌>>◌}
use muta.Consensus.Adapter.{Chain, Node, previous_height, verify_block_header, verify_proof}
use muta.Consensus.Actions.{Action, ask, lift, ◌>>=◌, ◌>>◌}

pub data EngineEffect (Tx : Type 0) : Type 0 where
  saved_proof : Proof → EngineEffect Tx
  saved_txs : ℕ → List Tx → EngineEffect Tx
  saved_block : Block → EngineEffect Tx
  executed_txs : Hash → MerkleRoot → ℕ → ℕ → Address → Hash → List Tx → ℕ → ℕ → EngineEffect Tx
  args_set : ℕ → ℕ → ℕ → EngineEffect Tx
  consensus_tagged : List Bytes → EngineEffect Tx
  crypto_updated : Metadata → EngineEffect Tx
  mempool_flushed : List Hash → EngineEffect Tx
  height_broadcast : ℕ → EngineEffect Tx
  wal_saved : ℕ → Hash → List Tx → EngineEffect Tx
  wal_removed : ℕ → EngineEffect Tx
  txs_synced : List Hash → EngineEffect Tx
  delayed : EngineEffect Tx

-- `time_now` reads the clock, and `wait` is what the other tasks make of the status during a delay. `sorted` is the order of the agreement protocol's nodes.
pub record Host (Tx : Type 0) : Type 0 where
  pub chain : List (EngineEffect Tx) → Chain
  pub perform : List (EngineEffect Tx) → EngineEffect Tx → ConsensusResult (Unit {0})
  pub get_txs_from_mempool :
      List (EngineEffect Tx) → ℕ → ℕ → ℕ → ConsensusResult (List Hash × List Hash)
  pub get_full_txs : List (EngineEffect Tx) → List Hash → ConsensusResult (List Tx)
  pub verify_txs : List (EngineEffect Tx) → ℕ → List Hash → ConsensusResult (Unit {0})
  pub load_wal : List (EngineEffect Tx) → ℕ → Hash → ConsensusResult (List Tx)
  pub encode_tx : Tx → ConsensusResult Bytes
  pub digest : Bytes → Hash
  pub merkle_root : List Hash → Option Hash
  pub decode : Hex → Bytes
  pub time_now : List (EngineEffect Tx) → ℕ
  pub sorted : List Node → List Node
  pub chain_id : Hash
  pub self_address : Address
  pub hash_from_bytes : Bytes → ConsensusResult Hash
  pub wait : CurrentConsensusStatus → CurrentConsensusStatus

-- Hashes of blocks that the node proposed are exempt from its checks. `sync_lock` is whether a
-- synchronization holds the lock.
pub record EngineState (Tx : Type 0) : Type 0 where
  pub status : CurrentConsensusStatus
  pub exemption_hash : List Hash
  pub sync_lock : Bool
  pub effects : List (EngineEffect Tx)

-- `overlord::types::Status`, with its timer.
pub record OverlordStatus : Type 0 where
  pub height : ℕ
  pub interval : ℕ
  pub propose_ratio : ℕ
  pub prevote_ratio : ℕ
  pub precommit_ratio : ℕ
  pub brake_ratio : ℕ
  pub authority_list : List Node

unfoldable pub validator_nodes : List Validator → List Node
validator_nodes [] = []
validator_nodes (v ∷ vs) =
    (record { address = v.pub_key; propose_weight = v.propose_weight; vote_weight = v.vote_weight })
    ∷ validator_nodes vs

abbrev retry_check_root_limit : ℕ
retry_check_root_limit = 15

module _ {Tx : Type 0} (host : Host Tx) where
  abbrev Engine : Type 0 → Type 0
  Engine A = Action (EngineState Tx) A

  -- An effect that is refused did not happen.
  abbrev pub noted : ConsensusResult (Unit {0}) → EngineEffect Tx → Engine (Unit {0})
  noted (ok u) e s = (record s { effects = e ∷ s.effects }, ok tt)
  noted (err x) e s = (s, err x)

  abbrev pub emit : EngineEffect Tx → Engine (Unit {0})
  emit e s = noted (host.perform s.effects e) e s

  abbrev pub on_chain : (Chain → ConsensusResult (Unit {0})) → Engine (Unit {0})
  on_chain check = ask (λ s. check (host.chain s.effects))

  unfoldable pub covert_to_overlord_authority : List Validator → List Node
  covert_to_overlord_authority validators = host.sorted (validator_nodes validators)

  unfoldable pub digest_txs : List Tx → ConsensusResult Hash
  digest_txs = digest_signed_transactions host.encode_tx host.digest

  -- The proposal of a block: the header takes all that was executed and is not confirmed yet.
  unfoldable pub new_header : CurrentConsensusStatus → ℕ → ℕ → Hash → List Hash → BlockHeader
  new_header status next_height now signed_hash ordered_tx_hashes = record {
    chain_id = host.chain_id;
    height = next_height;
    exec_height = status.exec_height;
    prev_hash = status.current_hash;
    timestamp = now;
    order_root = get_or (host.merkle_root ordered_tx_hashes) (host.digest []);
    order_signed_transactions_hash = signed_hash;
    confirm_root = status.list_confirm_root;
    state_root = get_latest_state_root status;
    receipt_root = status.list_receipt_root;
    cycles_used = status.list_cycles_used;
    proposer = host.self_address;
    proof = status.current_proof;
    validator_version = 0;
    validators = status.validators;
  }

  unfoldable pub get_block : ℕ → Engine (Pill × Hash)
  get_block next_height s =
      (do
        hashes ← ask (λ t.
            host.get_txs_from_mempool t.effects next_height s.status.cycles_limit
              s.status.tx_num_limit)
        signed_txs ← ask (λ t. host.get_full_txs t.effects hashes.0)
        signed_hash ← lift (digest_txs signed_txs)
        lift (
            ensure (nat_beq s.status.latest_committed_height (previous_height next_height))
              (missing_block_header s.status.latest_committed_height))
        now ← (λ t. (t, ok (host.time_now t.effects)))
        let header = new_header s.status next_height now signed_hash hashes.0
        let block : Block = record { header = header; ordered_tx_hashes = hashes.0 }
        hash ← ask (λ t. (host.chain t.effects).header_hash header)
        (λ t. (
          record t { exemption_hash = hash ∷ t.exemption_hash },
          ok (record { block = block; propose_hashes = hashes.1 }, hash),
        )))
        s

  -- The roots are checked again after a delay, fifteen times.
  unfoldable pub retry_roots : ℕ → BlockHeader → Engine (Unit {0})
  retry_roots zero header s = (s, check_block_roots s.status header)
  retry_roots (suc n) header s = elim (check_block_roots s.status header) [
    | ok _ ↦ (s, ok tt)
    | err _ ↦ retry_roots n header (record s { status = host.wait s.status })
  ]

  unfoldable pub inner_check_block : Block → Engine (Unit {0})
  inner_check_block block = do
    current_timestamp ← (λ s. (s, ok (host.time_now s.effects)))
    on_chain (λ chain. verify_block_header chain block)
    previous_block_header ← ask (λ s.
        (host.chain s.effects).get_block_header_by_height (previous_height block.header.height))
    lift (
        ensure
          (validate_timestamp current_timestamp block.header.timestamp
            previous_block_header.timestamp)
          invalid_timestamp)
    on_chain (λ chain. verify_proof chain previous_block_header block.header.proof)
    ask (λ s. host.verify_txs s.effects block.header.height block.ordered_tx_hashes)
    retry_roots retry_check_root_limit block.header
    signed_txs ← ask (λ s. host.get_full_txs s.effects block.ordered_tx_hashes)
    lift (
        check_order_transactions host.merkle_root (host.digest []) (λ txs. digest_txs txs) block
          signed_txs)
