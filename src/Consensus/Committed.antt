-- ===== src/Consensus/Committed.antt =====
-- What a commit leads to (core/consensus/src/engine.rs).
use muta.Consensus.Adapter.{metadata_at}
use muta.Prelude.{List, [], err, nat_eq, ok, some, ℕ, ◌+◌, ◌∷◌, ◌≡◌, ◌⊎◌}
use muta.Protocol.{Hash}
use muta.Consensus.Types.{Block, ConsensusError, ConsensusResult, Metadata, Proof}
use muta.Consensus.Status.{CurrentConsensusStatus, update_by_committed}
use muta.Consensus.Engine.{
  EngineEffect, EngineState, Host, args_set, consensus_tagged, crypto_updated, executed_txs,
  height_broadcast, mempool_flushed, saved_block, saved_proof, saved_txs, wal_removed,
}
use muta.Consensus.Commit.{Commit, verifier_keys}
use muta.Consensus.Tries.{IsFirst, delays}

module _ {Tx : Type 0} (host : Host Tx) where
  -- What `update_status` asks for, the newest first.
  abbrev pub updating : Metadata → Block → List Tx → List (EngineEffect Tx) → List (EngineEffect Tx)
  updating metadata block txs effects =
      consensus_tagged (verifier_keys host metadata.verifier_list)
      ∷ args_set metadata.timeout_gap metadata.cycles_limit metadata.max_tx_size
      ∷ saved_block block
      ∷ saved_txs block.header.height txs
      ∷ effects

  pub record IsUpdated (metadata : Metadata) (block : Block) (proof : Proof) (txs : List Tx)
      (s s' : EngineState Tx) : Type 0 where
    pub block_hash : Hash
    pub hashed :
        (host.chain (updating metadata block txs s.effects)).header_hash block.header
        ≡ ok block_hash
    pub status :
        update_by_committed host.decode metadata block block_hash proof s.status ≡ some s'.status
    pub effects : s'.effects ≡ crypto_updated metadata ∷ updating metadata block txs s.effects

  -- The proof of an agreed block, over the hash that its bytes are.
  abbrev pub proof_of : Commit → Hash → Proof
  proof_of agreed hash = record {
    height = agreed.proof_height;
    round = agreed.proof_round;
    block_hash = hash;
    signature = agreed.proof_signature;
    bitmap = agreed.proof_bitmap;
  }

  -- The execution that a commit asks for.
  abbrev pub execution : ℕ → Block → Hash → List Tx → CurrentConsensusStatus → EngineEffect Tx
  execution height block hash txs status =
      executed_txs host.chain_id block.header.order_root height status.cycles_price
        block.header.proposer hash txs status.cycles_limit block.header.timestamp

  -- The transactions that the block orders, as the mempool has them, or else those of the log.
  abbrev pub IsFetched : ℕ → Block → List (EngineEffect Tx) → List Tx → Type 0
  IsFetched height block effects txs =
      (host.get_full_txs effects block.ordered_tx_hashes ≡ ok txs)
      ⊎ ((x : ConsensusError) × (host.get_full_txs effects block.ordered_tx_hashes ≡ err x)
          × (host.load_wal effects height block.header.order_signed_transactions_hash ≡ ok txs))

  -- The effects once the proof is saved, and once the block is executed.
  abbrev pub proven : Commit → Hash → List (EngineEffect Tx) → List (EngineEffect Tx)
  proven agreed hash effects = saved_proof (proof_of agreed hash) ∷ effects

  abbrev pub ran :
      ℕ → EngineEffect Tx → Commit → Hash → List (EngineEffect Tx) → List (EngineEffect Tx)
  ran tries e agreed hash effects = e ∷ delays host tries (proven agreed hash effects)

  -- What the commit of the next block leaves: its effects, the newest first, its status, and no
  -- exempt hash.
  pub record IsCommit (height : ℕ) (agreed : Commit) (s s' : EngineState Tx) : Type 0 where
    pub next : height ≡ s.status.latest_committed_height + 1
    pub hash : Hash
    pub hashed : host.hash_from_bytes agreed.proof_block_hash ≡ ok hash
    pub txs : List Tx
    pub fetched : IsFetched height agreed.content.block (proven agreed hash s.effects) txs
    pub header_hash : Hash
    pub header_hashed :
        (host.chain (proven agreed hash s.effects)).header_hash agreed.content.block.header
        ≡ ok header_hash
    pub tries : ℕ
    pub tried :
        IsFirst host tries
          (execution height agreed.content.block header_hash txs s.status)
          (proven agreed hash s.effects)
    pub metadata : Metadata
    pub with_metadata :
        metadata_at
          (host.chain (
            ran tries
              (execution height agreed.content.block header_hash txs s.status)
              agreed
              hash
              s.effects))
          agreed.content.block.header
        ≡ ok metadata
    pub block_hash : Hash
    pub block_hashed :
        (host.chain (
            updating metadata agreed.content.block txs (
              ran tries
                (execution height agreed.content.block header_hash txs s.status)
                agreed
                hash
                s.effects))).header_hash
          agreed.content.block.header
        ≡ ok block_hash
    pub status :
        update_by_committed host.decode metadata agreed.content.block block_hash
          (proof_of agreed hash)
          s.status
        ≡ some s'.status
    pub effects :
        s'.effects
        ≡ wal_removed agreed.content.block.header.exec_height
          ∷ height_broadcast height
          ∷ mempool_flushed agreed.content.block.ordered_tx_hashes
          ∷ crypto_updated metadata
          ∷ updating metadata agreed.content.block txs (
              ran tries
                (execution height agreed.content.block header_hash txs s.status)
                agreed
                hash
                s.effects)
    pub none_exempt : s'.exemption_hash ≡ []

  abbrev or_logged :
      ℕ
      → Block
      → EngineState Tx
      → ConsensusResult (List Tx)
      → EngineState Tx × ConsensusResult (List Tx)
  or_logged height block s r = elim r [
    | ok txs ↦ (s, ok txs)
    | err _ ↦ (s, host.load_wal s.effects height block.header.order_signed_transactions_hash)
  ]
