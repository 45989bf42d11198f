-- ===== src/Consensus/Commit.antt =====
-- A block that the agreement protocol hands over: the check of a proposal and the commit of a block
-- (core/consensus/src/engine.rs). Between the steps of a commit no other task changes the status.
-- The reason of a failed check, which is kept for the log, and the metrics are left out.
use muta.Prelude.{
  Bool, List, Option, [], err, false, if◌then◌else◌, member, nat_beq, nat_eq, none, not, ok, some,
  suc, true, zero, ℕ, ◌+◌, ◌∷◌,
}
use muta.Protocol.{Bytes, Hash}
use muta.Consensus.Types.{
  Block, Metadata, Pill, Proof, ValidatorExtend, lock_in_sync, outdated_commit, outside,
}
use muta.Consensus.Status.{CurrentConsensusStatus, update_by_committed}
use muta.Consensus.Adapter.{Node, metadata_at, node_list, previous_height}
use muta.Consensus.Actions.{Action, ask, lift, pure, ◌>>=◌, ◌>>◌}
use muta.Consensus.Engine.{
  EngineEffect, EngineState, Host, OverlordStatus, args_set, consensus_tagged,
  covert_to_overlord_authority, crypto_updated, delayed, emit, executed_txs, height_broadcast,
  inner_check_block, mempool_flushed, saved_block, saved_proof, saved_txs, txs_synced, wal_removed,
  wal_saved,
}

-- `overlord::types::Commit`, with the fields of its proof that are read.
pub record Commit : Type 0 where
  pub content : Pill
  pub proof_height : ℕ
  pub proof_round : ℕ
  pub proof_block_hash : Bytes
  pub proof_signature : Bytes
  pub proof_bitmap : Bytes

module _ {Tx : Type 0} (host : Host Tx) where
  abbrev Engine : Type 0 → Type 0
  Engine A = Action (EngineState Tx) A

  -- The spawned `sync_txs` only logs its error: it has no result here.
  unfoldable pub spawn_sync_txs : List Hash → Engine (Unit {0})
  spawn_sync_txs hashes s = (record s { effects = txs_synced hashes ∷ s.effects }, ok tt)

  unfoldable pub check_unless_exempt : Bool → Pill → Engine (Unit {0})
  check_unless_exempt true pill = pure tt
  check_unless_exempt false pill = do
    inner_check_block host pill.block
    spawn_sync_txs pill.propose_hashes

  unfoldable pub check_block : ℕ → Hash → Pill → Engine (Unit {0})
  check_block next_height hash pill s =
      (do
        check_unless_exempt (member hash s.exemption_hash) pill
        txs ← ask (λ t. host.get_full_txs t.effects pill.block.ordered_tx_hashes)
        emit host (wal_saved next_height pill.block.header.order_signed_transactions_hash txs))
        s

  -- The transactions of the mempool, or else those of the log.
  unfoldable pub committed_txs : ℕ → Block → Engine (List Tx)
  committed_txs current_height block s =
      elim (host.get_full_txs s.effects block.ordered_tx_hashes) [
        | ok txs ↦ (s, ok txs)
        | err _ ↦
            (s, host.load_wal s.effects current_height block.header.order_signed_transactions_hash)
      ]

  -- The execution is tried until it is accepted, with a delay after each refusal; the fuel is a bound
  -- on the tries.
  unfoldable pub exec_until : ℕ → EngineEffect Tx → Engine (Unit {0})
  exec_until zero e s = (s, err (outside "no more tries"))
  exec_until (suc n) e s = elim (host.perform s.effects e) [
    | ok _ ↦ (record s { effects = e ∷ s.effects }, ok tt)
    | err _ ↦ exec_until n e (record s { effects = delayed ∷ s.effects })
  ]

  unfoldable pub exec : ℕ → ℕ → Block → Hash → List Tx → Engine (Unit {0})
  exec fuel height block block_hash txs s =
      exec_until fuel
        (executed_txs host.chain_id block.header.order_root height s.status.cycles_price
          block.header.proposer block_hash txs s.status.cycles_limit block.header.timestamp)
        s

  unfoldable pub verifier_keys : List ValidatorExtend → List Bytes
  verifier_keys [] = []
  verifier_keys (v ∷ vs) = host.decode v.pub_key ∷ verifier_keys vs

  abbrev pub set_status : Option CurrentConsensusStatus → Engine (Unit {0})
  set_status o s = elim o [
    | none ↦ (s, err (outside "panic"))
    | some status ↦ (record s { status = status }, ok tt)
  ]

  unfoldable pub update_status : Metadata → Block → Proof → List Tx → Engine (Unit {0})
  update_status metadata block proof txs = do
    emit host (saved_txs block.header.height txs)
    emit host (saved_block block)
    emit host (args_set metadata.timeout_gap metadata.cycles_limit metadata.max_tx_size)
    emit host (consensus_tagged (verifier_keys metadata.verifier_list))
    block_hash ← ask (λ s. (host.chain s.effects).header_hash block.header)
    (λ s. set_status (update_by_committed host.decode metadata block block_hash proof s.status) s)
    emit host (crypto_updated metadata)

  unfoldable pub overlord_status : ℕ → CurrentConsensusStatus → OverlordStatus
  overlord_status current_height status = record {
    height = current_height + 1;
    interval = status.consensus_interval;
    propose_ratio = status.propose_ratio;
    prevote_ratio = status.prevote_ratio;
    precommit_ratio = status.precommit_ratio;
    brake_ratio = status.brake_ratio;
    authority_list = covert_to_overlord_authority host status.validators;
  }

  unfoldable pub finish : ℕ → Engine OverlordStatus
  finish current_height s =
      (record s { exemption_hash = [] }, ok (overlord_status current_height s.status))

  -- What is done with a block of the next height.
  unfoldable pub commit_next : ℕ → ℕ → Commit → Engine OverlordStatus
  commit_next fuel current_height agreed = do
    let block = agreed.content.block
    block_hash ← lift (host.hash_from_bytes agreed.proof_block_hash)
    let proof : Proof = record {
      height = agreed.proof_height;
      round = agreed.proof_round;
      block_hash = block_hash;
      signature = agreed.proof_signature;
      bitmap = agreed.proof_bitmap;
    }
    emit host (saved_proof proof)
    signed_txs ← committed_txs current_height block
    header_hash ← ask (λ s. (host.chain s.effects).header_hash block.header)
    exec fuel current_height block header_hash signed_txs
    metadata ← ask (λ s. metadata_at (host.chain s.effects) block.header)
    update_status metadata block proof signed_txs
    emit host (mempool_flushed block.ordered_tx_hashes)
    emit host (height_broadcast current_height)
    emit host (wal_removed block.header.exec_height)
    finish current_height

  unfoldable pub commit : ℕ → ℕ → Commit → Engine OverlordStatus
  commit fuel current_height agreed s =
      if s.sync_lock
      then (s, err lock_in_sync)
      else if nat_beq s.status.exec_height current_height
      then (s, ok (overlord_status current_height s.status))
      else if not (nat_beq current_height (s.status.latest_committed_height + 1))
      then (s, err (outdated_commit current_height s.status.latest_committed_height))
      else commit_next fuel current_height agreed s

  -- The verifiers of the block before a height. The code hands the timestamp to `get_metadata` as the
  -- height, and the height as the timestamp.
  unfoldable pub get_authority_list : ℕ → Engine (List Node)
  get_authority_list next_height = if nat_beq next_height 0 then pure [] else do
    old ← ask (λ s. (host.chain s.effects).get_block_header_by_height (previous_height next_height))
    metadata ← ask (λ s.
        (host.chain s.effects).get_metadata old.state_root old.timestamp old.height old.proposer)
    pure (host.sorted (node_list host.decode metadata.verifier_list))
