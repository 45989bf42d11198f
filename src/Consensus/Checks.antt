-- ===== src/Consensus/Checks.antt =====
-- The checks that the engine makes itself of a proposed block (core/consensus/src/engine.rs).
use muta.Prelude.{
  Bool, List, Option, [], arith, drop, ensure, ensure-ok, ensure_then-ok, false, get_or,
  if◌then◌else◌, length, ltb, member, nat_beq, nat_beq_iff, nat_eq, not, ok, true, ℕ, ◌&&◌, ◌++◌,
  ◌>>=◌, ◌>>◌, ◌∷◌, ◌≡◌,
}
use muta.Protocol.{Bytes, Hash}
use muta.Consensus.Types.{
  Block, BlockHeader, ConsensusResult, invalid_order_root, invalid_order_signed_transactions_hash,
  invalid_prevhash, invalid_status_vec,
}
use muta.Consensus.Status.{CurrentConsensusStatus, check_list_roots}
use muta.Consensus.Splits.{drop-check_list_roots}

unfoldable pub validate_timestamp : ℕ → ℕ → ℕ → Bool
validate_timestamp current_timestamp proposal_timestamp previous_timestamp =
    if ltb proposal_timestamp previous_timestamp
    then false
    else if ltb current_timestamp proposal_timestamp
    then false
    else true

-- The checks of a header against the status.
unfoldable pub check_block_roots : CurrentConsensusStatus → BlockHeader → ConsensusResult (Unit {0})
check_block_roots status block = do
  ensure (nat_beq status.current_hash block.prev_hash)
      (invalid_prevhash status.current_hash block.prev_hash)
  ensure
      (not (
        not (nat_beq status.latest_committed_state_root block.state_root)
        && not (member block.state_root status.list_state_root)))
      invalid_status_vec
  ensure (check_list_roots status.list_confirm_root block.confirm_root) invalid_status_vec
  ensure (check_list_roots status.list_receipt_root block.receipt_root) invalid_status_vec
  ensure (check_list_roots status.list_cycles_used block.cycles_used) invalid_status_vec

-- The digest of transactions (core/consensus/src/util.rs); `Hash::from_empty` is that of no bytes.
module _ {Tx : Type 0} (encode_tx : Tx → ConsensusResult Bytes) (digest : Bytes → Hash) where
  unfoldable pub encode_all : List Tx → ConsensusResult Bytes
  encode_all [] = ok []
  encode_all (tx ∷ txs) = do bytes ← encode_tx tx; rest ← encode_all txs; ok (bytes ++ rest)

  unfoldable pub digest_signed_transactions : List Tx → ConsensusResult Hash
  digest_signed_transactions [] = ok (digest [])
  digest_signed_transactions (tx ∷ txs) = do bytes ← encode_all (tx ∷ txs); ok (digest bytes)

-- The root and the hash of the ordered transactions. `merkle_root` is the root of the Merkle tree,
-- `from_empty` the digest of no bytes, and `digest_txs` the digest of the encoded transactions.
module _ {Tx : Type 0} (merkle_root : List Hash → Option Hash) (from_empty : Hash)
    (digest_txs : List Tx → ConsensusResult Hash) where
  unfoldable pub check_order_transactions : Block → List Tx → ConsensusResult (Unit {0})
  check_order_transactions block signed_txs = do
    let order_root = get_or (merkle_root block.ordered_tx_hashes) from_empty
    ensure (nat_beq order_root block.header.order_root)
        (invalid_order_root order_root block.header.order_root)
    order_signed_transactions_hash ← digest_txs signed_txs
    ensure (nat_beq order_signed_transactions_hash block.header.order_signed_transactions_hash) (
        invalid_order_signed_transactions_hash order_signed_transactions_hash
          block.header.order_signed_transactions_hash)

-- What a header that passes agrees with.
pub record AgreesWith (status : CurrentConsensusStatus) (block : BlockHeader) : Type 0 where
  pub prev_hash : status.current_hash ≡ block.prev_hash
  pub state_root :
      nat_beq status.latest_committed_state_root block.state_root ≡ false
      → member block.state_root status.list_state_root ≡ true
  pub confirm_root :
      block.confirm_root ++ drop (length block.confirm_root) status.list_confirm_root
      ≡ status.list_confirm_root
  pub receipt_root :
      block.receipt_root ++ drop (length block.receipt_root) status.list_receipt_root
      ≡ status.list_receipt_root
  pub cycles_used :
      block.cycles_used ++ drop (length block.cycles_used) status.list_cycles_used
      ≡ status.list_cycles_used

pub check_block_roots-AgreesWith :
    (status : CurrentConsensusStatus) (block : BlockHeader)
    → check_block_roots status block ≡ ok tt
    → AgreesWith status block
unfolding check_block_roots
check_block_roots-AgreesWith status block h =
    let (prev, r1) = ensure_then-ok (nat_beq status.current_hash block.prev_hash) _ _ tt h in
    let (state, r2) =
      ensure_then-ok
        (not (
          not (nat_beq status.latest_committed_state_root block.state_root)
          && not (member block.state_root status.list_state_root)))
        _ _ tt r1 in
    let (confirm, r3) =
      ensure_then-ok (check_list_roots status.list_confirm_root block.confirm_root) _ _ tt r2 in
    let (receipt, r4) =
      ensure_then-ok (check_list_roots status.list_receipt_root block.receipt_root) _ _ tt r3 in
    record {
      prev_hash = (nat_beq_iff status.current_hash block.prev_hash).0 prev;
      state_root = λ other. ground (arith, other, state);
      confirm_root = drop-check_list_roots status.list_confirm_root block.confirm_root confirm;
      receipt_root = drop-check_list_roots status.list_receipt_root block.receipt_root receipt;
      cycles_used =
          drop-check_list_roots status.list_cycles_used block.cycles_used (ensure-ok _ _ r4);
    }
