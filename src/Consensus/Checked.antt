-- ===== src/Consensus/Checked.antt =====
-- What a proposal passed that the engine accepts (core/consensus/src/engine.rs).
use mathlib.Core.Path.{subst}
use muta.Prelude.{
  List, [], ap, arith, bind-ok, ensure-ok, ensure_then-ok, err, get_or, nat_beq, nat_beq_iff,
  nat_eq, ok, ok_unique, refl, suc, true, zero, ℕ, ◌∙◌, ◌≡◌, ◌≤◌,
}
use muta.Consensus.Types.{Block, BlockHeader, ConsensusResult}
use muta.Consensus.Status.{CurrentConsensusStatus}
use muta.Consensus.Checks.{
  AgreesWith, check_block_roots, check_block_roots-AgreesWith, check_order_transactions,
  validate_timestamp,
}
use muta.Consensus.Actions.{after_with, ask_after, ask_with, pair-ok}
use muta.Consensus.Engine.{EngineState, Host, digest_txs, inner_check_block, retry_roots}
use muta.Consensus.Adapter.{previous_height, verify_proof}
use muta.Consensus.Weights.{IsHeader, verify_block_header-IsHeader}

validate_timestamp-between :
    (now proposal previous : ℕ)
    → validate_timestamp now proposal previous ≡ true
    → (previous ≤ proposal) × (proposal ≤ now)
unfolding validate_timestamp
validate_timestamp-between now proposal previous h = ground (arith, h)

module _ {Tx : Type 0} (host : Host Tx) where
  -- The status after some delays.
  abbrev pub waits : ℕ → CurrentConsensusStatus → CurrentConsensusStatus
  waits zero status = status
  waits (suc k) status = waits k (host.wait status)

  -- The roots agree with the status after at most so many delays.
  pub record AgreesWithin (n : ℕ) (header : BlockHeader) (s s' : EngineState Tx) : Type 0 where
    pub delays : ℕ
    pub bounded : delays ≤ n
    pub agrees : AgreesWith (waits delays s.status) header
    pub after : record s { status = waits delays s.status } ≡ s'

  checked_now :
      (n : ℕ) (header : BlockHeader) (s s' : EngineState Tx)
      → s ≡ s'
      → check_block_roots s.status header ≡ ok tt
      → AgreesWithin n header s s'
  checked_now n header s s' same passed = record {
    delays = 0;
    bounded = omega arith;
    agrees = check_block_roots-AgreesWith s.status header passed;
    after = same;
  }

  abbrev after_check :
      ℕ
      → BlockHeader
      → EngineState Tx
      → ConsensusResult (Unit {0})
      → EngineState Tx × ConsensusResult (Unit {0})
  after_check n header s r = elim r [
    | ok _ ↦ (s, ok tt)
    | err _ ↦ retry_roots host n header (record s { status = host.wait s.status })
  ]

  -- A check, and what is done where it fails.
  retried :
      (n : ℕ) (header : BlockHeader) (s s' : EngineState Tx) (r : ConsensusResult (Unit {0}))
      → check_block_roots s.status header ≡ r
      → (retry_roots host n header (record s { status = host.wait s.status }) ≡ (s', ok tt)
          → AgreesWithin n header (record s { status = host.wait s.status }) s')
      → after_check n header s r ≡ (s', ok tt)
      → AgreesWithin (suc n) header s s'
  retried n header s s' (ok u) e later h = checked_now (suc n) header s s' (pair-ok s s' _ _ h).0 e
  retried n header s s' (err x) e later h =
      let found = later h in
      record {
        delays = suc found.delays;
        bounded = omega (arith, found.bounded);
        agrees = found.agrees;
        after = found.after;
      }

  retry_roots-AgreesWithin :
      (n : ℕ) (header : BlockHeader) (s s' : EngineState Tx)
      → retry_roots host n header s ≡ (s', ok tt)
      → AgreesWithin n header s s'
  unfolding retry_roots
  retry_roots-AgreesWithin zero header s s' h =
      let (same, agrees) = pair-ok s s' _ _ h in checked_now 0 header s s' same agrees
  retry_roots-AgreesWithin (suc n) header s s' h =
      retried n header s s' (check_block_roots s.status header) refl
        (retry_roots-AgreesWithin n header (record s { status = host.wait s.status }) s') h

  -- What a proposal passed, at the clock, the storage and the mempool of the start.
  pub record IsChecked (block : Block) (s s' : EngineState Tx) : Type 0 where
    pub header : IsHeader (host.chain s.effects) block.header
    pub previous : BlockHeader
    pub found :
        (host.chain s.effects).get_block_header_by_height (previous_height block.header.height)
        ≡ ok previous
    pub not_before : previous.timestamp ≤ block.header.timestamp
    pub not_after : block.header.timestamp ≤ host.time_now s.effects
    pub proved : verify_proof (host.chain s.effects) previous block.header.proof ≡ ok tt
    pub txs_verified : host.verify_txs s.effects block.header.height block.ordered_tx_hashes ≡ ok tt
    pub roots : AgreesWithin 15 block.header s s'
    pub txs : List Tx
    pub pulled : host.get_full_txs s.effects block.ordered_tx_hashes ≡ ok txs
    pub order_root :
        get_or (host.merkle_root block.ordered_tx_hashes) (host.digest []) ≡ block.header.order_root
    pub signed_hash : digest_txs host txs ≡ ok block.header.order_signed_transactions_hash

  check_order_transactions-both :
      (block : Block) (txs : List Tx)
      → check_order_transactions host.merkle_root
          (host.digest [])
          (λ l. digest_txs host l)
          block
          txs
        ≡ ok tt
      → (get_or (host.merkle_root block.ordered_tx_hashes) (host.digest [])
          ≡ block.header.order_root)
        × (digest_txs host txs ≡ ok block.header.order_signed_transactions_hash)
  unfolding check_order_transactions
  check_order_transactions-both block txs h =
      let (root, r1) =
        ensure_then-ok
          (nat_beq (get_or (host.merkle_root block.ordered_tx_hashes) (host.digest []))
            block.header.order_root)
          _ _ tt h in
      let (hash, digested, r2) = bind-ok (digest_txs host txs) _ tt r1 in
      (
        (nat_beq_iff _ block.header.order_root).0 root,
        digested ∙ ap (λ k. ok k) ((nat_beq_iff hash _).0 (ensure-ok _ _ r2)),
      )

  -- A proposal that passes the checks of the engine has a header that follows the block before it, a
  -- timestamp between that block's and the clock's, a proof of that block, transactions that the
  -- mempool verified, roots that within fifteen delays agree with the status, and the root and the
  -- hash of its ordered transactions.
  pub inner_check_block-IsChecked :
      (block : Block) (s s' : EngineState Tx)
      → inner_check_block host block s ≡ (s', ok tt)
      → IsChecked block s s'
  unfolding inner_check_block
  inner_check_block-IsChecked block s s' h = ask_with s s' tt _ _ h (λ now clock r1.
      ask_after s s' tt _ _ r1 (λ _ header r2. ask_with s s' tt _ _ r2 (λ previous found r3.
        ask_after s s' tt _ _ r3 (λ _ timely r4. ask_after s s' tt _ _ r4 (λ _ proved r5.
          ask_after s s' tt _ _ r5 (λ _ verified r6. after_with s s' tt _ _ r6 (λ s1 _ roots r7.
            ask_with s1 s' tt _ _ r7 (λ txs pulled r8.
              let within = retry_roots-AgreesWithin 15 block.header s s1 roots in
              let (last, ordered) = pair-ok s1 s' _ _ r8 in
              let (root, hash) = check_order_transactions-both block txs ordered in
              let (from, to) =
                validate_timestamp-between now block.header.timestamp previous.timestamp
                  (ensure-ok _ _ timely) in
              record {
                header = verify_block_header-IsHeader (host.chain s.effects) block header;
                previous = previous;
                found = found;
                not_before = from;
                not_after = rw (ok_unique _ _ _ refl clock) to;
                proved = proved;
                txs_verified = verified;
                roots = subst (λ x. AgreesWithin 15 block.header s x) last within;
                txs = txs;
                pulled =
                    ap (λ x. host.get_full_txs x.effects block.ordered_tx_hashes) within.after
                    ∙ pulled;
                order_root = root;
                signed_hash = hash;
              }))))))))
