-- ===== src/Consensus/Syncing.antt =====
-- What a synchronization leads to (core/consensus/src/synchronization.rs).
use mathlib.Core.Path.{subst}
use muta.Prelude.{
  List, Option, [], ap, arith, drop, ensure-ok, err, guard_some, nat_beq, nat_beq_iff, none, not,
  ok, some, suc, sym, zero, ℕ, ◌+◌, ◌∙◌, ◌∷◌, ◌≡◌,
}
use muta.Protocol.{Bytes, Hash}
use muta.Consensus.Types.{Block, BlockHeader, ConsensusResult, Hex, Metadata, Proof}
use muta.Consensus.Splits.{split_off-Splits}
use muta.Consensus.Status.{
  CurrentConsensusStatus, ExecutedInfo, replace, update_by_committed, update_by_executed,
}
use muta.Consensus.Sync.{
  Effect, ExecutorResp, Peer, RichBlock, Syncing, act, apply_metadata, changed, commit_block,
  exec_block, get_rich_block_from_remote, get_txs, recorded, save_chain_data, sync_block,
  update_status, verify_rich_block,
}
use muta.Consensus.Checks.{digest_signed_transactions}
use muta.Consensus.Actions.{Action, after_with, ask_after, ask_with, chain_with, pair-ok, ◌>>◌}
use muta.Consensus.Adapter.{Chain, previous_height, verify_block_header, verify_proof}

module _ {Tx Receipt : Type 0} (peer : Peer Tx Receipt) where
  -- The statuses are as they were.
  abbrev Same : Syncing Tx Receipt → Syncing Tx Receipt → Type 0
  Same s s' = (s'.sync_status ≡ s.sync_status) × (s'.status ≡ s.status)

  recorded-Same :
      (r : ConsensusResult (Unit {0})) (e : Effect Tx Receipt) (s s' : Syncing Tx Receipt)
      (u : Unit {0})
      → recorded peer r e s ≡ (s', ok u)
      → Same s s'
  recorded-Same (ok v) e s s' u h =
      (ap (λ r. r.0.sync_status) (sym h), ap (λ r. r.0.status) (sym h))
  recorded-Same (err x) e s s' u h = absurd (ground (arith, ap (λ r. r.1) h))

  changed-ok :
      (o : Option CurrentConsensusStatus) (s s' : Syncing Tx Receipt) (u : Unit {0})
      → changed peer o s ≡ (s', ok u)
      → (o ≡ some s'.sync_status) × (s'.status ≡ s.status)
  changed-ok none s s' u h = absurd (ground (arith, ap (λ r. r.1) h))
  changed-ok (some new) s s' u h = (ap (λ r. some r.0.sync_status) h, ap (λ r. r.0.status) (sym h))

  update_by_executed-height :
      (info : ExecutedInfo) (s s' : CurrentConsensusStatus)
      → update_by_executed info s ≡ some s'
      → s'.latest_committed_height ≡ s.latest_committed_height
  unfolding update_by_executed
  update_by_executed-height info s s' h = ground (arith, h)

  update_by_committed-height :
      (decode : Hex → Bytes) (metadata : Metadata) (block : Block) (hash : Hash) (proof : Proof)
      (s s' : CurrentConsensusStatus)
      → update_by_committed decode metadata block hash proof s ≡ some s'
      → (s'.latest_committed_height ≡ s.latest_committed_height + 1)
        × (s'.latest_committed_height ≡ block.header.height)
        × (s'.current_hash ≡ hash)
        × (s'.current_proof ≡ proof)
  unfolding update_by_committed
  update_by_committed-height decode metadata block hash proof s s' h =
      let (at, rest) =
        guard_some (not (nat_beq block.header.height (s.latest_committed_height + 1))) _ s' h in
      let after = (split_off-Splits block _ s' rest).after in
      (
        ap (λ x. x.latest_committed_height) (sym after) ∙ ground (arith, at),
        ap (λ x. x.latest_committed_height) (sym after),
        ap (λ x. x.current_hash) (sym after),
        ap (λ x. x.current_proof) (sym after),
      )

  -- Questions alone leave the state.
  get_txs-Same :
      (chunk_size height n : ℕ) (hashes : List Hash) (s s' : Syncing Tx Receipt) (txs : List Tx)
      → get_txs peer chunk_size height n hashes s ≡ (s', ok txs)
      → s ≡ s'
  unfolding get_txs
  get_txs-Same chunk_size height zero hashes s s' txs h = ap (λ r. r.0) h
  get_txs-Same chunk_size height (suc n) [] s s' txs h = ap (λ r. r.0) h
  get_txs-Same chunk_size height (suc n) (hash ∷ hashes) s s' txs h =
      ask_with s s' txs _ _ h (λ remote e1 r1. chain_with s s' txs _ _ r1 (λ s1 rest e2 r2.
        get_txs-Same chunk_size height n (drop chunk_size (hash ∷ hashes)) s s1 rest e2
        ∙ (pair-ok s1 s' _ _ r2).0))

  get_rich_block_from_remote-Same :
      (chunk_size height : ℕ) (s s' : Syncing Tx Receipt) (rich : RichBlock Tx)
      → get_rich_block_from_remote peer chunk_size height s ≡ (s', ok rich)
      → s ≡ s'
  unfolding get_rich_block_from_remote
  get_rich_block_from_remote-Same chunk_size height s s' rich h =
      ask_with s s' rich _ _ h (λ block e1 r1. chain_with s s' rich _ _ r1 (λ s1 txs e2 r2.
        get_txs-Same chunk_size height _ block.ordered_tx_hashes s s1 txs e2
        ∙ (pair-ok s1 s' _ _ r2).0))

  -- What a block passed that is committed.
  pub record IsVerified (chain : Chain) (rich : RichBlock Tx) (proof : Proof) : Type 0 where
    pub header : verify_block_header chain rich.block ≡ ok tt
    pub proof_of_block : verify_proof chain rich.block.header proof ≡ ok tt
    pub previous : BlockHeader
    pub found :
        chain.get_block_header_by_height (previous_height rich.block.header.height) ≡ ok previous
    pub proof_of_previous : verify_proof chain previous rich.block.header.proof ≡ ok tt
    pub txs :
        digest_signed_transactions peer.encode_tx peer.digest rich.txs
        ≡ ok rich.block.header.order_signed_transactions_hash

  verify_rich_block-IsVerified :
      (rich : RichBlock Tx) (proof : Proof) (s s' : Syncing Tx Receipt)
      → verify_rich_block peer rich proof s ≡ (s', ok tt)
      → (s ≡ s') × IsVerified (peer.chain s.effects) rich proof
  unfolding verify_rich_block
  verify_rich_block-IsVerified rich proof s s' h = ask_after s s' tt _ _ h (λ _ header r1.
      ask_after s s' tt _ _ r1 (λ _ block r2. ask_with s s' tt _ _ r2 (λ previous found r3.
        ask_after s s' tt _ _ r3 (λ _ before r4. ask_with s s' tt _ _ r4 (λ hash digest r5.
          let (same, equal) = pair-ok s s' _ _ r5 in
          (
            same,
            record {
              header = header;
              proof_of_block = block;
              previous = previous;
              found = found;
              proof_of_previous = before;
              txs = digest ∙ ap (λ k. ok k) ((nat_beq_iff hash _).0 (ensure-ok _ _ equal));
            },
          ))))))

  Same-trans : (s s1 s2 : Syncing Tx Receipt) → Same s s1 → Same s1 s2 → Same s s2
  Same-trans s s1 s2 h k = (k.0 ∙ h.0, k.1 ∙ h.1)

  -- Two effects one after the other, where each leaves the statuses.
  act_after-Same :
      (e : Effect Tx Receipt) (rest : Action (Syncing Tx Receipt) (Unit {0}))
      (s s' : Syncing Tx Receipt)
      → ((t : Syncing Tx Receipt) → rest t ≡ (s', ok tt) → Same t s')
      → (act peer e >> rest) s ≡ (s', ok tt)
      → Same s s'
  act_after-Same e rest s s' k h = after_with s s' tt _ _ h (λ s1 u e1 r1.
      Same-trans s s1 s' (recorded-Same (peer.perform s.effects e) e s s1 u e1) (k s1 r1))

  act-Same :
      (e : Effect Tx Receipt) (s s' : Syncing Tx Receipt) → act peer e s ≡ (s', ok tt) → Same s s'
  act-Same e s s' h = recorded-Same (peer.perform s.effects e) e s s' tt h

  apply_metadata-Same :
      (metadata : Metadata) (s s' : Syncing Tx Receipt)
      → apply_metadata peer metadata s ≡ (s', ok tt)
      → Same s s'
  unfolding apply_metadata
  apply_metadata-Same metadata s s' h =
      act_after-Same _ _ s s' (λ t1 h1. act_after-Same _ _ t1 s' (λ t2 h2. act-Same _ t2 s' h2) h1)
        h

  save_chain_data-Same :
      (txs : List Tx) (receipts : List Receipt) (block : Block) (s s' : Syncing Tx Receipt)
      → save_chain_data peer txs receipts block s ≡ (s', ok tt)
      → Same s s'
  unfolding save_chain_data
  save_chain_data-Same txs receipts block s s' h =
      act_after-Same _ _ s s'
        (λ t1 h1.
          act_after-Same _ _ t1 s'
            (λ t2 h2. act_after-Same _ _ t2 s' (λ t3 h3. act-Same _ t3 s' h3) h2) h1)
        h

  exec_block-Keeps :
      (rich : RichBlock Tx) (s s' : Syncing Tx Receipt) (resp : ExecutorResp Receipt)
      → exec_block peer rich s ≡ (s', ok resp)
      → (s'.sync_status.latest_committed_height ≡ s.sync_status.latest_committed_height)
        × (s'.status ≡ s.status)
  unfolding exec_block
  exec_block-Keeps rich s s' resp h = ask_with s s' resp _ _ h (λ r e1 r1.
      after_with s s' resp _ _ r1 (λ s1 u e2 r2.
        let (one, same) = changed-ok _ s s1 u e2 in
        let (last, _) = pair-ok s1 s' _ _ r2 in
        (
          ap (λ x. x.sync_status.latest_committed_height) (sym last)
              ∙ update_by_executed-height _ s.sync_status s1.sync_status one,
          ap (λ x. x.status) (sym last) ∙ same,
        )))

  -- A committed block is the next one, under its proof.
  pub record IsCommitted (rich : RichBlock Tx) (proof : Proof) (s s' : Syncing Tx Receipt)
      : Type 0 where
    pub next : s'.sync_status.latest_committed_height ≡ s.sync_status.latest_committed_height + 1
    pub height : s'.sync_status.latest_committed_height ≡ rich.block.header.height
    pub proof_kept : s'.sync_status.current_proof ≡ proof

  record IsKept (rich : RichBlock Tx) (proof : Proof) (s s' : Syncing Tx Receipt) : Type 0 where
    committed_block : IsCommitted rich proof s s'
    status_kept : s'.status ≡ s.status

  commit_block-IsKept :
      (rich : RichBlock Tx) (proof : Proof) (s s' : Syncing Tx Receipt)
      → commit_block peer rich proof s ≡ (s', ok tt)
      → IsKept rich proof s s'
  unfolding commit_block
  commit_block-IsKept rich proof s s' h = chain_with s s' tt _ _ h (λ s1 resp e1 r1.
      ask_with s1 s' tt _ _ r1 (λ hash e2 r2. ask_with s1 s' tt _ _ r2 (λ metadata e3 r3.
        after_with s1 s' tt _ _ r3 (λ s4 _ e4 r4. after_with s4 s' tt _ _ r4 (λ s5 u e5 r5.
          after_with s5 s' tt _ _ r5 (λ s6 _ e6 r6.
            let executed = exec_block-Keeps rich s s1 resp e1 in
            let applied = apply_metadata-Same metadata s1 s4 e4 in
            let (one, same) = changed-ok _ s4 s5 u e5 in
            let (next, height, _, kept) =
              update_by_committed-height peer.decode metadata rich.block hash proof s4.sync_status
                s5.sync_status one in
            let (last, rest) =
              Same-trans s5 s6 s' (save_chain_data-Same _ _ _ s5 s6 e6) (act-Same _ s6 s' r6) in
            record {
              committed_block = record {
                next = cc (last, next, applied.0, executed.0);
                height = cc (last, height);
                proof_kept = cc (last, kept);
              };
              status_kept = cc (rest, same, applied.1, executed.1);
            }))))))

  -- What one turn of the loop leads to.
  pub record IsSynced (height : ℕ) (s s' : Syncing Tx Receipt) : Type 0 where
    pub rich : RichBlock Tx
    pub proof : Proof
    pub given : peer.get_proof_from_remote s.effects height ≡ ok proof
    pub verified : IsVerified (peer.chain s.effects) rich proof
    pub committed : IsCommitted rich proof s s'
    pub status : s'.status ≡ replace s'.sync_status s.status

  update_status-ok :
      (s s' : Syncing Tx Receipt)
      → update_status peer s ≡ (s', ok tt)
      → (s'.sync_status ≡ s.sync_status) × (s'.status ≡ replace s.sync_status s.status)
  unfolding update_status
  update_status-ok s s' h = act-Same _ (record s { status = replace s.sync_status s.status }) s' h

  -- A turn of the loop that succeeds committed a block whose header, transactions and proof, and
  -- whose proof for the block before it, all passed; the status is that of the synchronization,
  -- which is one block further and holds the proof.
  pub sync_block-IsSynced :
      (chunk_size height : ℕ) (s s' : Syncing Tx Receipt)
      → sync_block peer chunk_size height s ≡ (s', ok tt)
      → IsSynced height s s'
  unfolding sync_block
  sync_block-IsSynced chunk_size height s s' h = chain_with s s' tt _ _ h (λ s1 rich e1 r1.
      ask_with s1 s' tt _ _ r1 (λ proof e2 r2. after_with s1 s' tt _ _ r2 (λ s2 _ e3 r3.
        after_with s2 s' tt _ _ r3 (λ s3 _ e4 r4.
          let start = get_rich_block_from_remote-Same chunk_size height s s1 rich e1 in
          let (kept, verified) = verify_rich_block-IsVerified rich proof s1 s2 e3 in
          let kept_block = commit_block-IsKept rich proof s2 s3 e4 in
          let committed = kept_block.committed_block in
          let (same, replaced) = update_status-ok s3 s' r4 in
          let from = start ∙ kept in
          record {
            rich = rich;
            proof = proof;
            given = rw start e2;
            verified =
                subst (λ x. IsVerified (peer.chain x.effects) rich proof) (sym start) verified;
            committed = record {
              next = cc (same, committed.next, from);
              height = cc (same, committed.height);
              proof_kept = cc (same, committed.proof_kept);
            };
            status = cc (replaced, same, kept_block.status_kept, from);
          }))))
