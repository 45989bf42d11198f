-- ===== src/Consensus/Proposal.antt =====
-- A node's own proposal, beside its checks (core/consensus/src/engine.rs).
use muta.Prelude.{
  List, [], arith, drop, false, length, ltb, member, nat_beq, nat_beq_iff, nat_eq, not, ok, refl,
  some, suc, sym, true, zero, ℕ, ◌&&◌, ◌+◌, ◌∷◌, ◌≡◌,
}
use muta.Protocol.{Bytes, Hash}
use muta.Consensus.Status.{
  CurrentConsensusStatus, check_list_roots, get_latest_state_root, last_or, set_metadata, split_off,
  update_by_committed, zip_equal,
}
use muta.Consensus.History.{IsTraced, Log, Traced, pending}
use muta.Consensus.Splits.{after_split}
use muta.Consensus.Checks.{check_block_roots}
use muta.Consensus.Engine.{Host, new_header}
use muta.Consensus.Types.{Hex, Metadata, Proof}

zip_equal_refl : (xs : List ℕ) → zip_equal xs xs ≡ true
unfolding zip_equal
zip_equal_refl [] = refl
zip_equal_refl (x ∷ xs) = ground (arith, nat_beq_iff x x, zip_equal_refl xs)

check_list_roots_refl : (xs : List ℕ) → check_list_roots xs xs ≡ true
unfolding check_list_roots
check_list_roots_refl xs = ground (arith, zip_equal_refl xs)

member-last_or : (x d : ℕ) (xs : List ℕ) → member (last_or xs x) (x ∷ xs) ≡ true
member-last_or x d [] = ground (arith, nat_beq_iff x x)
member-last_or x d (y ∷ xs) = ground (arith, member-last_or y d xs)

latest_root :
    (s : CurrentConsensusStatus) (xs : List ℕ)
    → not (
        not (nat_beq s.latest_committed_state_root (last_or xs s.latest_committed_state_root))
        && not (member (last_or xs s.latest_committed_state_root) xs))
      ≡ true
latest_root s [] =
    ground (arith, nat_beq_iff s.latest_committed_state_root s.latest_committed_state_root)
latest_root s (x ∷ xs) = ground (arith, member-last_or x x xs)

not_below : (a b : ℕ) → b ≡ a → ltb a b ≡ false
not_below a b e = ground (arith, e)

drop_all : (n : ℕ) (xs : List ℕ) → n ≡ length xs → drop n xs ≡ []
drop_all zero [] e = refl
drop_all zero (x ∷ xs) e = absurd (omega (arith, e))
drop_all (suc n) [] e = refl
drop_all (suc n) (x ∷ xs) e = drop_all n xs (omega (arith, e))

-- Nothing is left that a block could confirm.
abbrev pub no_results : Log
no_results = record { confirm_root = []; receipt_root = []; cycles_used = [] }

module _ {Tx : Type 0} (host : Host Tx) where
  -- The header that a node proposes passes the check of the roots against the status that it is from.
  pub check_block_roots-new_header :
      (status : CurrentConsensusStatus) (next_height now : ℕ) (signed_hash : Hash)
      (hashes : List Hash)
      → check_block_roots status (new_header host status next_height now signed_hash hashes) ≡ ok tt
  unfolding check_block_roots new_header get_latest_state_root
  check_block_roots-new_header status next_height now signed_hash hashes =
      rw
        (
          (nat_beq_iff status.current_hash status.current_hash).1 refl,
          latest_root status status.list_state_root,
          check_list_roots_refl status.list_confirm_root,
          check_list_roots_refl status.list_receipt_root,
          check_list_roots_refl status.list_cycles_used,
        )
        refl

  -- The block that a node proposes for the next height, from a status that agrees with its logs,
  -- passes the check of the roots against that status, and its commit meets no panic and leaves no
  -- executed result unconfirmed.
  pub update_by_committed-new_header :
      (decode : Hex → Bytes) (metadata : Metadata) (t : Traced) (now : ℕ) (signed_hash : Hash)
      (hashes : List Hash) (block_hash : Hash) (proof : Proof)
      → IsTraced t
      → (check_block_roots t.status
            (new_header host t.status (t.status.latest_committed_height + 1) now signed_hash hashes)
          ≡ ok tt)
        × ((s : CurrentConsensusStatus) × (update_by_committed decode metadata
                (record {
                  header =
                      new_header host t.status
                        (t.status.latest_committed_height + 1)
                        now
                        signed_hash
                        hashes;
                  ordered_tx_hashes = hashes;
                })
                block_hash
                proof
                t.status
              ≡ some s)
            × (pending s ≡ no_results))
  unfolding update_by_committed split_off set_metadata new_header
  update_by_committed-new_header decode metadata t now signed_hash hashes block_hash proof v =
      let status = t.status in
      let len = length status.list_confirm_root in
      (
        check_block_roots-new_header status _ now signed_hash hashes,
        (
          after_split len (record (set_metadata decode metadata status) {
            latest_committed_height = status.latest_committed_height + 1;
            current_hash = block_hash;
            current_proof = proof;
            latest_committed_state_root = get_latest_state_root status;
          }),
          rw
              (
                (nat_beq_iff (status.latest_committed_height + 1)
                      (status.latest_committed_height + 1)).1
                    refl,
                (nat_beq_iff len (length status.list_cycles_used)).1 (sym v.cycles_length),
                (nat_beq_iff len (length status.list_receipt_root)).1 (sym v.receipt_length),
                check_list_roots_refl status.list_confirm_root,
                check_list_roots_refl status.list_receipt_root,
                check_list_roots_refl status.list_cycles_used,
                not_below (length status.list_state_root) len (sym v.state_length),
              )
              refl,
          cc (
            drop_all len status.list_confirm_root refl,
            drop_all len status.list_receipt_root (sym v.receipt_length),
            drop_all len status.list_cycles_used (sym v.cycles_length),
          ),
        ),
      )
