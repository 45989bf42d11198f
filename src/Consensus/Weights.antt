-- ===== src/Consensus/Weights.antt =====
-- What a header that the adapter accepts satisfies (core/consensus/src/adapter.rs).
use muta.Prelude.{
  All, Dict, List, Option-cases, [], any, ap, arith, bind-ok, ensure_then-ok, false, inl, inr,
  list_eq, lookup, ltb, nat_beq, nat_beq_iff, nat_eq, not, ok, some, then-ok, true, ℕ, ◌&&◌, ◌∙◌,
  ◌∷◌, ◌≡◌,
}
use muta.Protocol.{Bytes}
use muta.Consensus.Types.{Block, BlockHeader, Metadata, Validator}
use muta.Consensus.Adapter.{
  Chain, Node, authority_map, check_validator, check_validators, is_verifier, metadata_at,
  node_list, previous_height, verify_block_header,
}

-- A validator that the map has, at the weight of the header. The code compares both weights of the
-- node with the vote weight.
pub record IsListed (authorities : Dict Bytes Node) (v : Validator) : Type 0 where
  pub node : Node
  pub found : lookup v.pub_key authorities ≡ some node
  pub vote : node.vote_weight ≡ v.vote_weight
  pub propose : node.propose_weight ≡ v.vote_weight

check_validator-IsListed :
    (height : ℕ) (authorities : Dict Bytes Node) (v : Validator)
    → check_validator height authorities v ≡ ok tt
    → IsListed authorities v
unfolding check_validator
check_validator-IsListed height authorities v h =
    elim (Option-cases (lookup v.pub_key authorities)) [
      | inl e ↦ absurd (ground (arith, h, e))
      | inr (node, e) ↦
          let same : (node.vote_weight ≡ v.vote_weight) × (node.propose_weight ≡ v.vote_weight) =
            ground (arith, h, e) in
          record { node = node; found = e; vote = same.0; propose = same.1 }
    ]

check_validators-All :
    (height : ℕ) (authorities : Dict Bytes Node) (vs : List Validator)
    → check_validators height authorities vs ≡ ok tt
    → All (IsListed authorities) vs
unfolding check_validators
check_validators-All height authorities [] h = tt
check_validators-All height authorities (v ∷ vs) h =
    let (one, rest) = then-ok (check_validator height authorities v) _ h in
    (
      check_validator-IsListed height authorities v one,
      check_validators-All height authorities vs rest,
    )

-- The checks of a header against the block before it and that block's verifiers.
pub record IsHeader (chain : Chain) (header : BlockHeader) : Type 0 where
  pub previous : BlockHeader
  pub found : chain.get_block_header_by_height (previous_height header.height) ≡ ok previous
  pub linked : chain.header_hash previous ≡ ok header.prev_hash
  pub proved : ltb 1 header.height ≡ true → header.prev_hash ≡ header.proof.block_hash
  pub metadata : Metadata
  pub answered : metadata_at chain previous ≡ ok metadata
  pub proposed :
      nat_beq header.height 0 ≡ false
      → any (λ v. nat_beq v.address header.proposer) metadata.verifier_list ≡ true
  pub validated :
      All
        (IsListed (authority_map (node_list chain.decode metadata.verifier_list)))
        header.validators

-- A block whose header is accepted follows the block that the node has before it, carries its hash
-- and, above height 1, a proof for it, and names a proposer (above height 0) and validators among
-- its verifiers, each validator's vote weight being both weights of its verifier.
pub verify_block_header-IsHeader :
    (chain : Chain) (block : Block)
    → verify_block_header chain block ≡ ok tt
    → IsHeader chain block.header
unfolding verify_block_header
verify_block_header-IsHeader chain block h =
    let (previous, found, r1) = bind-ok (chain.get_block_header_by_height _) _ tt h in
    let (hash, hashed, r2) = bind-ok (chain.header_hash previous) _ tt r1 in
    let (linked, r3) = ensure_then-ok (nat_beq hash block.header.prev_hash) _ _ tt r2 in
    let (proved, r4) =
      ensure_then-ok
        (not (
          ltb 1 block.header.height
          && not (nat_beq block.header.prev_hash block.header.proof.block_hash)))
        _ _ tt r3 in
    let (metadata, answered, r5) = bind-ok (metadata_at chain previous) _ tt r4 in
    let (proposed, r6) =
      ensure_then-ok
        (not (
          not (nat_beq block.header.height 0)
          && not (is_verifier block.header.proposer metadata.verifier_list)))
        _ _ tt r5 in
    record {
      previous = previous;
      found = found;
      linked = hashed ∙ ap (λ k. ok k) ((nat_beq_iff hash block.header.prev_hash).0 linked);
      proved = λ up. ground (arith, up, proved);
      metadata = metadata;
      answered = answered;
      proposed = λ up. ground (arith, up, proposed);
      validated = check_validators-All _ _ block.header.validators r6;
    }
