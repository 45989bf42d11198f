-- ===== src/Consensus/Quorum.antt =====
-- The weight of voters, and the voters that two proofs share (core/consensus/src/adapter.rs).
use mathlib.Core.Path.{subst}
use muta.Prelude.{
  Bool-cases, Dict, List, Option, Option-cases, [], ap, arith, bind-ok, distinct, distinct-append,
  else_branch, ensure-ok, ensure_then-ok, false, get_or, inl, inr, list_beq, list_beq_iff, list_eq,
  lookup, meet, member, nat_beq, nat_eq, none, ok, ok_unique, refl, some, sym, then-ok, true, ℕ,
  ◌%◌, ◌*◌, ◌++◌, ◌+◌, ◌<◌, ◌∙◌, ◌∷◌, ◌≡◌, ◌≤◌,
}
use muta.Protocol.{Bytes, u64_mod}
use muta.Consensus.Adapter.{
  Chain, Node, accumulate, extracted, node_list, total_validator_weight, verifiers_of, verify_proof,
  verify_proof_weight, verify_votes, weight_map,
}
use muta.Consensus.Types.{BlockHeader, Proof, ValidatorExtend}

-- The sums over the natural numbers.
abbrev pub plain_total : Dict Bytes ℕ → ℕ
plain_total [] = 0
plain_total ((k, w) ∷ m) = w + plain_total m

abbrev weight_of : Dict Bytes ℕ → Bytes → ℕ
weight_of m v = get_or (lookup v m) 0

abbrev voted : Dict Bytes ℕ → List Bytes → ℕ
voted m [] = 0
voted m (v ∷ vs) = weight_of m v + voted m vs

total_validator_weight-plain :
    (m : Dict Bytes ℕ) → plain_total m < u64_mod → total_validator_weight m ≡ plain_total m
unfolding total_validator_weight
total_validator_weight-plain [] h = refl
total_validator_weight-plain ((k, w) ∷ m) h =
    omega (arith, total_validator_weight-plain m (omega arith))

voted-append :
    (m : Dict Bytes ℕ) (vs ws : List Bytes) → voted m (vs ++ ws) ≡ voted m vs + voted m ws
voted-append m [] ws = omega arith
voted-append m (v ∷ vs) ws = omega (arith, voted-append m vs ws)

-- A key that no voter has adds nothing.
voted-skip :
    (k : Bytes) (w : ℕ) (m : Dict Bytes ℕ) (vs : List Bytes)
    → member k vs ≡ false
    → voted ((k, w) ∷ m) vs ≡ voted m vs
voted-skip k w m [] h = refl
voted-skip k w m (v ∷ vs) h = ground (arith, h, voted-skip k w m vs)

voted-le_one :
    (k : Bytes) (w : ℕ) (m : Dict Bytes ℕ) (vs : List Bytes)
    → distinct vs ≡ true
    → voted ((k, w) ∷ m) vs ≤ w + voted m vs
voted-le_one k w m [] h = omega arith
voted-le_one k w m (v ∷ vs) h = elim (Bool-cases (list_beq k v)) [
  | inl e ↦
      let same = (list_beq_iff k v).0 e in
      let fresh : member k vs ≡ false = rw same (ground (arith, h)) in
      ground (arith, e, voted-skip k w m vs fresh)
  | inr e ↦ ground (arith, e, h, voted-le_one k w m vs)
]

voted-le : (m : Dict Bytes ℕ) (vs : List Bytes) → distinct vs ≡ true → voted m vs ≤ plain_total m
voted-le [] [] h = omega arith
voted-le [] (v ∷ vs) h = ground (arith, h, voted-le [] vs)
voted-le ((k, w) ∷ m) vs h = omega (arith, voted-le_one k w m vs h, voted-le m vs h)

accumulate-voted :
    (height : ℕ) (m : Dict Bytes ℕ) (acc acc' : ℕ) (vs : List Bytes)
    → acc < u64_mod
    → accumulate height m acc vs ≡ ok acc'
    → acc' ≡ (acc + voted m vs) % u64_mod
unfolding accumulate
accumulate-voted height m acc acc' [] small h = ground (arith, h)
accumulate-voted height m acc acc' (v ∷ vs) small h = elim (Option-cases (lookup v m)) [
  | inl e ↦ absurd (ground (arith, h, e))
  | inr (w, e) ↦
      let next =
        accumulate-voted height m ((acc + w) % u64_mod) acc' vs (omega arith)
          (ground (arith, h, e)) in
      ground (arith, e, next)
]

-- An accepted list of distinct voters has more than two thirds of the weight.
verify_proof_weight-outweighs :
    (height : ℕ) (m : Dict Bytes ℕ) (vs : List Bytes)
    → 3 * plain_total m < u64_mod
    → distinct vs ≡ true
    → verify_proof_weight height m vs ≡ ok tt
    → 2 * plain_total m < 3 * voted m vs
unfolding verify_proof_weight
verify_proof_weight-outweighs height m vs small d h =
    let (acc, sum, test) = bind-ok (accumulate height m 0 vs) _ tt h in
    let heavy = ensure-ok _ _ test in
    ground (
      arith,
      heavy,
      accumulate-voted height m 0 acc vs (omega arith) sum,
      voted-le m vs d,
      total_validator_weight-plain m (omega arith),
    )

-- Two lists of distinct voters that `verify_proof_weight` accepts, for weights whose triple sum
-- fits 64 bits, have a common voter.
pub verify_proof_weight-meet :
    (height : ℕ) (m : Dict Bytes ℕ) (vs ws : List Bytes)
    → 3 * plain_total m < u64_mod
    → distinct vs ≡ true
    → distinct ws ≡ true
    → verify_proof_weight height m vs ≡ ok tt
    → verify_proof_weight height m ws ≡ ok tt
    → meet vs ws ≡ true
verify_proof_weight-meet height m vs ws small dv dw hv hw = elim (Bool-cases (meet vs ws)) [
  | inl e ↦ e
  | inr e ↦ absurd (
      omega (
        arith,
        verify_proof_weight-outweighs height m vs small dv hv,
        verify_proof_weight-outweighs height m ws small dw hw,
        voted-append m vs ws,
        voted-le m (vs ++ ws) (distinct-append vs ws dv dw e),
      ))
]

abbrev pub addresses : List Node → List Bytes
addresses [] = []
addresses (n ∷ ns) = n.address ∷ addresses ns

-- What `extract_voters` does: it leaves the list in an order that the bitmap has no part in, and
-- takes each address of the list at most once.
pub record Extracts (chain : Chain) : Type 0 where
  pub same_nodes :
      (nodes : List Node) (b b' : Bytes) (found found' : List Node × List Bytes)
      → chain.extract_voters nodes b ≡ some found
      → chain.extract_voters nodes b' ≡ some found'
      → found.0 ≡ found'.0
  pub voters_distinct :
      (nodes : List Node) (b : Bytes) (found : List Node × List Bytes)
      → distinct (addresses nodes) ≡ true
      → chain.extract_voters nodes b ≡ some found
      → distinct found.1 ≡ true

extracted-some :
    (height : ℕ) (o : Option (List Node × List Bytes)) (found : List Node × List Bytes)
    → extracted height o ≡ ok found
    → o ≡ some found
unfolding extracted
extracted-some height none found h = cc
extracted-some height (some x) found h = cc

module _ (chain : Chain) (verifier_list : List ValidatorExtend) where
  abbrev extraction : Proof → Option (List Node × List Bytes)
  extraction proof = chain.extract_voters (node_list chain.decode verifier_list) proof.bitmap

  -- The voters of a proof, and the nodes that their weights are looked up in.
  abbrev pub signers : Proof → List Bytes
  signers proof = elim (extraction proof) [ none ↦ [] | some found ↦ found.1 ]

  abbrev pub nodes_for : Proof → List Node
  nodes_for proof = elim (extraction proof) [ none ↦ [] | some found ↦ found.0 ]

  signers_found :
      (proof : Proof) (found : List Node × List Bytes)
      → extraction proof ≡ some found
      → signers proof ≡ found.1
  signers_found proof found e = ap (λ o. elim o [ none ↦ [] | some f ↦ f.1 ]) e

  nodes_for_found :
      (proof : Proof) (found : List Node × List Bytes)
      → extraction proof ≡ some found
      → nodes_for proof ≡ found.0
  nodes_for_found proof found e = ap (λ o. elim o [ none ↦ [] | some f ↦ f.0 ]) e

  -- An accepted proof has accepted votes.
  verify_proof-votes :
      (header : BlockHeader) (proof : Proof)
      → nat_beq header.height 0 ≡ false
      → verifiers_of chain header.height ≡ ok verifier_list
      → verify_proof chain header proof ≡ ok tt
      → verify_votes chain header.height proof verifier_list ≡ ok tt
  unfolding verify_proof
  verify_proof-votes header proof up known h =
      let (_, r1) =
        ensure_then-ok (nat_beq header.height proof.height) _ _ tt
          (else_branch (nat_beq header.height 0) (ok tt) _ (ok tt) up h) in
      let (hash, e, r2) = bind-ok (chain.header_hash header) _ tt r1 in
      let (_, r3) = ensure_then-ok (nat_beq hash proof.block_hash) _ _ tt r2 in
      let (verifiers, e', r4) = bind-ok (verifiers_of chain header.height) _ tt r3 in
      ap (λ l. verify_votes chain header.height proof l) (ok_unique _ _ _ known e') ∙ r4

  -- Votes that are accepted were extracted, and their weights were.
  verify_votes-weight :
      (height : ℕ) (proof : Proof)
      → verify_votes chain height proof verifier_list ≡ ok tt
      → (found : List Node × List Bytes) × (extraction proof ≡ some found)
        × (verify_proof_weight height (weight_map found.0) found.1 ≡ ok tt)
  unfolding verify_votes
  verify_votes-weight height proof h =
      let (found, extract, rest) = bind-ok (extracted height (extraction proof)) _ tt h in
      (
        found,
        extracted-some height (extraction proof) found extract,
        (then-ok (verify_proof_weight height (weight_map found.0) found.1) _ rest).0,
      )

  -- Where voters are extracted as `Extracts` says, two proofs of one height above 0, accepted for
  -- headers of that height whose verifiers have distinct addresses and weights whose triple sum fits
  -- 64 bits, have a common voter.
  pub verify_proof-meet :
      (header header' : BlockHeader) (proof proof' : Proof)
      → Extracts chain
      → nat_beq header.height 0 ≡ false
      → header.height ≡ header'.height
      → verifiers_of chain header.height ≡ ok verifier_list
      → distinct (addresses (node_list chain.decode verifier_list)) ≡ true
      → 3 * plain_total (weight_map (nodes_for proof)) < u64_mod
      → verify_proof chain header proof ≡ ok tt
      → verify_proof chain header' proof' ≡ ok tt
      → meet (signers proof) (signers proof') ≡ true
  verify_proof-meet header header' proof proof' ex up same known d small h h' =
      let (found, e, heavy) =
        verify_votes-weight header.height proof (verify_proof-votes header proof up known h) in
      let (found', e', heavy') = verify_votes-weight header'.height proof' (
        verify_proof-votes header' proof' (ap (λ k. nat_beq k 0) (sym same) ∙ up)
          (ap (λ k. verifiers_of chain k) (sym same) ∙ known) h') in
      let nodes = ex.same_nodes _ proof.bitmap proof'.bitmap found found' e e' in
      let met =
        verify_proof_weight-meet header.height (weight_map found.0) found.1 found'.1
          (subst (λ ns. 3 * plain_total (weight_map ns) < u64_mod) (nodes_for_found proof found e)
            small)
          (ex.voters_distinct _ proof.bitmap found d e)
          (ex.voters_distinct _ proof'.bitmap found' d e') heavy (rw (same, nodes) heavy') in
      cc (signers_found proof found e, signers_found proof' found' e', met)
