-- ===== src/Consensus/Adapter.antt =====
-- The checks of a header and of a proof (core/consensus/src/adapter.rs). What the adapter asks of
-- the storage, the executor and the libraries of the agreement protocol is a record of answers.
use muta.Prelude.{
  Bool, Dict, List, Option, [], any, collect_onto, ensure, err, if◌then◌else◌, leb, list_eq, lookup,
  ltb, member, nat_beq, nat_eq, none, not, ok, some, ℕ, ◌%◌, ◌&&◌, ◌*◌, ◌+◌, ◌>>=◌, ◌>>◌, ◌||◌, ◌∷◌,
}
use muta.Protocol.{Address, Bytes, Hash, overflowing_sub, u64_mod}
use muta.Consensus.Types.{
  Block, BlockHeader, ConsensusResult, Hex, MerkleRoot, Metadata, Proof, Validator, ValidatorExtend,
  bit_map, hash_mismatch, header_validator, header_weight, height_mismatch, previous_block_hash,
  proof_hash, proof_validator, proof_weight, proposer_field, signature_field,
  verify_block_header_error, verify_proof_error,
}

-- `overlord::types::Node`
pub record Node : Type 0 where
  pub address : Bytes
  pub propose_weight : ℕ
  pub vote_weight : ℕ

-- `header_hash` digests the encoding of a header, `vote_hash` that of a precommit vote for a height,
-- a round and a block. `extract_voters` answers with the list of nodes as it leaves it, and with the
-- addresses whose bits are set.
pub record Chain : Type 0 where
  pub get_block_header_by_height : ℕ → ConsensusResult BlockHeader
  pub get_metadata : MerkleRoot → ℕ → ℕ → Address → ConsensusResult Metadata
  pub header_hash : BlockHeader → ConsensusResult Hash
  pub decode : Hex → Bytes
  pub extract_voters : List Node → Bytes → Option (List Node × List Bytes)
  pub vote_hash : ℕ → ℕ → Hash → Bytes
  pub convert_hex_to_bls_pubkeys : Hex → ConsensusResult Bytes
  pub inner_verify_aggregated_signature : Bytes → List Bytes → Bytes → Bool

-- `height - 1` on 64 bits.
abbrev pub previous_height : ℕ → ℕ
previous_height height = (overflowing_sub height 1).0

abbrev pub metadata_at : Chain → BlockHeader → ConsensusResult Metadata
metadata_at chain header =
    chain.get_metadata header.state_root header.height header.timestamp header.proposer

unfoldable pub node_list : (Hex → Bytes) → List ValidatorExtend → List Node
node_list decode [] = []
node_list decode (v ∷ vs) =
    (record {
      address = decode v.pub_key;
      propose_weight = v.propose_weight;
      vote_weight = v.vote_weight;
    })
    ∷ node_list decode vs

-- The nodes under their addresses.
abbrev keyed_nodes : List Node → List (Bytes × Node)
keyed_nodes [] = []
keyed_nodes (n ∷ ns) = (n.address, n) ∷ keyed_nodes ns

abbrev pub authority_map : List Node → Dict Bytes Node
authority_map nodes = collect_onto (keyed_nodes nodes) []

unfoldable pub check_validator : ℕ → Dict Bytes Node → Validator → ConsensusResult (Unit {0})
check_validator height map validator = elim (lookup validator.pub_key map) [
  | none ↦ err (verify_block_header_error height header_validator)
  | some node ↦
      ensure
        (not (
          not (nat_beq node.vote_weight validator.vote_weight)
          || not (nat_beq node.propose_weight validator.vote_weight)))
        (verify_block_header_error height header_weight)
]

unfoldable pub check_validators : ℕ → Dict Bytes Node → List Validator → ConsensusResult (Unit {0})
check_validators height map [] = ok tt
check_validators height map (v ∷ vs) =
    check_validator height map v >> check_validators height map vs

abbrev pub is_verifier : Address → List ValidatorExtend → Bool
is_verifier address vs = any (λ v. nat_beq v.address address) vs

unfoldable pub verify_block_header : Chain → Block → ConsensusResult (Unit {0})
verify_block_header chain block = do
  previous_block_header ← chain.get_block_header_by_height (previous_height block.header.height)
  previous_hash ← chain.header_hash previous_block_header
  ensure (nat_beq previous_hash block.header.prev_hash)
      (verify_block_header_error block.header.height previous_block_hash)
  ensure
      (not (
        ltb 1 block.header.height
        && not (nat_beq block.header.prev_hash block.header.proof.block_hash)))
      (verify_block_header_error block.header.height proof_hash)
  previous_metadata ← metadata_at chain previous_block_header
  ensure
      (not (
        not (nat_beq block.header.height 0)
        && not (is_verifier block.header.proposer previous_metadata.verifier_list)))
      (verify_block_header_error block.header.height proposer_field)
  check_validators block.header.height
      (authority_map (node_list chain.decode previous_metadata.verifier_list))
      block.header.validators

-- The vote weights under the addresses.
abbrev keyed_weights : List Node → List (Bytes × ℕ)
keyed_weights [] = []
keyed_weights (n ∷ ns) = (n.address, n.vote_weight) ∷ keyed_weights ns

abbrev pub weight_map : List Node → Dict Bytes ℕ
weight_map nodes = collect_onto (keyed_weights nodes) []

unfoldable pub total_validator_weight : Dict Bytes ℕ → ℕ
total_validator_weight [] = 0
total_validator_weight ((k, w) ∷ m) = (w + total_validator_weight m) % u64_mod

unfoldable pub accumulate : ℕ → Dict Bytes ℕ → ℕ → List Bytes → ConsensusResult ℕ
accumulate height map accumulator [] = ok accumulator
accumulate height map accumulator (voter ∷ voters) = elim (lookup voter map) [
  | none ↦ err (verify_proof_error height proof_validator)
  | some weight ↦ accumulate height map ((accumulator + weight) % u64_mod) voters
]

unfoldable pub verify_proof_weight : ℕ → Dict Bytes ℕ → List Bytes → ConsensusResult (Unit {0})
verify_proof_weight height map signed_voters = do
  accumulator ← accumulate height map 0 signed_voters
  ensure (not (leb ((3 * accumulator) % u64_mod) ((2 * total_validator_weight map) % u64_mod)))
      (verify_proof_error height proof_weight)

unfoldable pub convert_all : (Hex → ConsensusResult Bytes) → List Hex → ConsensusResult (List Bytes)
convert_all convert [] = ok []
convert_all convert (key ∷ keys) = do
  first ← convert key
  rest ← convert_all convert keys
  ok (first ∷ rest)

unfoldable pub verify_proof_signature :
    Chain → ℕ → Bytes → Bytes → List Hex → ConsensusResult (Unit {0})
verify_proof_signature chain height vote_hash signature vote_keys = do
  pub_keys ← convert_all chain.convert_hex_to_bls_pubkeys vote_keys
  ensure (chain.inner_verify_aggregated_signature vote_hash pub_keys signature)
      (verify_proof_error height signature_field)

-- The BLS keys of the verifiers that signed.
unfoldable pub signing_keys : (Hex → Bytes) → List Bytes → List ValidatorExtend → List Hex
signing_keys decode signed_voters [] = []
signing_keys decode signed_voters (v ∷ vs) =
    let rest = signing_keys decode signed_voters vs in
    if member (decode v.pub_key) signed_voters then v.bls_pub_key ∷ rest else rest

unfoldable pub extracted :
    ℕ → Option (List Node × List Bytes) → ConsensusResult (List Node × List Bytes)
extracted height none = err (verify_proof_error height bit_map)
extracted height (some found) = ok found

-- The verifiers of a height: those of the block before it.
unfoldable pub verifiers_of : Chain → ℕ → ConsensusResult (List ValidatorExtend)
verifiers_of chain height = do
  previous_block_header ← chain.get_block_header_by_height (previous_height height)
  metadata ← metadata_at chain previous_block_header
  ok metadata.verifier_list

unfoldable pub verify_votes : Chain → ℕ → Proof → List ValidatorExtend → ConsensusResult (Unit {0})
verify_votes chain height proof verifier_list = do
  found ←
      extracted height (chain.extract_voters (node_list chain.decode verifier_list) proof.bitmap)
  verify_proof_weight height (weight_map found.0) found.1
  verify_proof_signature chain height (chain.vote_hash proof.height proof.round proof.block_hash)
      proof.signature (signing_keys chain.decode found.1 verifier_list)

unfoldable pub verify_proof : Chain → BlockHeader → Proof → ConsensusResult (Unit {0})
verify_proof chain header proof = if nat_beq header.height 0 then ok tt else do
  ensure (nat_beq header.height proof.height)
      (verify_proof_error header.height (height_mismatch header.height proof.height))
  hash ← chain.header_hash header
  ensure (nat_beq hash proof.block_hash) (verify_proof_error header.height hash_mismatch)
  verifier_list ← verifiers_of chain header.height
  verify_votes chain header.height proof verifier_list
