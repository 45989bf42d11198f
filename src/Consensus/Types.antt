-- ===== src/Consensus/Types.antt =====
-- Blocks and proofs (protocol/src/types/block.rs), the metadata of a chain
-- (protocol/src/types/primitive.rs), and the errors of the engine (core/consensus/src/lib.rs).
use muta.Prelude.{List, Result, String, ℕ}
use muta.Protocol.{Address, Bytes, Hash}

abbrev pub MerkleRoot : Type 0
MerkleRoot = Hash

-- A text of hexadecimal digits.
abbrev pub Hex : Type 0
Hex = String

pub record Validator : Type 0 where
  pub pub_key : Bytes
  pub propose_weight : ℕ
  pub vote_weight : ℕ

pub record Proof : Type 0 where
  pub height : ℕ
  pub round : ℕ
  pub block_hash : Hash
  pub signature : Bytes
  pub bitmap : Bytes

pub record BlockHeader : Type 0 where
  pub chain_id : Hash
  pub height : ℕ
  pub exec_height : ℕ
  pub prev_hash : Hash
  pub timestamp : ℕ
  pub order_root : MerkleRoot
  pub order_signed_transactions_hash : Hash
  pub confirm_root : List MerkleRoot
  pub state_root : MerkleRoot
  pub receipt_root : List MerkleRoot
  pub cycles_used : List ℕ
  pub proposer : Address
  pub proof : Proof
  pub validator_version : ℕ
  pub validators : List Validator

pub record Block : Type 0 where
  pub header : BlockHeader
  pub ordered_tx_hashes : List Hash

pub record Pill : Type 0 where
  pub block : Block
  pub propose_hashes : List Hash

pub record ValidatorExtend : Type 0 where
  pub bls_pub_key : Hex
  pub pub_key : Hex
  pub address : Address
  pub propose_weight : ℕ
  pub vote_weight : ℕ

pub record Metadata : Type 0 where
  pub chain_id : Hash
  pub bech32_address_hrp : String
  pub common_ref : Hex
  pub timeout_gap : ℕ
  pub cycles_limit : ℕ
  pub cycles_price : ℕ
  pub interval : ℕ
  pub verifier_list : List ValidatorExtend
  pub propose_ratio : ℕ
  pub prevote_ratio : ℕ
  pub precommit_ratio : ℕ
  pub brake_ratio : ℕ
  pub tx_num_limit : ℕ
  pub max_tx_size : ℕ

-- A constructor of one error stands beside those of the other, so the fields of a header and of a
-- proof that share a name say which they are of.
pub data BlockHeaderField : Type 0 where
  previous_block_hash proof_hash proposer_field header_validator header_weight : BlockHeaderField

pub data BlockProofField : Type 0 where
  bit_map signature_field hash_mismatch : BlockProofField
  proof_validator proof_weight : BlockProofField
  height_mismatch : ℕ → ℕ → BlockProofField

-- The errors that the modelled code raises. `outside` stands for an error of another part of the
-- program or of a library, and for the variants of `ConsensusError` that only such code raises. A proof's `WeightNotFound` is
-- never raised, as the map is asked for the key before.
pub data ConsensusError : Type 0 where
  invalid_prevhash : Hash → Hash → ConsensusError
  invalid_order_root : MerkleRoot → MerkleRoot → ConsensusError
  invalid_order_signed_transactions_hash : Hash → Hash → ConsensusError
  invalid_status_vec invalid_timestamp lock_in_sync : ConsensusError
  missing_block_header : ℕ → ConsensusError
  verify_transaction : ℕ → ConsensusError
  verify_block_header_error : ℕ → BlockHeaderField → ConsensusError
  verify_proof_error : ℕ → BlockProofField → ConsensusError
  outdated_commit : ℕ → ℕ → ConsensusError
  outside : String → ConsensusError

abbrev pub ConsensusResult : Type 0 → Type 0
ConsensusResult A = Result A ConsensusError
