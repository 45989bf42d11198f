-- ===== src/Consensus/Fixtures.antt =====
-- Blocks, verifiers and answers that the tests of the consensus engine share.
use Prim.Native.String.{len}
use muta.Prelude.{
  List, String, [], err, if◌then◌else◌, list_eq, nat_beq, nat_eq, ok, some, true, ℕ, ◌*◌, ◌+◌, ◌∷◌,
}
use muta.Protocol.{Bytes}
use muta.Consensus.Types.{
  Block, BlockHeader, ConsensusResult, Hex, Metadata, Proof, ValidatorExtend, outside,
}
use muta.Consensus.History.{Log, Traced}
use muta.Consensus.Adapter.{Chain, Node}
use muta.Consensus.Status.{CurrentConsensusStatus, ExecutedInfo}

abbrev pub no_proof : Proof
no_proof = record { height = 0; round = 0; block_hash = 0; signature = []; bitmap = [] }

abbrev pub genesis_header : BlockHeader
genesis_header = record {
  chain_id = 1;
  height = 0;
  exec_height = 0;
  prev_hash = 0;
  timestamp = 10;
  order_root = 7;
  order_signed_transactions_hash = 7;
  confirm_root = [];
  state_root = 30;
  receipt_root = [];
  cycles_used = [];
  proposer = 1;
  proof = no_proof;
  validator_version = 0;
  validators = [];
}

abbrev pub first_header : BlockHeader
first_header = record genesis_header {
  height = 1;
  prev_hash = 100;
  timestamp = 20;
  validators = (record { pub_key = 1 ∷ []; propose_weight = 1; vote_weight = 1 }) ∷ [];
}

abbrev pub first_block : Block
first_block = record { header = first_header; ordered_tx_hashes = [] }

abbrev pub proof_by : Bytes → Proof
proof_by bitmap = record {
  height = 1;
  round = 0;
  block_hash = 101;
  signature = [];
  bitmap = bitmap;
}

abbrev pub verifier : String → ℕ → ValidatorExtend
verifier key address = record {
  bls_pub_key = key;
  pub_key = key;
  address = address;
  propose_weight = 1;
  vote_weight = 1;
}

abbrev pub four_verifiers : List ValidatorExtend
four_verifiers = verifier "1" 1 ∷ verifier "11" 2 ∷ verifier "111" 3 ∷ verifier "1111" 4 ∷ []

abbrev pub test_metadata : Metadata
test_metadata = record {
  chain_id = 1;
  bech32_address_hrp = "muta";
  common_ref = "";
  timeout_gap = 20;
  cycles_limit = 1000;
  cycles_price = 1;
  interval = 3000;
  verifier_list = four_verifiers;
  propose_ratio = 15;
  prevote_ratio = 10;
  precommit_ratio = 10;
  brake_ratio = 7;
  tx_num_limit = 100;
  max_tx_size = 1024;
}

-- A text stands for the byte of its length.
abbrev pub decode_digits : Hex → Bytes
decode_digits h = len h ∷ []

-- The addresses whose bit is set.
abbrev pub pick : List Node → Bytes → List Bytes
pick [] bits = []
pick (n ∷ ns) [] = []
pick (n ∷ ns) (b ∷ bits) = if nat_beq b 1 then n.address ∷ pick ns bits else pick ns bits

abbrev pub test_headers : ℕ → ConsensusResult BlockHeader
test_headers height = if nat_beq height 0 then ok genesis_header else err (outside "no block")

abbrev pub test_chain : Chain
test_chain = record {
  get_block_header_by_height = test_headers;
  get_metadata = λ state_root height timestamp proposer. ok test_metadata;
  header_hash = λ header. ok (100 + header.height);
  decode = decode_digits;
  extract_voters = λ nodes bits. some (nodes, pick nodes bits);
  vote_hash = λ height round hash. [];
  convert_hex_to_bls_pubkeys = λ key. ok (decode_digits key);
  inner_verify_aggregated_signature = λ hash keys signature. true;
}

abbrev pub genesis_status : CurrentConsensusStatus
genesis_status = record {
  cycles_price = 1;
  cycles_limit = 1000;
  latest_committed_height = 0;
  exec_height = 0;
  current_hash = 100;
  latest_committed_state_root = 30;
  list_confirm_root = [];
  list_state_root = [];
  list_receipt_root = [];
  list_cycles_used = [];
  current_proof = no_proof;
  validators = [];
  consensus_interval = 3000;
  propose_ratio = 15;
  prevote_ratio = 10;
  precommit_ratio = 10;
  brake_ratio = 7;
  tx_num_limit = 100;
  max_tx_size = 1024;
}

abbrev pub first_three : Proof
first_three = proof_by (1 ∷ 1 ∷ 1 ∷ 0 ∷ [])

abbrev pub last_three : Proof
last_three = proof_by (0 ∷ 1 ∷ 1 ∷ 1 ∷ [])

-- The result of a height, and a node that executed nothing yet.
abbrev pub result_at : ℕ → ExecutedInfo
result_at height = record {
  exec_height = height;
  cycles_used = 10 * height;
  state_root = 30 + height;
  receipt_root = 40 + height;
  confirm_root = 50 + height;
}

abbrev pub empty_log : Log
empty_log = record { confirm_root = []; receipt_root = []; cycles_used = [] }

abbrev pub at_genesis : Traced
at_genesis = record { status = genesis_status; executed_log = empty_log; confirmed_log = empty_log }
