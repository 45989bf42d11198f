-- ===== src/Consensus/Status.antt =====
-- What a node knows of the chain (core/consensus/src/status.rs). Where the code panics, by an
-- assertion or a `panic!`, the function is `none`.
use muta.Prelude.{
  Bool, List, Option, [], drop, false, if◌then◌else◌, leb, length, ltb, nat_beq, nat_eq, none, not,
  some, true, ℕ, ◌&&◌, ◌++◌, ◌+◌, ◌==◌, ◌||◌, ◌∷◌,
}
use muta.Protocol.{Bytes, Hash}
use muta.Consensus.Types.{Block, Hex, MerkleRoot, Metadata, Proof, Validator, ValidatorExtend}

pub record CurrentConsensusStatus : Type 0 where
  pub cycles_price : ℕ
  pub cycles_limit : ℕ
  pub latest_committed_height : ℕ
  pub exec_height : ℕ
  pub current_hash : Hash
  pub latest_committed_state_root : MerkleRoot
  pub list_confirm_root : List MerkleRoot
  pub list_state_root : List MerkleRoot
  pub list_receipt_root : List MerkleRoot
  pub list_cycles_used : List ℕ
  pub current_proof : Proof
  pub validators : List Validator
  pub consensus_interval : ℕ
  pub propose_ratio : ℕ
  pub prevote_ratio : ℕ
  pub precommit_ratio : ℕ
  pub brake_ratio : ℕ
  pub tx_num_limit : ℕ
  pub max_tx_size : ℕ

-- The context, which only traces, is left out.
pub record ExecutedInfo : Type 0 where
  pub exec_height : ℕ
  pub cycles_used : ℕ
  pub state_root : MerkleRoot
  pub receipt_root : MerkleRoot
  pub confirm_root : MerkleRoot

-- `StatusAgent::replace`, field by field.
unfoldable pub replace : CurrentConsensusStatus → CurrentConsensusStatus → CurrentConsensusStatus
replace new_status s = record s {
  cycles_price = new_status.cycles_price;
  cycles_limit = new_status.cycles_limit;
  latest_committed_height = new_status.latest_committed_height;
  exec_height = new_status.exec_height;
  current_hash = new_status.current_hash;
  latest_committed_state_root = new_status.latest_committed_state_root;
  list_confirm_root = new_status.list_confirm_root;
  list_state_root = new_status.list_state_root;
  list_receipt_root = new_status.list_receipt_root;
  list_cycles_used = new_status.list_cycles_used;
  current_proof = new_status.current_proof;
  validators = new_status.validators;
  consensus_interval = new_status.consensus_interval;
}

abbrev pub last_or {ℓ} : {A : Type ℓ} → List A → A → A
last_or [] d = d
last_or (x ∷ xs) d = last_or xs x

unfoldable pub get_latest_state_root : CurrentConsensusStatus → MerkleRoot
get_latest_state_root s = last_or s.list_state_root s.latest_committed_state_root

unfoldable pub update_by_executed :
    ExecutedInfo → CurrentConsensusStatus → Option CurrentConsensusStatus
update_by_executed info s =
    if leb info.exec_height s.exec_height
    then some s
    else if not (nat_beq info.exec_height (s.exec_height + 1))
    then none
    else some (record s {
      exec_height = s.exec_height + 1;
      list_cycles_used = s.list_cycles_used ++ (info.cycles_used ∷ []);
      list_confirm_root = s.list_confirm_root ++ (info.confirm_root ∷ []);
      list_receipt_root = s.list_receipt_root ++ (info.receipt_root ∷ []);
      list_state_root = s.list_state_root ++ (info.state_root ∷ []);
    })

-- The pairs of `zip` are equal.
unfoldable pub zip_equal : List ℕ → List ℕ → Bool
zip_equal [] ys = true
zip_equal (x ∷ xs) [] = true
zip_equal (x ∷ xs) (y ∷ ys) = let rest = zip_equal xs ys in if x == y then rest else false

-- `check_list_roots` (core/consensus/src/util.rs), at hashes and at cycles, both numbers here.
unfoldable pub check_list_roots : List ℕ → List ℕ → Bool
check_list_roots cache_roots block_roots =
    leb (length block_roots) (length cache_roots) && zip_equal cache_roots block_roots

-- The keys of the validators, which `decode` reads from their hexadecimal digits.
unfoldable pub to_validators : (Hex → Bytes) → List ValidatorExtend → List Validator
to_validators decode [] = []
to_validators decode (v ∷ vs) =
    (record {
      pub_key = decode v.pub_key;
      propose_weight = v.propose_weight;
      vote_weight = v.vote_weight;
    })
    ∷ to_validators decode vs

unfoldable pub set_metadata :
    (Hex → Bytes) → Metadata → CurrentConsensusStatus → CurrentConsensusStatus
set_metadata decode metadata s = record s {
  cycles_limit = metadata.cycles_limit;
  cycles_price = metadata.cycles_price;
  consensus_interval = metadata.interval;
  validators = to_validators decode metadata.verifier_list;
  propose_ratio = metadata.propose_ratio;
  prevote_ratio = metadata.prevote_ratio;
  precommit_ratio = metadata.precommit_ratio;
  brake_ratio = metadata.brake_ratio;
  max_tx_size = metadata.max_tx_size;
  tx_num_limit = metadata.tx_num_limit;
}

-- The roots that a block confirms leave the status. `Vec::split_off` panics past the end, which the
-- checks exclude for three of the lists, and nothing for the state roots.
unfoldable pub split_off : Block → CurrentConsensusStatus → Option CurrentConsensusStatus
split_off block s =
    let len = length block.header.confirm_root in
    if not (nat_beq len (length block.header.cycles_used))
      || not (nat_beq len (length block.header.receipt_root))
    then none
    else if not (check_list_roots s.list_cycles_used block.header.cycles_used)
    then none
    else if not (check_list_roots s.list_confirm_root block.header.confirm_root)
    then none
    else if not (check_list_roots s.list_receipt_root block.header.receipt_root)
    then none
    else if ltb (length s.list_state_root) len
    then none
    else some (record s {
      list_cycles_used = drop len s.list_cycles_used;
      list_confirm_root = drop len s.list_confirm_root;
      list_receipt_root = drop len s.list_receipt_root;
      list_state_root = drop len s.list_state_root;
    })

unfoldable pub update_by_committed :
    (Hex → Bytes)
    → Metadata
    → Block
    → Hash
    → Proof
    → CurrentConsensusStatus
    → Option CurrentConsensusStatus
update_by_committed decode metadata block block_hash current_proof s =
    if not (nat_beq block.header.height (s.latest_committed_height + 1))
    then none
    else split_off block (record (set_metadata decode metadata s) {
      latest_committed_height = block.header.height;
      current_hash = block_hash;
      current_proof = current_proof;
      latest_committed_state_root = block.header.state_root;
    })
