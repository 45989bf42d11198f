-- ===== src/Consensus/EngineTests.antt =====
-- The theorems on the engine at concrete blocks (core/consensus/src/engine.rs).
use muta.Prelude.{
  List, [], arith, err, false, get_or, list_eq, nat_eq, none, ok, refl, some, ℕ, ◌+◌, ◌∷◌, ◌≡◌,
}
use muta.Consensus.Types.{BlockHeader, ConsensusResult, outside}
use muta.Consensus.History.{IsTraced, Traced, executed, pending, trace}
use muta.Consensus.Adapter.{
  check_validator, check_validators, node_list, verify_block_header, verify_proof,
}
use muta.Consensus.Status.{
  CurrentConsensusStatus, check_list_roots, update_by_committed, update_by_executed, zip_equal,
}
use muta.Consensus.Checks.{
  check_block_roots, check_order_transactions, digest_signed_transactions, validate_timestamp,
}
use muta.Consensus.Actions.{◌>>=◌, ◌>>◌}
use muta.Consensus.Engine.{
  EngineEffect, EngineState, Host, OverlordStatus, digest_txs, executed_txs, inner_check_block,
  new_header, retry_roots, saved_proof,
}
use muta.Consensus.Commit.{
  Commit, commit, exec_until, overlord_status, update_status as update_committed,
}
use muta.Consensus.Proposal.{no_results, update_by_committed-new_header}
use muta.Consensus.Checked.{IsChecked, inner_check_block-IsChecked}
use muta.Consensus.Tries.{AcceptedWithin, exec_until-AcceptedWithin}
use muta.Consensus.Fixtures.{
  at_genesis, decode_digits, first_block, first_three, genesis_status, no_proof, result_at,
  test_chain, test_metadata,
}

-- The execution is refused once, right after the proof is saved.
abbrev refuse_once : List (EngineEffect ℕ) → EngineEffect ℕ → ConsensusResult (Unit {0})
refuse_once (saved_proof p ∷ effects) (executed_txs c o h y a b t l s) = err (outside "busy")
refuse_once _ _ = ok tt

abbrev test_host : Host ℕ
test_host = record {
  chain = λ effects. test_chain;
  perform = refuse_once;
  get_txs_from_mempool = λ effects height cycles number. ok ([], []);
  get_full_txs = λ effects hashes. ok hashes;
  verify_txs = λ effects height hashes. ok tt;
  load_wal = λ effects height hash. ok [];
  encode_tx = λ tx. ok (tx ∷ []);
  digest = λ bytes. 7;
  merkle_root = λ hashes. none;
  decode = decode_digits;
  time_now = λ effects. 50;
  sorted = λ nodes. nodes;
  chain_id = 1;
  self_address = 1;
  hash_from_bytes = λ bytes. ok 101;
  wait = λ status. status;
}

abbrev idle_engine : EngineState ℕ
idle_engine = record {
  status = genesis_status;
  exemption_hash = 5 ∷ [];
  sync_lock = false;
  effects = [];
}

block_checked : inner_check_block test_host first_block idle_engine ≡ (idle_engine, ok tt)
unfolding ◌>>=◌ ◌>>◌ inner_check_block verify_block_header check_validators check_validator
    node_list validate_timestamp verify_proof retry_roots check_block_roots check_list_roots
    zip_equal check_order_transactions digest_txs digest_signed_transactions
block_checked = refl

inner_check_block-IsChecked_example : IsChecked test_host first_block idle_engine idle_engine
inner_check_block-IsChecked_example =
    inner_check_block-IsChecked test_host first_block idle_engine idle_engine block_checked

abbrev agreed_block : Commit
agreed_block = record {
  content = record { block = first_block; propose_hashes = [] };
  proof_height = 1;
  proof_round = 0;
  proof_block_hash = [];
  proof_signature = [];
  proof_bitmap = [];
}

-- The engine with the saved proof, and an execution.
abbrev proof_saved : EngineState ℕ
proof_saved = record idle_engine { effects = saved_proof first_three ∷ [] }

abbrev an_execution : EngineEffect ℕ
an_execution = executed_txs 1 7 1 1 1 101 [] 1000 20

exec_until-AcceptedWithin_example :
    AcceptedWithin test_host 1 an_execution proof_saved
      (exec_until test_host 2 an_execution proof_saved)
exec_until-AcceptedWithin_example =
    exec_until-AcceptedWithin test_host 1 2 an_execution proof_saved (omega arith) refl

abbrev after_commit : EngineState ℕ × ConsensusResult OverlordStatus
after_commit = commit test_host 3 1 agreed_block idle_engine

abbrev committed_status : OverlordStatus
committed_status = overlord_status test_host 1 after_commit.0.status

-- Two results that no block confirms yet.
abbrev two_results : Traced
two_results =
    get_or (trace decode_digits (executed (result_at 1) ∷ executed (result_at 2) ∷ []) at_genesis)
      at_genesis

two_results-IsTraced : IsTraced two_results
unfolding trace update_by_executed
two_results-IsTraced = record {
  log = refl;
  receipt_length = refl;
  cycles_length = refl;
  state_length = refl;
}

abbrev own_header : BlockHeader
own_header =
    new_header test_host two_results.status (two_results.status.latest_committed_height + 1) 50 7 []

update_by_committed-new_header_example :
    (check_block_roots two_results.status own_header ≡ ok tt)
    × ((s : CurrentConsensusStatus) × (update_by_committed decode_digits test_metadata
            (record { header = own_header; ordered_tx_hashes = [] })
            101
            no_proof
            two_results.status
          ≡ some s)
        × (pending s ≡ no_results))
update_by_committed-new_header_example =
    update_by_committed-new_header test_host decode_digits test_metadata two_results 50 7 [] 101
      no_proof two_results-IsTraced
