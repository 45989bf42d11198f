-- ===== src/Consensus/Tests.antt =====
-- The theorems on the status, the adapter and the synchronization at concrete blocks
-- (core/consensus/src).
use mathlib.Core.Path.{subst}
use muta.Prelude.{
  List, [], arith, distinct, false, get_or, list_eq, meet, member, nat_eq, none, ok, refl, some,
  some_injective, true, ℕ, ◌∷◌, ◌≡◌,
}
use muta.Protocol.{Bytes}
use muta.Consensus.Types.{Block}
use muta.Consensus.Adapter.{
  Node, accumulate, check_validator, check_validators, convert_all, extracted, node_list,
  signing_keys, total_validator_weight, verifiers_of, verify_block_header, verify_proof,
  verify_proof_signature, verify_proof_weight, verify_votes,
}
use muta.Consensus.Status.{
  CurrentConsensusStatus, check_list_roots, get_latest_state_root, replace, set_metadata, split_off,
  to_validators, update_by_committed, update_by_executed, zip_equal,
}
use muta.Consensus.History.{
  IsTraced, StatusEvent, Traced, committed, executed, trace, trace-IsTraced,
}
use muta.Consensus.Quorum.{Extracts, addresses, signers, verify_proof-meet}
use muta.Consensus.Weights.{IsHeader, verify_block_header-IsHeader}
use muta.Consensus.Checks.{digest_signed_transactions}
use muta.Consensus.Actions.{◌>>=◌, ◌>>◌}
use muta.Consensus.Sync.{
  Peer, Syncing, apply_metadata, commit_block, exec_block, exec_params, get_rich_block_from_remote,
  get_txs, new_executed_info, pub_keys, save_chain_data, start_sync, sync_block, sync_blocks,
  sync_target, update_status as update_synced, verify_rich_block,
}
use muta.Consensus.Syncing.{IsSynced, sync_block-IsSynced}
use muta.Consensus.Fixtures.{
  at_genesis, decode_digits, first_block, first_header, first_three, four_verifiers, genesis_status,
  last_three, no_proof, pick, result_at, test_chain, test_metadata,
}
use muta.Consensus.Receive.{
  init_status_agent, need_after_delay, need_sync, receive_remote_block, remote_has, sync_if,
  sync_locked,
}
use muta.Consensus.Received.{Reached, Waited, receive_remote_block-Reached}

-- A block that confirms the first of two results.
abbrev confirming_block : Block
confirming_block = record {
  header = record first_header {
    confirm_root = 51 ∷ [];
    receipt_root = 41 ∷ [];
    cycles_used = 10 ∷ [];
    state_root = 31;
  };
  ordered_tx_hashes = [];
}

abbrev some_events : List StatusEvent
some_events =
    executed (result_at 1)
    ∷ executed (result_at 1)
    ∷ executed (result_at 2)
    ∷ committed test_metadata confirming_block 101 no_proof
    ∷ []

abbrev after_events : Traced
after_events = get_or (trace decode_digits some_events at_genesis) at_genesis

some_events-end : after_events.executed_log.confirm_root ≡ 51 ∷ 52 ∷ []
unfolding trace update_by_executed update_by_committed split_off check_list_roots zip_equal
    set_metadata to_validators
some_events-end = refl

trace-some_events : trace decode_digits some_events at_genesis ≡ some after_events
unfolding trace update_by_executed update_by_committed split_off check_list_roots zip_equal
    set_metadata to_validators
trace-some_events = refl

genesis-IsTraced : IsTraced at_genesis
genesis-IsTraced = record {
  log = refl;
  receipt_length = refl;
  cycles_length = refl;
  state_length = refl;
}

trace-IsTraced_example : IsTraced after_events
trace-IsTraced_example =
    trace-IsTraced decode_digits some_events at_genesis after_events genesis-IsTraced
      trace-some_events

-- What is picked was there.
pick-member :
    (a : Bytes) (ns : List Node) (bits : Bytes)
    → member a (addresses ns) ≡ false
    → member a (pick ns bits) ≡ false
pick-member a [] bits h = refl
pick-member a (n ∷ ns) [] h = refl
pick-member a (n ∷ ns) (b ∷ bits) h = ground (arith, h, pick-member a ns bits)

pick-distinct :
    (ns : List Node) (bits : Bytes)
    → distinct (addresses ns) ≡ true
    → distinct (pick ns bits) ≡ true
pick-distinct [] bits h = refl
pick-distinct (n ∷ ns) [] h = refl
pick-distinct (n ∷ ns) (b ∷ bits) h =
    ground (arith, h, pick-member n.address ns bits, pick-distinct ns bits)

test_chain-Extracts : Extracts test_chain
test_chain-Extracts = record {
  same_nodes = λ nodes b b' found found' e e'. cc (e, e');
  voters_distinct = λ nodes b found d e.
      subst (λ o. distinct o.1 ≡ true) (some_injective _ found e) (pick-distinct nodes b d);
}

verify_proof-meet_example :
    meet
      (signers test_chain four_verifiers first_three)
      (signers test_chain four_verifiers last_three)
    ≡ true
unfolding verify_proof verifiers_of verify_votes node_list extracted verify_proof_weight accumulate
    total_validator_weight verify_proof_signature convert_all signing_keys
verify_proof-meet_example =
    verify_proof-meet test_chain four_verifiers first_header first_header first_three last_three
      test_chain-Extracts refl refl refl refl (omega arith) refl refl

header_accepted : verify_block_header test_chain first_block ≡ ok tt
unfolding verify_block_header check_validators check_validator node_list
header_accepted = refl

verify_block_header-IsHeader_example : IsHeader test_chain first_header
verify_block_header-IsHeader_example =
    verify_block_header-IsHeader test_chain first_block header_accepted

abbrev test_peer : Peer ℕ ℕ
test_peer = record {
  chain = λ effects. test_chain;
  perform = λ effects effect. ok tt;
  get_block_from_remote = λ effects height. ok first_block;
  get_txs_from_remote = λ effects height hashes. ok hashes;
  get_proof_from_remote = λ effects height. ok first_three;
  sync_exec =
      λ effects params txs. ok (record { receipts = []; all_cycles_used = 5; state_root = 31 });
  encode_tx = λ tx. ok (tx ∷ []);
  receipt_hash = λ receipt. receipt;
  digest = λ bytes. 7;
  decode = decode_digits;
  merkle_root = λ hashes. none;
  wait = λ status. status;
  wait_execution = λ status. status;
}

abbrev fresh : Syncing ℕ ℕ
fresh = record { status = genesis_status; sync_status = genesis_status; effects = [] }

abbrev after_turn : Syncing ℕ ℕ
after_turn = (sync_block test_peer 10 1 fresh).0

abbrev after_receive : Syncing ℕ ℕ
after_receive = (receive_remote_block test_peer 1 10 true true 1 fresh).0

turn_runs : sync_block test_peer 10 1 fresh ≡ (after_turn, ok tt)
unfolding ◌>>=◌ ◌>>◌ sync_block get_rich_block_from_remote get_txs verify_rich_block
    verify_block_header check_validators check_validator node_list verify_proof verifiers_of
    verify_votes extracted verify_proof_weight accumulate total_validator_weight
    verify_proof_signature convert_all signing_keys digest_signed_transactions commit_block
    exec_block new_executed_info exec_params get_latest_state_root apply_metadata pub_keys
    save_chain_data update_by_executed update_by_committed split_off check_list_roots zip_equal
    set_metadata to_validators update_synced replace
turn_runs = refl

receive_runs : receive_remote_block test_peer 1 10 true true 1 fresh ≡ (after_receive, ok tt)
unfolding receive_remote_block need_sync need_after_delay remote_has sync_if sync_locked
    init_status_agent sync_blocks start_sync sync_target ◌>>=◌ ◌>>◌ sync_block
    get_rich_block_from_remote get_txs verify_rich_block verify_block_header check_validators
    check_validator node_list verify_proof verifiers_of verify_votes extracted verify_proof_weight
    accumulate total_validator_weight verify_proof_signature convert_all signing_keys
    digest_signed_transactions commit_block exec_block new_executed_info exec_params
    get_latest_state_root apply_metadata pub_keys save_chain_data update_by_executed
    update_by_committed split_off check_list_roots zip_equal set_metadata to_validators
    update_synced replace
receive_runs = refl

sync_block-IsSynced_example : IsSynced test_peer 1 fresh after_turn
sync_block-IsSynced_example = sync_block-IsSynced test_peer 10 1 fresh after_turn turn_runs

receive_remote_block-Reached_example :
    (before : CurrentConsensusStatus) × Waited test_peer fresh before
    × Reached test_peer 1 before after_receive
receive_remote_block-Reached_example =
    receive_remote_block-Reached test_peer (λ status. refl) 1 10 1 true true fresh after_receive
      receive_runs
