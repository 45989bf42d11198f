-- ===== src/Framework/BlockTests.antt =====
-- A block of two transactions over states in memory (framework/src/executor/mod.rs).
use mathlib.Core.Path.{subst}
use muta.Prelude.{
  Dict, List, Option, String, [], err, insert, length, list_eq, lookup, nat_eq, ok, refl, some,
  some_injective, string_default, ℕ, ◌+◌, ◌∷◌, ◌≡◌,
}
use muta.Protocol.{Bytes, Hash, ServiceResponse}
use muta.Mempool.Types.{SignedTransaction}
use muta.Framework.State.{
  FixedCodec, TrieOps, commit_trie, drain_into, insert_all, insert_bytes, insert_next, revert_cache,
  stash,
}
use muta.Framework.Executor.{
  Service, ServiceStateMap, World, after_call, before_call, call, call_method, caught, finish_call,
  get_tx_hooks, kan, revert_states, run_hook, run_hooks, run_tx, settle, stash_states,
}
use muta.Framework.Blocks.{
  BlockHook, ExecutorParams, ExecutorResp, Receipt, ServiceExecutor, block_hooks, exec, exec_txs,
}
use muta.Framework.Executed.{IsExecuted, exec-IsExecuted}
use muta.Framework.Answers.{IsCalm, IsOk, IsReliable, exec-IsOk}

abbrev block_ops : TrieOps (Dict Bytes Bytes) ℕ
block_ops = record {
  trie_get = λ t k. ok (lookup k t);
  trie_insert = λ t k v. (ok tt, insert k v t);
  trie_commit = λ t. (ok (length t), t);
}

abbrev name_codec : FixedCodec String ℕ
name_codec = record { encode_fixed = λ name. ok (1 ∷ []); decode_fixed = λ b. ok "counter" }

abbrev hash_codec : FixedCodec Hash ℕ
hash_codec = record { encode_fixed = λ h. ok (h ∷ []); decode_fixed = λ b. ok 0 }

block_ops-IsReliable : IsReliable block_ops name_codec hash_codec
block_ops-IsReliable = record {
  inserts = λ t k v. refl;
  commits = λ t. (length t, refl);
  name_bytes = λ name. (1 ∷ [], refl);
  hash_bytes = λ h. (h ∷ [], refl);
}

abbrev counted : ServiceResponse String
counted = record { code = 0; succeed_data = "counted"; error_message = "" }

abbrev write_nine : ServiceStateMap block_ops → ServiceStateMap block_ops
write_nine [] = []
write_nine ((name, s) ∷ states) =
    (name, record s { cache_map = (1 ∷ [], 9 ∷ []) ∷ s.cache_map }) ∷ states

-- It writes an entry, uses ten cycles and answers.
abbrev counter : Service block_ops
counter = record {
  tx_hook_before = λ w. (ok counted, w);
  tx_hook_after = λ w. (ok counted, w);
  read = λ w. (ok counted, w);
  write = λ w. (
    ok counted,
    record {
      states = write_nine w.states;
      context = record w.context { cycles_used = w.context.cycles_used + 10 };
    },
  );
}

abbrev only_counter : String → Option (Service block_ops)
only_counter name = some counter

abbrev counters : List (String × Service block_ops)
counters = ("counter", counter) ∷ []

counters-IsCalm : IsCalm block_ops only_counter counters
counters-IsCalm = record {
  befores_end = ((λ w. (counted, refl)), tt);
  afters_end = ((λ w. (counted, refl)), tt);
  writes_end = λ name s h w. writes_end_of s w h;
}
  where
    writes_end_of :
        (s : Service block_ops) (w : World block_ops) → some counter ≡ some s → IsOk (s.write w).0
    writes_end_of s w h =
        subst (λ (x : Service block_ops). IsOk (x.write w).0) (some_injective counter s h)
          (counted, refl)

abbrev transfer_at : Hash → SignedTransaction
transfer_at tx_hash = record {
  raw = record {
    chain_id = 1;
    cycles_price = 1;
    cycles_limit = 100;
    nonce = 5;
    request = record { method = "count"; service_name = "counter"; payload = "" };
    timeout = 20;
    sender = 3;
  };
  tx_hash = tx_hash;
  pubkey = [];
  signature = [];
}

abbrev block_params : ExecutorParams
block_params = record {
  state_root = 0;
  height = 7;
  timestamp = 70;
  cycles_limit = 1000;
  proposer = 3;
}

abbrev block_txs : List SignedTransaction
block_txs = transfer_at 11 ∷ transfer_at 12 ∷ []

abbrev fresh_executor : ServiceExecutor block_ops
fresh_executor = record {
  states = ("counter", record { trie = []; cache_map = []; stash_map = [] }) ∷ [];
  root_state = record { trie = []; cache_map = []; stash_map = [] };
}

-- A hook that panics; what it wrote is dropped.
abbrev panicking_hook : BlockHook block_ops
panicking_hook params states = (err "panic", write_nine states)

exec-IsOk_example :
    IsOk
      (exec block_ops name_codec hash_codec 0 only_counter counters
        (panicking_hook ∷ [])
        []
        block_params
        block_txs
        fresh_executor).0
exec-IsOk_example =
    exec-IsOk block_ops name_codec hash_codec block_ops-IsReliable 0 only_counter counters
      counters-IsCalm (panicking_hook ∷ []) [] block_params block_txs fresh_executor

abbrev receipt_of : Hash → Receipt
receipt_of tx_hash = record {
  state_root = 1;
  height = 7;
  tx_hash = tx_hash;
  cycles_used = 10;
  events = [];
  response = record { service_name = "counter"; method = "count"; response = counted };
}

abbrev block_answer : ExecutorResp
block_answer = record {
  receipts = receipt_of 11 ∷ receipt_of 12 ∷ [];
  all_cycles_used = 20;
  state_root = 1;
}

abbrev executed : ServiceExecutor block_ops
executed = record {
  states =
      ("counter", record { trie = (1 ∷ [], 9 ∷ []) ∷ []; cache_map = []; stash_map = [] }) ∷ [];
  root_state = record { trie = (1 ∷ [], 1 ∷ []) ∷ []; cache_map = []; stash_map = [] };
}

block_runs :
    exec block_ops name_codec hash_codec 0 only_counter counters
      (panicking_hook ∷ [])
      []
      block_params
      block_txs
      fresh_executor
    ≡ (ok block_answer, executed)
unfolding exec before_call run_hooks get_tx_hooks run_hook kan after_call run_tx caught call
    call_method finish_call settle commit_trie insert_all drain_into revert_cache insert_next
    stash_states revert_states stash insert_bytes
block_runs = refl

exec-IsExecuted_example :
    IsExecuted block_ops name_codec hash_codec block_params block_txs
      (block_hooks block_ops [] block_params
        (exec_txs block_ops name_codec hash_codec 0 only_counter counters block_params block_txs
          (block_hooks block_ops (panicking_hook ∷ []) block_params fresh_executor.states)).1)
      fresh_executor.root_state
      block_answer
      executed
exec-IsExecuted_example =
    exec-IsExecuted block_ops name_codec hash_codec 0 only_counter counters (panicking_hook ∷ []) []
      block_params block_txs fresh_executor executed block_answer block_runs
