-- ===== src/Framework/Tests.antt =====
-- States over a trie in memory, transactions and buckets of keys, and the theorems at them
-- (framework/src).
use muta.Prelude.{
  Dict, List, Result, String, [], arith, drop, err, get_or, insert, length, list_eq, lookup,
  lookup-insert, nat_eq, none, ok, refl, some, string_default, true, ℕ, ◌>>=◌, ◌∷◌, ◌≡◌, ◌≢◌,
}
use muta.Protocol.{Bytes, Hash, ServiceContext, ServiceResponse, emit_event, from_error, is_error}
use muta.Framework.State.{
  FixedCodec, GeneralServiceState, TrieOps, commit, commit_trie, decode_value, get_bytes_value,
  get_value, insert_all, insert_bytes, insert_next, insert_value, non_empty, read_trie,
  revert_cache,
}
use muta.Framework.Executor.{
  Ran, World, after_call, finish_call, kan, revert_states, run_hook, run_hooks, stash_states,
}
use muta.Framework.Transactions.{IsClean, ReadAlike, after_call-undoes, finish_call-keeps_writes}
use muta.Framework.StoreBuckets.{
  FixedBuckets, bucket_remove_item, contains_in, finish_remove, insert_key, new_buckets,
  recover_bucket, remove_item, update_index_interval, update_loop,
}
use muta.Framework.BucketRuns.{
  BucketCall, bucket_calls, bucket_calls-IsIndexed, inserts, recovers, removes,
}
use muta.Framework.Intervals.{IsIndexed}
use muta.Framework.StoreValues.{found_or, get_number, inner_get, safe_sub, update_number}
use muta.Framework.Numbers.{IsLawful, update_number-exact_op}
use muta.Framework.Views.{LawfulTrie, get_value-insert_value, write_all}

-- A trie as an association list, which never fails.
abbrev memory_ops : TrieOps (Dict Bytes Bytes) ℕ
memory_ops = record {
  trie_get = λ t k. ok (lookup k t);
  trie_insert = λ t k v. (ok tt, insert k v t);
  trie_commit = λ t. (ok (length t), t);
}

memory_law : LawfulTrie memory_ops
unfolding read_trie
memory_law = record {
  read_after_insert = λ t k v j h. ground (arith, lookup-insert k v t j);
  read_after_commit = λ t root j h. refl;
}

abbrev entry : Bytes × Bytes
entry = (1 ∷ [], 9 ∷ [])

-- One entry in the trie, and two in the stash, the second of which takes the first away.
abbrev before : GeneralServiceState (Dict Bytes Bytes)
before = record { trie = entry ∷ []; cache_map = []; stash_map = (2 ∷ [], 7 ∷ []) ∷ [] }

abbrev some_writes : List (Bytes × Bytes)
some_writes = (1 ∷ [], []) ∷ (3 ∷ [], 5 ∷ []) ∷ []

commit-before : (commit memory_ops before).0 ≡ ok 2
unfolding commit insert_all commit_trie insert_next
commit-before = refl

abbrev six : Bytes
six = 6 ∷ []

six_is_something : six ≢ []
six_is_something e = cc

abbrev decode_byte : Bytes → Result ℕ ℕ
decode_byte [] = err 0
decode_byte (b ∷ bs) = ok b

abbrev byte_codec : FixedCodec ℕ ℕ
byte_codec = record { encode_fixed = λ b. ok (b ∷ []); decode_fixed = decode_byte }

get_value-insert_value_example :
    (insert_value memory_ops byte_codec byte_codec 4 6 before >>= λ s.
    get_value memory_ops byte_codec byte_codec 4 s)
    ≡ ok (some 6)
get_value-insert_value_example =
    get_value-insert_value memory_ops byte_codec byte_codec 4 6 before (4 ∷ []) six refl refl refl
      six_is_something

abbrev a_context : ServiceContext
a_context = record {
  tx_hash = none;
  nonce = none;
  cycles_limit = 100;
  cycles_price = 1;
  cycles_used = 30;
  caller = 5;
  height = 1;
  service_name = "asset";
  service_method = "transfer";
  service_payload = "";
  extra = none;
  timestamp = 0;
  events = [];
  canceled_reason = none;
}

-- The world before a call, and what a call that wrote and emitted an event leaves.
abbrev world_before : World memory_ops
world_before = record { states = ("asset", before) ∷ []; context = a_context }

abbrev world_after : World memory_ops
unfolding insert_bytes
world_after = record {
  states = ("asset", write_all memory_ops some_writes before) ∷ [];
  context = emit_event a_context "asset" "TransferAsset" "";
}

abbrev refusal : ServiceResponse String
refusal = from_error 1 "no"

-- A hook that answers an error, and writes nothing.
abbrev refusing_hook : World memory_ops → Ran memory_ops
refusing_hook w = (ok refusal, w)

hook_answers :
    (run_hooks memory_ops (refusing_hook ∷ []) (ok [], world_after)).0 ≡ ok (refusal ∷ [])
unfolding run_hooks run_hook kan
hook_answers = refl

refusal-is_error : is_error refusal ≡ true
refusal-is_error = refl

before-IsClean : IsClean memory_ops world_before.states
unfolding revert_states revert_cache
before-IsClean = refl

same_layers :
    revert_states memory_ops world_after.states ≡ revert_states memory_ops world_before.states
unfolding revert_states revert_cache world_after insert_bytes
same_layers = refl

finish_call-keeps_writes_example :
    ((finish_call memory_ops 0 refusal
        (run_hooks memory_ops (refusing_hook ∷ []) (ok [], world_after))).1.states
      ≡ (run_hooks memory_ops [] (
        ok (refusal ∷ []),
        record world_after { states = stash_states memory_ops world_after.states },
      )).1.states)
    × ReadAlike memory_ops world_after.states (stash_states memory_ops world_after.states)
finish_call-keeps_writes_example =
    finish_call-keeps_writes memory_ops 0 refusal refusing_hook [] world_after world_after refusal
      (refusal ∷ []) refl hook_answers refusal-is_error

after_call-undoes_example :
    after_call memory_ops 0 (refusing_hook ∷ []) (ok refusal, world_after)
    ≡ finish_call memory_ops 0 refusal (
        run_hooks memory_ops (refusing_hook ∷ []) (
          ok [],
          record {
            states = world_before.states;
            context = record world_after.context {
              events = [];
              canceled_reason = some "tx_exec_return_code_not_zero";
            };
          },
        ))
after_call-undoes_example =
    after_call-undoes memory_ops refusal (refusing_hook ∷ []) world_before world_after
      refusal-is_error before-IsClean same_layers refl

abbrev bucket_history : List (BucketCall ℕ)
bucket_history = recovers 3 (8 ∷ []) ∷ inserts 3 7 ∷ inserts 5 2 ∷ removes 3 8 ∷ removes 4 1 ∷ []

abbrev two_keys : FixedBuckets ℕ
two_keys = get_or (bucket_calls bucket_history new_buckets) new_buckets

history_runs : bucket_calls bucket_history new_buckets ≡ some two_keys
unfolding bucket_calls recover_bucket remove_item contains_in bucket_remove_item finish_remove
    insert_key update_index_interval update_loop
history_runs = refl

two_keys-kept :
    (two_keys.bucket_lens ≡ 0 ∷ 0 ∷ 0 ∷ 0 ∷ 1 ∷ 1 ∷ 2 ∷ 2 ∷ 2 ∷ 2 ∷ 2 ∷ 2 ∷ 2 ∷ 2 ∷ 2 ∷ 2 ∷ 2 ∷ [])
unfolding bucket_calls recover_bucket remove_item contains_in bucket_remove_item finish_remove
    insert_key update_index_interval update_loop
two_keys-kept = refl

bucket_calls-IsIndexed_example : IsIndexed two_keys
bucket_calls-IsIndexed_example = bucket_calls-IsIndexed bucket_history two_keys history_runs

-- A number as a mark and itself.
abbrev number_codec : FixedCodec ℕ ℕ
number_codec = record {
  encode_fixed = λ n. ok (1 ∷ n ∷ []);
  decode_fixed = λ bytes. decode_byte (drop 1 bytes);
}

abbrev sum_digest : Bytes → Hash
sum_digest bytes = length bytes

number_codec-IsLawful : IsLawful memory_ops byte_codec sum_digest (5 ∷ []) number_codec
number_codec-IsLawful = record {
  key_bytes = 7 ∷ [];
  key_encoded = refl;
  bytes_of = λ n. 1 ∷ n ∷ [];
  encoded = λ n small. refl;
  decoded = λ n small. refl;
  full = λ n h. cc h;
}

abbrev fresh_number : GeneralServiceState (Dict Bytes Bytes)
fresh_number = record { trie = []; cache_map = (7 ∷ [], 1 ∷ 40 ∷ []) ∷ []; stash_map = [] }

reads-forty :
    get_number memory_ops byte_codec sum_digest (5 ∷ []) number_codec fresh_number
    ≡ ok (fresh_number, 40)
unfolding get_number inner_get get_value get_bytes_value non_empty read_trie found_or decode_value
reads-forty = refl

update_number-exact_op_example :
    (s' : GeneralServiceState (Dict Bytes Bytes)) × (update_number memory_ops byte_codec sum_digest
        (5 ∷ [])
        number_codec
        safe_sub
        41
        fresh_number
      ≡ ok (s', true))
    × (get_number memory_ops byte_codec sum_digest (5 ∷ []) number_codec s' ≡ ok (s', 40))
update_number-exact_op_example =
    update_number-exact_op memory_ops byte_codec sum_digest (5 ∷ []) number_codec safe_sub 41 40
      fresh_number fresh_number number_codec-IsLawful (omega arith) reads-forty
