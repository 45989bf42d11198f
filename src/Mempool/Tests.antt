-- ===== src/Mempool/Tests.antt =====
-- Runs of the memory pool on small inputs, and the theorems at them (core/mempool/src).
use muta.Prelude.{
  List, [], arith, drop, err, false, filter, none, ok, refl, some, take, true, ℕ, ◌<◌, ◌^◌, ◌∷◌,
  ◌≡◌,
}
use muta.Protocol.{Hash}
use muta.Mempool.Types.{SignedTransaction, new_tx, outside}
use muta.Mempool.Buckets.{
  Map, bucket_insert, map_contains_key, map_get, map_insert, map_len, new_map,
}
use muta.Mempool.Roles.{TxCache, get_queue_role, is_timeout, new_cache, push, put_queue_role}
use muta.Mempool.Cache.{
  check_exist, check_reach_limit, collect, collect_at, collect_in, contain, count,
  flush_incumbent_queue, insert_mapped, insert_new_tx, insert_propose_tx, insert_queued,
  insert_shared, next_stage, package_loop, package_txs, show_unknown,
}
use muta.Mempool.Pool.{
  HashMemPool, MemPoolAdapter, cache_all, check_dup, check_dup_order_hashes, checks,
  ensure_order_txs, ensure_pulled, ensure_unknown, insert_as, insert_tx, not_in_callback,
  show_unknown_txs, try_join_all, verify_tx_in_parallel,
}
use muta.Mempool.BucketLaws.{HasBuckets}
use muta.Mempool.Package.{hashes_of, is_valid, package_txs-batches, propose_batch}
use muta.Mempool.Queues.{IsReady, Sweeps, flush_incumbent_queue-Sweeps}
use muta.Mempool.Run.{Call, call, insert_new, insert_proposed_tx, run, run-IsReady}
use muta.Mempool.Ensure.{ensure_order_txs-ignores_checks, insert_tx-checked}

abbrev a_tx : Hash → ℕ → SignedTransaction
a_tx hash timeout = record {
  raw = record {
    chain_id = 1;
    cycles_price = 1;
    cycles_limit = 100;
    nonce = 7;
    request = record { method = "transfer"; service_name = "asset"; payload = "" };
    timeout = timeout;
    sender = 5;
  };
  tx_hash = hash;
  pubkey = [];
  signature = [];
}

-- Two transactions in different buckets, one whose time is over, and one that was proposed.
abbrev first : SignedTransaction
first = a_tx 11 20

abbrev second : SignedTransaction
second = a_tx (2 ^ 253) 20

abbrev late : SignedTransaction
late = a_tx 13 3

abbrev told : SignedTransaction
told = a_tx 14 20

abbrev calls : List Call
calls = insert_new first ∷ insert_new late ∷ insert_proposed_tx told ∷ insert_new second ∷ []

abbrev filled : TxCache
unfolding run call insert_new_tx insert_propose_tx new_cache
filled = run calls (new_cache 4)

filled-IsReady : IsReady filled
unfolding run call filled insert_new_tx
filled-IsReady = run-IsReady calls 4

package_filled :
    (package_txs 1 5 30 filled).0
    ≡ record { order_tx_hashes = 11 ∷ []; propose_tx_hashes = 14 ∷ [] }
unfolding filled package_txs package_loop get_queue_role insert_shared insert_mapped map_insert
    bucket_insert insert_queued push put_queue_role is_timeout collect collect_in count collect_at
    next_stage
package_filled = refl

package_txs-batches_example :
    let valid = filter (is_valid filled.removed 5 30) (get_queue_role filled).incumbent in
    let batches = (package_txs 1 5 30 filled).0 in
    (batches.order_tx_hashes ≡ take 1 (hashes_of valid))
    × (batches.propose_tx_hashes ≡ propose_batch 1 (drop 1 valid))
package_txs-batches_example = package_txs-batches 1 5 30 filled (omega arith)

flush_incumbent_queue-Sweeps_example :
    let d = flush_incumbent_queue 5 30 filled in Sweeps filled d filled.removed 5 30 × IsReady d
flush_incumbent_queue-Sweeps_example = flush_incumbent_queue-Sweeps 5 30 filled filled-IsReady

run-IsReady_example : IsReady (run calls (new_cache 4))
run-IsReady_example = run-IsReady calls 4

abbrev three_entries : Map ℕ
unfolding map_insert bucket_insert
three_entries = (map_insert ((map_insert ((map_insert new_map 11 1).1) 12 2).1) (2 ^ 253) 3).1

three_entries-HasBuckets : HasBuckets three_entries
unfolding three_entries
three_entries-HasBuckets = refl

-- A node that answers every request of `first`, and refuses every transaction.
abbrev refusing : MemPoolAdapter
refusing = record {
  get_latest_height = ok 5;
  check_authorization = λ tx. err (outside "signature");
  check_transaction = λ tx. err (outside "too large");
  check_storage_exist = λ hash. err (outside "committed");
  broadcast_tx = λ tx. ok tt;
  pull_txs = λ height hashes. ok (first ∷ []);
  get_transactions_from_storage = λ height hashes. ok [];
  joins = λ txs. true;
}

abbrev accepting : MemPoolAdapter
accepting = record refusing {
  check_authorization = λ tx. ok tt;
  check_transaction = λ tx. ok tt;
  check_storage_exist = λ hash. ok tt;
}

abbrev a_pool : HashMemPool
a_pool = record {
  pool_size = 4;
  timeout_gap = 25;
  tx_cache = new_cache 8;
  callback_cache = new_map;
}

-- The refused transaction is cached.
ensure_refused :
    map_get ((ensure_order_txs refusing none (11 ∷ []) a_pool).1).callback_cache 11 ≡ some first
unfolding ensure_order_txs ensure_unknown ensure_pulled verify_tx_in_parallel try_join_all new_cache
    map_get check_dup_order_hashes check_dup show_unknown_txs not_in_callback show_unknown contain
    map_contains_key cache_all map_insert bucket_insert
ensure_refused = refl

ensure_order_txs-ignores_checks_example :
    ensure_order_txs refusing none (11 ∷ []) a_pool
    ≡ ensure_order_txs accepting none (11 ∷ []) a_pool
ensure_order_txs-ignores_checks_example =
    ensure_order_txs-ignores_checks accepting (λ tx. err (outside "signature"))
      (λ tx. err (outside "too large")) (λ hash. err (outside "committed")) none (11 ∷ []) a_pool

insert_first : (insert_tx accepting false first new_tx a_pool).0 ≡ ok tt
unfolding insert_tx checks new_cache check_reach_limit map_len check_exist contain map_contains_key
    insert_as insert_new_tx insert_shared insert_mapped map_insert bucket_insert insert_queued push
    get_queue_role
insert_first = refl

insert_tx-checked_example :
    (map_len (new_cache 8).map < 4)
    × (contain 11 (new_cache 8) ≡ false)
    × (accepting.check_authorization first ≡ ok tt)
    × (accepting.check_transaction first ≡ ok tt)
    × (accepting.check_storage_exist 11 ≡ ok tt)
insert_tx-checked_example = insert_tx-checked accepting false first new_tx a_pool insert_first
