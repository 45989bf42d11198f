-- ===== src/Mempool/Pool.antt =====
-- The pool over its cache (core/mempool/src/lib.rs). The adapter (storage, network, and the service
-- that authorizes a transaction) is a record of what its functions answer. Logs and metrics are left
-- out, and `report_good`, which answers nothing.
use muta.Prelude.{
  Bool, List, Option, Result, [], any, err, if◌then◌else◌, length, map, nat_beq, none, not, ok,
  some, ℕ, ◌%◌, ◌++◌, ◌+◌, ◌>>◌, ◌∷◌,
}
use muta.Protocol.{Hash, u64_mod}
use muta.Mempool.Types.{
  MixedTxHashes, ProtocolResult, SignedTransaction, TxType, ensure_break, ensure_dup, mis_match,
  new_tx, propose_tx, verify_batch_transactions,
}
use muta.Mempool.Buckets.{Map, map_clear, map_contains_key, map_get, map_insert}
use muta.Mempool.Roles.{TxCache}
use muta.Mempool.Cache.{
  check_exist, check_reach_limit, flush, get_tx, insert_new_tx, insert_propose_tx, package_txs,
  show_unknown,
}

pub record MemPoolAdapter : Type 0 where
  pub get_latest_height : ProtocolResult ℕ
  pub check_authorization : SignedTransaction → ProtocolResult (Unit {0})
  pub check_transaction : SignedTransaction → ProtocolResult (Unit {0})
  pub check_storage_exist : Hash → ProtocolResult (Unit {0})
  pub broadcast_tx : SignedTransaction → ProtocolResult (Unit {0})
  pub pull_txs : Option ℕ → List Hash → ProtocolResult (List SignedTransaction)
  pub get_transactions_from_storage :
      Option ℕ → List Hash → ProtocolResult (List (Option SignedTransaction))
  -- Every task of a batch of `tokio` ends without a panic and is not cancelled.
  pub joins : List SignedTransaction → Bool

pub record HashMemPool : Type 0 where
  pub pool_size : ℕ
  pub timeout_gap : ℕ
  pub tx_cache : TxCache
  pub callback_cache : Map SignedTransaction

-- `ctx.is_network_origin_txs()` is all that the pool reads of a context.
abbrev pub NetworkOrigin : Type 0
NetworkOrigin = Bool

-- `check_dup_order_hashes`; `dup_set` is the hashes seen.
unfoldable pub check_dup : List Hash → List Hash → ProtocolResult (Unit {0})
check_dup dup_set [] = ok tt
check_dup dup_set (hash ∷ hashes) =
    let rest = check_dup (hash ∷ dup_set) hashes in
    if any (λ h. nat_beq h hash) dup_set then err (ensure_dup hash) else rest

unfoldable pub check_dup_order_hashes : List Hash → ProtocolResult (Unit {0})
check_dup_order_hashes order_tx_hashes = check_dup [] order_tx_hashes

unfoldable pub not_in_callback : List Hash → Map SignedTransaction → List Hash
not_in_callback [] callback = []
not_in_callback (hash ∷ hashes) callback =
    let rest = not_in_callback hashes callback in
    if map_contains_key callback hash then rest else hash ∷ rest

unfoldable pub show_unknown_txs : List Hash → HashMemPool → List Hash
show_unknown_txs tx_hashes pool =
    not_in_callback (show_unknown tx_hashes pool.tx_cache) pool.callback_cache

-- The transactions of a list that the cache or the callback cache holds, and the hashes it lacks.
unfoldable pub find_txs : List Hash → HashMemPool → List SignedTransaction × List Hash
find_txs [] pool = ([], [])
find_txs (hash ∷ hashes) pool =
    let (txs, missing) = find_txs hashes pool in
    elim (get_tx hash pool.tx_cache) [
      | some tx ↦ (tx ∷ txs, missing)
      | none ↦ elim (map_get pool.callback_cache hash) [
        | some tx ↦ (tx ∷ txs, missing)
        | none ↦ (txs, hash ∷ missing)
      ]
    ]

-- `filter_map(|opt_tx| opt_tx)`
abbrev pub present : List (Option SignedTransaction) → List SignedTransaction
present [] = []
present (none ∷ txs) = present txs
present (some tx ∷ txs) = tx ∷ present txs

unfoldable pub same_length : ℕ → List SignedTransaction → ProtocolResult (List SignedTransaction)
same_length len txs = if nat_beq (length txs) len then ok txs else err (mis_match len (length txs))

unfoldable pub cache_all : List SignedTransaction → Map SignedTransaction → Map SignedTransaction
cache_all [] callback = callback
cache_all (tx ∷ txs) callback = cache_all txs ((map_insert callback tx.tx_hash tx).1)

unfoldable pub set_cache :
    HashMemPool → ProtocolResult (Unit {0}) × TxCache → ProtocolResult (Unit {0}) × HashMemPool
set_cache pool (r, c) = (r, record pool { tx_cache = c })

module _ (adapter : MemPoolAdapter) where
  open adapter use {
    get_latest_height, check_authorization, check_transaction, check_storage_exist, broadcast_tx,
    pull_txs, get_transactions_from_storage, joins,
  }

  unfoldable pub initial_insert :
      SignedTransaction → HashMemPool → ProtocolResult (Unit {0}) × HashMemPool
  initial_insert tx pool =
      elim (check_exist tx.tx_hash pool.tx_cache >> check_storage_exist tx.tx_hash) [
        | err e ↦ (err e, pool)
        | ok _ ↦ set_cache pool (insert_propose_tx tx pool.tx_cache)
      ]

  -- What is checked of a transaction, in the cache and by the adapter, before it is inserted.
  unfoldable pub checks : SignedTransaction → HashMemPool → ProtocolResult (Unit {0})
  checks tx pool = do
    check_reach_limit pool.pool_size pool.tx_cache
    check_exist tx.tx_hash pool.tx_cache
    check_authorization tx
    check_transaction tx
    check_storage_exist tx.tx_hash

  unfoldable pub insert_as :
      TxType → SignedTransaction → TxCache → ProtocolResult (Unit {0}) × TxCache
  insert_as new_tx tx c = insert_new_tx tx c
  insert_as propose_tx tx c = insert_propose_tx tx c

  -- A transaction that is in the pool stays there, though its broadcast fails.
  unfoldable pub insert_tx :
      NetworkOrigin
      → SignedTransaction
      → TxType
      → HashMemPool
      → ProtocolResult (Unit {0}) × HashMemPool
  insert_tx from_network tx tx_type pool = elim (checks tx pool) [
    | err e ↦ (err e, pool)
    | ok _ ↦
        let (r, c) = insert_as tx_type tx pool.tx_cache in
        let pool' = record pool { tx_cache = c } in
        elim r [
          | err e ↦ (err e, pool')
          | ok _ ↦ if not from_network then (broadcast_tx tx, pool') else (ok tt, pool')
        ]
  ]

  -- What a task of `verify_tx_in_parallel` answers.
  unfoldable pub verify_task : SignedTransaction → ProtocolResult (Unit {0})
  verify_task tx = do check_authorization tx; check_transaction tx; check_storage_exist tx.tx_hash

  -- `try_join_all` of the tasks: an error only when a task does not end. What they answer is a list.
  unfoldable pub try_join_all :
      List SignedTransaction → Result (List (ProtocolResult (Unit {0}))) (Unit {0})
  try_join_all txs = if joins txs then ok (map verify_task txs) else err tt

  -- The list of the answers is dropped.
  unfoldable pub verify_tx_in_parallel : List SignedTransaction → ProtocolResult (Unit {0})
  verify_tx_in_parallel txs = elim (try_join_all txs) [
    | err _ ↦ err verify_batch_transactions
    | ok _ ↦ ok tt
  ]

  -- `package`, with the limit of transactions. The height and the gap are `u64`.
  unfoldable pub package_pool : ℕ → HashMemPool → ProtocolResult MixedTxHashes × HashMemPool
  package_pool tx_num_limit pool = elim get_latest_height [
    | err e ↦ (err e, pool)
    | ok height ↦
        let (hashes, c) =
          package_txs tx_num_limit height ((height + pool.timeout_gap) % u64_mod) pool.tx_cache in
        (ok hashes, record pool { tx_cache = c })
  ]

  unfoldable pub flush_pool : List Hash → HashMemPool → ProtocolResult (Unit {0}) × HashMemPool
  flush_pool tx_hashes pool = elim get_latest_height [
    | err e ↦ (err e, pool)
    | ok height ↦ (
      ok tt,
      record pool {
        tx_cache = flush tx_hashes height ((height + pool.timeout_gap) % u64_mod) pool.tx_cache;
        callback_cache = map_clear pool.callback_cache;
      },
    )
  ]

  unfoldable pub get_full_txs :
      Option ℕ → List Hash → HashMemPool → ProtocolResult (List SignedTransaction)
  get_full_txs height tx_hashes pool =
      let (full_txs, missing_hashes) = find_txs tx_hashes pool in
      elim missing_hashes [
        | [] ↦ same_length (length tx_hashes) full_txs
        | hash ∷ hashes ↦ elim (get_transactions_from_storage height (hash ∷ hashes)) [
          | err e ↦ err e
          | ok txs ↦ same_length (length tx_hashes) (full_txs ++ present txs)
        ]
      ]

  -- `ensure_order_txs` once the transactions are pulled.
  unfoldable pub ensure_pulled :
      ℕ → List SignedTransaction → HashMemPool → ProtocolResult (Unit {0}) × HashMemPool
  ensure_pulled unknown_len txs pool =
      if not (nat_beq (length txs) unknown_len)
      then (err (ensure_break unknown_len (length txs)), pool)
      else elim (verify_tx_in_parallel txs) [
        | err e ↦ (err e, pool)
        | ok _ ↦ (ok tt, record pool { callback_cache = cache_all txs pool.callback_cache })
      ]

  unfoldable pub ensure_unknown :
      Option ℕ → List Hash → HashMemPool → ProtocolResult (Unit {0}) × HashMemPool
  ensure_unknown height [] pool = (ok tt, pool)
  ensure_unknown height (hash ∷ hashes) pool = elim (pull_txs height (hash ∷ hashes)) [
    | err e ↦ (err e, pool)
    | ok txs ↦ ensure_pulled (length (hash ∷ hashes)) txs pool
  ]

  unfoldable pub ensure_order_txs :
      Option ℕ → List Hash → HashMemPool → ProtocolResult (Unit {0}) × HashMemPool
  ensure_order_txs height order_tx_hashes pool = elim (check_dup_order_hashes order_tx_hashes) [
    | err e ↦ (err e, pool)
    | ok _ ↦ ensure_unknown height (show_unknown_txs order_tx_hashes pool) pool
  ]

  -- The errors of the insertions are dropped.
  unfoldable pub insert_proposed :
      NetworkOrigin → List SignedTransaction → HashMemPool → HashMemPool
  insert_proposed from_network [] pool = pool
  insert_proposed from_network (tx ∷ txs) pool =
      insert_proposed from_network txs ((insert_tx from_network tx propose_tx pool).1)

  unfoldable pub sync_unknown :
      NetworkOrigin → List Hash → HashMemPool → ProtocolResult (Unit {0}) × HashMemPool
  sync_unknown from_network [] pool = (ok tt, pool)
  sync_unknown from_network (hash ∷ hashes) pool = elim (pull_txs none (hash ∷ hashes)) [
    | err e ↦ (err e, pool)
    | ok txs ↦ (ok tt, insert_proposed from_network txs pool)
  ]

  unfoldable pub sync_propose_txs :
      NetworkOrigin → List Hash → HashMemPool → ProtocolResult (Unit {0}) × HashMemPool
  sync_propose_txs from_network propose_tx_hashes pool =
      sync_unknown from_network (show_unknown_txs propose_tx_hashes pool) pool
