-- ===== src/Mempool/Ensure.antt =====
-- What the pool checks of a transaction, and when (core/mempool/src/lib.rs).
use mathlib.Core.Path.{fun_ext}
use muta.Prelude.{
  List, Option, [], any, ap, arith, err, false, if◌then◌else◌, length, nat_beq, ok, refl, then-ok,
  ℕ, ◌<◌, ◌↔◌, ◌∷◌, ◌≡◌,
}
use muta.Protocol.{Hash}
use muta.Mempool.Types.{ProtocolResult, SignedTransaction, TxType, verify_batch_transactions}
use muta.Mempool.Pool.{
  HashMemPool, MemPoolAdapter, NetworkOrigin, check_dup, check_dup_order_hashes, checks,
  ensure_order_txs, ensure_pulled, ensure_unknown, insert_tx, show_unknown_txs, try_join_all,
  verify_tx_in_parallel,
}
use muta.Mempool.Buckets.{map_len}
use muta.Mempool.Cache.{check_exist, check_reach_limit, contain}

-- The verification of a batch fails only when a task does not end.
verify_tx_in_parallel-joins :
    (a : MemPoolAdapter) (txs : List SignedTransaction)
    → verify_tx_in_parallel a txs ≡ (if a.joins txs then ok tt else err verify_batch_transactions)
unfolding verify_tx_in_parallel try_join_all
verify_tx_in_parallel-joins a txs = ground arith

module _ (a : MemPoolAdapter)
    (authorization transaction : SignedTransaction → ProtocolResult (Unit {0}))
    (storage : Hash → ProtocolResult (Unit {0})) where
  -- Another adapter, which checks otherwise.
  abbrev other : MemPoolAdapter
  other = record a {
    check_authorization = authorization;
    check_transaction = transaction;
    check_storage_exist = storage;
  }

  ensure_pulled-ignores_checks :
      (n : ℕ) (pool : HashMemPool) (txs : List SignedTransaction)
      → ensure_pulled other n txs pool ≡ ensure_pulled a n txs pool
  unfolding ensure_pulled
  ensure_pulled-ignores_checks n pool txs =
      rw (verify_tx_in_parallel-joins other txs, verify_tx_in_parallel-joins a txs) refl

  ensure_unknown-ignores_checks :
      (height : Option ℕ) (hashes : List Hash) (pool : HashMemPool)
      → ensure_unknown other height hashes pool ≡ ensure_unknown a height hashes pool
  unfolding ensure_unknown
  ensure_unknown-ignores_checks height [] pool = refl
  ensure_unknown-ignores_checks height (h ∷ hashes) pool =
      ap
        (λ (f : List SignedTransaction → ProtocolResult (Unit {0}) × HashMemPool).
          elim (a.pull_txs height (h ∷ hashes)) [ err e ↦ (err e, pool) | ok txs ↦ f txs ])
        (fun_ext (λ txs. ensure_pulled-ignores_checks (length (h ∷ hashes)) pool txs))

  -- Whatever the adapter answers of the pulled transactions, their authorization, their contents or
  -- their presence in storage, `ensure_order_txs` returns the same and caches the same.
  pub ensure_order_txs-ignores_checks :
      (height : Option ℕ) (hashes : List Hash) (pool : HashMemPool)
      → ensure_order_txs
          (record a {
            check_authorization = authorization;
            check_transaction = transaction;
            check_storage_exist = storage;
          })
          height
          hashes
          pool
        ≡ ensure_order_txs a height hashes pool
  unfolding ensure_order_txs
  ensure_order_txs-ignores_checks height hashes pool =
      ap
        (λ (x : ProtocolResult (Unit {0}) × HashMemPool). elim (check_dup_order_hashes hashes) [
          | err e ↦ (err e, pool)
          | ok _ ↦ x
        ])
        (ensure_unknown-ignores_checks height (show_unknown_txs hashes pool) pool)

-- The list has no hash of `seen` and none twice.
abbrev pub IsDistinct : List Hash → List Hash → Type 0
IsDistinct seen [] = Unit
IsDistinct seen (hash ∷ hashes) =
    (any (λ h. nat_beq h hash) seen ≡ false) × IsDistinct (hash ∷ seen) hashes

check_dup_lem : (seen hashes : List Hash) → (check_dup seen hashes ≡ ok tt) ↔ IsDistinct seen hashes
unfolding check_dup
check_dup_lem seen [] = ((λ h. tt), (λ h. refl))
check_dup_lem seen (hash ∷ hashes) = ground (arith, check_dup_lem (hash ∷ seen) hashes)

-- The hashes of a block pass the check exactly when none stands twice.
pub check_dup_order_hashes-IsDistinct :
    (hashes : List Hash) → (check_dup_order_hashes hashes ≡ ok tt) ↔ IsDistinct [] hashes
unfolding check_dup_order_hashes
check_dup_order_hashes-IsDistinct hashes = check_dup_lem [] hashes

module _ (a : MemPoolAdapter) (from_network : NetworkOrigin) (tx : SignedTransaction)
    (kind : TxType) (pool : HashMemPool) where
  insert_tx-checks : (insert_tx a from_network tx kind pool).0 ≡ ok tt → checks a tx pool ≡ ok tt
  unfolding insert_tx
  insert_tx-checks h = ground (arith, h)

  -- A transaction that `insert_tx` takes was authorized and checked, stood neither in the pool nor
  -- in storage, and found the pool below its limit.
  pub insert_tx-checked :
      (insert_tx a from_network tx kind pool).0 ≡ ok tt
      → (map_len pool.tx_cache.map < pool.pool_size)
        × (contain tx.tx_hash pool.tx_cache ≡ false)
        × (a.check_authorization tx ≡ ok tt)
        × (a.check_transaction tx ≡ ok tt)
        × (a.check_storage_exist tx.tx_hash ≡ ok tt)
  unfolding checks check_reach_limit check_exist
  insert_tx-checked h =
      let (limit, r1) =
        then-ok (check_reach_limit pool.pool_size pool.tx_cache) _ (insert_tx-checks h) in
      let (fresh, r2) = then-ok (check_exist tx.tx_hash pool.tx_cache) _ r1 in
      let (authorized, r3) = then-ok (a.check_authorization tx) _ r2 in
      let (checked, r4) = then-ok (a.check_transaction tx) _ r3 in
      (ground (arith, limit), ground (arith, fresh), authorized, checked, r4)
