-- ===== src/Mempool/Run.antt =====
-- The calls that change the cache, one after the other (core/mempool/src/tx_cache.rs).
use muta.Prelude.{
  Bool, Bool-cases, List, Option, [], ap, arith, inl, inr, length, length-append, none, refl, some,
  ℕ, ◌∙◌, ◌∷◌, ◌≡◌, ◌≤◌,
}
use muta.Protocol.{Hash}
use muta.Mempool.Types.{SharedTx, SignedTransaction}
use muta.Mempool.Buckets.{Map, map_insert, map_remove, remove_batch}
use muta.Mempool.Roles.{QueueRole, TxCache, get_queue_role, new_cache, push, put_queue_role}
use muta.Mempool.Cache.{
  flush, insert_mapped, insert_new_tx, insert_propose_tx, insert_queued, insert_shared,
  mark_removed, package_txs,
}
use muta.Mempool.BucketLaws.{
  HasBuckets, map_insert-HasBuckets, map_remove-HasBuckets, remove_batch-HasBuckets,
}
use muta.Mempool.Queues.{IsReady, flush_incumbent_queue-Sweeps, package_txs-flush_incumbent_queue}

pub data Call : Type 0 where
  insert_new : SignedTransaction → Call
  insert_proposed_tx : SignedTransaction → Call
  package_call : ℕ → ℕ → ℕ → Call
  flush_call : List Hash → ℕ → ℕ → Call

unfoldable pub call : Call → TxCache → TxCache
call (insert_new tx) c = (insert_new_tx tx c).1
call (insert_proposed_tx tx) c = (insert_propose_tx tx c).1
call (package_call limit height timeout) c = (package_txs limit height timeout c).1
call (flush_call hashes height timeout) c = flush hashes height timeout c

unfoldable pub run : List Call → TxCache → TxCache
run [] c = c
run (k ∷ ks) c = run ks (call k c)

put_queue_role-role :
    (role : QueueRole) (c : TxCache) (m : Map SharedTx)
    → get_queue_role (record (put_queue_role role c) { map = m }) ≡ role
unfolding put_queue_role get_queue_role
put_queue_role-role role c m = elim (Bool-cases c.is_zero) [
  | inl e ↦ ground (arith, e)
  | inr e ↦ ground (arith, e)
]

put_queue_role-capacity :
    (role : QueueRole) (c : TxCache) (m : Map SharedTx)
    → (record (put_queue_role role c) { map = m }).capacity ≡ c.capacity
unfolding put_queue_role
put_queue_role-capacity role c m = elim (Bool-cases c.is_zero) [
  | inl e ↦ ground (arith, e)
  | inr e ↦ ground (arith, e)
]

map-IsReady :
    (c : TxCache) (m : Map SharedTx) → IsReady c → HasBuckets m → IsReady (record c { map = m })
unfolding get_queue_role
map-IsReady c m r h = record { idle = r.idle; fits = r.fits; buckets = h }

push-fits :
    (capacity : ℕ) (q q' : List SharedTx) (t : SharedTx)
    → push capacity q t ≡ some q'
    → length q' ≤ capacity
unfolding push
push-fits capacity q q' t h = ground (arith, h, length-append q (t ∷ []))

insert_queued-IsReady :
    (hash : Hash) (c : TxCache) (m : Map SharedTx) (q : Option (List SharedTx)) (t : SharedTx)
    → push c.capacity (get_queue_role c).incumbent t ≡ q
    → IsReady c
    → HasBuckets m
    → IsReady ((insert_queued hash c m q).1)
unfolding insert_queued push
insert_queued-IsReady hash c m none t e r h =
    map-IsReady c (map_remove m hash) r (map_remove-HasBuckets m hash h)
insert_queued-IsReady hash c m (some queue) t e r h =
    let role : QueueRole = record { incumbent = queue; candidate = (get_queue_role c).candidate } in
    let back = put_queue_role-role role c m in
    record {
      idle = ap (λ x. x.candidate) back ∙ r.idle;
      fits =
          rw (ap (λ x. x.incumbent) back, put_queue_role-capacity role c m)
            (push-fits c.capacity (get_queue_role c).incumbent queue t e);
      buckets = h;
    }

insert_mapped-IsReady :
    (hash : Hash) (t : SharedTx) (c : TxCache) (o : Option SharedTx) (m : Map SharedTx)
    → IsReady c
    → HasBuckets m
    → IsReady ((insert_mapped hash t c (o, m)).1)
unfolding insert_mapped
insert_mapped-IsReady hash t c (some _) m r h = map-IsReady c m r h
insert_mapped-IsReady hash t c none m r h = insert_queued-IsReady hash c m _ t refl r h

insert_shared-IsReady :
    (hash : Hash) (t : SharedTx) (c : TxCache) → IsReady c → IsReady ((insert_shared hash t c).1)
unfolding insert_shared
insert_shared-IsReady hash t c r =
    insert_mapped-IsReady hash t c ((map_insert c.map hash t).0) ((map_insert c.map hash t).1) r
      (map_insert-HasBuckets c.map hash t r.buckets)

flush-IsReady :
    (hs : List Hash) (height timeout : ℕ) (c : TxCache)
    → IsReady c
    → IsReady (flush hs height timeout c)
unfolding flush get_queue_role
flush-IsReady hs height timeout c r =
    (flush_incumbent_queue-Sweeps height timeout
      (record c { removed = mark_removed c.map hs c.removed; map = remove_batch c.map hs })
      (record {
        idle = r.idle;
        fits = r.fits;
        buckets = remove_batch-HasBuckets c.map hs r.buckets;
      })).1

wrap-IsReady :
    (c : TxCache) (removed : ℕ → Bool) (n : ℕ)
    → IsReady c
    → IsReady (record c { removed = removed; next_cell = n })
unfolding get_queue_role
wrap-IsReady c removed n r = record { idle = r.idle; fits = r.fits; buckets = r.buckets }

call-IsReady : (k : Call) (c : TxCache) → IsReady c → IsReady (call k c)
unfolding call insert_new_tx insert_propose_tx
call-IsReady (insert_new tx) c r = insert_shared-IsReady tx.tx_hash _ _ (wrap-IsReady c _ _ r)
call-IsReady (insert_proposed_tx tx) c r =
    insert_shared-IsReady tx.tx_hash _ _ (wrap-IsReady c _ _ r)
call-IsReady (package_call limit height timeout) c r =
    rw (package_txs-flush_incumbent_queue limit height timeout c)
      (flush_incumbent_queue-Sweeps height timeout c r).1
call-IsReady (flush_call hashes height timeout) c r = flush-IsReady hashes height timeout c r

new_cache-IsReady : (n : ℕ) → IsReady (new_cache n)
unfolding new_cache get_queue_role
new_cache-IsReady n = record { idle = refl; fits = omega arith; buckets = refl }

run_from-IsReady : (ks : List Call) (c : TxCache) → IsReady c → IsReady (run ks c)
unfolding run
run_from-IsReady [] c r = r
run_from-IsReady (k ∷ ks) c r = run_from-IsReady ks (call k c) (call-IsReady k c r)

-- Any sequence of insertions, packings and flushes, from an empty cache, leaves one queue empty and
-- the other within its capacity, over sixteen buckets.
pub run-IsReady : (ks : List Call) (n : ℕ) → IsReady (run ks (new_cache n))
run-IsReady ks n = run_from-IsReady ks (new_cache n) (new_cache-IsReady n)
