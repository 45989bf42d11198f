-- ===== src/Mempool/Cache.antt =====
-- The cache of transactions, two queues and a map (core/mempool/src/tx_cache.rs). The calls stand
-- one after the other: no insertion runs while `package` or `flush` does, so `concurrent_count`,
-- which counts the insertions that run, is zero whenever it is read.
use muta.Prelude.{
  Bool, List, Option, [], err, false, if◌then◌else◌, leb, ltb, nat_beq, none, not, ok, some, true,
  ℕ, ◌&&◌, ◌++◌, ◌+◌, ◌∷◌,
}
use muta.Protocol.{Hash}
use muta.Mempool.Types.{
  MixedTxHashes, ProtocolResult, SharedTx, SignedTransaction, Stage, dup, finished, insert_failed,
  order_txs, propose_txs, reach_limit,
}
use muta.Mempool.Buckets.{
  Map, map_contains_key, map_get, map_insert, map_len, map_remove, remove_batch,
}
use muta.Mempool.Roles.{
  TxCache, get_queue_role, is_timeout, push, push_or_drop, put_queue_role, set_removed,
  switch_queue_role,
}

unfoldable pub next_stage : Stage → Stage
next_stage order_txs = propose_txs
next_stage propose_txs = finished
-- The code panics here. It is never called at this stage: `collect` returns before.
next_stage finished = finished

-- What `package` carries through its loop.
pub record Packing : Type 0 where
  pub tx_count : ℕ
  pub stage : Stage
  pub order_tx_hashes : List Hash
  pub propose_tx_hashes : List Hash

unfoldable pub collect_at : ℕ → Stage → Hash → Packing → Packing
collect_at tx_count order_txs tx_hash p = record p {
  tx_count = tx_count;
  stage = order_txs;
  order_tx_hashes = p.order_tx_hashes ++ (tx_hash ∷ []);
}
collect_at tx_count propose_txs tx_hash p = record p {
  tx_count = tx_count;
  stage = propose_txs;
  propose_tx_hashes = p.propose_tx_hashes ++ (tx_hash ∷ []);
}
collect_at tx_count finished tx_hash p = record p { tx_count = tx_count; stage = finished }

-- The count of a transaction: a full stage gives way to the next.
unfoldable pub count : ℕ → Stage → Hash → Packing → Packing
count tx_num_limit stage tx_hash p =
    if ltb tx_num_limit (p.tx_count + 1)
    then collect_at 1 (next_stage stage) tx_hash p
    else collect_at (p.tx_count + 1) stage tx_hash p

unfoldable pub collect_in : ℕ → SharedTx → Stage → Packing → Packing
collect_in tx_num_limit t order_txs p = count tx_num_limit order_txs t.tx.tx_hash p
collect_in tx_num_limit t propose_txs p =
    if t.proposed then p else count tx_num_limit propose_txs t.tx.tx_hash p
collect_in tx_num_limit t finished p = p

unfoldable pub collect : ℕ → SharedTx → Packing → Packing
collect tx_num_limit t p = collect_in tx_num_limit t p.stage p

-- What the loops of `package` and `flush_incumbent_queue` share: the candidate queue, the map, and
-- the hashes whose time is over.
pub record Sweep : Type 0 where
  pub candidate : List SharedTx
  pub map : Map SharedTx
  pub timeout_tx_hashes : List Hash

unfoldable pub keep : ℕ → SharedTx → Sweep → Sweep
keep capacity t w =
    let (candidate, m) = push_or_drop capacity t (w.candidate, w.map) in
    record w { candidate = candidate; map = m }

module _ (removed : ℕ → Bool) (capacity current_height timeout : ℕ) where
  -- The loop of `flush_incumbent_queue`.
  unfoldable pub flush_loop : List SharedTx → Sweep → Sweep
  flush_loop [] w = w
  flush_loop (t ∷ queue) w = flush_loop queue (
      if removed t.removed_cell
      then w
      else if is_timeout t current_height timeout
      then record w { timeout_tx_hashes = w.timeout_tx_hashes ++ (t.tx.tx_hash ∷ []) }
      else keep capacity t w)

  -- The loop of `package`.
  unfoldable pub package_loop : ℕ → List SharedTx → Sweep → Packing → Sweep × Packing
  package_loop tx_num_limit [] w p = (w, p)
  package_loop tx_num_limit (t ∷ queue) w p =
      let valid = not (removed t.removed_cell) && not (is_timeout t current_height timeout) in
      package_loop tx_num_limit queue
        (if removed t.removed_cell
          then w
          else if is_timeout t current_height timeout
          then record w { timeout_tx_hashes = w.timeout_tx_hashes ++ (t.tx.tx_hash ∷ []) }
          else keep capacity t w)
        (if valid then collect tx_num_limit t p else p)

-- `while let Ok(shared_tx) = queue_role.candidate.pop()`
unfoldable pub move_queue :
    ℕ → List SharedTx → List SharedTx × Map SharedTx → List SharedTx × Map SharedTx
move_queue capacity [] state = state
move_queue capacity (t ∷ queue) state = move_queue capacity queue (push_or_drop capacity t state)

unfoldable pub process_omission_txs : TxCache → TxCache
process_omission_txs c =
    let role = get_queue_role c in
    let (incumbent, m) = move_queue c.capacity role.candidate (role.incumbent, c.map) in
    record (put_queue_role (record { incumbent = incumbent; candidate = [] }) c) { map = m }

-- How both loops end: the roles switch, and what is over leaves the map.
unfoldable pub end_sweep : TxCache → Sweep → TxCache
end_sweep c w =
    let swept = record (put_queue_role (record { incumbent = []; candidate = w.candidate }) c) {
      map = w.map;
    } in
    let done = process_omission_txs (switch_queue_role swept) in
    record done { map = remove_batch done.map w.timeout_tx_hashes }

abbrev pub start_sweep : TxCache → Sweep
start_sweep c = record {
  candidate = (get_queue_role c).candidate;
  map = c.map;
  timeout_tx_hashes = [];
}

unfoldable pub flush_incumbent_queue : ℕ → ℕ → TxCache → TxCache
flush_incumbent_queue current_height timeout c = end_sweep c (
    flush_loop c.removed c.capacity current_height timeout (get_queue_role c).incumbent
      (start_sweep c))

unfoldable pub package_txs : ℕ → ℕ → ℕ → TxCache → MixedTxHashes × TxCache
package_txs tx_num_limit current_height timeout c =
    let start : Packing = record {
      tx_count = 0;
      stage = order_txs;
      order_tx_hashes = [];
      propose_tx_hashes = [];
    } in
    let (w, p) =
      package_loop c.removed c.capacity current_height timeout tx_num_limit
        (get_queue_role c).incumbent (start_sweep c) start in
    (
      record { order_tx_hashes = p.order_tx_hashes; propose_tx_hashes = p.propose_tx_hashes },
      end_sweep c w,
    )

-- The first loop of `flush`: the marks of the transactions that the map holds.
unfoldable pub mark_removed : Map SharedTx → List Hash → (ℕ → Bool) → ℕ → Bool
mark_removed m [] removed = removed
mark_removed m (hash ∷ hashes) removed =
    mark_removed m hashes
      (elim (map_get m hash) [ some t ↦ set_removed t removed | none ↦ removed ])

unfoldable pub flush : List Hash → ℕ → ℕ → TxCache → TxCache
flush tx_hashes current_height timeout c =
    let marked = record c {
      removed = mark_removed c.map tx_hashes c.removed;
      map = remove_batch c.map tx_hashes;
    } in
    flush_incumbent_queue current_height timeout marked

-- The end of `insert`: what the push gave. A transaction without a place leaves the map.
unfoldable pub insert_queued :
    Hash → TxCache → Map SharedTx → Option (List SharedTx) → ProtocolResult (Unit {0}) × TxCache
insert_queued tx_hash c m (some queue) =
    let role = get_queue_role c in
    (ok tt, record (put_queue_role (record role { incumbent = queue }) c) { map = m })
insert_queued tx_hash c m none =
    (err (insert_failed tx_hash), record c { map = map_remove m tx_hash })

-- `insert`, once the map answered.
unfoldable pub insert_mapped :
    Hash → SharedTx → TxCache → Option SharedTx × Map SharedTx → ProtocolResult (Unit {0}) × TxCache
insert_mapped tx_hash t c (some _, m) = (err (dup tx_hash), record c { map = m })
insert_mapped tx_hash t c (none, m) =
    insert_queued tx_hash c m (push c.capacity (get_queue_role c).incumbent t)

-- `TxCache::insert`
unfoldable pub insert_shared : Hash → SharedTx → TxCache → ProtocolResult (Unit {0}) × TxCache
insert_shared tx_hash t c = insert_mapped tx_hash t c (map_insert c.map tx_hash t)

-- A wrapper with a mark of its own.
abbrev wrap : SignedTransaction → Bool → TxCache → SharedTx × TxCache
wrap tx proposed c = (
  record { tx = tx; removed_cell = c.next_cell; proposed = proposed },
  record c {
    removed = λ k. if nat_beq c.next_cell k then false else c.removed k;
    next_cell = c.next_cell + 1;
  },
)

unfoldable pub insert_new_tx : SignedTransaction → TxCache → ProtocolResult (Unit {0}) × TxCache
insert_new_tx tx c = let (t, c') = wrap tx false c in insert_shared tx.tx_hash t c'

unfoldable pub insert_propose_tx : SignedTransaction → TxCache → ProtocolResult (Unit {0}) × TxCache
insert_propose_tx tx c = let (t, c') = wrap tx true c in insert_shared tx.tx_hash t c'

unfoldable pub contain : Hash → TxCache → Bool
contain tx_hash c = map_contains_key c.map tx_hash

unfoldable pub show_unknown : List Hash → TxCache → List Hash
show_unknown [] c = []
show_unknown (hash ∷ hashes) c =
    let rest = show_unknown hashes c in if contain hash c then rest else hash ∷ rest

unfoldable pub check_exist : Hash → TxCache → ProtocolResult (Unit {0})
check_exist tx_hash c = if contain tx_hash c then err (dup tx_hash) else ok tt

unfoldable pub check_reach_limit : ℕ → TxCache → ProtocolResult (Unit {0})
check_reach_limit pool_size c =
    if leb pool_size (map_len c.map) then err (reach_limit pool_size) else ok tt

unfoldable pub get_tx : Hash → TxCache → Option SignedTransaction
get_tx tx_hash c = elim (map_get c.map tx_hash) [ some t ↦ some t.tx | none ↦ none ]
