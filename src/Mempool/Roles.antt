-- ===== src/Mempool/Roles.antt =====
-- The two queues of the cache of transactions, their roles, and the marks of the transactions
-- (core/mempool/src/tx_cache.rs).
use muta.Prelude.{
  Bool, List, Option, [], false, if◌then◌else◌, leb, length, ltb, nat_beq, none, not, some, true, ℕ,
  ◌*◌, ◌++◌, ◌||◌, ◌∷◌,
}
use muta.Mempool.Types.{SharedTx}
use muta.Mempool.Buckets.{Map, map_remove, new_map}

-- `removed` holds the marks that the wrappers share, `next_cell` the first that is free.
pub record TxCache : Type 0 where
  pub queue_0 : List SharedTx
  pub queue_1 : List SharedTx
  pub capacity : ℕ
  pub map : Map SharedTx
  pub is_zero : Bool
  pub removed : ℕ → Bool
  pub next_cell : ℕ

pub record QueueRole : Type 0 where
  pub incumbent : List SharedTx
  pub candidate : List SharedTx

unfoldable pub new_cache : ℕ → TxCache
new_cache pool_size = record {
  queue_0 = [];
  queue_1 = [];
  capacity = pool_size * 2;
  map = new_map;
  is_zero = true;
  removed = λ c. false;
  next_cell = 0;
}

unfoldable pub set_removed : SharedTx → (ℕ → Bool) → ℕ → Bool
set_removed t removed c = if nat_beq t.removed_cell c then true else removed c

unfoldable pub is_timeout : SharedTx → ℕ → ℕ → Bool
is_timeout t current_height timeout =
    let tx_timeout = t.tx.raw.timeout in leb tx_timeout current_height || ltb timeout tx_timeout

unfoldable pub get_queue_role : TxCache → QueueRole
get_queue_role c =
    if c.is_zero
    then record { incumbent = c.queue_0; candidate = c.queue_1 }
    else record { incumbent = c.queue_1; candidate = c.queue_0 }

-- The queues behind a role, written back.
unfoldable pub put_queue_role : QueueRole → TxCache → TxCache
put_queue_role role c =
    if c.is_zero
    then record c { queue_0 = role.incumbent; queue_1 = role.candidate }
    else record c { queue_0 = role.candidate; queue_1 = role.incumbent }

unfoldable pub switch_queue_role : TxCache → TxCache
switch_queue_role c = record c { is_zero = not c.is_zero }

-- `ArrayQueue::push`
unfoldable pub push : ℕ → List SharedTx → SharedTx → Option (List SharedTx)
push capacity queue t = if ltb (length queue) capacity then some (queue ++ (t ∷ [])) else none

-- A push to a queue; a full queue drops the transaction from the map.
unfoldable pub push_or_drop :
    ℕ → SharedTx → List SharedTx × Map SharedTx → List SharedTx × Map SharedTx
push_or_drop capacity t (queue, m) = elim (push capacity queue t) [
  | some queue' ↦ (queue', m)
  | none ↦ (queue, map_remove m t.tx.tx_hash)
]
