-- ===== src/Mempool/Queues.antt =====
-- What `package` and `flush` leave in the queues and in the map (core/mempool/src/tx_cache.rs).
use muta.Prelude.{
  Bool, Bool-cases, List, [], any, ap, append_assoc, append_nil, arith, filter, if_cases,
  if◌then◌else◌, inl, inr, length, length-append, length-filter_le, nat_beq, none, not, refl, sym,
  ℕ, ◌&&◌, ◌++◌, ◌+◌, ◌<◌, ◌∙◌, ◌∷◌, ◌≡◌, ◌≤◌,
}
use muta.Mempool.Types.{SharedTx}
use muta.Mempool.Roles.{
  TxCache, get_queue_role, is_timeout, push, push_or_drop, put_queue_role, switch_queue_role,
}
use muta.Mempool.Cache.{
  Packing, Sweep, end_sweep, flush_incumbent_queue, flush_loop, keep, move_queue, package_loop,
  package_txs, process_omission_txs, start_sweep,
}
use muta.Mempool.BucketLaws.{HasBuckets, map_get-remove_batch, remove_batch-HasBuckets}
use muta.Mempool.Package.{hashes_of, is_valid}
use muta.Mempool.Buckets.{map_get, remove_batch}
use muta.Protocol.{Hash}

-- Between two calls: one queue is empty, the other within its capacity.
pub record IsReady (c : TxCache) : Type 0 where
  pub idle : (get_queue_role c).candidate ≡ []
  pub fits : length (get_queue_role c).incumbent ≤ c.capacity
  pub buckets : HasBuckets c.map

-- Not removed, but over.
abbrev pub is_over : (ℕ → Bool) → ℕ → ℕ → SharedTx → Bool
is_over removed current_height timeout t =
    not (removed t.removed_cell) && is_timeout t current_height timeout

keep-room :
    (capacity : ℕ) (t : SharedTx) (w : Sweep)
    → length w.candidate < capacity
    → keep capacity t w ≡ record w { candidate = w.candidate ++ (t ∷ []) }
unfolding keep push_or_drop push
keep-room capacity t w room = ground arith

module _ (removed : ℕ → Bool) (capacity height timeout : ℕ) where
  package_loop-sweep :
      (limit : ℕ) (queue : List SharedTx) (w : Sweep) (p : Packing)
      → (package_loop removed capacity height timeout limit queue w p).0
        ≡ flush_loop removed capacity height timeout queue w
  unfolding package_loop flush_loop
  package_loop-sweep limit [] w p = refl
  package_loop-sweep limit (t ∷ queue) w p = package_loop-sweep limit queue _ _

  -- What the loop leaves, if the other queue has room for all: the valid transactions in their order.
  abbrev swept : List SharedTx → Sweep → Sweep
  swept queue w = record {
    candidate = w.candidate ++ filter (is_valid removed height timeout) queue;
    map = w.map;
    timeout_tx_hashes =
        w.timeout_tx_hashes ++ hashes_of (filter (is_over removed height timeout) queue);
  }

  flush_loop_lem :
      (queue : List SharedTx) (w : Sweep)
      → length w.candidate + length queue ≤ capacity
      → flush_loop removed capacity height timeout queue w ≡ swept queue w
  unfolding flush_loop
  flush_loop_lem [] w room = cc (sym (append_nil w.candidate), sym (append_nil w.timeout_tx_hashes))
  flush_loop_lem (t ∷ queue) w room =
      if_cases (λ v. flush_loop removed capacity height timeout queue v ≡ swept (t ∷ queue) w)
        (removed t.removed_cell) _ _
        (λ gone. flush_loop_lem queue w (omega (arith, room)) ∙ ground (arith, gone))
        (λ here.
          if_cases (λ v. flush_loop removed capacity height timeout queue v ≡ swept (t ∷ queue) w)
            (is_timeout t height timeout) _ _
            (λ over.
              flush_loop_lem queue _ (omega (arith, room))
              ∙ ground (
                arith,
                here,
                over,
                append_assoc w.timeout_tx_hashes (t.tx.tx_hash ∷ [])
                    (hashes_of (filter (is_over removed height timeout) queue)),
              ))
            (λ valid. rw (keep-room capacity t w (omega (arith, room))) (
              flush_loop_lem queue _ (omega (arith, room, length-append w.candidate (t ∷ [])))
              ∙ ground (
                arith,
                here,
                valid,
                append_assoc w.candidate (t ∷ []) (filter (is_valid removed height timeout) queue),
              ))))

end_sweep-role :
    (c : TxCache) (w : Sweep)
    → get_queue_role (end_sweep c w) ≡ record { incumbent = w.candidate; candidate = [] }
unfolding end_sweep process_omission_txs get_queue_role put_queue_role switch_queue_role move_queue
end_sweep-role c w = elim (Bool-cases c.is_zero) [
  | inl e ↦ ground (arith, e)
  | inr e ↦ ground (arith, e)
]

end_sweep-map :
    (c : TxCache) (w : Sweep) → (end_sweep c w).map ≡ remove_batch w.map w.timeout_tx_hashes
unfolding end_sweep process_omission_txs get_queue_role put_queue_role switch_queue_role move_queue
end_sweep-map c w = elim (Bool-cases c.is_zero) [
  | inl e ↦ ground (arith, e)
  | inr e ↦ ground (arith, e)
]

end_sweep-capacity : (c : TxCache) (w : Sweep) → (end_sweep c w).capacity ≡ c.capacity
unfolding end_sweep process_omission_txs get_queue_role put_queue_role switch_queue_role move_queue
end_sweep-capacity c w = elim (Bool-cases c.is_zero) [
  | inl e ↦ ground (arith, e)
  | inr e ↦ ground (arith, e)
]

-- The transactions that stay, and the hashes that leave the map.
abbrev pub Sweeps : TxCache → TxCache → (ℕ → Bool) → ℕ → ℕ → Type 0
Sweeps c d removed height timeout =
    let queue = (get_queue_role c).incumbent in
    ((get_queue_role d).incumbent ≡ filter (is_valid removed height timeout) queue)
    × ((j : Hash)
        → map_get d.map j ≡ (
            if any (λ h. nat_beq h j) (hashes_of (filter (is_over removed height timeout) queue))
            then none
            else map_get c.map j))

module _ (height timeout : ℕ) (c : TxCache) (r : IsReady c) where
  sweep :
      flush_loop c.removed c.capacity height timeout (get_queue_role c).incumbent (start_sweep c)
      ≡ swept c.removed c.capacity height timeout (get_queue_role c).incumbent (start_sweep c)
  sweep =
      flush_loop_lem c.removed c.capacity height timeout _ _ (rw (r.idle) (omega (arith, r.fits)))

  -- When one queue is empty and the other within its capacity, a sweep of the queue keeps the valid
  -- transactions in their order, takes the hashes of the ones that are over out of the map, and
  -- leaves one queue empty and the other within its capacity.
  pub flush_incumbent_queue-Sweeps :
      let d = flush_incumbent_queue height timeout c in
      Sweeps c d c.removed height timeout × IsReady d
  unfolding flush_incumbent_queue
  flush_incumbent_queue-Sweeps =
      let queue = (get_queue_role c).incumbent in
      let w = flush_loop c.removed c.capacity height timeout queue (start_sweep c) in
      let role = end_sweep-role c w in
      let valid = filter (is_valid c.removed height timeout) queue in
      let kept : w.candidate ≡ valid = ap (λ v. v.candidate) sweep ∙ rw (r.idle) refl in
      let batch = ap (λ v. v.timeout_tx_hashes) sweep in
      let m = end_sweep-map c w ∙ ap (λ v. remove_batch v.map v.timeout_tx_hashes) sweep in
      (
        (
          ap (λ x. x.incumbent) role ∙ kept,
          λ j. ap (λ x. map_get x j) m ∙ map_get-remove_batch c.map _ j r.buckets,
        ),
        record {
          idle = ap (λ x. x.candidate) role;
          fits =
              rw (ap (λ x. x.incumbent) role, end_sweep-capacity c w, kept)
                (omega (arith, length-filter_le (is_valid c.removed height timeout) queue, r.fits));
          buckets = rw m (remove_batch-HasBuckets c.map _ r.buckets);
        },
      )

-- Packing leaves the same queues and map as a sweep of the queue alone.
pub package_txs-flush_incumbent_queue :
    (limit height timeout : ℕ) (c : TxCache)
    → (package_txs limit height timeout c).1 ≡ flush_incumbent_queue height timeout c
unfolding package_txs flush_incumbent_queue
package_txs-flush_incumbent_queue limit height timeout c =
    ap (λ w. end_sweep c w) (package_loop-sweep c.removed c.capacity height timeout limit _ _ _)
