-- ===== src/Mempool/Package.antt =====
-- What `package` packs and what it leaves (core/mempool/src/tx_cache.rs).
use mathlib.Core.Path.{subst}
use muta.Prelude.{
  Bool, Bool-cases, List, [], ap, append_assoc, append_nil, arith, drop, false, filter,
  if◌then◌else◌, inl, inr, not, refl, suc, sym, take, true, zero, ℕ, ◌&&◌, ◌++◌, ◌+◌, ◌-◌, ◌<◌, ◌∙◌,
  ◌∷◌, ◌≡◌,
}
use muta.Protocol.{Hash}
use muta.Mempool.Types.{SharedTx, Stage, finished, order_txs, propose_txs}
use muta.Mempool.Roles.{TxCache, get_queue_role, is_timeout}
use muta.Mempool.Cache.{
  Packing, Sweep, collect, collect_at, collect_in, count, next_stage, package_loop, package_txs,
  start_sweep,
}

abbrev pub hashes_of : List SharedTx → List Hash
hashes_of [] = []
hashes_of (t ∷ ts) = t.tx.tx_hash ∷ hashes_of ts

-- Neither removed nor over.
abbrev pub is_valid : (ℕ → Bool) → ℕ → ℕ → SharedTx → Bool
is_valid removed current_height timeout t =
    not (removed t.removed_cell) && not (is_timeout t current_height timeout)

-- The batch for proposal: after its first transaction, the ones that nobody proposed.
abbrev pub propose_batch : ℕ → List SharedTx → List Hash
propose_batch limit [] = []
propose_batch limit (t ∷ ts) =
    t.tx.tx_hash ∷ take (limit - 1) (hashes_of (filter (λ s. not s.proposed) ts))

abbrev collect_all : ℕ → List SharedTx → Packing → Packing
collect_all limit [] p = p
collect_all limit (t ∷ ts) p = collect_all limit ts (collect limit t p)

abbrev packing : ℕ → Stage → List Hash → List Hash → Packing
packing n stage os ps = record {
  tx_count = n;
  stage = stage;
  order_tx_hashes = os;
  propose_tx_hashes = ps;
}

module _ (limit : ℕ) where
  collect-proposed :
      (t : SharedTx) (n : ℕ) (os ps : List Hash)
      → t.proposed ≡ true
      → collect limit t (packing n propose_txs os ps) ≡ packing n propose_txs os ps
  unfolding collect collect_in
  collect-proposed t n os ps e = ground (arith, e)

  collect-last :
      (t : SharedTx) (n : ℕ) (os ps : List Hash)
      → t.proposed ≡ false
      → n ≡ limit
      → collect limit t (packing n propose_txs os ps) ≡ packing 1 finished os ps
  unfolding collect collect_in count collect_at next_stage
  collect-last t n os ps e full = ground (arith, e)

  collect-fresh :
      (t : SharedTx) (n : ℕ) (os ps : List Hash)
      → t.proposed ≡ false
      → n < limit
      → collect limit t (packing n propose_txs os ps)
        ≡ packing (n + 1) propose_txs os (ps ++ (t.tx.tx_hash ∷ []))
  unfolding collect collect_in count collect_at
  collect-fresh t n os ps e room = ground (arith, e)

  collect-order :
      (t : SharedTx) (n : ℕ) (os ps : List Hash)
      → n < limit
      → collect limit t (packing n order_txs os ps)
        ≡ packing (n + 1) order_txs (os ++ (t.tx.tx_hash ∷ [])) ps
  unfolding collect collect_in count collect_at
  collect-order t n os ps room = ground arith

  collect-switch :
      (t : SharedTx) (n : ℕ) (os ps : List Hash)
      → n ≡ limit
      → collect limit t (packing n order_txs os ps)
        ≡ packing 1 propose_txs os (ps ++ (t.tx.tx_hash ∷ []))
  unfolding collect collect_in count collect_at next_stage
  collect-switch t n os ps full = ground arith

  collect_all-finished :
      (ts : List SharedTx) (n : ℕ) (os ps : List Hash)
      → collect_all limit ts (packing n finished os ps) ≡ packing n finished os ps
  unfolding collect collect_in
  collect_all-finished [] n os ps = refl
  collect_all-finished (t ∷ ts) n os ps = collect_all-finished ts n os ps

  abbrev Packs : Packing → List Hash → List Hash → Type 0
  Packs p os ps = (p.order_tx_hashes ≡ os) × (p.propose_tx_hashes ≡ ps)

  -- One transaction, then the rest of the queue.
  Packs-step :
      (t : SharedTx) (ts : List SharedTx) (p q : Packing) (os os' ps ps' : List Hash)
      → collect limit t p ≡ q
      → Packs (collect_all limit ts q) os ps
      → os ≡ os'
      → ps ≡ ps'
      → Packs (collect_all limit (t ∷ ts) p) os' ps'
  Packs-step t ts p q os os' ps ps' e h eo ep =
      subst (λ r. Packs (collect_all limit ts r) os' ps') (sym e) (h.0 ∙ eo, h.1 ∙ ep)

  abbrev unproposed : List SharedTx → List Hash
  unproposed ts = hashes_of (filter (λ s. not s.proposed) ts)

  unproposed-skip :
      (t : SharedTx) (ts : List SharedTx) → t.proposed ≡ true → unproposed ts ≡ unproposed (t ∷ ts)
  unproposed-skip t ts e = ground (arith, e)

  unproposed-fresh :
      (t : SharedTx) (ts : List SharedTx)
      → t.proposed ≡ false
      → t.tx.tx_hash ∷ unproposed ts ≡ unproposed (t ∷ ts)
  unproposed-fresh t ts e = ground (arith, e)

  collect_all-propose :
      (k n : ℕ) (ts : List SharedTx) (os ps : List Hash)
      → n + k ≡ limit
      → Packs (collect_all limit ts (packing n propose_txs os ps)) os (ps ++ take k (unproposed ts))
  collect_all-propose zero n [] os ps e = (refl, sym (append_nil ps))
  collect_all-propose (suc k) n [] os ps e = (refl, sym (append_nil ps))
  collect_all-propose zero n (t ∷ ts) os ps e = elim (Bool-cases t.proposed) [
    | inl old ↦
        Packs-step t ts _ _ _ _ _ _ (collect-proposed t n os ps old)
          (collect_all-propose zero n ts os ps e) refl refl
    | inr new ↦
        Packs-step t ts _ _ os _ ps _ (collect-last t n os ps new (omega (arith, e)))
          (
            ap (λ r. r.order_tx_hashes) (collect_all-finished ts 1 os ps),
            ap (λ r. r.propose_tx_hashes) (collect_all-finished ts 1 os ps),
          )
          refl (sym (append_nil ps))
  ]
  collect_all-propose (suc k) n (t ∷ ts) os ps e = elim (Bool-cases t.proposed) [
    | inl old ↦
        Packs-step t ts _ _ _ _ _ _ (collect-proposed t n os ps old)
          (collect_all-propose (suc k) n ts os ps e) refl
          (ap (λ l. ps ++ take (suc k) l) (unproposed-skip t ts old))
    | inr new ↦
        Packs-step t ts _ _ _ _ _ _ (collect-fresh t n os ps new (omega (arith, e)))
          (collect_all-propose k (n + 1) ts os (ps ++ (t.tx.tx_hash ∷ [])) (omega (arith, e))) refl
          (append_assoc ps (t.tx.tx_hash ∷ []) (take k (unproposed ts))
            ∙ ap (λ l. ps ++ take (suc k) l) (unproposed-fresh t ts new))
  ]

  collect_all-order :
      (k n : ℕ) (ts : List SharedTx) (os : List Hash)
      → n + k ≡ limit
      → 0 < limit
      → Packs
          (collect_all limit ts (packing n order_txs os []))
          (os ++ take k (hashes_of ts))
          (propose_batch limit (drop k ts))
  collect_all-order zero n [] os e pos = (sym (append_nil os), refl)
  collect_all-order (suc k) n [] os e pos = (sym (append_nil os), refl)
  collect_all-order zero n (t ∷ ts) os e pos =
      Packs-step t ts _ _ _ _ _ _ (collect-switch t n os [] (omega (arith, e)))
        (collect_all-propose (limit - 1) 1 ts os (t.tx.tx_hash ∷ []) (omega (arith, pos)))
        (sym (append_nil os)) refl
  collect_all-order (suc k) n (t ∷ ts) os e pos =
      Packs-step t ts _ _ _ _ _ _ (collect-order t n os [] (omega (arith, e)))
        (collect_all-order k (n + 1) ts (os ++ (t.tx.tx_hash ∷ [])) (omega (arith, e)) pos)
        (append_assoc os (t.tx.tx_hash ∷ []) (take k (hashes_of ts))) refl

module _ (removed : ℕ → Bool) (capacity height timeout limit : ℕ) where
  collect_if :
      (valid : Bool) (t : SharedTx) (ts : List SharedTx) (p : Packing)
      → collect_all limit ts (if valid then collect limit t p else p)
        ≡ collect_all limit (if valid then t ∷ ts else ts) p
  collect_if true t ts p = refl
  collect_if false t ts p = refl

  -- The loop packs what is valid.
  package_loop-packing :
      (queue : List SharedTx) (w : Sweep) (p : Packing)
      → (package_loop removed capacity height timeout limit queue w p).1
        ≡ collect_all limit (filter (is_valid removed height timeout) queue) p
  unfolding package_loop
  package_loop-packing [] w p = refl
  package_loop-packing (t ∷ queue) w p =
      package_loop-packing queue _ _
      ∙ collect_if (is_valid removed height timeout t) t
          (filter (is_valid removed height timeout) queue) p

-- With a limit above zero, `package` orders the first valid transactions of the queue, up to the
-- limit, and proposes the batch after them, up to the limit: its first transaction in any case, then
-- the ones that nobody proposed.
pub package_txs-batches :
    (limit height timeout : ℕ) (c : TxCache)
    → 0 < limit
    → let valid = filter (is_valid c.removed height timeout) (get_queue_role c).incumbent in
      let batches = (package_txs limit height timeout c).0 in
      (batches.order_tx_hashes ≡ take limit (hashes_of valid))
      × (batches.propose_tx_hashes ≡ propose_batch limit (drop limit valid))
unfolding package_txs
package_txs-batches limit height timeout c pos =
    let e =
      package_loop-packing c.removed c.capacity height timeout limit (get_queue_role c).incumbent
        (start_sweep c) (packing 0 order_txs [] []) in
    let h =
      collect_all-order limit limit 0
        (filter (is_valid c.removed height timeout) (get_queue_role c).incumbent) [] (omega arith)
        pos in
    (ap (λ r. r.order_tx_hashes) e ∙ h.0, ap (λ r. r.propose_tx_hashes) e ∙ h.1)
