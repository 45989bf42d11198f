-- ===== src/Framework/Executed.antt =====
-- What the execution of a block answers (framework/src/executor/mod.rs, `exec`).
use mathlib.Core.Path.{subst}
use muta.Prelude.{
  All, List, Option, Result, String, [], arith, bind-ok, err, ok, refl, result_cases,
  string_default, ℕ, ◌%◌, ◌+◌, ◌<◌, ◌∙◌, ◌∷◌, ◌≡◌,
}
use muta.Protocol.{Hash, u64_mod}
use muta.Mempool.Types.{SignedTransaction}
use muta.Framework.State.{FixedCodec, GeneralServiceState, TrieOps}
use muta.Framework.Executor.{Service, ServiceStateMap, afters, befores, catch_call, read_write}
use muta.Framework.Committed.{IsCommitted, commit_root-IsCommitted, commit_states-AreStored}
use muta.Framework.Blocks.{
  BlockError, BlockHook, ExecutorParams, ExecutorResp, Receipt, ServiceExecutor, block_hooks,
  commit_all, commit_root, commit_states, exec, exec_tx, exec_txs, finish_block, get_context,
  make_receipt, respond, set_roots, sum_cycles,
}

abbrev pub tx_hashes_of : List SignedTransaction → List Hash
tx_hashes_of [] = []
tx_hashes_of (stx ∷ txs) = stx.tx_hash ∷ tx_hashes_of txs

abbrev pub receipt_hashes : List Receipt → List Hash
receipt_hashes [] = []
receipt_hashes (r ∷ receipts) = r.tx_hash ∷ receipt_hashes receipts

abbrev pub total_cycles : List Receipt → ℕ
total_cycles [] = 0
total_cycles (r ∷ receipts) = r.cycles_used + total_cycles receipts

abbrev pub IsStamped : Hash → ℕ → Receipt → Type 0
IsStamped root height r = (r.state_root ≡ root) × (r.height ≡ height)

sum_cycles-total :
    (receipts : List Receipt) (total : ℕ)
    → total < u64_mod
    → sum_cycles receipts total ≡ (total + total_cycles receipts) % u64_mod
unfolding sum_cycles
sum_cycles-total [] total small = omega (arith, small)
sum_cycles-total (r ∷ receipts) total small =
    sum_cycles-total receipts ((total + r.cycles_used) % u64_mod) (omega arith) ∙ omega arith

set_roots-hashes :
    (root : Hash) (receipts : List Receipt)
    → receipt_hashes (set_roots root receipts) ≡ receipt_hashes receipts
unfolding set_roots
set_roots-hashes root [] = refl
set_roots-hashes root (r ∷ receipts) = cc (set_roots-hashes root receipts)

set_roots-cycles :
    (root : Hash) (receipts : List Receipt)
    → total_cycles (set_roots root receipts) ≡ total_cycles receipts
unfolding set_roots
set_roots-cycles root [] = refl
set_roots-cycles root (r ∷ receipts) = cc (set_roots-cycles root receipts)

set_roots-IsStamped :
    (root : Hash) (height : ℕ) (receipts : List Receipt)
    → All (λ (r : Receipt). r.height ≡ height) receipts
    → All (IsStamped root height) (set_roots root receipts)
unfolding set_roots
set_roots-IsStamped root height [] h = tt
set_roots-IsStamped root height (r ∷ receipts) h =
    ((refl, h.0), set_roots-IsStamped root height receipts h.1)

module _ {T E : Type 0} (ops : TrieOps T E) where
  module _ (names : FixedCodec String E) (hashes : FixedCodec Hash E) where
    -- The block that was executed, as its answer tells it, and the commit of the states that its
    -- transactions and the hooks after them left.
    pub record IsExecuted (params : ExecutorParams) (txs : List SignedTransaction)
        (states : ServiceStateMap ops) (roots : GeneralServiceState T) (resp : ExecutorResp)
        (x : ServiceExecutor ops) : Type 0 where
      pub in_order : receipt_hashes resp.receipts ≡ tx_hashes_of txs
      pub stamped : All (IsStamped resp.state_root params.height) resp.receipts
      pub cycles : resp.all_cycles_used ≡ total_cycles resp.receipts % u64_mod
      pub committed : IsCommitted ops names hashes states roots resp.state_root x

    module _ (empty : Hash) (find : String → Option (Service ops))
        (services : List (String × Service ops)) where
      exec_tx-receipt :
          (params : ExecutorParams) (stx : SignedTransaction) (states : ServiceStateMap ops)
          (r : Receipt)
          → (exec_tx ops names hashes empty find services params stx states).0 ≡ ok r
          → (r.tx_hash ≡ stx.tx_hash) × (r.height ≡ params.height)
      unfolding exec_tx make_receipt get_context
      exec_tx-receipt params stx states r =
          result_cases
            (λ (q : Result Receipt (BlockError E)).
              q ≡ ok r → (r.tx_hash ≡ stx.tx_hash) × (r.height ≡ params.height))
            (catch_call ops find read_write services
              (record { states = states; context = get_context params stx })).0
            _ _ (λ e k h. let no : ⊥ = cc h in elim no [ ]) (λ resp k h. (cc h, cc h))

      exec_txs-receipts :
          (params : ExecutorParams) (txs : List SignedTransaction) (states : ServiceStateMap ops)
          (receipts : List Receipt)
          → (exec_txs ops names hashes empty find services params txs states).0 ≡ ok receipts
          → (receipt_hashes receipts ≡ tx_hashes_of txs)
            × All (λ (r : Receipt). r.height ≡ params.height) receipts
      unfolding exec_txs
      exec_txs-receipts params [] states receipts h =
          let none_left : ◌≡◌ {A = List Receipt} [] receipts = cc h in
          subst (λ l. (receipt_hashes l ≡ []) × All (λ (q : Receipt). q.height ≡ params.height) l)
            none_left (refl, tt)
      exec_txs-receipts params (stx ∷ txs) states receipts h =
          result_cases
            (λ (q : Result (List Receipt) (BlockError E) × ServiceStateMap ops).
              q.0 ≡ ok receipts
              → (receipt_hashes receipts ≡ tx_hashes_of (stx ∷ txs))
                × All (λ (r : Receipt). r.height ≡ params.height) receipts)
            (exec_tx ops names hashes empty find services params stx states).0 _ _
            (λ e k h. let no : ⊥ = cc h in elim no [ ])
            (λ r k g.
              let (rest, ran, made) =
                bind-ok
                  (exec_txs ops names hashes empty find services params txs
                    (exec_tx ops names hashes empty find services params stx states).1).0
                  (λ l. ok (r ∷ l)) receipts g in
              let first = exec_tx-receipt params stx states r k in
              let others =
                exec_txs-receipts params txs
                  (exec_tx ops names hashes empty find services params stx states).1 rest ran in
              let whole : r ∷ rest ≡ receipts = cc made in
              subst
                (λ l.
                  (receipt_hashes l ≡ tx_hashes_of (stx ∷ txs))
                  × All (λ (q : Receipt). q.height ≡ params.height) l)
                whole (cc (first.0, others.0), (first.1, others.1)))
            h

      respond-IsExecuted :
          (params : ExecutorParams) (txs : List SignedTransaction) (states : ServiceStateMap ops)
          (roots : GeneralServiceState T) (receipts : List Receipt)
          (c : Result Hash (BlockError E) × ServiceExecutor ops) (resp : ExecutorResp)
          (y : ServiceExecutor ops)
          → (receipt_hashes receipts ≡ tx_hashes_of txs)
            × All (λ (r : Receipt). r.height ≡ params.height) receipts
          → ((root : Hash) → c.0 ≡ ok root → IsCommitted ops names hashes states roots root c.1)
          → respond ops names hashes empty find services receipts c ≡ (ok resp, y)
          → IsExecuted params txs states roots resp y
      unfolding respond
      respond-IsExecuted params txs states roots receipts (err e, x) resp y made drains h =
          let no : ⊥ = cc h in elim no [ ]
      respond-IsExecuted params txs states roots receipts (ok root, x) resp y made drains h =
          let answer : ExecutorResp = record {
            receipts = set_roots root receipts;
            all_cycles_used = sum_cycles receipts 0;
            state_root = root;
          } in
          let same : answer ≡ resp = cc h in
          let left : x ≡ y = cc h in
          let done : IsExecuted params txs states roots answer x = record {
            in_order = set_roots-hashes root receipts ∙ made.0;
            stamped = set_roots-IsStamped root params.height receipts made.1;
            cycles =
                rw (set_roots-cycles root receipts)
                  (sum_cycles-total receipts 0 (omega arith) ∙ omega arith);
            committed = drains root refl;
          } in
          subst (λ a. IsExecuted params txs states roots a y) same
            (subst (λ z. IsExecuted params txs states roots answer z) left done)

      finish_block-IsExecuted :
          (afters : List (BlockHook ops)) (params : ExecutorParams) (txs : List SignedTransaction)
          (root_state : GeneralServiceState T)
          (r : Result (List Receipt) (BlockError E) × ServiceStateMap ops) (resp : ExecutorResp)
          (y : ServiceExecutor ops)
          → ((receipts : List Receipt)
              → r.0 ≡ ok receipts
              → (receipt_hashes receipts ≡ tx_hashes_of txs)
                × All (λ (q : Receipt). q.height ≡ params.height) receipts)
          → finish_block ops names hashes empty find services afters params root_state r
            ≡ (ok resp, y)
          → IsExecuted params txs (block_hooks ops afters params r.1) root_state resp y
      unfolding finish_block commit_all
      finish_block-IsExecuted afters params txs root_state (err e, states) resp y made h =
          let no : ⊥ = cc h in elim no [ ]
      finish_block-IsExecuted afters params txs root_state (ok receipts, states) resp y made h =
          let c =
            commit_states ops names hashes (block_hooks ops afters params states) root_state in
          respond-IsExecuted params txs (block_hooks ops afters params states) root_state receipts
            (commit_root ops names hashes c) resp y (made receipts refl)
            (λ root k.
              commit_root-IsCommitted ops names hashes (block_hooks ops afters params states)
                root_state c root
                (commit_states-AreStored ops names hashes (block_hooks ops afters params states)
                  root_state)
                k)
            h

      -- An execution of a block that succeeds gives one receipt a transaction, in their order, each with
      -- the height of the block and the root of the state after it, and the cycles of the receipts add up
      -- to the answer's, as a `u64`. What the hooks before the block, the transactions and the hooks
      -- after them stashed in each service's state is inserted in its trie, every entry, and the trie is
      -- committed; the root of each trie is written at the service's name in the state of the roots,
      -- which is stored the same way, and the root that this gives is the answer's.
      pub exec-IsExecuted :
          (befores afters : List (BlockHook ops)) (params : ExecutorParams)
          (txs : List SignedTransaction) (x y : ServiceExecutor ops) (resp : ExecutorResp)
          → exec ops names hashes empty find services befores afters params txs x ≡ (ok resp, y)
          → IsExecuted params txs
              (block_hooks ops afters params
                (exec_txs ops names hashes empty find services params txs
                  (block_hooks ops befores params x.states)).1)
              x.root_state
              resp
              y
      unfolding exec
      exec-IsExecuted befores afters params txs x y resp h =
          finish_block-IsExecuted afters params txs x.root_state
            (exec_txs ops names hashes empty find services params txs
              (block_hooks ops befores params x.states))
            resp y (exec_txs-receipts params txs (block_hooks ops befores params x.states)) h
