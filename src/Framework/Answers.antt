-- ===== src/Framework/Answers.antt =====
-- When the execution of a block answers (framework/src/executor/mod.rs, `exec`).
use muta.Prelude.{
  All, Dict, List, Option, Result, String, [], err, if_cases, length, list_eq, nat_eq, ok,
  option_cases, refl, result_cases, some, string_default, ℕ, ◌++◌, ◌>>=◌, ◌∷◌, ◌≡◌,
}
use muta.Protocol.{Bytes, Hash, ServiceResponse, from_error}
use muta.Framework.State.{
  FixedCodec, GeneralServiceState, TrieOps, commit, commit_trie, insert_all, insert_bytes,
  insert_next, insert_value, stash,
}
use muta.Framework.Executor.{
  ExecutorError, Ran, Responses, Service, ServiceStateMap, World, after_call, afters, any_error,
  before_call, befores, call, call_method, catch_call, caught, finish_call, get_tx_hooks, kan,
  read_write, run_hook, run_hooks, run_tx, service_not_found_code, settle, stash_states,
}
use muta.Mempool.Types.{SignedTransaction}
use muta.Framework.Blocks.{
  BlockError, BlockHook, ExecutorParams, Receipt, ServiceExecutor, block_hooks, commit_all,
  commit_root, commit_states, exec, exec_tx, exec_txs, finish_block, get_context, respond,
}

-- There is a result.
abbrev pub IsOk : {A E : Type 0} → Result A E → Type 0
IsOk {A} r = (a : A) × (r ≡ ok a)

cons-IsOk : {A E : Type 0} (x : A) (r : Result (List A) E) → IsOk r → IsOk (r >>= (λ l. ok (x ∷ l)))
cons-IsOk x (ok l) h = (x ∷ l, refl)
cons-IsOk x (err e) (a, h) = let no : ⊥ = cc h in elim no [ ]

-- The trie stores what it is given, and a name and a hash have bytes.
pub record IsReliable {T E : Type 0} (ops : TrieOps T E) (names : FixedCodec String E)
    (hashes : FixedCodec Hash E) : Type 0 where
  pub inserts : (t : T) (k v : Bytes) → (ops.trie_insert t k v).0 ≡ ok tt
  pub commits : (t : T) → IsOk (ops.trie_commit t).0
  pub name_bytes : (name : String) → IsOk (names.encode_fixed name)
  pub hash_bytes : (h : Hash) → IsOk (hashes.encode_fixed h)

-- No hook of a transaction and no method panics.
pub record IsCalm {T E : Type 0} (ops : TrieOps T E) (find : String → Option (Service ops))
    (services : List (String × Service ops)) : Type 0 where
  pub befores_end :
      All (λ (x : String × Service ops). (w : World ops) → IsOk (x.1.tx_hook_before w).0) services
  pub afters_end :
      All (λ (x : String × Service ops). (w : World ops) → IsOk (x.1.tx_hook_after w).0) services
  pub writes_end :
      (name : String) (s : Service ops) → find name ≡ some s → (w : World ops) → IsOk (s.write w).0

module _ {T E : Type 0} (ops : TrieOps T E) where
  abbrev Ends : (World ops → Ran ops) → Type 0
  Ends hook = (w : World ops) → IsOk (hook w).0

  kan-IsOk : (r : Ran ops) → IsOk r.0 → IsOk (kan ops r).0
  unfolding kan
  kan-IsOk (ok res, w) h = (res, refl)
  kan-IsOk (err e, w) (res, h) = let no : ⊥ = cc h in elim no [ ]

  run_hook-IsOk :
      (hook : World ops → Ran ops) (r : Result (Responses ops) ExecutorError × World ops)
      → Ends hook
      → IsOk r.0
      → IsOk (run_hook ops hook r).0
  unfolding run_hook
  run_hook-IsOk hook (err e, w) ends (a, h) = let no : ⊥ = cc h in elim no [ ]
  run_hook-IsOk hook (ok ret, w) ends h =
      let (res, k) = kan-IsOk (hook w) (ends w) in (ret ++ (res ∷ []), cc k)

  run_hooks-IsOk :
      (hooks : List (World ops → Ran ops)) (r : Result (Responses ops) ExecutorError × World ops)
      → All Ends hooks
      → IsOk r.0
      → IsOk (run_hooks ops hooks r).0
  unfolding run_hooks
  run_hooks-IsOk [] r ends h = h
  run_hooks-IsOk (hook ∷ hooks) r ends h =
      run_hooks-IsOk hooks (run_hook ops hook r) ends.1 (run_hook-IsOk hook r ends.0 h)

  finish_call-IsOk :
      (n : ℕ) (ret : ServiceResponse String) (r : Result (Responses ops) ExecutorError × World ops)
      → IsOk r.0
      → IsOk (finish_call ops n ret r).0
  unfolding finish_call
  finish_call-IsOk n ret (err e, w) (a, h) = let no : ⊥ = cc h in elim no [ ]
  finish_call-IsOk n ret (ok resp, w) h = (ret, refl)

  after_call-IsOk :
      (n : ℕ) (hooks : List (World ops → Ran ops))
      (r : Result (ServiceResponse String) ExecutorError × World ops)
      → All Ends hooks
      → IsOk r.0
      → IsOk (after_call ops n hooks r).0
  unfolding after_call
  after_call-IsOk n hooks (err e, w) ends (a, h) = let no : ⊥ = cc h in elim no [ ]
  after_call-IsOk n hooks (ok ret, w) ends h =
      finish_call-IsOk n ret (run_hooks ops hooks (ok [], settle ops n ret w))
        (run_hooks-IsOk hooks (ok [], settle ops n ret w) ends ([], refl))

  caught-IsOk : (r : Ran ops) → IsOk r.0 → IsOk (caught ops r).0
  unfolding caught
  caught-IsOk (ok res, w) h = (res, refl)
  caught-IsOk (err e, w) (a, h) = let no : ⊥ = cc h in elim no [ ]

  insert_next-IsOk :
      (k v : Bytes) (r : Result (Unit {0}) E × T)
      → ((t : T) → (ops.trie_insert t k v).0 ≡ ok tt)
      → r.0 ≡ ok tt
      → (insert_next ops k v r).0 ≡ ok tt
  unfolding insert_next
  insert_next-IsOk k v (err e, t) ins h = cc h
  insert_next-IsOk k v (ok tt, t) ins h = ins t

  insert_all-IsOk :
      (l : Dict Bytes Bytes) (t : T)
      → ((t : T) (k v : Bytes) → (ops.trie_insert t k v).0 ≡ ok tt)
      → (insert_all ops l t).0 ≡ ok tt
  unfolding insert_all
  insert_all-IsOk [] t ins = refl
  insert_all-IsOk ((k, v) ∷ l) t ins =
      insert_next-IsOk k v (insert_all ops l t) (λ u. ins u k v) (insert_all-IsOk l t ins)

  commit_trie-IsOk :
      (s : GeneralServiceState T) (r : Result (Unit {0}) E × T)
      → ((t : T) → IsOk (ops.trie_commit t).0)
      → r.0 ≡ ok tt
      → IsOk (commit_trie ops s r).0
  unfolding commit_trie
  commit_trie-IsOk s (err e, t) comm h = let no : ⊥ = cc h in elim no [ ]
  commit_trie-IsOk s (ok tt, t) comm h = comm t

  module _ (find : String → Option (Service ops)) (services : List (String × Service ops))
      (calm : IsCalm ops find services) where
    run_tx-IsOk :
        (resp : Responses ops) (n : ℕ) (w : World ops)
        → IsOk (run_tx ops find read_write resp n w).0
    unfolding run_tx call call_method
    run_tx-IsOk resp n w =
        if_cases (λ (r : Result (ServiceResponse String) ExecutorError × World ops). IsOk r.0)
          (any_error ops resp) _ _ (λ e. (from_error 65535 "skip_tx_run", refl))
          (λ e. caught-IsOk (call ops find read_write w) (
            option_cases (λ (r : Ran ops). IsOk r.0) (find w.context.service_name) _ _
              (λ k. (from_error service_not_found_code "can not found service", refl))
              (λ s k. calm.writes_end w.context.service_name s k w)))

    before_call-IsOk :
        (hooks : List (World ops → Ran ops)) (r : Result (Responses ops) ExecutorError × World ops)
        → All Ends hooks
        → IsOk r.0
        → IsOk (before_call ops find read_write hooks r).0
    unfolding before_call
    before_call-IsOk hooks (err e, w) ends (a, h) = let no : ⊥ = cc h in elim no [ ]
    before_call-IsOk hooks (ok resp, w) ends h =
        after_call-IsOk (length w.context.events) hooks _ ends (
          run_tx-IsOk resp (length w.context.events)
            (record w { states = stash_states ops w.states }))

    befores-Ends :
        (l : List (String × Service ops))
        → All (λ (x : String × Service ops). (w : World ops) → IsOk (x.1.tx_hook_before w).0) l
        → All Ends (befores ops l)
    befores-Ends [] h = tt
    befores-Ends ((name, s) ∷ l) h = (h.0, befores-Ends l h.1)

    afters-Ends :
        (l : List (String × Service ops))
        → All (λ (x : String × Service ops). (w : World ops) → IsOk (x.1.tx_hook_after w).0) l
        → All Ends (afters ops l)
    afters-Ends [] h = tt
    afters-Ends ((name, s) ∷ l) h = (h.0, afters-Ends l h.1)

    catch_call-IsOk : (w : World ops) → IsOk (catch_call ops find read_write services w).0
    unfolding catch_call get_tx_hooks
    catch_call-IsOk w =
        before_call-IsOk (afters ops services) (run_hooks ops (befores ops services) (ok [], w))
          (afters-Ends services calm.afters_end)
          (run_hooks-IsOk (befores ops services) (ok [], w) (befores-Ends services calm.befores_end)
            ([], refl))

  module _ (names : FixedCodec String E) (hashes : FixedCodec Hash E)
      (reliable : IsReliable ops names hashes) where
    commit-IsOk : (s : GeneralServiceState T) → IsOk (commit ops s).0
    unfolding commit
    commit-IsOk s =
        commit_trie-IsOk s (insert_all ops s.stash_map s.trie) reliable.commits
          (insert_all-IsOk s.stash_map s.trie reliable.inserts)

    insert_value-IsOk :
        (name : String) (h : Hash) (s : GeneralServiceState T)
        → IsOk (insert_value ops names hashes name h s)
    unfolding insert_value
    insert_value-IsOk name h s =
        let (k, i) = reliable.name_bytes name in
        let (v, j) = reliable.hash_bytes h in
        (insert_bytes ops k v s, rw (i, insert_value) (rw j refl))

    commit_states-IsOk :
        (states : ServiceStateMap ops) (root_state : GeneralServiceState T)
        → (commit_states ops names hashes states root_state).0 ≡ ok tt
    unfolding commit_states
    commit_states-IsOk [] root_state = refl
    commit_states-IsOk ((name, s) ∷ states) root_state =
        let (h, i) = commit-IsOk s in
        let (next, j) = insert_value-IsOk name h root_state in
        result_cases
          (λ (q : Result (Unit {0}) E × (ServiceStateMap ops × GeneralServiceState T)). q.0 ≡ ok tt)
          ((commit ops s).0 >>= (λ g. insert_value ops names hashes name g root_state)) _ _
          (λ e k. let no : ⊥ = cc (i, j, k) in elim no [ ])
          (λ root_state' k. commit_states-IsOk states root_state')

    commit_root-IsOk :
        (r : Result (Unit {0}) E × (ServiceStateMap ops × GeneralServiceState T))
        → r.0 ≡ ok tt
        → IsOk (commit_root ops names hashes r).0
    unfolding commit_root
    commit_root-IsOk (err e, (states, root_state)) h = let no : ⊥ = cc h in elim no [ ]
    commit_root-IsOk (ok tt, (states, root_state)) h =
        let (root, i) = commit-IsOk (stash ops root_state) in
        result_cases (λ (q : Result Hash (BlockError E)). IsOk q)
          (commit ops (stash ops root_state)).0 _ _ (λ e k. let no : ⊥ = cc (i, k) in elim no [ ])
          (λ g k. (g, refl))

    module _ (empty : Hash) (find : String → Option (Service ops))
        (services : List (String × Service ops)) (calm : IsCalm ops find services) where
      exec_tx-IsOk :
          (params : ExecutorParams) (stx : SignedTransaction) (states : ServiceStateMap ops)
          → IsOk (exec_tx ops names hashes empty find services params stx states).0
      unfolding exec_tx
      exec_tx-IsOk params stx states =
          let w : World ops = record { states = states; context = get_context params stx } in
          let (resp, i) = catch_call-IsOk find services calm w in
          result_cases (λ (q : Result Receipt (BlockError E)). IsOk q)
            (catch_call ops find read_write services w).0 _ _
            (λ e k. let no : ⊥ = cc (i, k) in elim no [ ]) (λ r k. (_, refl))

      exec_txs-IsOk :
          (params : ExecutorParams) (txs : List SignedTransaction) (states : ServiceStateMap ops)
          → IsOk (exec_txs ops names hashes empty find services params txs states).0
      unfolding exec_txs exec_tx
      exec_txs-IsOk params [] states = ([], refl)
      exec_txs-IsOk params (stx ∷ txs) states =
          let here = exec_tx ops names hashes empty find services params stx states in
          let (first, i) = exec_tx-IsOk params stx states in
          result_cases
            (λ (q : Result (List Receipt) (BlockError E) × ServiceStateMap ops). IsOk q.0) here.0 _
            _ (λ e k. let no : ⊥ = cc (i, k) in elim no [ ])
            (λ r k. cons-IsOk r _ (exec_txs-IsOk params txs here.1))

      respond-IsOk :
          (receipts : List Receipt) (c : Result Hash (BlockError E) × ServiceExecutor ops)
          → IsOk c.0
          → IsOk (respond ops names hashes empty find services receipts c).0
      unfolding respond
      respond-IsOk receipts (err e, x) (a, h) = let no : ⊥ = cc h in elim no [ ]
      respond-IsOk receipts (ok root, x) h = (_, refl)

      finish_block-IsOk :
          (afters : List (BlockHook ops)) (params : ExecutorParams)
          (root_state : GeneralServiceState T)
          (r : Result (List Receipt) (BlockError E) × ServiceStateMap ops)
          → IsOk r.0
          → IsOk (finish_block ops names hashes empty find services afters params root_state r).0
      unfolding finish_block commit_all
      finish_block-IsOk afters params root_state (err e, states) (a, h) =
          let no : ⊥ = cc h in elim no [ ]
      finish_block-IsOk afters params root_state (ok receipts, states) h = respond-IsOk receipts _ (
          commit_root-IsOk _ (commit_states-IsOk (block_hooks ops afters params states) root_state))

      -- If no hook of a transaction and no method panics, the trie stores what it is given, and names
      -- and hashes have bytes, the execution of a block answers, whatever the transactions are, whatever
      -- their responses say and whichever hooks of the block panic.
      pub exec-IsOk :
          (befores afters : List (BlockHook ops)) (params : ExecutorParams)
          (txs : List SignedTransaction) (x : ServiceExecutor ops)
          → IsOk (exec ops names hashes empty find services befores afters params txs x).0
      unfolding exec
      exec-IsOk befores afters params txs x =
          finish_block-IsOk afters params x.root_state _
            (exec_txs-IsOk params txs (block_hooks ops befores params x.states))
