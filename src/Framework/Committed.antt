-- ===== src/Framework/Committed.antt =====
-- What a commit of the states leaves (framework/src/executor/mod.rs, `ServiceExecutor::commit`, and
-- framework/src/binding/state/mod.rs, `GeneralServiceState::commit`).
use mathlib.Core.Path.{subst}
use muta.Prelude.{
  Dict, Result, String, [], ap, bind-ok, err, insert, list_eq, nat_eq, ok, refl, result_cases,
  string_default, sym, ◌>>=◌, ◌∷◌, ◌≡◌,
}
use muta.Protocol.{Bytes, Hash}
use muta.Framework.State.{
  FixedCodec, GeneralServiceState, TrieOps, commit, commit_trie, drain_into, insert_all,
  insert_bytes, insert_next, insert_value, stash,
}
use muta.Framework.Executor.{ServiceStateMap}
use muta.Framework.Blocks.{BlockError, ServiceExecutor, commit_root, commit_states, storage}

module _ {T E : Type 0} (ops : TrieOps T E) where
  -- Every entry goes into the trie, the last one first, and none is refused.
  abbrev pub IsInserted : Dict Bytes Bytes → T → T → Type 0
  IsInserted [] t t' = t ≡ t'
  IsInserted ((k, v) ∷ entries) t t' =
      (u : T) × IsInserted entries t u × (ops.trie_insert u k v ≡ (ok tt, t'))

  -- The stash is in the trie, the trie is committed with this root, and the stash is empty.
  pub record IsStored (s : GeneralServiceState T) (root : Hash) (s' : GeneralServiceState T)
      : Type 0 where
    pub inserted : T
    pub insertion : IsInserted s.stash_map s.trie inserted
    pub commission : ops.trie_commit inserted ≡ (ok root, s'.trie)
    pub drained : s'.stash_map ≡ []
    pub cached : s'.cache_map ≡ s.cache_map

  insert_all-IsInserted :
      (entries : Dict Bytes Bytes) (t t' : T)
      → insert_all ops entries t ≡ (ok tt, t')
      → IsInserted entries t t'
  unfolding insert_all insert_next
  insert_all-IsInserted [] t t' h = ap (λ r. r.1) h
  insert_all-IsInserted ((k, v) ∷ entries) t t' h =
      next entries t (insert_all ops entries t) (insert_all-IsInserted entries t) h
    where
      next :
          (rest : Dict Bytes Bytes) (u : T) (r : Result (Unit {0}) E × T)
          → ((x : T) → r ≡ (ok tt, x) → IsInserted rest u x)
          → insert_next ops k v r ≡ (ok tt, t')
          → IsInserted ((k, v) ∷ rest) u t'
      next rest u (err e, x) before h = let no : ⊥ = cc h in elim no [ ]
      next rest u (ok _, x) before h = (x, before x refl, h)

  commit_trie-IsStored :
      (s s' : GeneralServiceState T) (root : Hash) (r : Result (Unit {0}) E × T)
      → ((t : T) → r ≡ (ok tt, t) → IsInserted s.stash_map s.trie t)
      → commit_trie ops s r ≡ (ok root, s')
      → IsStored s root s'
  unfolding commit_trie
  commit_trie-IsStored s s' root (err e, t) before h = let no : ⊥ = cc h in elim no [ ]
  commit_trie-IsStored s s' root (ok _, t) before h =
      let left = ap (λ x. x.1) h in
      record {
        inserted = t;
        insertion = before t refl;
        commission = ap (λ (x : Result Hash E × GeneralServiceState T). (x.0, x.1.trie)) h;
        drained = ap (λ x. x.stash_map) (sym left);
        cached = ap (λ x. x.cache_map) (sym left);
      }

  pub commit-IsStored :
      (s s' : GeneralServiceState T) (root : Hash)
      → commit ops s ≡ (ok root, s')
      → IsStored s root s'
  unfolding commit
  commit-IsStored s s' root h =
      commit_trie-IsStored s s' root (insert_all ops s.stash_map s.trie)
        (insert_all-IsInserted s.stash_map s.trie) h

  module _ (names : FixedCodec String E) (hashes : FixedCodec Hash E) where
    -- Each state in turn is stored, and its root is written at the service's name.
    abbrev pub AreStored :
        ServiceStateMap ops
        → GeneralServiceState T
        → ServiceStateMap ops
        → GeneralServiceState T
        → Type 0
    AreStored [] roots [] roots' = roots ≡ roots'
    AreStored [] roots (_ ∷ _) roots' = ⊥
    AreStored (_ ∷ _) roots [] roots' = ⊥
    AreStored ((name, s) ∷ states) roots ((name', s') ∷ states') roots' =
        (root : Hash) × (key : Bytes) × (value : Bytes) × (name' ≡ name)
        × IsStored s root s'
        × (names.encode_fixed name ≡ ok key)
        × (hashes.encode_fixed root ≡ ok value)
        × AreStored states (record roots { cache_map = insert key value roots.cache_map }) states'
            roots'

    -- The states are stored, then the state of their roots, with the roots written to it.
    pub record IsCommitted (states : ServiceStateMap ops) (roots : GeneralServiceState T)
        (root : Hash) (x : ServiceExecutor ops) : Type 0 where
      pub written : GeneralServiceState T
      pub stored : AreStored states roots x.states written
      pub root_stored :
          IsStored
            (record written {
              cache_map = [];
              stash_map = drain_into ops written.cache_map written.stash_map;
            })
            root
            x.root_state

    insert_value-ok :
        (name : String) (root : Hash) (roots roots' : GeneralServiceState T)
        → insert_value ops names hashes name root roots ≡ ok roots'
        → (key : Bytes) × (value : Bytes) × (names.encode_fixed name ≡ ok key)
          × (hashes.encode_fixed root ≡ ok value)
          × (◌≡◌ {A = GeneralServiceState T}
              (record roots { cache_map = insert key value roots.cache_map })
              roots')
    unfolding insert_value insert_bytes
    insert_value-ok name root roots roots' h =
        let (key, named, h1) = bind-ok (names.encode_fixed name) _ roots' h in
        let (value, hashed, h2) = bind-ok (hashes.encode_fixed root) _ roots' h1 in
        (key, value, named, hashed, ok_injective h2)
      where
        ok_injective :
            {a b : GeneralServiceState T}
            → ◌≡◌ {A = Result (GeneralServiceState T) E} (ok a) (ok b)
            → a ≡ b
        ok_injective h = cc h

    pub commit_states-AreStored :
        (states : ServiceStateMap ops) (roots : GeneralServiceState T)
        → (commit_states ops names hashes states roots).0 ≡ ok tt
        → AreStored states roots
            (commit_states ops names hashes states roots).1.0
            (commit_states ops names hashes states roots).1.1
    unfolding commit_states
    commit_states-AreStored [] roots h = refl
    commit_states-AreStored ((name, s) ∷ states) roots h =
        result_cases
          (λ (q : Result (Unit {0}) E × (ServiceStateMap ops × GeneralServiceState T)).
            q.0 ≡ ok tt → AreStored ((name, s) ∷ states) roots q.1.0 q.1.1)
          ((commit ops s).0 >>= (λ g. insert_value ops names hashes name g roots)) _ _
          (λ e k h. let no : ⊥ = cc h in elim no [ ])
          (λ roots' k g.
            let (root, made, put) =
              bind-ok (commit ops s).0 (λ x. insert_value ops names hashes name x roots) roots' k in
            let (key, value, named, hashed, same) = insert_value-ok name root roots roots' put in
            (
              root,
              key,
              value,
              refl,
              commit-IsStored s (commit ops s).1 root
                  (ap (λ (r : Result Hash E). (r, (commit ops s).1)) made),
              named,
              hashed,
              subst
                  (λ x.
                    AreStored states x (commit_states ops names hashes states roots').1.0
                      (commit_states ops names hashes states roots').1.1)
                  (sym same) (commit_states-AreStored states roots' g),
            ))
          h

    pub commit_root-IsCommitted :
        (states : ServiceStateMap ops) (roots : GeneralServiceState T)
        (r : Result (Unit {0}) E × (ServiceStateMap ops × GeneralServiceState T)) (root : Hash)
        → (r.0 ≡ ok tt → AreStored states roots r.1.0 r.1.1)
        → (commit_root ops names hashes r).0 ≡ ok root
        → IsCommitted states roots root (commit_root ops names hashes r).1
    unfolding commit_root stash
    commit_root-IsCommitted states roots (err e, (states', written)) root d h =
        let no : ⊥ = cc h in elim no [ ]
    commit_root-IsCommitted states roots (ok _, (states', written)) root d h = record {
      written = written;
      stored = d refl;
      root_stored =
          commit-IsStored (stash ops written) (commit ops (stash ops written)).1 root
            (made (commit ops (stash ops written)) h);
    }
      where
        made :
            (c : Result Hash E × GeneralServiceState T)
            → elim c.0 as (λ _. Result Hash (BlockError E)) [
              | err e ↦ err (storage e)
              | ok g ↦ ok g
            ]
              ≡ ok root
            → c ≡ (ok root, c.1)
        made (err e, y) h = let no : ⊥ = cc h in elim no [ ]
        made (ok g, y) h = cc h
