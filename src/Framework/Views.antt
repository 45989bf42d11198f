-- ===== src/Framework/Views.antt =====
-- What a read sees through the layers of a state (framework/src/binding/state/mod.rs).
use muta.Prelude.{
  Dict, List, Result, [], ap, arith, err, if◌then◌else◌, list_beq_iff, list_eq, lookup,
  lookup-insert, nat_eq, none, ok, refl, some, true, ◌==◌, ◌>>=◌, ◌∙◌, ◌∷◌, ◌≡◌, ◌≢◌,
}
use muta.Protocol.{Bytes, Hash}
use muta.Framework.State.{
  FixedCodec, GeneralServiceState, TrieOps, commit, commit_trie, decode_value, drain_into,
  get_bytes_value, get_value, insert_all, insert_bytes, insert_next, insert_value, non_empty,
  read_trie, revert_cache, stash,
}

-- The trie as the state relies on it: an insertion that succeeds is read, an empty value as none, and
-- a commit that succeeds changes no read.
pub record LawfulTrie {T E : Type 0} (ops : TrieOps T E) : Type 0 where
  pub read_after_insert :
      (t : T) (k v j : Bytes)
      → (ops.trie_insert t k v).0 ≡ ok tt
      → read_trie ops (ops.trie_get ((ops.trie_insert t k v).1) j)
        ≡ (if k == j then ok (non_empty v) else read_trie ops (ops.trie_get t j))
  pub read_after_commit :
      (t : T) (root : Hash) (j : Bytes)
      → (ops.trie_commit t).0 ≡ ok root
      → ops.trie_get ((ops.trie_commit t).1) j ≡ ops.trie_get t j

non_empty_lem : (v : Bytes) → v ≢ [] → non_empty v ≡ some v
unfolding non_empty
non_empty_lem [] full = elim (full refl) [ ]
non_empty_lem (b ∷ v) full = refl

beq_self : (k : Bytes) → (k == k) ≡ true
beq_self k = (list_beq_iff k k).1 refl

module _ {T E : Type 0} (ops : TrieOps T E) where
  open ops use {trie_get, trie_insert, trie_commit}

  -- What is read after a write of bytes: the bytes, or none if they are empty.
  pub get_bytes_value-insert_bytes :
      (s : GeneralServiceState T) (key value j : Bytes)
      → get_bytes_value ops (insert_bytes ops key value s) j
        ≡ (if key == j then ok (non_empty value) else get_bytes_value ops s j)
  unfolding get_bytes_value insert_bytes
  get_bytes_value-insert_bytes s key value j = ground (arith, lookup-insert key value s.cache_map j)

  lookup-drain_into :
      (c st : Dict Bytes Bytes) (j : Bytes)
      → lookup j (drain_into ops c st) ≡ elim (lookup j c) [ some v ↦ some v | none ↦ lookup j st ]
  unfolding drain_into
  lookup-drain_into [] st j = refl
  lookup-drain_into ((k, v) ∷ c) st j =
      ground (arith, lookup-insert k v (drain_into ops c st) j, lookup-drain_into c st j)

  -- A stash moves the writes, and no read sees it.
  pub get_bytes_value-stash :
      (s : GeneralServiceState T) (j : Bytes)
      → get_bytes_value ops (stash ops s) j ≡ get_bytes_value ops s j
  unfolding get_bytes_value stash
  get_bytes_value-stash s j = ground (arith, lookup-drain_into s.cache_map s.stash_map j)

  -- The writes of a call, the last one first.
  abbrev pub write_all : List (Bytes × Bytes) → GeneralServiceState T → GeneralServiceState T
  write_all [] s = s
  write_all ((k, v) ∷ ws) s = insert_bytes ops k v (write_all ws s)

  write_all-layers :
      (ws : List (Bytes × Bytes)) (s : GeneralServiceState T)
      → ((write_all ws s).trie ≡ s.trie) × ((write_all ws s).stash_map ≡ s.stash_map)
  unfolding insert_bytes
  write_all-layers [] s = (refl, refl)
  write_all-layers ((k, v) ∷ ws) s = write_all-layers ws s

  -- A call that starts with an empty cache is undone by `revert_cache`, whatever it wrote.
  pub revert_cache-write_all :
      (ws : List (Bytes × Bytes)) (s : GeneralServiceState T)
      → s.cache_map ≡ []
      → revert_cache ops (write_all ws s) ≡ s
  unfolding revert_cache
  revert_cache-write_all ws s clean =
      cc ((write_all-layers ws s).0, (write_all-layers ws s).1, clean)

  get_bytes_value-write_all :
      (ws : List (Bytes × Bytes)) (s : GeneralServiceState T) (j : Bytes)
      → get_bytes_value ops (write_all ws s) j
        ≡ elim (lookup j ws) [ some v ↦ ok (non_empty v) | none ↦ get_bytes_value ops s j ]
  get_bytes_value-write_all [] s j = refl
  get_bytes_value-write_all ((k, v) ∷ ws) s j =
      ground (
        arith,
        get_bytes_value-insert_bytes (write_all ws s) k v j,
        get_bytes_value-write_all ws s j,
      )

  -- A read after the call is stashed gives the last write of the key, none if that is empty, and what
  -- stood there before if the call did not write it.
  pub get_bytes_value-stash_writes :
      (ws : List (Bytes × Bytes)) (s : GeneralServiceState T) (j : Bytes)
      → get_bytes_value ops (stash ops (write_all ws s)) j
        ≡ elim (lookup j ws) [ some v ↦ ok (non_empty v) | none ↦ get_bytes_value ops s j ]
  get_bytes_value-stash_writes ws s j =
      get_bytes_value-stash (write_all ws s) j ∙ get_bytes_value-write_all ws s j

  module _ (law : LawfulTrie ops) where
    insert_next-ok :
        (k v : Bytes) (r : Result (Unit {0}) E) (t : T)
        → (insert_next ops k v (r, t)).0 ≡ ok tt
        → (r ≡ ok tt)
          × ((trie_insert t k v).0 ≡ ok tt)
          × ((insert_next ops k v (r, t)).1 ≡ (trie_insert t k v).1)
    unfolding insert_next
    insert_next-ok k v (err e) t h = cc
    insert_next-ok k v (ok tt) t h = (refl, h, refl)

    insert_all-reads :
        (m : Dict Bytes Bytes) (t : T) (j : Bytes)
        → (insert_all ops m t).0 ≡ ok tt
        → read_trie ops (trie_get ((insert_all ops m t).1) j)
          ≡ elim (lookup j m) [ some v ↦ ok (non_empty v) | none ↦ read_trie ops (trie_get t j) ]
    unfolding insert_all
    insert_all-reads [] t j h = refl
    insert_all-reads ((k, v) ∷ m) t j h =
        let (before, inserted, after) =
          insert_next-ok k v ((insert_all ops m t).0) ((insert_all ops m t).1) h in
        ap (λ x. read_trie ops (trie_get x j)) after
        ∙ law.read_after_insert _ k v j inserted
        ∙ ground (arith, insert_all-reads m t j before)

    commit_trie-ok :
        (s : GeneralServiceState T) (r : Result (Unit {0}) E) (t : T) (root : Hash)
        → (commit_trie ops s (r, t)).0 ≡ ok root
        → (r ≡ ok tt)
          × ((trie_commit t).0 ≡ ok root)
          × ((commit_trie ops s (r, t)).1 ≡ record s { trie = (trie_commit t).1; stash_map = [] })
    unfolding commit_trie
    commit_trie-ok s (err e) t root h = cc
    commit_trie-ok s (ok tt) t root h = (refl, h, refl)

    -- A commit that succeeds moves the writes to the trie, and no read sees it.
    pub get_bytes_value-commit :
        (s : GeneralServiceState T) (root : Hash) (j : Bytes)
        → (commit ops s).0 ≡ ok root
        → get_bytes_value ops ((commit ops s).1) j ≡ get_bytes_value ops s j
    unfolding commit get_bytes_value
    get_bytes_value-commit s root j h =
        let r = insert_all ops s.stash_map s.trie in
        let (inserted, committed, after) = commit_trie-ok s (r.0) (r.1) root h in
        ap (λ x. get_bytes_value ops x j) after
        ∙ ground (
          arith,
          law.read_after_commit (r.1) root j committed,
          insert_all-reads s.stash_map s.trie j inserted,
        )

  module _ {K V : Type 0} (keys : FixedCodec K E) (values : FixedCodec V E) where
    -- A value that its codec gives back, and whose bytes are not none at all, is read after it is
    -- written.
    pub get_value-insert_value :
        (key : K) (v : V) (s : GeneralServiceState T) (key_bytes value_bytes : Bytes)
        → keys.encode_fixed key ≡ ok key_bytes
        → values.encode_fixed v ≡ ok value_bytes
        → values.decode_fixed value_bytes ≡ ok v
        → value_bytes ≢ []
        → (insert_value ops keys values key v s >>= λ s'. get_value ops keys values key s')
          ≡ ok (some v)
    unfolding get_value insert_value decode_value
    get_value-insert_value key v s kb vb ek ev dv full =
        let found : get_bytes_value ops (insert_bytes ops kb vb s) kb ≡ ok (some vb) =
          get_bytes_value-insert_bytes s kb vb kb
          ∙ ground (arith, beq_self kb, non_empty_lem vb full) in
        rw (ek, ev, found, dv) refl
