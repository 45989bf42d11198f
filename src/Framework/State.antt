-- ===== src/Framework/State.antt =====
-- The state of a service: a trie under two layers of writes (framework/src/binding/state/mod.rs).
-- `cache_map` holds the writes of the call that runs, `stash_map` the ones of the calls that ended.
use muta.Prelude.{
  Bool, Dict, Option, Result, [], err, insert, is_some, list_eq, lookup, nat_eq, none, ok, some,
  ◌++◌, ◌>>=◌, ◌∷◌,
}
use muta.Protocol.{Address, Bytes, Hash}

-- The trie of the library `cita_trie` over a database, which can fail: an operation returns its
-- result beside the trie that it leaves.
pub record TrieOps (T E : Type 0) : Type 0 where
  pub trie_get : T → Bytes → Result (Option Bytes) E
  pub trie_insert : T → Bytes → Bytes → Result (Unit {0}) E × T
  pub trie_commit : T → Result Hash E × T

-- `FixedCodec` of a type.
pub record FixedCodec (A E : Type 0) : Type 0 where
  pub encode_fixed : A → Result Bytes E
  pub decode_fixed : Bytes → Result A E

pub record GeneralServiceState (T : Type 0) : Type 0 where
  pub trie : T
  pub cache_map : Dict Bytes Bytes
  pub stash_map : Dict Bytes Bytes

-- An empty value stands for none.
unfoldable pub non_empty : Bytes → Option Bytes
non_empty [] = none
non_empty (b ∷ bs) = some (b ∷ bs)

module _ {T E : Type 0} (ops : TrieOps T E) where
  open ops use {trie_get, trie_insert, trie_commit}

  abbrev pub new_state : T → GeneralServiceState T
  new_state trie = record { trie = trie; cache_map = []; stash_map = [] }

  unfoldable pub read_trie : Result (Option Bytes) E → Result (Option Bytes) E
  read_trie (err e) = err e
  read_trie (ok none) = ok none
  read_trie (ok (some value_bytes)) = ok (non_empty value_bytes)

  unfoldable pub get_bytes_value : GeneralServiceState T → Bytes → Result (Option Bytes) E
  get_bytes_value s key = elim (lookup key s.cache_map) [
    | some value_bytes ↦ ok (non_empty value_bytes)
    | none ↦ elim (lookup key s.stash_map) [
      | some value_bytes ↦ ok (non_empty value_bytes)
      | none ↦ read_trie (trie_get s.trie key)
    ]
  ]

  -- `insert`, once the key and the value are bytes.
  unfoldable pub insert_bytes : Bytes → Bytes → GeneralServiceState T → GeneralServiceState T
  insert_bytes key value s = record s { cache_map = insert key value s.cache_map }

  unfoldable pub revert_cache : GeneralServiceState T → GeneralServiceState T
  revert_cache s = record s { cache_map = [] }

  -- The entries of the cache go into the stash. No key stands twice in the cache, so the order in
  -- which they go does not show.
  unfoldable pub drain_into : Dict Bytes Bytes → Dict Bytes Bytes → Dict Bytes Bytes
  drain_into [] stash_map = stash_map
  drain_into ((k, v) ∷ cache_map) stash_map = insert k v (drain_into cache_map stash_map)

  unfoldable pub stash : GeneralServiceState T → GeneralServiceState T
  stash s = record s { cache_map = []; stash_map = drain_into s.cache_map s.stash_map }

  -- One entry, if the ones before went in.
  unfoldable pub insert_next : Bytes → Bytes → Result (Unit {0}) E × T → Result (Unit {0}) E × T
  insert_next k v (err e, trie) = (err e, trie)
  insert_next k v (ok _, trie) = trie_insert trie k v

  -- The loop of `commit` stops at the first failure. The last entry goes first, as above.
  unfoldable pub insert_all : Dict Bytes Bytes → T → Result (Unit {0}) E × T
  insert_all [] trie = (ok tt, trie)
  insert_all ((k, v) ∷ stash_map) trie = insert_next k v (insert_all stash_map trie)

  -- `commit` after its loop. Whatever the loop did, the stash is drained.
  unfoldable pub commit_trie :
      GeneralServiceState T → Result (Unit {0}) E × T → Result Hash E × GeneralServiceState T
  commit_trie s (err e, trie) = (err e, record s { trie = trie; stash_map = [] })
  commit_trie s (ok _, trie) =
      let (root, trie') = trie_commit trie in (root, record s { trie = trie'; stash_map = [] })

  unfoldable pub commit : GeneralServiceState T → Result Hash E × GeneralServiceState T
  commit s = commit_trie s (insert_all s.stash_map s.trie)

  module _ {K V : Type 0} (keys : FixedCodec K E) (values : FixedCodec V E) where
    -- `get`, once the bytes are read.
    unfoldable pub decode_value : Option Bytes → Result (Option V) E
    decode_value none = ok none
    decode_value (some value_bytes) = do inst ← values.decode_fixed value_bytes; ok (some inst)

    unfoldable pub get_value : K → GeneralServiceState T → Result (Option V) E
    get_value key s = do
      encoded_key ← keys.encode_fixed key
      found ← get_bytes_value s encoded_key
      decode_value found

    unfoldable pub contains_value : K → GeneralServiceState T → Result Bool E
    contains_value key s = do
      encoded_key ← keys.encode_fixed key
      found ← get_bytes_value s encoded_key
      ok (is_some found)

    -- A failed encoding leaves the state as it is.
    unfoldable pub insert_value : K → V → GeneralServiceState T → Result (GeneralServiceState T) E
    insert_value key value s = do
      encoded_key ← keys.encode_fixed key
      encoded_value ← values.encode_fixed value
      ok (insert_bytes encoded_key encoded_value s)

  -- The hash of the bytes of the address and of the key.
  unfoldable pub get_address_key :
      {K : Type 0}
      → FixedCodec K E
      → (Bytes → Hash)
      → (Address → Bytes)
      → Address
      → K
      → Result Hash E
  get_address_key keys digest address_bytes address key = do
    key_bytes ← keys.encode_fixed key
    ok (digest (address_bytes address ++ key_bytes))

  module _ {K V : Type 0} (keys : FixedCodec K E) (hashes : FixedCodec Hash E)
      (values : FixedCodec V E) (digest : Bytes → Hash) (address_bytes : Address → Bytes) where
    unfoldable pub get_account_value : Address → K → GeneralServiceState T → Result (Option V) E
    get_account_value address key s = do
      hash_key ← get_address_key keys digest address_bytes address key
      get_value hashes values hash_key s

    unfoldable pub set_account_value :
        Address → K → V → GeneralServiceState T → Result (GeneralServiceState T) E
    set_account_value address key val s = do
      hash_key ← get_address_key keys digest address_bytes address key
      insert_value hashes values hash_key val s
