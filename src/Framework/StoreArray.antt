-- ===== src/Framework/StoreArray.antt =====
-- The array of a service (framework/src/binding/store/array.rs): a list of keys under its name, and
-- each element under the digest of its encoding. An error of the state is a panic in the code.
use muta.Prelude.{
  List, Option, Result, [], get_elem?, length, none, ok, some, suc, zero, ℕ, ◌++◌, ◌>>=◌, ◌∷◌,
}
use muta.Protocol.{Bytes, Hash}
use muta.Framework.State.{FixedCodec, GeneralServiceState, TrieOps, get_value, insert_value}

-- The list of keys in memory beside the state. Its codec is that of `FixedKeys`.
pub record StoreArray (T : Type 0) : Type 0 where
  pub keys : List Hash
  pub state : GeneralServiceState T

-- `Vec::remove`: the element, which must be there, and the others.
unfoldable pub remove_at : ℕ → List Hash → Option (Hash × List Hash)
remove_at index [] = none
remove_at zero (k ∷ ks) = some (k, ks)
remove_at (suc i) (k ∷ ks) = elim (remove_at i ks) [
  | none ↦ none
  | some found ↦ some (found.0, k ∷ found.1)
]

module _ {T E A : Type 0} (ops : TrieOps T E) (hashes : FixedCodec Hash E)
    (key_lists : FixedCodec (List Hash) E) (elements : FixedCodec A E) (raw : FixedCodec Bytes E)
    (digest : Bytes → Hash) (var_name : Hash) where
  unfoldable pub array_get : ℕ → StoreArray T → Result (Option A) E
  array_get index a = elim (get_elem? a.keys index) [
    | none ↦ ok none
    | some k ↦ get_value ops hashes elements k a.state
  ]

  unfoldable pub array_push : A → StoreArray T → Result (StoreArray T) E
  array_push elm a = do
    bytes ← elements.encode_fixed elm
    let key = digest bytes
    let keys = a.keys ++ (key ∷ [])
    listed ← insert_value ops hashes key_lists var_name keys a.state
    state ← insert_value ops hashes elements key elm listed
    ok (record { keys = keys; state = state })

  -- The element's entry becomes empty, which stands for none.
  unfoldable pub drop_key : StoreArray T → Hash × List Hash → Result (StoreArray T) E
  drop_key a (key, keys) = do
    listed ← insert_value ops hashes key_lists var_name keys a.state
    state ← insert_value ops hashes raw key [] listed
    ok (record { keys = keys; state = state })

  -- Past the end the code panics.
  unfoldable pub array_remove : ℕ → StoreArray T → Option (Result (StoreArray T) E)
  array_remove index a = elim (remove_at index a.keys) [
    | none ↦ none
    | some found ↦ some (drop_key a found)
  ]

  abbrev pub array_len : StoreArray T → ℕ
  array_len a = length a.keys
