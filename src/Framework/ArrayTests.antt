-- ===== src/Framework/ArrayTests.antt =====
-- An array in memory that holds the same element twice (framework/src/binding/store/array.rs).
use muta.Prelude.{
  Dict, Option, Result, [], err, insert, length, list_eq, lookup, nat_eq, none, ok, refl, some, ℕ,
  ◌>>=◌, ◌∷◌, ◌≡◌,
}
use muta.Protocol.{Bytes, Hash}
use muta.Framework.State.{
  FixedCodec, TrieOps, decode_value, get_bytes_value, get_value, insert_bytes, insert_value,
  non_empty,
}
use muta.Framework.StoreArray.{
  StoreArray, array_get, array_len, array_push, array_remove, drop_key, remove_at,
}

abbrev memory_ops : TrieOps (Dict Bytes Bytes) ℕ
memory_ops = record {
  trie_get = λ t k. ok (lookup k t);
  trie_insert = λ t k v. (ok tt, insert k v t);
  trie_commit = λ t. (ok (length t), t);
}

abbrev read_byte : Bytes → Result ℕ ℕ
read_byte [] = err 0
read_byte (b ∷ bs) = ok b

abbrev byte_codec : FixedCodec ℕ ℕ
byte_codec = record { encode_fixed = λ b. ok (b ∷ []); decode_fixed = read_byte }

abbrev plain_codec : FixedCodec Bytes ℕ
plain_codec = record { encode_fixed = λ b. ok b; decode_fixed = λ b. ok b }

abbrev first_byte : Bytes → Hash
first_byte [] = 0
first_byte (b ∷ bs) = b

abbrev empty_array : StoreArray (Dict Bytes Bytes)
empty_array = record { keys = []; state = record { trie = []; cache_map = []; stash_map = [] } }

abbrev push_byte : ℕ → StoreArray (Dict Bytes Bytes) → Result (StoreArray (Dict Bytes Bytes)) ℕ
push_byte = array_push memory_ops byte_codec plain_codec byte_codec plain_codec first_byte 255

abbrev remove_byte :
    ℕ → StoreArray (Dict Bytes Bytes) → Option (Result (StoreArray (Dict Bytes Bytes)) ℕ)
remove_byte = array_remove memory_ops byte_codec plain_codec byte_codec plain_codec first_byte 255

abbrev get_byte : ℕ → StoreArray (Dict Bytes Bytes) → Result (Option ℕ) ℕ
get_byte = array_get memory_ops byte_codec plain_codec byte_codec plain_codec first_byte 255

abbrev twice : StoreArray (Dict Bytes Bytes)
twice = elim (push_byte 7 empty_array >>= push_byte 7) [ ok a ↦ a | err e ↦ empty_array ]

abbrev one_removed : StoreArray (Dict Bytes Bytes)
one_removed = elim (remove_byte 1 twice) [
  | none ↦ twice
  | some r ↦ elim r [ ok a ↦ a | err e ↦ twice ]
]

twice-get : (get_byte 0 twice ≡ ok (some 7)) × (get_byte 1 twice ≡ ok (some 7))
unfolding array_get array_push insert_value insert_bytes get_value get_bytes_value decode_value
    non_empty
twice-get = (refl, refl)

one_removed-get :
    (array_len memory_ops byte_codec plain_codec byte_codec plain_codec first_byte 255 one_removed
      ≡ 1)
    × (get_byte 0 one_removed ≡ ok none)
unfolding array_get array_push array_remove remove_at drop_key insert_value insert_bytes get_value
    get_bytes_value decode_value non_empty
one_removed-get = (refl, refl)
