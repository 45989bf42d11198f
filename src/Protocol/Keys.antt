-- ===== src/Protocol/Keys.antt =====
-- Addresses from hashes and public keys (protocol/src/types/primitive.rs), over the cryptography
-- that the program links: Keccak and secp256k1.
use muta.Prelude.{
  Bool, Option, [], if◌then◌else◌, length, nat_eq, none, some, ℕ, ◌%◌, ◌==◌, ◌^◌, ◌∷◌,
}
use muta.Protocol.Primitive.{Address, Bytes, Hash}

pub record Crypto : Type 0 where
  -- `Hash::digest` of a byte string, and of the bytes of a hash
  pub digest : Bytes → Hash
  pub digest_hash : Hash → Hash
  -- `Secp256k1PublicKey::try_from` and `to_uncompressed_bytes`
  pub compressed_len : ℕ
  pub uncompressed_len : ℕ
  pub uncompress : Bytes → Option Bytes
  -- `Secp256k1::verify_signature(hash, signature, public key).is_ok()`
  pub verify_signature : Hash → Bytes → Bytes → Bool

-- `Address::from_hash`: the last 20 bytes. The length checks pass for the 32 bytes of a hash.
unfoldable pub address_from_hash : Hash → Option Address
address_from_hash hash = some (hash % 2 ^ 160)

abbrev pub drop_first : Bytes → Bytes
drop_first [] = []
drop_first (b ∷ bytes) = bytes

-- `Address::from_pubkey_bytes`
unfoldable pub address_from_pubkey : Crypto → Bytes → Option Address
unfolding address_from_hash
address_from_pubkey c bytes =
    if length bytes == c.compressed_len
    then elim (c.uncompress bytes) [
      | none ↦ none
      | some full ↦ address_from_hash (c.digest (drop_first full))
    ]
    else if length bytes == c.uncompressed_len
    then address_from_hash (c.digest (drop_first bytes))
    else none
