-- ===== src/Asset/Sdk.antt =====
-- What the asset service asks of its SDK: the map `assets` and the values stored at an account
-- (framework/src/binding/sdk/mod.rs), over a state `S`, with the laws of a store. And what it asks
-- of libraries: hashing, the JSON of a value, the text of an address.
use muta.Prelude.{Bool, Option, Result, String, if◌then◌else◌, is_some, nat_beq, some, ◌≡◌}
use muta.Protocol.{Address, Hash}
use muta.Asset.Types.{
  ApproveEvent, Asset, AssetBalance, CreateAssetPayload, TransferEvent, TransferFromEvent,
}

pub record AssetSdk (S : Type 0) : Type 0 where
  pub get : S → Hash → Option Asset
  pub contains : S → Hash → Bool
  pub insert_asset : S → Hash → Asset → S
  pub get_account_value : S → Address → Hash → Option AssetBalance
  pub set_account_value : S → Address → Hash → AssetBalance → S
  pub contains-get : (s : S) (id : Hash) → contains s id ≡ is_some (get s id)
  pub get-insert_asset :
      (s : S) (id : Hash) (a : Asset) (j : Hash)
      → get (insert_asset s id a) j ≡ (if nat_beq id j then some a else get s j)
  pub get_account_value-insert_asset :
      (s : S) (id : Hash) (a : Asset) (u : Address) (j : Hash)
      → get_account_value (insert_asset s id a) u j ≡ get_account_value s u j
  pub get-set_account_value :
      (s : S) (u : Address) (id : Hash) (b : AssetBalance) (j : Hash)
      → get (set_account_value s u id b) j ≡ get s j
  pub get_account_value-set_account_value :
      (s : S) (u : Address) (id : Hash) (b : AssetBalance) (v : Address) (j : Hash)
      → get_account_value (set_account_value s u id b) v j ≡ (
          if nat_beq u v
          then (if nat_beq id j then some b else get_account_value s v j)
          else get_account_value s v j)

pub record AssetEnv : Type 0 where
  pub digest : String → Hash
  pub address_to_string : Address → String
  -- `serde_json::to_string`, with the error printed by `{:?}`
  pub create_json : CreateAssetPayload → Result String String
  pub asset_json : Asset → Result String String
  pub transfer_json : TransferEvent → Result String String
  pub approve_json : ApproveEvent → Result String String
  pub transfer_from_json : TransferFromEvent → Result String String
  -- `format!("{:?}", e)` of a text
  pub debug : String → String
  -- `Hash::default()` and `Address::default()`
  pub default_hash : Hash
  pub default_address : Address
