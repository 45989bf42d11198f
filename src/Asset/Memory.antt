-- ===== src/Asset/Memory.antt =====
-- A store in memory that meets the laws of the asset service's SDK.
use muta.Prelude.{
  Dict, Option, [], if◌then◌else◌, insert, is_some, lookup, lookup-insert, nat_beq, nat_eq, none,
  refl, some,
}
use muta.Protocol.{Address, Hash}
use muta.Asset.Types.{Asset, AssetBalance}
use muta.Asset.Sdk.{AssetSdk}

pub record Memory : Type 0 where
  pub assets : Dict Hash Asset
  pub accounts : Address → Hash → Option AssetBalance

abbrev pub no_memory : Memory
no_memory = record { assets = []; accounts = λ u id. none }

abbrev write_account :
    (Address → Hash → Option AssetBalance)
    → Address
    → Hash
    → AssetBalance
    → Address
    → Hash
    → Option AssetBalance
write_account f u id b v j = if nat_beq u v then (if nat_beq id j then some b else f v j) else f v j

abbrev pub memory_sdk : AssetSdk Memory
memory_sdk = record {
  get = λ s id. lookup id s.assets;
  contains = λ s id. is_some (lookup id s.assets);
  insert_asset = λ s id a. record s { assets = insert id a s.assets };
  get_account_value = λ s u id. s.accounts u id;
  set_account_value = λ s u id b. record s { accounts = write_account s.accounts u id b };
  contains-get = λ s id. refl;
  get-insert_asset = λ s id a j. lookup-insert id a s.assets j;
  get_account_value-insert_asset = λ s id a u j. refl;
  get-set_account_value = λ s u id b j. refl;
  get_account_value-set_account_value = λ s u id b v j. refl;
}
