-- ===== src/Asset/Types.antt =====
-- The payloads, events and stored values of the asset service
-- (built-in-services/asset/src/types.rs).
use muta.Prelude.{Dict, String, [], ℕ}
use muta.Protocol.{Address, Hash}

pub record InitGenesisPayload : Type 0 where
  pub id : Hash
  pub name : String
  pub symbol : String
  pub supply : ℕ
  pub issuer : Address

pub record CreateAssetPayload : Type 0 where
  pub name : String
  pub symbol : String
  pub supply : ℕ

pub record GetAssetPayload : Type 0 where
  pub id : Hash

-- `ApprovePayload` is the same type.
pub record TransferPayload : Type 0 where
  pub asset_id : Hash
  pub to : Address
  pub value : ℕ

pub record TransferEvent : Type 0 where
  pub asset_id : Hash
  pub from : Address
  pub to : Address
  pub value : ℕ

pub record ApproveEvent : Type 0 where
  pub asset_id : Hash
  pub grantor : Address
  pub grantee : Address
  pub value : ℕ

pub record TransferFromPayload : Type 0 where
  pub asset_id : Hash
  pub sender : Address
  pub recipient : Address
  pub value : ℕ

pub record TransferFromEvent : Type 0 where
  pub asset_id : Hash
  pub caller : Address
  pub sender : Address
  pub recipient : Address
  pub value : ℕ

pub record GetBalancePayload : Type 0 where
  pub asset_id : Hash
  pub user : Address

pub record GetBalanceResponse : Type 0 where
  pub asset_id : Hash
  pub user : Address
  pub balance : ℕ

pub record GetAllowancePayload : Type 0 where
  pub asset_id : Hash
  pub grantor : Address
  pub grantee : Address

pub record GetAllowanceResponse : Type 0 where
  pub asset_id : Hash
  pub grantor : Address
  pub grantee : Address
  pub value : ℕ

pub record Asset : Type 0 where
  pub id : Hash
  pub name : String
  pub symbol : String
  pub supply : ℕ
  pub issuer : Address

pub record AssetBalance : Type 0 where
  pub value : ℕ
  pub allowance : Dict Address ℕ

-- What the service takes for an account that holds nothing.
abbrev pub empty_balance : AssetBalance
empty_balance = record { value = 0; allowance = [] }
