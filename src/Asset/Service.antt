-- ===== src/Asset/Service.antt =====
-- The operations of `AssetService` (built-in-services/asset/src/lib.rs). A call returns its
-- response beside the new state and the new context.
use Prim.Native.String.{◌++◌ as append_text}
use muta.Prelude.{
  Default, Result, String, [], err, get_or, if◌then◌else◌, insert, lookup, ltb, nat_eq, none, not,
  ok, some, unit_default, ℕ, ◌-◌, ◌==◌,
}
use muta.Protocol.{
  Address, Hash, Outcome, ServiceContext, cycles, emit_event, from_error, from_succeed,
  overflowing_add, overflowing_sub,
}
use muta.Asset.Types.{
  Asset, AssetBalance, CreateAssetPayload, GetAllowancePayload, GetAllowanceResponse,
  GetAssetPayload, GetBalancePayload, GetBalanceResponse, InitGenesisPayload, TransferFromPayload,
  TransferPayload, empty_balance,
}
use muta.Asset.Sdk.{AssetEnv, AssetSdk}

abbrev pub asset_service_name : String
asset_service_name = "asset"

module _ {S : Type 0} (sdk : AssetSdk S) (env : AssetEnv) where
  open sdk use {get, contains, insert_asset, get_account_value, set_account_value}
  open env use {
    digest, address_to_string, create_json, asset_json, transfer_json, approve_json,
    transfer_from_json, debug, default_hash, default_address,
  }

  instance abbrev pub asset_default : Default Asset
  asset_default = record {
    default = record {
      id = default_hash;
      name = "";
      symbol = "";
      supply = 0;
      issuer = default_address;
    };
  }

  instance abbrev pub balance_response_default : Default GetBalanceResponse
  balance_response_default = record {
    default = record { asset_id = default_hash; user = default_address; balance = 0 };
  }

  instance abbrev pub allowance_response_default : Default GetAllowanceResponse
  allowance_response_default = record {
    default = record {
      asset_id = default_hash;
      grantor = default_address;
      grantee = default_address;
      value = 0;
    };
  }

  -- `get_account_value(..).unwrap_or(AssetBalance { value: 0, allowance: BTreeMap::new() })`
  abbrev pub balance_or_empty : S → Address → Hash → AssetBalance
  balance_or_empty s u id = get_or (get_account_value s u id) empty_balance

  unfoldable pub init_genesis : InitGenesisPayload → S → S
  init_genesis p s =
      let asset : Asset = record {
        id = p.id;
        name = p.name;
        symbol = p.symbol;
        supply = p.supply;
        issuer = p.issuer;
      } in
      let s' = insert_asset s p.id asset in
      set_account_value s' p.issuer p.id (record { value = p.supply; allowance = [] })

  unfoldable pub get_asset : GetAssetPayload → S → ServiceContext → Outcome S Asset
  get_asset p = cycles 10_000 λ s ctx. elim (get s p.id) [
    | some asset ↦ record { response = from_succeed asset; state = s; context = ctx }
    | none ↦ record { response = from_error 101 "asset id not existed"; state = s; context = ctx }
  ]

  unfoldable pub get_balance : GetBalancePayload → S → ServiceContext → Outcome S GetBalanceResponse
  get_balance p = cycles 10_000 λ s ctx.
      if not (contains s p.asset_id)
      then record { response = from_error 101 "asset id not existed"; state = s; context = ctx }
      else record {
        response = from_succeed (record {
          asset_id = p.asset_id;
          user = p.user;
          balance = (balance_or_empty s p.user p.asset_id).value;
        });
        state = s;
        context = ctx;
      }

  unfoldable pub get_allowance :
      GetAllowancePayload → S → ServiceContext → Outcome S GetAllowanceResponse
  get_allowance p = cycles 10_000 λ s ctx.
      if not (contains s p.asset_id)
      then record { response = from_error 101 "asset id not existed"; state = s; context = ctx }
      else record {
        response = from_succeed (record {
          asset_id = p.asset_id;
          grantor = p.grantor;
          grantee = p.grantee;
          value = elim (get_account_value s p.grantor p.asset_id) [
            | some v ↦ get_or (lookup p.grantee v.allowance) 0
            | none ↦ 0
          ];
        });
        state = s;
        context = ctx;
      }

  -- How `create_asset` ends: the event of the new asset.
  unfoldable pub announce : Asset → Result String String → S → ServiceContext → Outcome S Asset
  announce asset (err e) s ctx = record { response = from_error 103 e; state = s; context = ctx }
  announce asset (ok event_str) s ctx = record {
    response = from_succeed asset;
    state = s;
    context = emit_event ctx asset_service_name "CreateAsset" event_str;
  }

  -- `create_asset` once the payload is a text.
  unfoldable pub create_as :
      CreateAssetPayload → Result String String → S → ServiceContext → Outcome S Asset
  create_as p (err e) s ctx = record { response = from_error 103 e; state = s; context = ctx }
  create_as p (ok payload_str) s ctx =
      let id = digest (append_text payload_str (address_to_string ctx.caller)) in
      if contains s id
      then record { response = from_error 102 "asset id existed"; state = s; context = ctx }
      else let asset : Asset = record {
        id = id;
        name = p.name;
        symbol = p.symbol;
        supply = p.supply;
        issuer = ctx.caller;
      } in
        let s1 = insert_asset s id asset in
        let s2 = set_account_value s1 ctx.caller id (record { value = p.supply; allowance = [] }) in
        announce asset (asset_json asset) s2 ctx

  unfoldable pub create_asset : CreateAssetPayload → S → ServiceContext → Outcome S Asset
  create_asset p = cycles 21_000 (create_as p (create_json p))

  -- `_transfer`: the accounts are written one after the other.
  unfoldable pub move_value : Address → Address → Hash → ℕ → S → Result (Unit {0}) String × S
  move_value sender recipient asset_id value s =
      if recipient == sender
      then (err "cann't send value to yourself", s)
      else let sender_asset_balance = balance_or_empty s sender asset_id in
        let sender_balance = sender_asset_balance.value in
        if ltb sender_balance value
        then (err "insufficient balance", s)
        else let to_asset_balance = balance_or_empty s recipient asset_id in
          let (v, overflow) = overflowing_add to_asset_balance.value value in
          if overflow
          then (err "u64 overflow", s)
          else let s1 =
              set_account_value s recipient asset_id (record to_asset_balance { value = v }) in
            let (w, underflow) = overflowing_sub sender_balance value in
            if underflow then (err "u64 overflow", s1) else (
              ok tt,
              set_account_value s1 sender asset_id (record sender_asset_balance { value = w }),
            )

  -- How `transfer` and `transfer_from` end: the error of `move_value`, or an event.
  unfoldable pub finish :
      Result (Unit {0}) String × S
      → ServiceContext
      → String
      → Result String String
      → Outcome S (Unit {0})
  finish (err e, s) ctx name json = record {
    response = from_error 106 (debug e);
    state = s;
    context = ctx;
  }
  finish (ok _, s) ctx name (err e) = record {
    response = from_error 103 e;
    state = s;
    context = ctx;
  }
  finish (ok _, s) ctx name (ok event_str) = record {
    response = from_succeed tt;
    state = s;
    context = emit_event ctx asset_service_name name event_str;
  }

  unfoldable pub transfer : TransferPayload → S → ServiceContext → Outcome S (Unit {0})
  transfer p = cycles 21_000 λ s ctx.
      if not (contains s p.asset_id)
      then record { response = from_error 101 "asset id not existed"; state = s; context = ctx }
      else finish (move_value ctx.caller p.to p.asset_id p.value s) ctx "TransferAsset" (
          transfer_json
            (record { asset_id = p.asset_id; from = ctx.caller; to = p.to; value = p.value }))

  unfoldable pub approve : TransferPayload → S → ServiceContext → Outcome S (Unit {0})
  approve p = cycles 21_000 λ s ctx.
      if ctx.caller == p.to
      then record {
        response = from_error 104 "cann't approve to yourself";
        state = s;
        context = ctx;
      }
      else if not (contains s p.asset_id)
      then record { response = from_error 101 "asset id not existed"; state = s; context = ctx }
      else let caller_balance = balance_or_empty s ctx.caller p.asset_id in
        let approved = record caller_balance {
          allowance = insert p.to p.value caller_balance.allowance;
        } in
        finish (ok tt, set_account_value s ctx.caller p.asset_id approved) ctx "ApproveAsset"
          (approve_json (record {
            asset_id = p.asset_id;
            grantor = ctx.caller;
            grantee = p.to;
            value = p.value;
          }))

  unfoldable pub transfer_from : TransferFromPayload → S → ServiceContext → Outcome S (Unit {0})
  transfer_from p = cycles 21_000 λ s ctx.
      if not (contains s p.asset_id)
      then record { response = from_error 101 "asset id not existed"; state = s; context = ctx }
      else let sender_balance = balance_or_empty s p.sender p.asset_id in
        let sender_allowance = get_or (lookup ctx.caller sender_balance.allowance) 0 in
        if ltb sender_allowance p.value
        then record { response = from_error 105 "insufficient balance"; state = s; context = ctx }
        else let charged = record sender_balance {
          allowance = insert ctx.caller (sender_allowance - p.value) sender_balance.allowance;
        } in
          let s1 = set_account_value s p.sender p.asset_id charged in
          finish (move_value p.sender p.recipient p.asset_id p.value s1) ctx "TransferFrom" (
            transfer_from_json (record {
              asset_id = p.asset_id;
              caller = ctx.caller;
              sender = p.sender;
              recipient = p.recipient;
              value = p.value;
            }))
