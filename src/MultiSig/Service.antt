-- ===== src/MultiSig/Service.antt =====
-- The operations of `MultiSignatureService` that write
-- (built-in-services/multi-signature/src/lib.rs).
use muta.Prelude.{
  Bool, Default, List, Option, [], any, false, if◌then◌else◌, length, ltb, map, nat_eq, none, not,
  some, unit_default, ℕ, ◌==◌, ◌||◌, ◌∷◌,
}
use muta.Protocol.{
  Address, Outcome, ServiceContext, address_from_hash, cycles, from_succeed, is_error,
}
use muta.MultiSig.Types.{
  Account, AddAccountPayload, AddressWithWeight, ChangeMemoPayload, ChangeOwnerPayload,
  GenerateMultiSigAccountPayload, InitGenesisPayload, MultiSigPermission, RemoveAccountPayload,
  RemoveAccountResult, SetAccountWeightPayload, SetThresholdPayload, SetWeightResult,
  UpdateAccountPayload, below_threshold, invalid_new_weight, push_account, remove_account_from,
  set_memo, set_owner, set_threshold_to, set_weight_in, weight_sum, weight_sum_of,
}
use muta.MultiSig.Sdk.{
  MultiSigEnv, PermissionSdk, ServiceError, above_max_recursion_depth,
  account_count_reach_max_value, account_not_exist, account_self_contained, ctx_missing_tx_hash,
  fail, generate_address_failed, invalid_account_length, invalid_account_weights, invalid_owner,
  max_permission_accounts,
}
use muta.MultiSig.Verify.{depth_overflow}

-- The checks on the accounts of a payload, in the order of the code.
unfoldable pub check_accounts : List AddressWithWeight → ℕ → Option ServiceError
check_accounts l threshold =
    if length l == 0 || ltb max_permission_accounts (length l)
    then some invalid_account_length
    else if threshold == 0 || ltb (weight_sum_of l) threshold
    then some invalid_account_weights
    else none

-- At genesis every account of the payload is single.
abbrev pub single : AddressWithWeight → Account
single item = record { address = item.address; weight = item.weight; is_multiple = false }

module _ {S : Type 0} (sdk : PermissionSdk S) (env : MultiSigEnv) where
  open sdk use {get_permission, set_permission}

  instance abbrev pub account_default : Default Account
  account_default = record {
    default = record { address = env.default_address; weight = 0; is_multiple = false };
  }

  instance abbrev pub address_default : Default Address
  address_default = record { default = env.default_address }

  instance abbrev pub permission_default : Default MultiSigPermission
  permission_default = record {
    default = record { owner = env.default_address; accounts = []; threshold = 0; memo = "" };
  }

  -- `none` is a panic of the genesis.
  unfoldable pub init_genesis : InitGenesisPayload → S → Option S
  unfolding check_accounts
  init_genesis p s = elim (check_accounts p.addr_with_weight p.threshold) [
    | some e ↦ none
    | none ↦ some (
        set_permission s p.address (record {
          owner = p.owner;
          accounts = map single p.addr_with_weight;
          threshold = p.threshold;
          memo = p.memo;
        }))
  ]

  -- A response that leaves the state alone.
  abbrev pub refuse {ℓ} :
      {T : Type ℓ} ⦃d : Default T⦄ → ServiceError → S → ServiceContext → Outcome S T
  refuse e s ctx = record { response = fail env e; state = s; context = ctx }

  unfoldable pub get_account_from_address :
      Address → S → ServiceContext → Outcome S MultiSigPermission
  get_account_from_address addr = cycles 10_000 λ s ctx. elim (get_permission s addr) [
    | some p ↦ record { response = from_succeed p; state = s; context = ctx }
    | none ↦ refuse account_not_exist s ctx
  ]

  -- The accounts of a new permission. Whether an address has a permission is asked of
  -- `get_account_from_address`, a call that costs cycles.
  unfoldable pub classify :
      List AddressWithWeight → S → ServiceContext → List Account × ServiceContext
  classify [] s ctx = ([], ctx)
  classify (item ∷ l) s ctx =
      let o = get_account_from_address item.address s ctx in
      let (accounts, ctx') = classify l s o.context in
      (
        record {
          address = item.address;
          weight = item.weight;
          is_multiple = not (is_error o.response);
        }
            ∷ accounts,
        ctx',
      )

  abbrev pub any_overflow : List AddressWithWeight → S → Bool
  any_overflow l s = any (λ item. depth_overflow sdk env s item.address 0) l

  -- `generate_account`; the response holds the new address.
  unfoldable pub generate_account_body :
      GenerateMultiSigAccountPayload → S → ServiceContext → Outcome S Address
  generate_account_body p s ctx = elim (check_accounts p.addr_with_weight p.threshold) [
    | some e ↦ refuse e s ctx
    | none ↦
        if any_overflow p.addr_with_weight s
        then refuse above_max_recursion_depth s ctx
        else elim ctx.tx_hash [
          | none ↦ refuse ctx_missing_tx_hash s ctx
          | some tx_hash ↦ elim (address_from_hash (env.crypto.digest_hash tx_hash)) [
            | none ↦ refuse generate_address_failed s ctx
            | some address ↦
                let (accounts, ctx') = classify p.addr_with_weight s ctx in
                record {
                  response = from_succeed address;
                  state = set_permission s address (record {
                    owner = if p.autonomy then address else p.owner;
                    accounts = accounts;
                    threshold = p.threshold;
                    memo = p.memo;
                  });
                  context = ctx';
                }
          ]
        ]
  ]

  unfoldable pub generate_account :
      GenerateMultiSigAccountPayload → S → ServiceContext → Outcome S Address
  generate_account p = cycles 21_000 (generate_account_body p)

  -- How every change of a permission begins: it exists, and the caller owns it.
  unfoldable pub owned {ℓ} :
      {T : Type ℓ} ⦃d : Default T⦄
      → Address
      → (MultiSigPermission → S → ServiceContext → Outcome S T)
      → S
      → ServiceContext
      → Outcome S T
  owned addr change s ctx = elim (get_permission s addr) [
    | none ↦ refuse account_not_exist s ctx
    | some p ↦ if not (ctx.caller == p.owner) then refuse invalid_owner s ctx else change p s ctx
  ]

  -- A change that stores a permission and returns.
  abbrev pub store {ℓ} :
      {T : Type ℓ} → Address → MultiSigPermission → T → S → ServiceContext → Outcome S T
  store addr p t s ctx = record {
    response = from_succeed t;
    state = set_permission s addr p;
    context = ctx;
  }

  abbrev pub contains_itself : UpdateAccountPayload → Bool
  contains_itself p = any (λ item. item.address == p.account_address) p.addr_with_weight

  unfoldable pub update_with :
      UpdateAccountPayload → MultiSigPermission → S → ServiceContext → Outcome S (Unit {0})
  update_with p old s ctx =
      if contains_itself p
      then refuse account_self_contained s ctx
      else elim (check_accounts p.addr_with_weight p.threshold) [
        | some e ↦ refuse e s ctx
        | none ↦
            if any_overflow p.addr_with_weight s
            then refuse above_max_recursion_depth s ctx
            else let (accounts, ctx') = classify p.addr_with_weight s ctx in
              store p.account_address
                (record {
                  owner = p.owner;
                  accounts = accounts;
                  threshold = p.threshold;
                  memo = p.memo;
                })
                tt s ctx'
      ]

  unfoldable pub update_account : UpdateAccountPayload → S → ServiceContext → Outcome S (Unit {0})
  update_account p = cycles 21_000 (owned p.account_address (update_with p))

  unfoldable pub change_owner_with :
      ChangeOwnerPayload → MultiSigPermission → S → ServiceContext → Outcome S (Unit {0})
  change_owner_with p old s ctx =
      if depth_overflow sdk env s p.new_owner 0
      then refuse above_max_recursion_depth s ctx
      else store p.multi_sig_address (set_owner old p.new_owner) tt s ctx

  unfoldable pub change_owner : ChangeOwnerPayload → S → ServiceContext → Outcome S (Unit {0})
  change_owner p = cycles 21_000 (owned p.multi_sig_address (change_owner_with p))

  unfoldable pub change_memo_with :
      ChangeMemoPayload → MultiSigPermission → S → ServiceContext → Outcome S (Unit {0})
  change_memo_with p old s ctx = store p.multi_sig_address (set_memo old p.new_memo) tt s ctx

  unfoldable pub change_memo : ChangeMemoPayload → S → ServiceContext → Outcome S (Unit {0})
  change_memo p = cycles 21_000 (owned p.multi_sig_address (change_memo_with p))

  unfoldable pub add_account_with :
      AddAccountPayload → MultiSigPermission → S → ServiceContext → Outcome S (Unit {0})
  add_account_with p old s ctx =
      if length old.accounts == max_permission_accounts
      then refuse account_count_reach_max_value s ctx
      else if depth_overflow sdk env s p.new_account.address 1
      then refuse above_max_recursion_depth s ctx
      else store p.multi_sig_address (push_account old p.new_account) tt s ctx

  unfoldable pub add_account : AddAccountPayload → S → ServiceContext → Outcome S (Unit {0})
  add_account p = cycles 21_000 (owned p.multi_sig_address (add_account_with p))

  -- What `remove_account` makes of the permission's answer.
  unfoldable pub removed :
      Address → RemoveAccountResult × MultiSigPermission → S → ServiceContext → Outcome S Account
  removed addr (RemoveAccountResult.success ret, p) s ctx = store addr p ret s ctx
  removed addr (below_threshold, p) s ctx = refuse invalid_account_weights s ctx
  removed addr (RemoveAccountResult.no_account, p) s ctx = refuse account_not_exist s ctx

  unfoldable pub remove_account : RemoveAccountPayload → S → ServiceContext → Outcome S Account
  remove_account p = cycles 21_000 (
      owned p.multi_sig_address
        λ old. removed p.multi_sig_address (remove_account_from old p.account_address))

  unfoldable pub weighed :
      Address → SetWeightResult × MultiSigPermission → S → ServiceContext → Outcome S (Unit {0})
  weighed addr (SetWeightResult.success, p) s ctx = store addr p tt s ctx
  weighed addr (invalid_new_weight, p) s ctx = refuse invalid_account_weights s ctx
  weighed addr (SetWeightResult.no_account, p) s ctx = refuse account_not_exist s ctx

  unfoldable pub set_account_weight :
      SetAccountWeightPayload → S → ServiceContext → Outcome S (Unit {0})
  set_account_weight p = cycles 21_000 (
      owned p.multi_sig_address
        λ old. weighed p.multi_sig_address (set_weight_in old p.account_address p.new_weight))

  unfoldable pub set_threshold_with :
      SetThresholdPayload → MultiSigPermission → S → ServiceContext → Outcome S (Unit {0})
  set_threshold_with p old s ctx =
      if ltb (weight_sum old.accounts) p.new_threshold
      then refuse invalid_account_weights s ctx
      else store p.multi_sig_address (set_threshold_to old p.new_threshold) tt s ctx

  unfoldable pub set_threshold : SetThresholdPayload → S → ServiceContext → Outcome S (Unit {0})
  set_threshold p = cycles 21_000 (owned p.multi_sig_address (set_threshold_with p))
