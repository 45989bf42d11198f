-- ===== src/MultiSig/Types.antt =====
-- The stored values and payloads of the multi-signature service
-- (built-in-services/multi-signature/src/types.rs). A weight is a `u8`, a threshold a `u32`.
use muta.Prelude.{
  Bool, List, Option, String, [], if◌then◌else◌, ltb, nat_eq, none, some, ℕ, ◌%◌, ◌++◌, ◌+◌, ◌-◌,
  ◌==◌, ◌∷◌,
}
use muta.Protocol.{Address, Bytes, Hash, u32_mod}

pub record Account : Type 0 where
  pub address : Address
  pub weight : ℕ
  pub is_multiple : Bool

pub record AddressWithWeight : Type 0 where
  pub address : Address
  pub weight : ℕ

pub record MultiSigPermission : Type 0 where
  pub owner : Address
  pub accounts : List Account
  pub threshold : ℕ
  pub memo : String

pub data SetWeightResult : Type 0 where
  success : SetWeightResult
  no_account : SetWeightResult
  invalid_new_weight : SetWeightResult

pub data RemoveAccountResult : Type 0 where
  success : Account → RemoveAccountResult
  no_account : RemoveAccountResult
  below_threshold : RemoveAccountResult

pub record InitGenesisPayload : Type 0 where
  pub address : Address
  pub owner : Address
  pub addr_with_weight : List AddressWithWeight
  pub threshold : ℕ
  pub memo : String

pub record GenerateMultiSigAccountPayload : Type 0 where
  pub owner : Address
  pub autonomy : Bool
  pub addr_with_weight : List AddressWithWeight
  pub threshold : ℕ
  pub memo : String

pub record UpdateAccountPayload : Type 0 where
  pub account_address : Address
  pub owner : Address
  pub addr_with_weight : List AddressWithWeight
  pub threshold : ℕ
  pub memo : String

pub record VerifySignaturePayload : Type 0 where
  pub tx_hash : Hash
  pub pubkeys : List Bytes
  pub signatures : List Bytes
  pub sender : Address

pub record ChangeOwnerPayload : Type 0 where
  pub multi_sig_address : Address
  pub new_owner : Address

pub record ChangeMemoPayload : Type 0 where
  pub multi_sig_address : Address
  pub new_memo : String

pub record AddAccountPayload : Type 0 where
  pub multi_sig_address : Address
  pub new_account : Account

pub record RemoveAccountPayload : Type 0 where
  pub multi_sig_address : Address
  pub account_address : Address

pub record SetAccountWeightPayload : Type 0 where
  pub multi_sig_address : Address
  pub account_address : Address
  pub new_weight : ℕ

pub record SetThresholdPayload : Type 0 where
  pub multi_sig_address : Address
  pub new_threshold : ℕ

-- Arithmetic on `u32`, which wraps.
abbrev pub add_u32 : ℕ → ℕ → ℕ
add_u32 a b = (a + b) % u32_mod

abbrev pub sub_u32 : ℕ → ℕ → ℕ
sub_u32 a b = (a + u32_mod - b) % u32_mod

-- `accounts.iter().map(|account| account.weight as u32).sum::<u32>()`
unfoldable pub weight_sum : List Account → ℕ
weight_sum [] = 0
weight_sum (a ∷ l) = add_u32 a.weight (weight_sum l)

-- The same sum over the addresses of a payload.
unfoldable pub weight_sum_of : List AddressWithWeight → ℕ
weight_sum_of [] = 0
weight_sum_of (a ∷ l) = add_u32 a.weight (weight_sum_of l)

-- The methods of `MultiSigPermission`.
unfoldable pub find_account : Address → List Account → Option Account
find_account addr [] = none
find_account addr (a ∷ l) = if a.address == addr then some a else find_account addr l

unfoldable pub get_account : MultiSigPermission → Address → Option Account
unfolding find_account
get_account p addr = find_account addr p.accounts

abbrev pub set_owner : MultiSigPermission → Address → MultiSigPermission
set_owner p new_owner = record p { owner = new_owner }

abbrev pub set_memo : MultiSigPermission → String → MultiSigPermission
set_memo p new_memo = record p { memo = new_memo }

abbrev pub set_threshold_to : MultiSigPermission → ℕ → MultiSigPermission
set_threshold_to p new_threshold = record p { threshold = new_threshold }

abbrev pub push_account : MultiSigPermission → Account → MultiSigPermission
push_account p a = record p { accounts = p.accounts ++ a ∷ [] }

-- `accounts` without the first entry of the address.
unfoldable pub drop_account : Address → List Account → List Account
drop_account addr [] = []
drop_account addr (a ∷ l) = if a.address == addr then l else a ∷ drop_account addr l

unfoldable pub remove_account_from :
    MultiSigPermission → Address → RemoveAccountResult × MultiSigPermission
unfolding weight_sum find_account drop_account
remove_account_from p addr = elim (find_account addr p.accounts) [
  | none ↦ (no_account, p)
  | some a ↦
      if ltb (sub_u32 (weight_sum p.accounts) a.weight) p.threshold
      then (below_threshold, p)
      else (success a, record p { accounts = drop_account addr p.accounts })
]

-- `accounts` with a new weight at the first entry of the address.
unfoldable pub reweigh : Address → ℕ → List Account → List Account
reweigh addr w [] = []
reweigh addr w (a ∷ l) =
    if a.address == addr then (record a { weight = w }) ∷ l else a ∷ reweigh addr w l

unfoldable pub set_weight_in :
    MultiSigPermission → Address → ℕ → SetWeightResult × MultiSigPermission
unfolding weight_sum find_account reweigh
set_weight_in p addr w = elim (find_account addr p.accounts) [
  | none ↦ (no_account, p)
  | some a ↦
      if ltb (sub_u32 (add_u32 (weight_sum p.accounts) w) a.weight) p.threshold
      then (invalid_new_weight, p)
      else (success, record p { accounts = reweigh addr w p.accounts })
]
