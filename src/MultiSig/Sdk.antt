-- ===== src/MultiSig/Sdk.antt =====
-- What the multi-signature service asks of its SDK: one permission at an address (the account
-- value under the key `0u8`, framework/src/binding/sdk/mod.rs). Its errors, with their codes
-- (built-in-services/multi-signature/src/lib.rs).
use Prim.Native.String.{◌++◌ as append_text}
use muta.Prelude.{Default, List, Option, String, arith, if◌then◌else◌, nat_beq, some, ℕ, ◌<◌, ◌≡◌}
use muta.Protocol.{Address, Bytes, Crypto, ServiceResponse, from_error}
use muta.MultiSig.Types.{MultiSigPermission}

pub record PermissionSdk (S : Type 0) : Type 0 where
  pub get_permission : S → Address → Option MultiSigPermission
  pub set_permission : S → Address → MultiSigPermission → S
  pub get-set_permission :
      (s : S) (a : Address) (p : MultiSigPermission) (b : Address)
      → get_permission (set_permission s a p) b
        ≡ (if nat_beq a b then some p else get_permission s b)

pub record MultiSigEnv : Type 0 where
  pub crypto : Crypto
  -- `rlp::Rlp::new(bytes).as_list::<Vec<u8>>()`
  pub decode_list : Bytes → Option (List Bytes)
  -- `format!("{:?}", e)` of a text
  pub debug : String → String
  -- `Address::default()`
  pub default_address : Address

abbrev pub max_recursion_depth : ℕ
max_recursion_depth = 8

abbrev pub max_permission_accounts : ℕ
max_permission_accounts = 16

pub data ServiceError : Type 0 where
  decode_err : String → ServiceError
  invalid_account_length : ServiceError
  invalid_account_weights : ServiceError
  above_max_recursion_depth : ServiceError
  ctx_missing_tx_hash : ServiceError
  generate_address_failed : ServiceError
  account_not_exist : ServiceError
  invalid_owner : ServiceError
  account_self_contained : ServiceError
  account_count_reach_max_value : ServiceError
  pubkey_and_signature_mismatch : ServiceError
  invalid_public_key : ServiceError
  verify_multi_signature_failed : ServiceError

unfoldable pub code_of : ServiceError → ℕ
code_of (decode_err _) = 101
code_of invalid_account_length = 102
code_of invalid_account_weights = 103
code_of above_max_recursion_depth = 104
code_of ctx_missing_tx_hash = 105
code_of generate_address_failed = 106
code_of account_not_exist = 107
code_of invalid_owner = 108
code_of account_self_contained = 109
code_of account_count_reach_max_value = 110
code_of pubkey_and_signature_mismatch = 111
code_of invalid_public_key = 112
code_of verify_multi_signature_failed = 113

module _ (env : MultiSigEnv) where
  -- The `Display` text of an error.
  unfoldable pub display : ServiceError → String
  display (decode_err text) = append_text "Decode " (append_text (env.debug text) " error")
  display invalid_account_length = "accounts length must be [1,16]"
  display invalid_account_weights = "accounts weight or threshold not valid"
  display above_max_recursion_depth = "above max recursion depth"
  display ctx_missing_tx_hash = "Can not get tx hash from service context"
  display generate_address_failed = "generate address from tx_hash failed"
  display account_not_exist = "account is not existed"
  display invalid_owner = "invalid owner"
  display account_self_contained = "account can not contain itself"
  display account_count_reach_max_value = "the account count reach max value"
  display pubkey_and_signature_mismatch = "pubkkeys len is not equal to signatures len"
  display invalid_public_key = "invalid public key"
  display verify_multi_signature_failed = "multi signature verified failed"

  -- `impl From<ServiceError> for ServiceResponse<T>`
  abbrev pub fail {ℓ} : {T : Type ℓ} ⦃d : Default T⦄ → ServiceError → ServiceResponse T
  fail e = from_error (code_of e) (display e)

-- No error reads as a success.
pub code_of-pos : (e : ServiceError) → 0 < code_of e
unfolding code_of
code_of-pos (decode_err _) = omega arith
code_of-pos _ = omega arith
