-- ===== src/MultiSig/Tests.antt =====
-- Runs of the multi-signature service on small inputs, and the theorems at them
-- (built-in-services/multi-signature/src/lib.rs).
use mathlib.Core.Path.{subst}
use muta.Prelude.{
  Bool-cases, Dict, List, [], arith, false, inl, inr, insert, leb, length, list_beq, lookup,
  lookup-insert, map, nat_beq, nat_eq, none, not, refl, some, true, unit_default, ℕ, ◌+◌, ◌∷◌, ◌≡◌,
}
use muta.Protocol.{
  Address, Bytes, Crypto, Hash, ServiceContext, address_from_hash, address_from_pubkey, cycles,
  from_succeed, is_error,
}
use muta.MultiSig.Types.{
  Account, AddressWithWeight, MultiSigPermission, UpdateAccountPayload, drop_account, find_account,
  remove_account_from, reweigh, set_weight_in, weight_sum, weight_sum_of,
}
use muta.MultiSig.Sdk.{MultiSigEnv, PermissionSdk, code_of}
use muta.MultiSig.Verify.{
  is_recursion_depth_overflow, overflow_level, signs, verify_level, verify_multi_signature,
  verify_single_signature, weigh,
}
use muta.MultiSig.Service.{
  add_account, add_account_with, change_memo, change_memo_with, change_owner, change_owner_with,
  check_accounts, classify, generate_account, generate_account_body, get_account_from_address,
  owned, remove_account, removed, set_account_weight, set_threshold, set_threshold_with, single,
  update_account, update_with, weighed,
}
use muta.MultiSig.Weights.{IsValid}
use muta.MultiSig.Invariant.{IsSound}
use muta.MultiSig.Run.{Call, run, run_keeps_threshold, write}
use muta.MultiSig.Owner.{write-frame, write-needs_owner}
use muta.MultiSig.Threshold.{signed_weight, verify_level-weight, verify_multi_signature-fuel}
use muta.MultiSig.Classify.{classify-marked, marked, update_account-starved}
use muta.MultiSig.Open.{set_threshold-zero_opens}

-- Permissions in memory.
abbrev Memory : Type 0
Memory = Dict Address MultiSigPermission

abbrev memory_sdk : PermissionSdk Memory
memory_sdk = record {
  get_permission = λ s a. lookup a s;
  set_permission = λ s a p. insert a p s;
  get-set_permission = λ s a p b. lookup-insert a p s b;
}

-- A key of one byte stands for itself, and a signature is valid if it repeats the key.
abbrev crypto : Crypto
crypto = record {
  digest = λ bytes. length bytes;
  digest_hash = λ h. h + 1000;
  compressed_len = 1;
  uncompressed_len = 3;
  uncompress = λ bytes. some (0 ∷ bytes);
  verify_signature = λ h sig pk. list_beq sig pk;
}

abbrev env : MultiSigEnv
env = record {
  crypto = crypto;
  decode_list = λ bytes. some (bytes ∷ []);
  debug = λ t. t;
  default_address = 0;
}

abbrev ctx_of : Address → ServiceContext
ctx_of a = record {
  tx_hash = some 5;
  nonce = none;
  cycles_limit = 100_000;
  cycles_price = 1;
  cycles_used = 0;
  caller = a;
  height = 1;
  service_name = "multi_signature";
  service_method = "";
  service_payload = "";
  extra = none;
  timestamp = 0;
  events = [];
  canceled_reason = none;
}

abbrev member : Address → ℕ → Account
member a w = record { address = a; weight = w; is_multiple = false }

-- Address 9 is a two-out-of-three account that 7 owns.
abbrev shared : MultiSigPermission
shared = record {
  owner = 7;
  accounts = member 1 1 ∷ member 2 1 ∷ member 3 1 ∷ [];
  threshold = 2;
  memo = "";
}

abbrev start : Memory
start = (9, shared) ∷ []

program : Unit {0}
unfolding cycles code_of weight_sum weight_sum_of find_account drop_account remove_account_from
    reweigh set_weight_in check_accounts address_from_hash address_from_pubkey
    verify_single_signature weigh verify_level verify_multi_signature overflow_level
    is_recursion_depth_overflow get_account_from_address classify generate_account_body
    generate_account owned update_with update_account change_owner_with change_owner
    change_memo_with change_memo add_account_with add_account removed remove_account weighed
    set_account_weight set_threshold_with set_threshold write run
program = tt

abbrev signatures : Dict Address (Bytes × Bytes)
signatures = (1, (1 ∷ [], 1 ∷ [])) ∷ (3, (3 ∷ [], 3 ∷ [])) ∷ []

two_sign : is_error (verify_multi_signature memory_sdk env start 5 signatures 8 9 0) ≡ false
unfolding program
two_sign = refl

one_does_not :
    is_error (verify_multi_signature memory_sdk env start 5 ((1, (1 ∷ [], 1 ∷ [])) ∷ []) 8 9 0)
    ≡ true
unfolding program
one_does_not = refl

abbrev calls : List (Call × ServiceContext)
calls =
    (Call.add (record { multi_sig_address = 9; new_account = member 4 200 }), ctx_of 7)
    ∷ (Call.drop (record { multi_sig_address = 9; account_address = 1 }), ctx_of 7)
    ∷ (Call.threshold (record { multi_sig_address = 9; new_threshold = 500 }), ctx_of 7)
    ∷ []

-- The last call asks for more than the weights reach, and is refused.
after_calls :
    run memory_sdk env calls start
    ≡ (9, record shared { accounts = member 2 1 ∷ member 3 1 ∷ member 4 200 ∷ [] }) ∷ []
unfolding program
after_calls = refl

shared-IsValid : IsValid shared
shared-IsValid = omega arith

start-IsSound : IsSound memory_sdk env start
start-IsSound a p e = elim (Bool-cases (nat_beq 9 a)) [
  | inl here ↦ subst IsValid (ground arith) shared-IsValid
  | inr other ↦ absurd (ground arith)
]

run_keeps_threshold_example : IsSound memory_sdk env (run memory_sdk env calls start)
run_keeps_threshold_example =
    run_keeps_threshold memory_sdk env calls start (omega arith, (tt, (tt, tt))) start-IsSound

-- Account 8 does not own 9.
write-needs_owner_example :
    write memory_sdk env
      (Call.note (record { multi_sig_address = 9; new_memo = "mine" }))
      start
      (ctx_of 8)
    ≡ start
write-needs_owner_example =
    write-needs_owner memory_sdk env
      (Call.note (record { multi_sig_address = 9; new_memo = "mine" })) start (ctx_of 8) 9 refl
      (λ o. ground (arith, o.1, o.2))

write-frame_example :
    lookup 6 (
      write memory_sdk env
        (Call.note (record { multi_sig_address = 9; new_memo = "m" }))
        start
        (ctx_of 7))
    ≡ lookup 6 start
write-frame_example =
    write-frame memory_sdk env (Call.note (record { multi_sig_address = 9; new_memo = "m" })) start
      (ctx_of 7) 9 6 refl (omega arith)

verify_level-weight_example :
    is_error (verify_level memory_sdk env start 5 signatures (λ a. from_succeed tt) 9 0)
    ≡ not (
        leb 2 (
          signed_weight (signs memory_sdk env 5 signatures (λ a. from_succeed tt)) shared.accounts))
verify_level-weight_example =
    verify_level-weight memory_sdk env start 5 signatures (λ a. from_succeed tt) 9 0 shared
      (omega arith) refl shared-IsValid (omega arith)

verify_multi_signature-fuel_example :
    verify_multi_signature memory_sdk env start 5 signatures 8 9 0
    ≡ verify_multi_signature memory_sdk env start 5 signatures 20 9 0
verify_multi_signature-fuel_example =
    verify_multi_signature-fuel memory_sdk env start 5 signatures 8 20 9 0 (omega arith)
      (omega arith)

set_threshold-zero_opens_example :
    let o =
      set_threshold memory_sdk env
        (record { multi_sig_address = 9; new_threshold = 0 })
        start
        (ctx_of 7) in
    (is_error o.response ≡ false)
    × ((tx_hash : Hash) (wit_map : Dict Address (Bytes × Bytes))
        → is_error (verify_multi_signature memory_sdk env o.state tx_hash wit_map 8 9 0) ≡ false)
set_threshold-zero_opens_example =
    set_threshold-zero_opens memory_sdk env 9 shared (member 1 1) (member 2 1 ∷ member 3 1 ∷ [])
      start (ctx_of 7) refl refl refl refl

abbrev items : List AddressWithWeight
items = record { address = 9; weight = 3 } ∷ record { address = 2; weight = 4 } ∷ []

classify-marked_example :
    (classify memory_sdk env items start (ctx_of 7)).0 ≡ map (marked memory_sdk env start) items
classify-marked_example =
    classify-marked memory_sdk env items start (ctx_of 7) (omega arith) (omega arith)

-- With 9,999 cycles left address 9, which has a permission, becomes a single account of address 6.
abbrev two_accounts : Memory
two_accounts = (6, record shared { memo = "other" }) ∷ start

abbrev grouped : UpdateAccountPayload
grouped = record {
  account_address = 6;
  owner = 7;
  addr_with_weight = items;
  threshold = 2;
  memo = "grouped";
}

abbrev short_ctx : ServiceContext
short_ctx = record (ctx_of 7) { cycles_limit = 30_999 }

update_account-starved_example :
    update_account memory_sdk env grouped two_accounts short_ctx ≡ record {
      response = from_succeed tt;
      state =
          insert 6
            (record { owner = 7; accounts = map single items; threshold = 2; memo = "grouped" })
            two_accounts;
      context = record short_ctx { cycles_used = 21_000 };
    }
unfolding program
update_account-starved_example =
    update_account-starved memory_sdk env grouped (record shared { memo = "other" }) two_accounts
      short_ctx refl refl refl refl refl refl refl
