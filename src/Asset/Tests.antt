-- ===== src/Asset/Tests.antt =====
-- Runs of the asset service on small inputs, and the theorems at them
-- (built-in-services/asset/src/lib.rs).
use muta.Prelude.{List, [], arith, none, ok, refl, unit_default, ◌∷◌, ◌≡◌}
use muta.Protocol.{Address, Hash, ServiceContext, cycles}
use muta.Asset.Types.{InitGenesisPayload, TransferFromPayload, TransferPayload}
use muta.Asset.Sdk.{AssetEnv}
use muta.Asset.Service.{
  announce, approve, create_as, create_asset, finish, init_genesis, move_value, transfer,
  transfer_from,
}
use muta.Asset.Transfer.{balance_of, move_value_covered, moved}
use muta.Asset.Supply.{IsSound, move_value-no_overflow}
use muta.Asset.Issue.{init_genesis-IsSound}
use muta.Asset.Allowance.{Spends, Wastes, allowed, transfer_from-Spends, transfer_from_refused}
use muta.Asset.Run.{Call, run, run_keeps_supply, write}
use muta.Asset.Memory.{Memory, memory_sdk, no_memory}

abbrev env : AssetEnv
env = record {
  digest = λ t. 7;
  address_to_string = λ a. "caller";
  create_json = λ p. ok "payload";
  asset_json = λ a. ok "asset";
  transfer_json = λ e. ok "transfer";
  approve_json = λ e. ok "approve";
  transfer_from_json = λ e. ok "transfer_from";
  debug = λ t. t;
  default_hash = 0;
  default_address = 0;
}

abbrev ctx_of : Address → ServiceContext
ctx_of a = record {
  tx_hash = none;
  nonce = none;
  cycles_limit = 1_000_000;
  cycles_price = 1;
  cycles_used = 0;
  caller = a;
  height = 1;
  service_name = "asset";
  service_method = "transfer";
  service_payload = "";
  extra = none;
  timestamp = 0;
  events = [];
  canceled_reason = none;
}

abbrev genesis : InitGenesisPayload
genesis = record { id = 5; name = "muta"; symbol = "MT"; supply = 100; issuer = 1 }

-- The state after genesis: account 1 holds 100 of asset 5.
abbrev start : Memory
unfolding init_genesis
start = init_genesis memory_sdk env genesis no_memory

program : Unit {0}
unfolding init_genesis cycles create_as create_asset announce move_value finish transfer approve
    transfer_from write run
program = tt

abbrev payment : TransferPayload
payment = record { asset_id = 5; to = 2; value = 30 }

abbrev spending : TransferFromPayload
spending = record { asset_id = 5; sender = 1; recipient = 3; value = 20 }

-- Account 2 may spend 30 of account 1, spends 20 of it, and then asks for too much.
abbrev calls : List (Call × ServiceContext)
calls =
    (Call.allow payment, ctx_of 1)
    ∷ (Call.send_from spending, ctx_of 2)
    ∷ (Call.send_from spending, ctx_of 2)
    ∷ []

after_calls :
    (balance_of memory_sdk env (run memory_sdk env calls start) 5 1 ≡ 80)
    × (balance_of memory_sdk env (run memory_sdk env calls start) 5 3 ≡ 20)
    × (allowed memory_sdk env (run memory_sdk env calls start) 5 1 2 ≡ 10)
unfolding program
after_calls = (refl, refl, refl)

no_memory-IsSound : IsSound memory_sdk env no_memory
no_memory-IsSound = record {
  unissued = λ id u h. refl;
  bounded = λ id a e. cc;
  small = λ id a e. cc;
}

start-IsSound : IsSound memory_sdk env start
unfolding init_genesis
start-IsSound =
    init_genesis-IsSound memory_sdk env genesis no_memory refl (omega arith) no_memory-IsSound

run_keeps_supply_example : IsSound memory_sdk env (run memory_sdk env calls start)
run_keeps_supply_example =
    run_keeps_supply memory_sdk env calls start (omega arith, (omega arith, (omega arith, tt)))
      start-IsSound

move_value-no_overflow_example : (move_value memory_sdk env 1 2 5 30 start).0 ≡ ok tt
unfolding init_genesis
move_value-no_overflow_example =
    move_value-no_overflow memory_sdk env 1 2 5 30 start start-IsSound refl (omega arith)
      (omega arith)

move_value_covered_example :
    let (r, s') = move_value memory_sdk env 1 2 5 30 start in
    (r ≡ ok tt)
    × ((id : Hash) (u : Address)
        → balance_of memory_sdk env s' id u ≡ moved memory_sdk env 1 2 5 30 start id u)
unfolding init_genesis
move_value_covered_example =
    move_value_covered memory_sdk env 1 2 5 30 start (omega arith) (omega arith) (omega arith)
      (omega arith)

abbrev approved : Memory
unfolding program
approved = (approve memory_sdk env payment start (ctx_of 1)).state

transfer_from-Spends_example :
    Spends memory_sdk env approved 2 1 3 5 20
      (transfer_from memory_sdk env spending approved (ctx_of 2)).state
unfolding program
transfer_from-Spends_example =
    transfer_from-Spends memory_sdk env spending approved (ctx_of 2) (omega arith) refl

-- Account 1 may be charged 30 by account 2, but holds only 20 after paying 80 away.
abbrev payment_80 : TransferPayload
payment_80 = record { asset_id = 5; to = 4; value = 80 }

abbrev spending_30 : TransferFromPayload
spending_30 = record { asset_id = 5; sender = 1; recipient = 3; value = 30 }

abbrev poor : Memory
unfolding program
poor = (transfer memory_sdk env payment_80 approved (ctx_of 1)).state

transfer_from_refused_example :
    Wastes memory_sdk env poor 2 1 5 30
      (transfer_from memory_sdk env spending_30 poor (ctx_of 2)).state
unfolding program
transfer_from_refused_example =
    transfer_from_refused memory_sdk env spending_30 poor (ctx_of 2) refl
