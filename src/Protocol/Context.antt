-- ===== src/Protocol/Context.antt =====
-- The context that a service call gets (protocol/src/types/service_context.rs) and the events that
-- it emits (protocol/src/types/receipt.rs). The cells that the Rust struct shares (`cycles_used`,
-- `events`, `canceled`) are plain fields, and a call returns the new context.
use muta.Prelude.{
  Bool, List, Option, String, [], false, if◌then◌else◌, is_some, leb, some, true, ℕ, ◌%◌, ◌++◌, ◌+◌,
  ◌∷◌,
}
use muta.Protocol.Primitive.{Address, Bytes, Hash, u64_mod}

pub record Event : Type 0 where
  pub service : String
  pub name : String
  pub message : String

pub record ServiceContext : Type 0 where
  pub tx_hash : Option Hash
  pub nonce : Option Hash
  pub cycles_limit : ℕ
  pub cycles_price : ℕ
  pub cycles_used : ℕ
  pub caller : Address
  pub height : ℕ
  pub service_name : String
  pub service_method : String
  pub service_payload : String
  pub extra : Option Bytes
  pub timestamp : ℕ
  pub events : List Event
  pub canceled_reason : Option String

-- The sum wraps at 64 bits, as in a release build.
unfoldable pub sub_cycles : ServiceContext → ℕ → ServiceContext × Bool
sub_cycles ctx cycles =
    let total = (ctx.cycles_used + cycles) % u64_mod in
    if leb total ctx.cycles_limit then (record ctx { cycles_used = total }, true) else (ctx, false)

abbrev pub emit_event : ServiceContext → String → String → String → ServiceContext
emit_event ctx service name message = record ctx {
  events = ctx.events ++ (record { service = service; name = name; message = message }) ∷ [];
}

abbrev pub cancel : ServiceContext → String → ServiceContext
cancel ctx reason = record ctx { canceled_reason = some reason }

abbrev pub canceled : ServiceContext → Bool
canceled ctx = is_some ctx.canceled_reason
