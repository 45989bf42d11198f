-- ===== src/Asset/Run.antt =====
-- The calls that write to the asset service, one after the other: the states that a chain of
-- transactions can reach (built-in-services/asset/src/lib.rs).
use muta.Prelude.{All, List, [], ◌<◌, ◌∷◌}
use muta.Protocol.{ServiceContext, u64_mod}
use muta.Asset.Types.{CreateAssetPayload, TransferFromPayload, TransferPayload}
use muta.Asset.Sdk.{AssetEnv, AssetSdk}
use muta.Asset.Service.{approve, create_asset, transfer, transfer_from}
use muta.Asset.Supply.{IsSound}
use muta.Asset.Operations.{approve-IsSound, transfer-IsSound, transfer_from-IsSound}
use muta.Asset.Issue.{create_asset-IsSound}

-- The methods marked `#[write]`, with their payloads.
pub data Call : Type 0 where
  create : CreateAssetPayload → Call
  send : TransferPayload → Call
  allow : TransferPayload → Call
  send_from : TransferFromPayload → Call

-- The payload's numbers are `u64`.
abbrev pub Fits : Call → Type 0
Fits (create p) = p.supply < u64_mod
Fits (send p) = p.value < u64_mod
Fits (allow p) = p.value < u64_mod
Fits (send_from p) = p.value < u64_mod

module _ {S : Type 0} (sdk : AssetSdk S) (env : AssetEnv) where
  unfoldable pub write : Call → S → ServiceContext → S
  write (create p) s ctx = (create_asset sdk env p s ctx).state
  write (send p) s ctx = (transfer sdk env p s ctx).state
  write (allow p) s ctx = (approve sdk env p s ctx).state
  write (send_from p) s ctx = (transfer_from sdk env p s ctx).state

  unfoldable pub run : List (Call × ServiceContext) → S → S
  run [] s = s
  run ((c, ctx) ∷ calls) s = run calls (write c s ctx)

  write-IsSound :
      (c : Call) (s : S) (ctx : ServiceContext)
      → Fits c
      → IsSound sdk env s
      → IsSound sdk env (write c s ctx)
  unfolding write
  write-IsSound (create p) s ctx f v = create_asset-IsSound sdk env p s ctx f v
  write-IsSound (send p) s ctx f v = transfer-IsSound sdk env p s ctx v
  write-IsSound (allow p) s ctx f v = approve-IsSound sdk env p s ctx v
  write-IsSound (send_from p) s ctx f v = transfer_from-IsSound sdk env p s ctx v

  -- From a sound state, any sequence of calls by any callers, failing ones included, leaves a sound
  -- state: no asset is ever held beyond its supply, and no asset that was not issued is held.
  pub run_keeps_supply :
      (calls : List (Call × ServiceContext)) (s : S)
      → All (λ e. Fits e.0) calls
      → IsSound sdk env s
      → IsSound sdk env (run calls s)
  unfolding run
  run_keeps_supply [] s f v = v
  run_keeps_supply ((c, ctx) ∷ calls) s f v =
      run_keeps_supply calls (write c s ctx) f.1 (write-IsSound c s ctx f.0 v)
