-- ===== src/Asset/Operations.antt =====
-- Every operation of the asset service keeps the supply of every asset
-- (built-in-services/asset/src/lib.rs).
use muta.Prelude.{
  Dict, Result, String, ap, arith, err, get_or, if_cases, is_some, lookup, ltb, nat_beq, nat_eq,
  not, ok, refl, sym, ℕ, ◌∙◌, ◌≡◌,
}
use muta.Protocol.{Address, Hash, Outcome, ServiceContext, cycles_cases}
use muta.Asset.Types.{AssetBalance, TransferFromPayload, TransferPayload}
use muta.Asset.Sdk.{AssetEnv, AssetSdk}
use muta.Asset.Service.{approve, balance_or_empty, finish, transfer, transfer_from}
use muta.Asset.Transfer.{allowance_of}
use muta.Asset.Supply.{IsSound, IsSound-same, move_value-IsSound}

module _ {S : Type 0} (sdk : AssetSdk S) (env : AssetEnv) where
  -- Writing an account with the balance that it has, whatever the allowances, keeps the supplies.
  allow-IsSound :
      (s : S) (u : Address) (id : Hash) (m : Dict Address ℕ)
      → IsSound sdk env s
      → IsSound sdk env (
          sdk.set_account_value s u id (record (balance_or_empty sdk env s u id) { allowance = m }))
  allow-IsSound s u id m =
      IsSound-same sdk env s _
        (λ j w. ground (
          arith,
          sdk.get_account_value-set_account_value s u id
              (record (balance_or_empty sdk env s u id) { allowance = m }) w j,
        ))
        (λ j. sdk.get-set_account_value s u id _ j)

  contains-set_account_value :
      (s : S) (u : Address) (id : Hash) (b : AssetBalance) (j : Hash)
      → sdk.contains (sdk.set_account_value s u id b) j ≡ sdk.contains s j
  contains-set_account_value s u id b j =
      sdk.contains-get _ j
      ∙ ap is_some (sdk.get-set_account_value s u id b j)
      ∙ sym (sdk.contains-get s j)

  finish-state :
      (step : Result (Unit {0}) String × S) (ctx : ServiceContext) (name : String)
      (json : Result String String)
      → (finish sdk env step ctx name json).state ≡ step.1
  unfolding finish
  finish-state (err e, s) ctx name json = refl
  finish-state (ok _, s) ctx name (err e) = refl
  finish-state (ok _, s) ctx name (ok text) = refl

  abbrev Keeps {κ} : {T : Type κ} → Outcome S T → Type 0
  Keeps o = IsSound sdk env o.state

  -- A transfer keeps every asset within its supply, whatever it returns.
  pub transfer-IsSound :
      (p : TransferPayload) (s : S) (ctx : ServiceContext)
      → IsSound sdk env s
      → IsSound sdk env (transfer sdk env p s ctx).state
  unfolding transfer
  transfer-IsSound p s ctx v =
      cycles_cases Keeps 21_000 _ s ctx
        (λ used.
          if_cases Keeps (not (sdk.contains s p.asset_id)) _ _ (λ gone. v)
            (λ here.
              rw finish-state
                (move_value-IsSound sdk env ctx.caller p.to p.asset_id p.value s v (ground arith))))
        v

  -- So does an approval.
  pub approve-IsSound :
      (p : TransferPayload) (s : S) (ctx : ServiceContext)
      → IsSound sdk env s
      → IsSound sdk env (approve sdk env p s ctx).state
  unfolding approve
  approve-IsSound p s ctx v =
      cycles_cases Keeps 21_000 _ s ctx
        (λ used.
          if_cases Keeps (nat_beq ctx.caller p.to) _ _ (λ self. v)
            (λ other.
              if_cases Keeps (not (sdk.contains s p.asset_id)) _ _ (λ gone. v)
                (λ here. rw finish-state (allow-IsSound s ctx.caller p.asset_id _ v))))
        v

  -- So does a transfer on behalf of another.
  pub transfer_from-IsSound :
      (p : TransferFromPayload) (s : S) (ctx : ServiceContext)
      → IsSound sdk env s
      → IsSound sdk env (transfer_from sdk env p s ctx).state
  unfolding transfer_from
  transfer_from-IsSound p s ctx v =
      cycles_cases Keeps 21_000 _ s ctx
        (λ used.
          if_cases Keeps (not (sdk.contains s p.asset_id)) _ _ (λ gone. v)
            (λ here.
              if_cases Keeps
                (ltb (get_or (lookup ctx.caller (allowance_of sdk env s p.asset_id p.sender)) 0)
                  p.value)
                _ _ (λ short. v)
                (λ enough. rw finish-state (
                  move_value-IsSound sdk env p.sender p.recipient p.asset_id p.value _
                    (allow-IsSound s p.sender p.asset_id _ v)
                    (contains-set_account_value s p.sender p.asset_id _ p.asset_id
                      ∙ ground arith)))))
        v
