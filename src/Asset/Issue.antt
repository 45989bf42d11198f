-- ===== src/Asset/Issue.antt =====
-- Issuing an asset, at genesis or by `create_asset` (built-in-services/asset/src/lib.rs).
use Prim.Native.String.{◌++◌ as append_text}
use mathlib.Core.Path.{subst, fun_ext}
use native.Mathlib.Decide.{ℕ_discrete}
use muta.Prelude.{
  List, Result, String, [], arith, err, false, if_cases, if◌then◌else◌, nat_beq, nat_eq, ok, refl,
  some, ℕ, ◌<◌, ◌∙◌, ◌≡◌, ◌≢◌, ◌≤◌,
}
use muta.Protocol.{Address, Hash, Outcome, ServiceContext, cycles_cases, u64_mod}
use muta.Asset.Types.{Asset, CreateAssetPayload, InitGenesisPayload}
use muta.Asset.Sdk.{AssetEnv, AssetSdk}
use muta.Asset.Transfer.{balance_of}
use muta.Asset.Total.{Distinct, total, total_single-le}
use muta.Asset.Service.{announce, asset_default, create_as, create_asset, init_genesis}
use muta.Asset.Supply.{IsSound}

module _ {S : Type 0} (sdk : AssetSdk S) (env : AssetEnv) where
  abbrev Keeps {κ} : {T : Type κ} → Outcome S T → Type 0
  Keeps o = IsSound sdk env o.state

  -- What a new asset and its issuer's balance leave, in a state without that asset.
  abbrev issue : S → Hash → Asset → Address → ℕ → S
  issue s id a issuer supply =
      sdk.set_account_value (sdk.insert_asset s id a) issuer id
        (record { value = supply; allowance = [] })

  issue-get :
      (s : S) (id : Hash) (a : Asset) (issuer : Address) (supply : ℕ) (j : Hash)
      → sdk.get (issue s id a issuer supply) j ≡ (if nat_beq id j then some a else sdk.get s j)
  issue-get s id a issuer supply j =
      sdk.get-set_account_value _ issuer id _ j ∙ sdk.get-insert_asset s id a j

  issue-balance :
      (s : S) (id : Hash) (a : Asset) (issuer : Address) (supply : ℕ)
      → sdk.contains s id ≡ false
      → IsSound sdk env s
      → (j : Hash) (u : Address)
      → balance_of sdk env (issue s id a issuer supply) j u ≡ (
          if nat_beq id j
          then (if nat_beq issuer u then supply else 0)
          else balance_of sdk env s j u)
  issue-balance s id a issuer supply new v j u = ground (
    arith,
    v.unissued id u new,
    sdk.get_account_value-insert_asset s id a u j,
    sdk.get_account_value-set_account_value (sdk.insert_asset s id a) issuer id
        (record { value = supply; allowance = [] }) u j,
  )

  issue-total_self :
      (s : S) (id : Hash) (a : Asset) (issuer : Address) (supply : ℕ)
      → sdk.contains s id ≡ false
      → IsSound sdk env s
      → (l : List Address)
      → total (balance_of sdk env (issue s id a issuer supply) id) l
        ≡ total (λ u. if nat_beq issuer u then supply else 0) l
  issue-total_self s id a issuer supply new v l =
      let same : (u : Address)
          → balance_of sdk env (issue s id a issuer supply) id u
            ≡ (if nat_beq issuer u then supply else 0) =
        λ u. issue-balance s id a issuer supply new v id u ∙ ground arith in
      rw (fun_ext same)

  issue-total_other :
      (s : S) (id : Hash) (a : Asset) (issuer : Address) (supply : ℕ)
      → sdk.contains s id ≡ false
      → IsSound sdk env s
      → (j : Hash) → id ≢ j
      → (l : List Address)
      → total (balance_of sdk env (issue s id a issuer supply) j) l
        ≡ total (balance_of sdk env s j) l
  issue-total_other s id a issuer supply new v j ne l =
      let same : (u : Address)
          → balance_of sdk env (issue s id a issuer supply) j u ≡ balance_of sdk env s j u =
        λ u. issue-balance s id a issuer supply new v j u ∙ ground arith in
      rw (fun_ext same)

  issue-bounded :
      (s : S) (id : Hash) (a : Asset) (issuer : Address)
      → sdk.contains s id ≡ false
      → IsSound sdk env s
      → (j : Hash) (b : Asset) → sdk.get (issue s id a issuer a.supply) j ≡ some b
      → (l : List Address) → Distinct l
      → total (balance_of sdk env (issue s id a issuer a.supply) j) l ≤ b.supply
  issue-bounded s id a issuer new v j b e l d = elim (ℕ_discrete id j) [
    | yes p ↦
        let same : a.supply ≡ b.supply = ground (arith, issue-get s id a issuer a.supply j) in
        subst (λ k. total (balance_of sdk env (issue s id a issuer a.supply) k) l ≤ b.supply) p
          (omega (
            arith,
            issue-total_self s id a issuer a.supply new v l,
            total_single-le issuer a.supply l d,
          ))
    | no n ↦ omega (
      arith,
      issue-total_other s id a issuer a.supply new v j n l,
      v.bounded j b (ground (arith, issue-get s id a issuer a.supply j)) l d,
    )
  ]

  issue-IsSound :
      (s : S) (id : Hash) (a : Asset) (issuer : Address)
      → sdk.contains s id ≡ false
      → a.supply < u64_mod
      → IsSound sdk env s
      → IsSound sdk env (issue s id a issuer a.supply)
  issue-IsSound s id a issuer new fits v = record {
    unissued = λ j u h.
        issue-balance s id a issuer a.supply new v j u
        ∙ ground (
          arith,
          v.unissued j u,
          sdk.contains-get s j,
          sdk.contains-get (issue s id a issuer a.supply) j,
          issue-get s id a issuer a.supply j,
        );
    bounded = issue-bounded s id a issuer new v;
    small = λ j b e. ground (arith, v.small j b, issue-get s id a issuer a.supply j);
  }

  -- At genesis the issuer gets the supply, and the supplies stay bounds.
  pub init_genesis-IsSound :
      (p : InitGenesisPayload) (s : S)
      → sdk.contains s p.id ≡ false
      → p.supply < u64_mod
      → IsSound sdk env s
      → IsSound sdk env (init_genesis sdk env p s)
  unfolding init_genesis
  init_genesis-IsSound p s new fits v = issue-IsSound s p.id _ p.issuer new fits v

  announce-state :
      (a : Asset) (json : Result String String) (s : S) (ctx : ServiceContext)
      → (announce sdk env a json s ctx).state ≡ s
  unfolding announce
  announce-state a (err e) s ctx = refl
  announce-state a (ok text) s ctx = refl

  create_as-IsSound :
      (p : CreateAssetPayload) (json : Result String String) (s : S) (ctx : ServiceContext)
      → p.supply < u64_mod
      → IsSound sdk env s
      → IsSound sdk env (create_as sdk env p json s ctx).state
  unfolding create_as
  create_as-IsSound p (err e) s ctx fits v = v
  create_as-IsSound p (ok text) s ctx fits v =
      if_cases Keeps
        (sdk.contains s (env.digest (append_text text (env.address_to_string ctx.caller)))) _ _
        (λ there. v) (λ new. rw announce-state (issue-IsSound s _ _ ctx.caller new fits v))

  -- Creating an asset keeps the supplies as bounds: the id is new, and its issuer gets it all.
  pub create_asset-IsSound :
      (p : CreateAssetPayload) (s : S) (ctx : ServiceContext)
      → p.supply < u64_mod
      → IsSound sdk env s
      → IsSound sdk env (create_asset sdk env p s ctx).state
  unfolding create_asset
  create_asset-IsSound p s ctx fits v =
      cycles_cases ⦃d = asset_default sdk env⦄ Keeps 21_000 _ s ctx
        (λ used. create_as-IsSound p (env.create_json p) s _ fits v) v
