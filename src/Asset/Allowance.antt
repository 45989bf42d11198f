-- ===== src/Asset/Allowance.antt =====
-- Approvals and what they allow (`approve` and `transfer_from` of
-- built-in-services/asset/src/lib.rs).
use muta.Prelude.{
  Dict, Result, String, ap, arith, err, false, get_or, if_cases, if◌then◌else◌, insert, lookup,
  lookup-insert, ltb, nat_beq, nat_eq, not, ok, refl, unit_default, ℕ, ◌-◌, ◌<◌, ◌∙◌, ◌≡◌, ◌≢◌, ◌≤◌,
}
use muta.Protocol.{
  Address, Hash, Outcome, ServiceContext, cycles_cases, from_error, is_error, u64_mod,
}
use muta.Asset.Types.{TransferFromPayload, TransferPayload}
use muta.Asset.Sdk.{AssetEnv, AssetSdk}
use muta.Asset.Service.{approve, balance_or_empty, finish, move_value, transfer_from}
use muta.Asset.Transfer.{allowance_of, balance_of, move_value_done, move_value_refused, moved}

module _ {S : Type 0} (sdk : AssetSdk S) (env : AssetEnv) where
  -- What `get_allowance` reports.
  abbrev pub allowed : S → Hash → Address → Address → ℕ
  allowed s id grantor grantee = get_or (lookup grantee (allowance_of sdk env s id grantor)) 0

  finish_success :
      (step : Result (Unit {0}) String × S) (ctx : ServiceContext) (name : String)
      (json : Result String String)
      → is_error (finish sdk env step ctx name json).response ≡ false
      → step.0 ≡ ok tt
  unfolding finish
  finish_success (err e, s) ctx name json h = cc
  finish_success (ok tt, s) ctx name json h = refl

  finish_failed :
      (step : Result (Unit {0}) String × S) (ctx : ServiceContext) (name : String)
      (json : Result String String)
      → (finish sdk env step ctx name json).response.code ≡ 106
      → step.0 ≢ ok tt
  unfolding finish
  finish_failed (err e, s) ctx name json h = λ q. cc q
  finish_failed (ok tt, s) ctx name (err e) h = absurd (omega arith)
  finish_failed (ok tt, s) ctx name (ok text) h = absurd (omega arith)

  finish-state :
      (step : Result (Unit {0}) String × S) (ctx : ServiceContext) (name : String)
      (json : Result String String)
      → (finish sdk env step ctx name json).state ≡ step.1
  unfolding finish
  finish-state (err e, s) ctx name json = refl
  finish-state (ok _, s) ctx name (err e) = refl
  finish-state (ok _, s) ctx name (ok text) = refl

  -- Writing one account's allowances: what every account is allowed afterwards.
  allowed-write :
      (s : S) (u : Address) (id : Hash) (to : Address) (v : ℕ) (j : Hash) (a b : Address)
      → allowed
          (sdk.set_account_value s u id (record (balance_or_empty sdk env s u id) {
            allowance = insert to v (allowance_of sdk env s id u);
          }))
          j
          a
          b
        ≡ (if nat_beq id j
            then if nat_beq u a
              then if nat_beq to b then v else allowed s j a b
              else allowed s j a b
            else allowed s j a b)
  allowed-write s u id to v j a b = ground (
    arith,
    lookup-insert to v (allowance_of sdk env s id u) b,
    sdk.get_account_value-set_account_value s u id
        (record (balance_or_empty sdk env s u id) {
          allowance = insert to v (allowance_of sdk env s id u);
        })
        a j,
  )

  balance-write :
      (s : S) (u : Address) (id : Hash) (m : Dict Address ℕ) (j : Hash) (a : Address)
      → balance_of sdk env
          (sdk.set_account_value s u id
            (record (balance_or_empty sdk env s u id) { allowance = m }))
          j
          a
        ≡ balance_of sdk env s j a
  balance-write s u id m j a = ground (
    arith,
    sdk.get_account_value-set_account_value s u id
        (record (balance_or_empty sdk env s u id) { allowance = m }) a j,
  )

  -- `to` may spend `value` of what `u` holds of `id`; all other allowances and every balance stay.
  abbrev pub Approves : S → Address → Hash → Address → ℕ → S → Type 0
  Approves s u id to value s' =
      ((j : Hash) (a b : Address)
        → allowed s' j a b ≡ (
            if nat_beq id j
            then if nat_beq u a
              then if nat_beq to b then value else allowed s j a b
              else allowed s j a b
            else allowed s j a b))
      × ((j : Hash) (a : Address) → balance_of sdk env s' j a ≡ balance_of sdk env s j a)

  abbrev Claims {κ} : {T : Type 0} → (S → Type κ) → Outcome S T → Type κ
  Claims P o = is_error o.response ≡ false → P o.state

  -- An approval that succeeds sets what the grantee may spend, overwriting what stood there, and
  -- changes no other allowance and no balance.
  pub approve-Approves :
      (p : TransferPayload) (s : S) (ctx : ServiceContext)
      → is_error (approve sdk env p s ctx).response ≡ false
      → Approves s ctx.caller p.asset_id p.to p.value (approve sdk env p s ctx).state
  unfolding approve
  approve-Approves p s ctx =
      let Q : S → Type 0 = Approves s ctx.caller p.asset_id p.to p.value in
      cycles_cases (Claims Q) 21_000 _ s ctx
        (λ used.
          if_cases (Claims Q) (nat_beq ctx.caller p.to) _ _ (λ self h. absurd (ground arith))
            (λ other.
              if_cases (Claims Q) (not (sdk.contains s p.asset_id)) _ _
                (λ gone h. absurd (ground arith))
                (λ here h. rw finish-state (
                  allowed-write s ctx.caller p.asset_id p.to p.value,
                  balance-write s ctx.caller p.asset_id _,
                ))))
        (λ h. absurd (ground arith))

  -- What a spender's transfer does: `value` moves from `u` to `to`, and `spender` may spend
  -- `value` less of what `u` holds.
  abbrev pub Spends : S → Address → Address → Address → Hash → ℕ → S → Type 0
  Spends s spender u to id value s' =
      (value ≤ allowed s id u spender)
      × (allowed s' id u spender ≡ allowed s id u spender - value)
      × ((j : Hash) (a : Address) → balance_of sdk env s' j a ≡ moved sdk env u to id value s j a)

  module _ (s : S) (spender u to : Address) (id : Hash) (value : ℕ) where
    -- The state with the allowance charged.
    abbrev charged : S
    charged = sdk.set_account_value s u id (record (balance_or_empty sdk env s u id) {
      allowance = insert spender (allowed s id u spender - value) (allowance_of sdk env s id u);
    })

    spend :
        value ≤ allowed s id u spender
        → balance_of sdk env s id u < u64_mod
        → (move_value sdk env u to id value charged).0 ≡ ok tt
        → Spends s spender u to id value (move_value sdk env u to id value charged).1
    spend enough small h =
        let same =
          balance-write s u id
            (insert spender (allowed s id u spender - value) (allowance_of sdk env s id u)) in
        let (balances, allowances) =
          move_value_done sdk env u to id value charged (rw (same id u) small) h in
        (
          enough,
          ap (λ m. get_or (lookup spender m) 0) (allowances id u)
              ∙ allowed-write s u id spender (allowed s id u spender - value) id u spender
              ∙ ground arith,
          λ j a. balances j a ∙ ground (arith, same j a),
        )

  -- A transfer on behalf of another that succeeds was allowed, lowers the allowance by its value
  -- and moves the value.
  pub transfer_from-Spends :
      (p : TransferFromPayload) (s : S) (ctx : ServiceContext)
      → balance_of sdk env s p.asset_id p.sender < u64_mod
      → is_error (transfer_from sdk env p s ctx).response ≡ false
      → Spends s ctx.caller p.sender p.recipient p.asset_id p.value
          (transfer_from sdk env p s ctx).state
  unfolding transfer_from
  transfer_from-Spends p s ctx small =
      let Q : S → Type 0 = Spends s ctx.caller p.sender p.recipient p.asset_id p.value in
      cycles_cases (Claims Q) 21_000 _ s ctx
        (λ used.
          if_cases (Claims Q) (not (sdk.contains s p.asset_id)) _ _
            (λ gone h. absurd (ground arith))
            (λ here.
              if_cases (Claims Q) (ltb (allowed s p.asset_id p.sender ctx.caller) p.value) _ _
                (λ short h. absurd (ground arith))
                (λ enough h. rw finish-state (
                  spend s ctx.caller p.sender p.recipient p.asset_id p.value (ground arith) small
                    (finish_success _ _ _ _ h)))))
        (λ h. absurd (ground arith))

  -- The balances stay and the allowance of `spender` goes down by `value`.
  abbrev pub Wastes : S → Address → Address → Hash → ℕ → S → Type 0
  Wastes s spender u id value s' =
      ((j : Hash) (a : Address) → balance_of sdk env s' j a ≡ balance_of sdk env s j a)
      × (value ≤ allowed s id u spender)
      × (allowed s' id u spender ≡ allowed s id u spender - value)

  abbrev Fails : (S → Type 0) → Outcome S (Unit {0}) → Type 0
  Fails P o = o.response.code ≡ 106 → P o.state

  abbrev refusal : ℕ → String → S → ServiceContext → Outcome S (Unit {0})
  refusal code message s ctx = record {
    response = from_error code message;
    state = s;
    context = ctx;
  }

  -- Where the accounts refuse the move, `transfer_from` fails with code 106 and every balance stays,
  -- but the allowance is spent: the service does not restore it.
  pub transfer_from_refused :
      (p : TransferFromPayload) (s : S) (ctx : ServiceContext)
      → (transfer_from sdk env p s ctx).response.code ≡ 106
      → Wastes s ctx.caller p.sender p.asset_id p.value (transfer_from sdk env p s ctx).state
  unfolding transfer_from
  transfer_from_refused p s ctx =
      let Q : S → Type 0 = Wastes s ctx.caller p.sender p.asset_id p.value in
      let at : ℕ → ServiceContext = λ used. record ctx { cycles_used = used } in
      let s1 = charged s ctx.caller p.sender p.recipient p.asset_id p.value in
      let paid : ℕ → Outcome S (Unit {0}) = λ used.
        finish sdk env (move_value sdk env p.sender p.recipient p.asset_id p.value s1) (at used)
          "TransferFrom"
          (env.transfer_from_json (record {
            asset_id = p.asset_id;
            caller = ctx.caller;
            sender = p.sender;
            recipient = p.recipient;
            value = p.value;
          })) in
      let wasted : (used : ℕ)
          → ltb (allowed s p.asset_id p.sender ctx.caller) p.value ≡ false
          → Fails Q (paid used) =
        λ used enough h.
          rw
            (
              finish-state,
              move_value_refused sdk env p.sender p.recipient p.asset_id p.value s1
                  (finish_failed _ _ _ _ h),
            )
            (
              balance-write s p.sender p.asset_id _,
              ground arith,
              allowed-write s p.sender p.asset_id ctx.caller _ p.asset_id p.sender ctx.caller
                  ∙ ground arith,
            ) in
      cycles_cases (Fails Q) 21_000 _ s ctx
        (λ used.
          if_cases (Fails Q) (not (sdk.contains s p.asset_id))
            (refusal 101 "asset id not existed" s (at used)) _ (λ gone h. absurd (omega arith))
            (λ here.
              if_cases (Fails Q) (ltb (allowed s p.asset_id p.sender ctx.caller) p.value)
                (refusal 105 "insufficient balance" s (at used)) (paid used)
                (λ short h. absurd (omega arith)) (wasted used)))
        (λ h. absurd (omega arith))
