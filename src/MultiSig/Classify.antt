-- ===== src/MultiSig/Classify.antt =====
-- How a new permission learns which of its accounts are multi-signature accounts
-- (`generate_account` and `update_account` of built-in-services/multi-signature/src/lib.rs).
use muta.Prelude.{
  List, Option-cases, [], ap, arith, false, inl, inr, is_some, leb, length, map, none, not, refl,
  some, true, unit_default, ◌%◌, ◌*◌, ◌+◌, ◌<◌, ◌∙◌, ◌∷◌, ◌≡◌, ◌≤◌,
}
use muta.Protocol.{
  Address, ServiceContext, cycles-paid, cycles-refused, from_succeed, is_error, u64_mod,
}
use muta.MultiSig.Types.{Account, AddressWithWeight, MultiSigPermission, UpdateAccountPayload}
use muta.MultiSig.Sdk.{MultiSigEnv, PermissionSdk, code_of}
use muta.MultiSig.Open.{owned-done}
use muta.MultiSig.Service.{
  any_overflow, check_accounts, classify, contains_itself, get_account_from_address,
  permission_default, single, update_account, update_with,
}

module _ {S : Type 0} (sdk : PermissionSdk S) (env : MultiSigEnv) where
  -- The account of an item, marked by whether its address has a permission.
  abbrev pub marked : S → AddressWithWeight → Account
  marked s item = record {
    address = item.address;
    weight = item.weight;
    is_multiple = is_some (sdk.get_permission s item.address);
  }

  found :
      (s : S) (addr : Address) (ctx : ServiceContext)
      → leb ((ctx.cycles_used + 10_000) % u64_mod) ctx.cycles_limit ≡ true
      → let o = get_account_from_address sdk env addr s ctx in
        (not (is_error o.response) ≡ is_some (sdk.get_permission s addr))
        × (o.context ≡ record ctx { cycles_used = (ctx.cycles_used + 10_000) % u64_mod })
  unfolding get_account_from_address code_of
  found s addr ctx e =
      rw (cycles-paid ⦃d = permission_default sdk env⦄ 10_000 _ s ctx e)
        (elim (Option-cases (sdk.get_permission s addr)) [
          | inl gone ↦ rw gone (refl, refl)
          | inr (p, there) ↦ rw there (refl, refl)
        ])

  -- With ten thousand cycles left for each item, every account is marked as what it is.
  pub classify-marked :
      (l : List AddressWithWeight) (s : S) (ctx : ServiceContext)
      → ctx.cycles_used + 10_000 * length l ≤ ctx.cycles_limit
      → ctx.cycles_limit < u64_mod
      → (classify sdk env l s ctx).0 ≡ map (marked s) l
  unfolding classify
  classify-marked [] s ctx room limit = refl
  classify-marked (item ∷ l) s ctx room limit =
      let paid : leb ((ctx.cycles_used + 10_000) % u64_mod) ctx.cycles_limit ≡ true =
        ground arith in
      let (mark, after) = found s item.address ctx paid in
      rw (mark, after)
        (ap (◌∷◌ (marked s item)) (
          classify-marked l s (record ctx { cycles_used = (ctx.cycles_used + 10_000) % u64_mod })
            (omega arith) limit))

  classify-starved :
      (l : List AddressWithWeight) (s : S) (ctx : ServiceContext)
      → leb ((ctx.cycles_used + 10_000) % u64_mod) ctx.cycles_limit ≡ false
      → classify sdk env l s ctx ≡ (map single l, ctx)
  unfolding classify get_account_from_address
  classify-starved [] s ctx short = refl
  classify-starved (item ∷ l) s ctx short = rw (
    cycles-refused ⦃d = permission_default sdk env⦄ 10_000 _ s ctx short,
    classify-starved l s ctx short,
  )

  -- An update by the owner that passes the checks on its accounts, and that has fewer than ten thousand
  -- cycles left once it has paid its own, succeeds: it stores every account as a single one, also an
  -- address that has a permission, and nothing else of the state or the context changes than the
  -- permission at its address and the cycles that it paid.
  pub update_account-starved :
      (p : UpdateAccountPayload) (old : MultiSigPermission) (s : S) (ctx : ServiceContext)
      → sdk.get_permission s p.account_address ≡ some old
      → ctx.caller ≡ old.owner
      → contains_itself sdk env p ≡ false
      → check_accounts p.addr_with_weight p.threshold ≡ none
      → any_overflow sdk env p.addr_with_weight s ≡ false
      → leb ((ctx.cycles_used + 21_000) % u64_mod) ctx.cycles_limit ≡ true
      → leb (((ctx.cycles_used + 21_000) % u64_mod + 10_000) % u64_mod) ctx.cycles_limit ≡ false
      → update_account sdk env p s ctx ≡ record {
        response = from_succeed tt;
        state = sdk.set_permission s p.account_address (record {
          owner = p.owner;
          accounts = map single p.addr_with_weight;
          threshold = p.threshold;
          memo = p.memo;
        });
        context = record ctx { cycles_used = (ctx.cycles_used + 21_000) % u64_mod };
      }
  unfolding update_account update_with
  update_account-starved p old s ctx there owner apart checked shallow paid short =
      cycles-paid ⦃d = unit_default⦄ 21_000 _ s ctx paid
      ∙ owned-done sdk env ⦃d = unit_default⦄ p.account_address old _ s _ there owner
      ∙ rw
          (
            apart,
            checked,
            shallow,
            classify-starved p.addr_with_weight s
                (record ctx { cycles_used = (ctx.cycles_used + 21_000) % u64_mod }) short,
          )
          refl
