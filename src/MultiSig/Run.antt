-- ===== src/MultiSig/Run.antt =====
-- The calls that write to the multi-signature service, one after the other
-- (built-in-services/multi-signature/src/lib.rs).
use muta.Prelude.{
  All, All-append, List, Option-cases, String, [], arith, false, if_cases, inl, inr, length,
  length-append, ltb, nat_eq, none, unit_default, ℕ, ◌++◌, ◌<◌, ◌==◌, ◌∷◌, ◌≡◌, ◌≤◌,
}
use muta.Protocol.{Address, Outcome, ServiceContext, address_from_hash, cycles_cases}
use muta.MultiSig.Types.{
  Account, AddAccountPayload, AddressWithWeight, ChangeMemoPayload, ChangeOwnerPayload,
  GenerateMultiSigAccountPayload, MultiSigPermission, RemoveAccountPayload, RemoveAccountResult,
  SetAccountWeightPayload, SetThresholdPayload, SetWeightResult, UpdateAccountPayload,
  below_threshold, invalid_new_weight, push_account, weight_sum,
}
use muta.MultiSig.Sdk.{MultiSigEnv, PermissionSdk, max_permission_accounts}
use muta.MultiSig.Verify.{depth_overflow}
use muta.MultiSig.Service.{
  account_default, add_account, add_account_with, address_default, any_overflow, change_memo,
  change_memo_with, change_owner, change_owner_with, check_accounts, classify, contains_itself,
  generate_account, generate_account_body, remove_account, removed, set_account_weight,
  set_threshold, set_threshold_with, update_account, update_with, weighed,
}
use muta.MultiSig.Weights.{
  IsByteWeight, IsValid, IsValid-sum, plain_sum, remove_account_from-IsValid, set_weight_in-IsValid,
}
use muta.MultiSig.Invariant.{
  AreBytes, IsSound, Stand-IsValid, classify-Stand, owned-IsSound, set-IsSound,
}

-- The methods marked `#[write]`, with their payloads.
pub data Call : Type 0 where
  generate : GenerateMultiSigAccountPayload → Call
  update : UpdateAccountPayload → Call
  give : ChangeOwnerPayload → Call
  note : ChangeMemoPayload → Call
  add : AddAccountPayload → Call
  drop : RemoveAccountPayload → Call
  weight : SetAccountWeightPayload → Call
  threshold : SetThresholdPayload → Call

-- The weights of a payload are `u8`.
abbrev pub Fits : Call → Type 0
Fits (generate p) = AreBytes p.addr_with_weight
Fits (update p) = AreBytes p.addr_with_weight
Fits (give p) = Unit
Fits (note p) = Unit
Fits (add p) = p.new_account.weight < 256
Fits (drop p) = Unit
Fits (weight p) = p.new_weight < 256
Fits (threshold p) = Unit

plain_sum-push : (l : List Account) (a : Account) → plain_sum l ≤ plain_sum (l ++ a ∷ [])
plain_sum-push [] a = omega arith
plain_sum-push (b ∷ l) a = omega (arith, plain_sum-push l a)

push_account-IsValid :
    (p : MultiSigPermission) (a : Account)
    → IsValid p
    → (length p.accounts == max_permission_accounts) ≡ false
    → a.weight < 256
    → IsValid (push_account p a)
push_account-IsValid p a v room small = record {
  few = ground (arith, length-append p.accounts (a ∷ []), v.few);
  bytes = All-append IsByteWeight p.accounts (a ∷ []) v.bytes (small, tt);
  reachable = omega (arith, plain_sum-push p.accounts a, v.reachable);
}

module _ {S : Type 0} (sdk : PermissionSdk S) (env : MultiSigEnv) where
  abbrev Keeps {κ} : {T : Type κ} → Outcome S T → Type 0
  Keeps o = IsSound sdk env o.state

  -- A payload that passes the checks is stored as a valid permission.
  stored-IsSound :
      (s : S) (l : List AddressWithWeight) (ctx : ServiceContext) (at owner : Address) (limit : ℕ)
      (memo : String)
      → AreBytes l
      → check_accounts l limit ≡ none
      → IsSound sdk env s
      → IsSound sdk env (
          sdk.set_permission s at (record {
            owner = owner;
            accounts = (classify sdk env l s ctx).0;
            threshold = limit;
            memo = memo;
          }))
  stored-IsSound s l ctx at owner limit memo b h v =
      set-IsSound sdk env s at _ v
        (Stand-IsValid l _ owner limit memo b h (classify-Stand sdk env l s ctx))

  generate-IsSound :
      (p : GenerateMultiSigAccountPayload) (s : S) (ctx : ServiceContext)
      → AreBytes p.addr_with_weight
      → IsSound sdk env s
      → IsSound sdk env (generate_account_body sdk env p s ctx).state
  unfolding generate_account_body address_from_hash
  generate-IsSound p s ctx b v =
      elim (Option-cases (check_accounts p.addr_with_weight p.threshold)) [
        | inr (e, bad) ↦ rw (bad, generate_account_body) v
        | inl good ↦
            rw (good, generate_account_body)
              (if_cases Keeps (any_overflow sdk env p.addr_with_weight s) _ _ (λ deep. v)
                (λ fine. elim (Option-cases ctx.tx_hash) [
                  | inl e ↦ rw e v
                  | inr (h, e) ↦
                      rw e (stored-IsSound s p.addr_with_weight ctx _ _ p.threshold p.memo b good v)
                ]))
      ]

  update-IsSound :
      (p : UpdateAccountPayload) (old : MultiSigPermission) (s : S) (ctx : ServiceContext)
      → AreBytes p.addr_with_weight
      → IsSound sdk env s
      → IsSound sdk env (update_with sdk env p old s ctx).state
  unfolding update_with
  update-IsSound p old s ctx b v =
      if_cases Keeps (contains_itself sdk env p) _ _ (λ self. v)
        (λ apart. elim (Option-cases (check_accounts p.addr_with_weight p.threshold)) [
          | inr (e, bad) ↦ rw bad v
          | inl good ↦ rw good (
              if_cases Keeps (any_overflow sdk env p.addr_with_weight s) _ _ (λ deep. v)
                (λ fine.
                  stored-IsSound s p.addr_with_weight ctx p.account_address p.owner p.threshold
                    p.memo b good v))
        ])

  removed-IsSound :
      (addr : Address) (r : RemoveAccountResult × MultiSigPermission) (s : S) (ctx : ServiceContext)
      → IsSound sdk env s
      → IsValid r.1
      → IsSound sdk env (removed sdk env addr r s ctx).state
  unfolding removed
  removed-IsSound addr (RemoveAccountResult.success a, p) s ctx v w =
      set-IsSound sdk env s addr p v w
  removed-IsSound addr (below_threshold, p) s ctx v w = v
  removed-IsSound addr (RemoveAccountResult.no_account, p) s ctx v w = v

  weighed-IsSound :
      (addr : Address) (r : SetWeightResult × MultiSigPermission) (s : S) (ctx : ServiceContext)
      → IsSound sdk env s
      → IsValid r.1
      → IsSound sdk env (weighed sdk env addr r s ctx).state
  unfolding weighed
  weighed-IsSound addr (SetWeightResult.success, p) s ctx v w = set-IsSound sdk env s addr p v w
  weighed-IsSound addr (invalid_new_weight, p) s ctx v w = v
  weighed-IsSound addr (SetWeightResult.no_account, p) s ctx v w = v

  unfoldable pub write : Call → S → ServiceContext → S
  write (generate p) s ctx = (generate_account sdk env p s ctx).state
  write (update p) s ctx = (update_account sdk env p s ctx).state
  write (give p) s ctx = (change_owner sdk env p s ctx).state
  write (note p) s ctx = (change_memo sdk env p s ctx).state
  write (add p) s ctx = (add_account sdk env p s ctx).state
  write (drop p) s ctx = (remove_account sdk env p s ctx).state
  write (weight p) s ctx = (set_account_weight sdk env p s ctx).state
  write (threshold p) s ctx = (set_threshold sdk env p s ctx).state

  write-IsSound :
      (c : Call) (s : S) (ctx : ServiceContext)
      → Fits c
      → IsSound sdk env s
      → IsSound sdk env (write c s ctx)
  unfolding write generate_account update_account change_owner change_memo add_account
      remove_account set_account_weight set_threshold change_owner_with change_memo_with
      add_account_with set_threshold_with
  write-IsSound (generate p) s ctx f v =
      cycles_cases ⦃d = address_default sdk env⦄ Keeps 21_000 _ s ctx
        (λ used. generate-IsSound p s _ f v) v
  write-IsSound (update p) s ctx f v =
      owned-IsSound sdk env ⦃d = unit_default⦄ p.account_address (update_with sdk env p) s ctx v
        (λ old c w. update-IsSound p old s c f v)
  write-IsSound (give p) s ctx f v =
      owned-IsSound sdk env ⦃d = unit_default⦄ p.multi_sig_address _ s ctx v (λ old c w.
        if_cases Keeps (depth_overflow sdk env s p.new_owner 0) _ _ (λ deep. v)
          (λ fine.
            set-IsSound sdk env s _ _ v
              (record { few = w.few; bytes = w.bytes; reachable = w.reachable })))
  write-IsSound (note p) s ctx f v =
      owned-IsSound sdk env ⦃d = unit_default⦄ p.multi_sig_address _ s ctx v (λ old c w.
        set-IsSound sdk env s _ _ v
          (record { few = w.few; bytes = w.bytes; reachable = w.reachable }))
  write-IsSound (add p) s ctx f v =
      owned-IsSound sdk env ⦃d = unit_default⦄ p.multi_sig_address _ s ctx v (λ old c w.
        if_cases Keeps (length old.accounts == max_permission_accounts) _ _ (λ full. v)
          (λ room.
            if_cases Keeps (depth_overflow sdk env s p.new_account.address 1) _ _ (λ deep. v)
              (λ fine.
                set-IsSound sdk env s _ _ v (push_account-IsValid old p.new_account w room f))))
  write-IsSound (drop p) s ctx f v =
      owned-IsSound sdk env ⦃d = account_default sdk env⦄ p.multi_sig_address _ s ctx v (λ old c w.
        removed-IsSound p.multi_sig_address _ s c v
          (remove_account_from-IsValid old p.account_address w))
  write-IsSound (weight p) s ctx f v =
      owned-IsSound sdk env ⦃d = unit_default⦄ p.multi_sig_address _ s ctx v (λ old c w.
        weighed-IsSound p.multi_sig_address _ s c v
          (set_weight_in-IsValid old p.account_address p.new_weight f w))
  write-IsSound (threshold p) s ctx f v =
      owned-IsSound sdk env ⦃d = unit_default⦄ p.multi_sig_address _ s ctx v (λ old c w.
        if_cases Keeps (ltb (weight_sum old.accounts) p.new_threshold) _ _ (λ low. v)
          (λ reach. set-IsSound sdk env s _ _ v (record {
            few = w.few;
            bytes = w.bytes;
            reachable = ground (arith, IsValid-sum old w);
          })))

  unfoldable pub run : List (Call × ServiceContext) → S → S
  run [] s = s
  run ((c, ctx) ∷ calls) s = run calls (write c s ctx)

  -- From a state whose permissions are valid, any sequence of calls by any callers, failing ones
  -- included, leaves permissions that are valid: sixteen accounts at most, with weights that can
  -- reach the threshold.
  pub run_keeps_threshold :
      (calls : List (Call × ServiceContext)) (s : S)
      → All (λ e. Fits e.0) calls
      → IsSound sdk env s
      → IsSound sdk env (run calls s)
  unfolding run
  run_keeps_threshold [] s f v = v
  run_keeps_threshold ((c, ctx) ∷ calls) s f v =
      run_keeps_threshold calls (write c s ctx) f.1 (write-IsSound c s ctx f.0 v)
