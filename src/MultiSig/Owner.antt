-- ===== src/MultiSig/Owner.antt =====
-- Who may change a permission, and which one a call changes
-- (built-in-services/multi-signature/src/lib.rs).
use mathlib.Core.Path.{subst}
use muta.Prelude.{
  Default, Option, Option-cases, arith, if_cases, inl, inr, length, ltb, nat_beq, nat_eq, none, not,
  refl, some, sym, unit_default, ◌==◌, ◌∙◌, ◌≡◌, ◌≢◌,
}
use muta.Protocol.{Address, Outcome, ServiceContext, cycles, cycles_cases}
use muta.MultiSig.Types.{
  MultiSigPermission, RemoveAccountResult, SetWeightResult, UpdateAccountPayload, below_threshold,
  invalid_new_weight, weight_sum,
}
use muta.MultiSig.Sdk.{MultiSigEnv, PermissionSdk, max_permission_accounts}
use muta.MultiSig.Verify.{depth_overflow}
use muta.MultiSig.Service.{
  account_default, add_account, add_account_with, any_overflow, change_memo, change_memo_with,
  change_owner, change_owner_with, check_accounts, contains_itself, owned, remove_account, removed,
  set_account_weight, set_threshold, set_threshold_with, update_account, update_with, weighed,
}
use muta.MultiSig.Run.{Call, write}

-- The address whose permission a call would change; a new account has none yet.
abbrev pub target : Call → Option Address
target (Call.generate p) = none
target (Call.update p) = some p.account_address
target (Call.give p) = some p.multi_sig_address
target (Call.note p) = some p.multi_sig_address
target (Call.add p) = some p.multi_sig_address
target (Call.drop p) = some p.multi_sig_address
target (Call.weight p) = some p.multi_sig_address
target (Call.threshold p) = some p.multi_sig_address

some_eq : {a b : Address} → some a ≡ some b → a ≡ b
some_eq e = cc

module _ {S : Type 0} (sdk : PermissionSdk S) (env : MultiSigEnv) where
  -- `addr` has a permission that the caller owns.
  abbrev Owns : S → Address → Address → Type 0
  Owns s addr caller =
      (p : MultiSigPermission) × (sdk.get_permission s addr ≡ some p) × (caller ≡ p.owner)

  module _ (addr : Address) (s : S) (ctx : ServiceContext) where
    owned-same {κ} :
        {T : Type κ} ⦃d : Default T⦄
        (change : MultiSigPermission → S → ServiceContext → Outcome S T)
        → ¬ Owns s addr ctx.caller
        → (cycles 21_000 (owned sdk env addr change) s ctx).state ≡ s
    unfolding owned
    owned-same {T} change no_owner =
        cycles_cases (λ o. o.state ≡ s) 21_000 _ s ctx
          (λ used. elim (Option-cases (sdk.get_permission s addr)) [
            | inl e ↦ rw (e, owned)
            | inr (p, e) ↦
                rw (e, owned)
                  (if_cases {A = Outcome S T} (λ o. o.state ≡ s) (not (nat_beq ctx.caller p.owner))
                    _ _ (λ other. refl) (λ owner. absurd (no_owner (p, e, ground arith))))
          ])
          refl

    owned-frame {κ} :
        {T : Type κ} ⦃d : Default T⦄ (b : Address)
        (change : MultiSigPermission → S → ServiceContext → Outcome S T)
        → ((p : MultiSigPermission) (c : ServiceContext)
            → sdk.get_permission (change p s c).state b ≡ sdk.get_permission s b)
        → sdk.get_permission (cycles 21_000 (owned sdk env addr change) s ctx).state b
          ≡ sdk.get_permission s b
    unfolding owned
    owned-frame {T} b change keep =
        cycles_cases (λ o. sdk.get_permission o.state b ≡ sdk.get_permission s b) 21_000 _ s ctx
          (λ used. elim (Option-cases (sdk.get_permission s addr)) [
            | inl e ↦ rw (e, owned)
            | inr (p, e) ↦
                rw (e, owned)
                  (if_cases {A = Outcome S T}
                    (λ o. sdk.get_permission o.state b ≡ sdk.get_permission s b)
                    (not (nat_beq ctx.caller p.owner)) _ _ (λ other. refl) (λ owner. keep p _))
          ])
          refl

  -- A call by anyone but the owner of the permission that it names changes nothing; nor does a call
  -- that names an address without a permission.
  pub write-needs_owner :
      (c : Call) (s : S) (ctx : ServiceContext) (addr : Address)
      → target c ≡ some addr
      → ¬ Owns s addr ctx.caller
      → write sdk env c s ctx ≡ s
  unfolding write update_account change_owner change_memo add_account remove_account
      set_account_weight set_threshold
  write-needs_owner (Call.generate p) s ctx addr e n = cc
  write-needs_owner (Call.update p) s ctx addr e n =
      owned-same p.account_address s ctx ⦃d = unit_default⦄ _
        (λ o. n (subst (λ x. Owns s x ctx.caller) (some_eq e) o))
  write-needs_owner (Call.give p) s ctx addr e n =
      owned-same p.multi_sig_address s ctx ⦃d = unit_default⦄ _
        (λ o. n (subst (λ x. Owns s x ctx.caller) (some_eq e) o))
  write-needs_owner (Call.note p) s ctx addr e n =
      owned-same p.multi_sig_address s ctx ⦃d = unit_default⦄ _
        (λ o. n (subst (λ x. Owns s x ctx.caller) (some_eq e) o))
  write-needs_owner (Call.add p) s ctx addr e n =
      owned-same p.multi_sig_address s ctx ⦃d = unit_default⦄ _
        (λ o. n (subst (λ x. Owns s x ctx.caller) (some_eq e) o))
  write-needs_owner (Call.drop p) s ctx addr e n =
      owned-same p.multi_sig_address s ctx ⦃d = account_default sdk env⦄ _
        (λ o. n (subst (λ x. Owns s x ctx.caller) (some_eq e) o))
  write-needs_owner (Call.weight p) s ctx addr e n =
      owned-same p.multi_sig_address s ctx ⦃d = unit_default⦄ _
        (λ o. n (subst (λ x. Owns s x ctx.caller) (some_eq e) o))
  write-needs_owner (Call.threshold p) s ctx addr e n =
      owned-same p.multi_sig_address s ctx ⦃d = unit_default⦄ _
        (λ o. n (subst (λ x. Owns s x ctx.caller) (some_eq e) o))

  module _ (b : Address) (s : S) where
    abbrev Frame {κ} : {T : Type κ} → Outcome S T → Type 0
    Frame o = sdk.get_permission o.state b ≡ sdk.get_permission s b

    set-frame :
        (a : Address) (p : MultiSigPermission)
        → a ≢ b
        → sdk.get_permission (sdk.set_permission s a p) b ≡ sdk.get_permission s b
    set-frame a p ne = sdk.get-set_permission s a p b ∙ ground arith

    update-Frame :
        (p : UpdateAccountPayload) (old : MultiSigPermission) (c : ServiceContext)
        → p.account_address ≢ b
        → Frame (update_with sdk env p old s c)
    unfolding update_with
    update-Frame p old c ne =
        if_cases Frame (contains_itself sdk env p) _ _ (λ self. refl)
          (λ apart. elim (Option-cases (check_accounts p.addr_with_weight p.threshold)) [
            | inr (e, bad) ↦ rw bad
            | inl good ↦ rw good (
                if_cases Frame (any_overflow sdk env p.addr_with_weight s) _ _ (λ deep. refl)
                  (λ fine. set-frame p.account_address _ ne))
          ])

    removed-Frame :
        (a : Address) (r : RemoveAccountResult × MultiSigPermission) (c : ServiceContext)
        → a ≢ b
        → Frame (removed sdk env a r s c)
    unfolding removed
    removed-Frame a (RemoveAccountResult.success ret, p) c ne = set-frame a p ne
    removed-Frame a (below_threshold, p) c ne = refl
    removed-Frame a (RemoveAccountResult.no_account, p) c ne = refl

    weighed-Frame :
        (a : Address) (r : SetWeightResult × MultiSigPermission) (c : ServiceContext)
        → a ≢ b
        → Frame (weighed sdk env a r s c)
    unfolding weighed
    weighed-Frame a (SetWeightResult.success, p) c ne = set-frame a p ne
    weighed-Frame a (invalid_new_weight, p) c ne = refl
    weighed-Frame a (SetWeightResult.no_account, p) c ne = refl

  -- The address that a call names is not `b`.
  apart : {a addr b : Address} → some a ≡ some addr → addr ≢ b → a ≢ b
  apart e ne h = ne (sym (some_eq e) ∙ h)

  -- A call that names an address changes the permission of no other.
  pub write-frame :
      (c : Call) (s : S) (ctx : ServiceContext) (addr b : Address)
      → target c ≡ some addr
      → addr ≢ b
      → sdk.get_permission (write sdk env c s ctx) b ≡ sdk.get_permission s b
  unfolding write update_account change_owner change_memo add_account remove_account
      set_account_weight set_threshold change_owner_with change_memo_with add_account_with
      set_threshold_with
  write-frame (Call.generate p) s ctx addr b e ne = cc
  write-frame (Call.update p) s ctx addr b e ne =
      owned-frame p.account_address s ctx ⦃d = unit_default⦄ b (update_with sdk env p)
        (λ old c. update-Frame b s p old c (apart e ne))
  write-frame (Call.give p) s ctx addr b e ne =
      owned-frame p.multi_sig_address s ctx ⦃d = unit_default⦄ b _ (λ old c.
        if_cases (Frame b s) (depth_overflow sdk env s p.new_owner 0) _ _ (λ deep. refl)
          (λ fine. set-frame b s p.multi_sig_address _ (apart e ne)))
  write-frame (Call.note p) s ctx addr b e ne =
      owned-frame p.multi_sig_address s ctx ⦃d = unit_default⦄ b _
        (λ old c. set-frame b s p.multi_sig_address _ (apart e ne))
  write-frame (Call.add p) s ctx addr b e ne =
      owned-frame p.multi_sig_address s ctx ⦃d = unit_default⦄ b _ (λ old c.
        if_cases (Frame b s) (length old.accounts == max_permission_accounts) _ _ (λ full. refl)
          (λ room.
            if_cases (Frame b s) (depth_overflow sdk env s p.new_account.address 1) _ _
              (λ deep. refl) (λ fine. set-frame b s p.multi_sig_address _ (apart e ne))))
  write-frame (Call.drop p) s ctx addr b e ne =
      owned-frame p.multi_sig_address s ctx ⦃d = account_default sdk env⦄ b _
        (λ old c. removed-Frame b s p.multi_sig_address _ c (apart e ne))
  write-frame (Call.weight p) s ctx addr b e ne =
      owned-frame p.multi_sig_address s ctx ⦃d = unit_default⦄ b _
        (λ old c. weighed-Frame b s p.multi_sig_address _ c (apart e ne))
  write-frame (Call.threshold p) s ctx addr b e ne =
      owned-frame p.multi_sig_address s ctx ⦃d = unit_default⦄ b _ (λ old c.
        if_cases (Frame b s) (ltb (weight_sum old.accounts) p.new_threshold) _ _ (λ low. refl)
          (λ reach. set-frame b s p.multi_sig_address _ (apart e ne)))
