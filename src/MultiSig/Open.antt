-- ===== src/MultiSig/Open.antt =====
-- A threshold of zero (`set_threshold` and `_verify_multi_signature` of
-- built-in-services/multi-signature/src/lib.rs).
use muta.Prelude.{
  Default, Dict, List, arith, false, leb, nat_beq_iff, refl, some, true, unit_default, ◌%◌, ◌+◌,
  ◌∙◌, ◌∷◌, ◌≡◌,
}
use muta.Protocol.{Address, Bytes, Hash, Outcome, ServiceContext, cycles-paid, is_error, u64_mod}
use muta.MultiSig.Types.{Account, MultiSigPermission, set_threshold_to}
use muta.MultiSig.Sdk.{MultiSigEnv, PermissionSdk, max_recursion_depth}
use muta.MultiSig.Verify.{verify_multi_signature}
use muta.MultiSig.Threshold.{verify_level-zero}
use muta.MultiSig.Service.{owned, set_threshold, set_threshold_with, store}

module _ {S : Type 0} (sdk : PermissionSdk S) (env : MultiSigEnv) where
  -- A change by the owner is made.
  pub owned-done {κ} :
      {T : Type κ} ⦃d : Default T⦄ (addr : Address) (p : MultiSigPermission)
      (change : MultiSigPermission → S → ServiceContext → Outcome S T) (s : S)
      (ctx : ServiceContext)
      → sdk.get_permission s addr ≡ some p
      → ctx.caller ≡ p.owner
      → owned sdk env addr change s ctx ≡ change p s ctx
  unfolding owned
  owned-done addr p change s ctx e owner = rw (e, owned, (nat_beq_iff ctx.caller p.owner).1 owner)

  zero_stored :
      (addr : Address) (p : MultiSigPermission) (s : S) (ctx : ServiceContext)
      → sdk.get_permission s addr ≡ some p
      → ctx.caller ≡ p.owner
      → leb ((ctx.cycles_used + 21_000) % u64_mod) ctx.cycles_limit ≡ true
      → set_threshold sdk env (record { multi_sig_address = addr; new_threshold = 0 }) s ctx
        ≡ store sdk env addr
            (set_threshold_to p 0)
            tt
            s
            (record ctx { cycles_used = (ctx.cycles_used + 21_000) % u64_mod })
  unfolding set_threshold set_threshold_with
  zero_stored addr p s ctx e owner paid =
      cycles-paid ⦃d = unit_default⦄ 21_000 _ s ctx paid
      ∙ owned-done ⦃d = unit_default⦄ addr p _ s _ e owner
      ∙ ground arith

  -- `set_threshold` takes a threshold of zero from the owner of an account that has a member, if the
  -- cycles of the call are there; in the state that it leaves, the check of the account's members
  -- against the keys and signatures of a witness by their addresses, `_verify_multi_signature`,
  -- succeeds for every transaction hash and every such map, the empty one included.
  pub set_threshold-zero_opens :
      (addr : Address) (p : MultiSigPermission) (a : Account) (l : List Account) (s : S)
      (ctx : ServiceContext)
      → sdk.get_permission s addr ≡ some p
      → ctx.caller ≡ p.owner
      → p.accounts ≡ a ∷ l
      → leb ((ctx.cycles_used + 21_000) % u64_mod) ctx.cycles_limit ≡ true
      → let o =
          set_threshold sdk env (record { multi_sig_address = addr; new_threshold = 0 }) s ctx in
        (is_error o.response ≡ false)
        × ((tx_hash : Hash) (wit_map : Dict Address (Bytes × Bytes))
            → is_error
                (verify_multi_signature sdk env o.state tx_hash wit_map max_recursion_depth addr 0)
              ≡ false)
  unfolding verify_multi_signature
  set_threshold-zero_opens addr p a l s ctx e owner members paid =
      rw (zero_stored addr p s ctx e owner paid) (
        refl,
        λ tx_hash wit_map.
            verify_level-zero sdk env _ tx_hash wit_map _ addr 0 (set_threshold_to p 0) a l
              (omega arith)
              (sdk.get-set_permission s addr (set_threshold_to p 0) addr ∙ ground arith) refl
              members,
      )
