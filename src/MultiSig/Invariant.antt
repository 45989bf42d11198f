-- ===== src/MultiSig/Invariant.antt =====
-- Every operation of the multi-signature service leaves permissions whose threshold can be reached
-- (built-in-services/multi-signature/src/lib.rs).
use mathlib.Core.Path.{subst}
use muta.Prelude.{
  All, Bool-cases, Default, List, Option-cases, String, [], arith, if_cases, inl, inr, length, map,
  nat_beq, none, not, refl, some, unit_default, ℕ, ◌*◌, ◌+◌, ◌<◌, ◌∷◌, ◌≡◌, ◌≤◌,
}
use muta.Protocol.{Address, Outcome, ServiceContext, cycles, cycles_cases}
use muta.MultiSig.Types.{Account, AddressWithWeight, MultiSigPermission, weight_sum_of}
use muta.MultiSig.Sdk.{MultiSigEnv, PermissionSdk}
use muta.MultiSig.Service.{check_accounts, classify, get_account_from_address, owned, single}
use muta.MultiSig.Weights.{IsByteWeight, IsValid, plain_sum}

-- The weights of a payload are `u8`.
abbrev pub AreBytes : List AddressWithWeight → Type 0
AreBytes = All (λ item. item.weight < 256)

abbrev pub plain_sum_of : List AddressWithWeight → ℕ
plain_sum_of [] = 0
plain_sum_of (a ∷ l) = a.weight + plain_sum_of l

weight_sum_of-plain :
    (l : List AddressWithWeight)
    → AreBytes l
    → length l ≤ 16
    → (weight_sum_of l ≡ plain_sum_of l) × (plain_sum_of l ≤ 255 * length l)
unfolding weight_sum_of
weight_sum_of-plain [] h few = (refl, omega arith)
weight_sum_of-plain (a ∷ l) h few =
    let (same, small) = weight_sum_of-plain l h.1 (omega arith) in (omega arith, omega arith)

-- What the checks on a payload establish.
check_accounts-none :
    (l : List AddressWithWeight) (threshold : ℕ)
    → AreBytes l
    → check_accounts l threshold ≡ none
    → (0 < length l) × (length l ≤ 16) × (0 < threshold) × (threshold ≤ plain_sum_of l)
unfolding check_accounts
check_accounts-none l threshold b h =
    let few : length l ≤ 16 = ground arith in
    (ground arith, few, ground arith, ground (arith, weight_sum_of-plain l b few))

-- Accounts that stand for the items of a payload.
pub Stand : List AddressWithWeight → List Account → Type 0
Stand l m =
    (length m ≡ length l) × (plain_sum m ≡ plain_sum_of l) × (AreBytes l → All IsByteWeight m)

pub Stand-single : (l : List AddressWithWeight) → Stand l (map single l)
unfolding Stand
Stand-single [] = (refl, refl, λ h. tt)
Stand-single (a ∷ l) =
    let (len, sum, bytes) = Stand-single l in (omega arith, omega arith, λ h. (h.0, bytes h.1))

pub Stand-IsValid :
    (l : List AddressWithWeight) (m : List Account) (owner : Address) (threshold : ℕ)
    (memo : String)
    → AreBytes l
    → check_accounts l threshold ≡ none
    → Stand l m
    → IsValid (record { owner = owner; accounts = m; threshold = threshold; memo = memo })
unfolding Stand
Stand-IsValid l m owner threshold memo b h st =
    let (some_there, few, pos, reach) = check_accounts-none l threshold b h in
    record { few = omega arith; bytes = st.2 b; reachable = omega arith }

module _ {S : Type 0} (sdk : PermissionSdk S) (env : MultiSigEnv) where
  -- Every stored permission is valid.
  abbrev pub IsSound : S → Type 0
  IsSound s = (a : Address) (p : MultiSigPermission) → sdk.get_permission s a ≡ some p → IsValid p

  pub set-IsSound :
      (s : S) (a : Address) (p : MultiSigPermission)
      → IsSound s
      → IsValid p
      → IsSound (sdk.set_permission s a p)
  set-IsSound s a p v w b q e = elim (Bool-cases (nat_beq a b)) [
    | inl same ↦
        let pq : p ≡ q = ground (arith, sdk.get-set_permission s a p b) in subst IsValid pq w
    | inr other ↦ v b q (ground (arith, sdk.get-set_permission s a p b))
  ]

  pub classify-Stand :
      (l : List AddressWithWeight) (s : S) (ctx : ServiceContext)
      → Stand l (classify sdk env l s ctx).0
  unfolding Stand classify
  classify-Stand [] s ctx = (refl, refl, λ h. tt)
  classify-Stand (a ∷ l) s ctx =
      let o = get_account_from_address sdk env a.address s ctx in
      let (len, sum, bytes) = classify-Stand l s o.context in
      (omega arith, omega arith, λ h. (h.0, bytes h.1))

  abbrev Keeps {κ} : {T : Type κ} → Outcome S T → Type 0
  Keeps o = IsSound o.state

  -- A metered change of a permission keeps the invariant if its body does.
  pub owned-IsSound {κ} :
      {T : Type κ} ⦃d : Default T⦄ (addr : Address)
      (change : MultiSigPermission → S → ServiceContext → Outcome S T) (s : S)
      (ctx : ServiceContext)
      → IsSound s
      → ((p : MultiSigPermission) (c : ServiceContext) → IsValid p → IsSound (change p s c).state)
      → IsSound (cycles 21_000 (owned sdk env addr change) s ctx).state
  unfolding owned
  owned-IsSound addr change s ctx v keep =
      cycles_cases Keeps 21_000 _ s ctx
        (λ used. elim (Option-cases (sdk.get_permission s addr)) [
          | inl e ↦ rw (e, owned) v
          | inr (p, e) ↦
              rw (e, owned)
                (if_cases Keeps (not (nat_beq ctx.caller p.owner)) _ _ (λ other. v)
                  (λ owner. keep p _ (v addr p e)))
        ])
        v
