-- ===== src/MultiSig/Weights.antt =====
-- Sums of weights: that they do not wrap, and how the changes of a permission move them
-- (built-in-services/multi-signature/src/types.rs).
use muta.Prelude.{
  All, List, Option-cases, [], arith, if_cases, inl, inr, length, ltb, refl, some, ℕ, ◌*◌, ◌+◌, ◌<◌,
  ◌∷◌, ◌≡◌, ◌≤◌,
}
use muta.Protocol.{Address, u32_mod}
use muta.MultiSig.Types.{
  Account, MultiSigPermission, RemoveAccountResult, SetWeightResult, add_u32, drop_account,
  find_account, remove_account_from, reweigh, set_weight_in, sub_u32, weight_sum,
}
use muta.MultiSig.Sdk.{max_permission_accounts}

-- The sum over the natural numbers.
abbrev pub plain_sum : List Account → ℕ
plain_sum [] = 0
plain_sum (a ∷ l) = a.weight + plain_sum l

-- Weights are `u8`.
abbrev pub IsByteWeight : Account → Type 0
IsByteWeight a = a.weight < 256

pub plain_sum-le : (l : List Account) → All IsByteWeight l → plain_sum l ≤ 255 * length l
plain_sum-le [] h = omega arith
plain_sum-le (a ∷ l) h = omega (arith, plain_sum-le l h.1)

-- Where the plain sum fits 32 bits, the program computes it.
pub weight_sum-plain : (l : List Account) → plain_sum l < u32_mod → weight_sum l ≡ plain_sum l
unfolding weight_sum
weight_sum-plain [] h = refl
weight_sum-plain (a ∷ l) h = omega (arith, weight_sum-plain l (omega arith))

-- What a permission satisfies: at most sixteen accounts, whose weights reach the threshold.
pub record IsValid (p : MultiSigPermission) : Type 0 where
  pub few : length p.accounts ≤ max_permission_accounts
  pub bytes : All IsByteWeight p.accounts
  pub reachable : p.threshold ≤ plain_sum p.accounts

pub IsValid-sum :
    (p : MultiSigPermission) → IsValid p → weight_sum p.accounts ≡ plain_sum p.accounts
IsValid-sum p v =
    weight_sum-plain p.accounts (omega (arith, plain_sum-le p.accounts v.bytes, v.few))

-- Removing or reweighing the account that is found.
module _ (addr : Address) where
  pub drop_account-sum :
      (l : List Account) (a : Account)
      → find_account addr l ≡ some a
      → (plain_sum (drop_account addr l) + a.weight ≡ plain_sum l)
        × (length (drop_account addr l) + 1 ≡ length l)
  unfolding find_account drop_account
  drop_account-sum [] a h = absurd (ground arith)
  drop_account-sum (b ∷ l) a h = ground (arith, drop_account-sum l a)

  pub drop_account-bytes :
      (l : List Account) → All IsByteWeight l → All IsByteWeight (drop_account addr l)
  unfolding drop_account
  drop_account-bytes [] h = h
  drop_account-bytes (b ∷ l) h = ground (arith, drop_account-bytes l h.1)

  pub reweigh-sum :
      (w : ℕ) (l : List Account) (a : Account)
      → find_account addr l ≡ some a
      → (plain_sum (reweigh addr w l) + a.weight ≡ plain_sum l + w)
        × (length (reweigh addr w l) ≡ length l)
  unfolding find_account reweigh
  reweigh-sum w [] a h = absurd (ground arith)
  reweigh-sum w (b ∷ l) a h = ground (arith, reweigh-sum w l a)

  pub reweigh-bytes :
      (w : ℕ) (l : List Account)
      → w < 256
      → All IsByteWeight l
      → All IsByteWeight (reweigh addr w l)
  unfolding reweigh
  reweigh-bytes w [] hw h = h
  reweigh-bytes w (b ∷ l) hw h = ground (arith, reweigh-bytes w l hw h.1)

-- An account that can be removed leaves a permission whose threshold can be reached.
pub remove_account_from-IsValid :
    (p : MultiSigPermission) (addr : Address) → IsValid p → IsValid (remove_account_from p addr).1
unfolding remove_account_from
remove_account_from-IsValid p addr v = elim (Option-cases (find_account addr p.accounts)) [
  | inl e ↦ rw (e, remove_account_from) v
  | inr (a, e) ↦
      rw (e, remove_account_from)
        (if_cases (λ (r : RemoveAccountResult × MultiSigPermission). IsValid r.1)
          (ltb (sub_u32 (weight_sum p.accounts) a.weight) p.threshold) _ _ (λ low. v)
          (λ enough. record {
            few = omega (arith, v.few, (drop_account-sum addr p.accounts a e).1);
            bytes = drop_account-bytes addr p.accounts v.bytes;
            reachable = ground (
              arith,
              IsValid-sum p v,
              plain_sum-le p.accounts v.bytes,
              v.few,
              (drop_account-sum addr p.accounts a e).0,
            );
          }))
]

-- So does a weight that can be set.
pub set_weight_in-IsValid :
    (p : MultiSigPermission) (addr : Address) (w : ℕ)
    → w < 256
    → IsValid p
    → IsValid (set_weight_in p addr w).1
unfolding set_weight_in
set_weight_in-IsValid p addr w hw v = elim (Option-cases (find_account addr p.accounts)) [
  | inl e ↦ rw (e, set_weight_in) v
  | inr (a, e) ↦
      rw (e, set_weight_in)
        (if_cases (λ (r : SetWeightResult × MultiSigPermission). IsValid r.1)
          (ltb (sub_u32 (add_u32 (weight_sum p.accounts) w) a.weight) p.threshold) _ _ (λ low. v)
          (λ enough. record {
            few = omega (arith, v.few, (reweigh-sum addr w p.accounts a e).1);
            bytes = reweigh-bytes addr w p.accounts hw v.bytes;
            reachable = ground (
              arith,
              IsValid-sum p v,
              plain_sum-le p.accounts v.bytes,
              v.few,
              hw,
              (reweigh-sum addr w p.accounts a e).0,
            );
          }))
]
