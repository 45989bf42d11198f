-- ===== src/MultiSig/Threshold.antt =====
-- What the verification of a multi-signature decides
-- (`_verify_multi_signature` of built-in-services/multi-signature/src/lib.rs).
use mathlib.Core.Path.{fun_ext}
use muta.Prelude.{
  Bool, Dict, List, [], ap, arith, false, if◌then◌else◌, leb, not, refl, some, suc, unit_default,
  zero, ℕ, ◌+◌, ◌<◌, ◌∷◌, ◌≡◌, ◌≤◌,
}
use muta.Protocol.{Address, Bytes, Hash, ServiceResponse, is_error, u32_mod}
use muta.MultiSig.Types.{Account, MultiSigPermission}
use muta.MultiSig.Sdk.{MultiSigEnv, PermissionSdk, code_of, max_recursion_depth}
use muta.MultiSig.Verify.{signs, verify_level, verify_multi_signature, weigh}
use muta.MultiSig.Weights.{IsValid, plain_sum, plain_sum-le}

-- The weight of the accounts that signed.
abbrev pub signed_weight : (Account → Bool) → List Account → ℕ
signed_weight signed [] = 0
signed_weight signed (a ∷ l) = (if signed a then a.weight else 0) + signed_weight signed l

signed_weight-le :
    (signed : Account → Bool) (l : List Account) → signed_weight signed l ≤ plain_sum l
signed_weight-le signed [] = omega arith
signed_weight-le signed (a ∷ l) = ground (arith, signed_weight-le signed l)

module _ {S : Type 0} (sdk : PermissionSdk S) (env : MultiSigEnv) where
  -- The loop stops early, and decides what the whole sum decides.
  weigh-sum :
      (signed : Account → Bool) (threshold : ℕ) (l : List Account) (acc : ℕ)
      → acc < threshold
      → acc + plain_sum l < u32_mod
      → weigh sdk env signed threshold l acc ≡ leb threshold (acc + signed_weight signed l)
  unfolding weigh
  weigh-sum signed threshold [] acc below fits = ground arith
  weigh-sum signed threshold (a ∷ l) acc below fits = ground (
    arith,
    signed_weight-le signed l,
    weigh-sum signed threshold l (if signed a then acc + a.weight else acc),
  )

  module _ (s : S) (tx_hash : Hash) (wit_map : Dict Address (Bytes × Bytes)) where
    -- Below the depth limit, an account with a valid permission and a threshold above zero accepts a
    -- transaction exactly when the accounts that signed it weigh its threshold.
    pub verify_level-weight :
        (deeper : Address → ServiceResponse (Unit {0})) (sender : Address) (depth : ℕ)
        (p : MultiSigPermission)
        → depth + 1 < max_recursion_depth
        → sdk.get_permission s sender ≡ some p
        → IsValid p
        → 0 < p.threshold
        → is_error (verify_level sdk env s tx_hash wit_map deeper sender depth)
          ≡ not (leb p.threshold (signed_weight (signs sdk env tx_hash wit_map deeper) p.accounts))
    unfolding verify_level code_of
    verify_level-weight deeper sender depth p shallow e v pos =
        let fits : 0 + plain_sum p.accounts < u32_mod =
          omega (arith, plain_sum-le p.accounts v.bytes, v.few) in
        let sum =
          weigh-sum (signs sdk env tx_hash wit_map deeper) p.threshold p.accounts 0 pos fits in
        rw (e, verify_level) (ground (arith, sum))

    -- An account with a threshold of zero accepts every transaction, signed or not.
    pub verify_level-zero :
        (deeper : Address → ServiceResponse (Unit {0})) (sender : Address) (depth : ℕ)
        (p : MultiSigPermission) (a : Account) (l : List Account)
        → depth + 1 < max_recursion_depth
        → sdk.get_permission s sender ≡ some p
        → p.threshold ≡ 0
        → p.accounts ≡ a ∷ l
        → is_error (verify_level sdk env s tx_hash wit_map deeper sender depth) ≡ false
    unfolding verify_level weigh code_of
    verify_level-zero deeper sender depth p a l shallow e zero_threshold some_account =
        rw (e, verify_level) (ground arith)

    -- Any fuel that covers the levels left gives the same answer.
    pub verify_multi_signature-fuel :
        (f g : ℕ) (sender : Address) (depth : ℕ)
        → max_recursion_depth ≤ f + depth
        → max_recursion_depth ≤ g + depth
        → verify_multi_signature sdk env s tx_hash wit_map f sender depth
          ≡ verify_multi_signature sdk env s tx_hash wit_map g sender depth
    unfolding verify_multi_signature verify_level
    verify_multi_signature-fuel zero zero sender depth hf hg = refl
    verify_multi_signature-fuel zero (suc g) sender depth hf hg = ground arith
    verify_multi_signature-fuel (suc f) zero sender depth hf hg = ground arith
    verify_multi_signature-fuel (suc f) (suc g) sender depth hf hg =
        ap
          (λ (deeper : Address → ServiceResponse (Unit {0})).
            verify_level sdk env s tx_hash wit_map deeper sender depth)
          (fun_ext (λ a. verify_multi_signature-fuel f g a (depth + 1) (omega arith) (omega arith)))
