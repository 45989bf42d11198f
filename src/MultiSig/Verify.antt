-- ===== src/MultiSig/Verify.antt =====
-- How a signature is verified (`_inner_verify_signature`, `_verify_multi_signature` and
-- `_is_recursion_depth_overflow` of built-in-services/multi-signature/src/lib.rs).
use muta.Prelude.{
  Bool, Dict, List, [], any, false, if◌then◌else◌, insert, leb, length, lookup, nat_eq, none, not,
  some, suc, true, unit_default, zero, ℕ, ◌+◌, ◌==◌, ◌∷◌,
}
use muta.Protocol.{
  Address, Bytes, Crypto, Hash, Outcome, ServiceContext, ServiceResponse, address_from_pubkey,
  cycles, from_succeed, is_error,
}
use muta.MultiSig.Types.{Account, VerifySignaturePayload, add_u32}
use muta.MultiSig.Sdk.{
  MultiSigEnv, PermissionSdk, above_max_recursion_depth, account_not_exist, decode_err, fail,
  invalid_public_key, max_recursion_depth, pubkey_and_signature_mismatch,
  verify_multi_signature_failed,
}

-- `Witness::into_addr_map`: the keys and signatures by the key's address. A later pair with the
-- same address replaces an earlier one, and an invalid key is left out.
unfoldable pub witness_from :
    Crypto → Dict Address (Bytes × Bytes) → List Bytes → List Bytes → Dict Address (Bytes × Bytes)
witness_from c m [] sigs = m
witness_from c m (pk ∷ pks) [] = m
witness_from c m (pk ∷ pks) (sig ∷ sigs) =
    witness_from c
      (elim (address_from_pubkey c pk) [ none ↦ m | some addr ↦ insert addr (pk, sig) m ]) pks sigs

unfoldable pub into_addr_map : Crypto → List Bytes → List Bytes → Dict Address (Bytes × Bytes)
unfolding witness_from
into_addr_map c = witness_from c []

module _ {S : Type 0} (sdk : PermissionSdk S) (env : MultiSigEnv) where
  open sdk use {get_permission}
  open env use {crypto}

  unfoldable pub verify_single_signature : Hash → Bytes → Bytes → ServiceResponse (Unit {0})
  verify_single_signature tx_hash sig pubkey =
      if crypto.verify_signature tx_hash sig pubkey
      then from_succeed tt
      else fail env verify_multi_signature_failed

  -- The loop over the accounts: add the weight of each that signed, and stop at the threshold.
  unfoldable pub weigh : (Account → Bool) → ℕ → List Account → ℕ → Bool
  weigh signed threshold [] weight_acc = false
  weigh signed threshold (a ∷ accounts) weight_acc =
      let acc = if signed a then add_u32 weight_acc a.weight else weight_acc in
      elim (leb threshold acc) [ true ↦ true | false ↦ weigh signed threshold accounts acc ]

  -- An account signs by its key, or, if it is a multi-signature account, by `deeper`.
  abbrev pub signs :
      Hash → Dict Address (Bytes × Bytes) → (Address → ServiceResponse (Unit {0})) → Account → Bool
  signs tx_hash wit_map deeper a =
      if not a.is_multiple
      then elim (lookup a.address wit_map) [
        | none ↦ false
        | some (pk, sig) ↦ not (is_error (verify_single_signature tx_hash sig pk))
      ]
      else not (is_error (deeper a.address))

  module _ (s : S) where
    -- One level of `_verify_multi_signature`, with the calls for the accounts below it.
    unfoldable pub verify_level :
        Hash
        → Dict Address (Bytes × Bytes)
        → (Address → ServiceResponse (Unit {0}))
        → Address
        → ℕ
        → ServiceResponse (Unit {0})
    verify_level tx_hash wit_map deeper sender recursion_depth =
        if leb max_recursion_depth (recursion_depth + 1)
        then fail env above_max_recursion_depth
        else elim (get_permission s sender) [
          | none ↦ fail env account_not_exist
          | some p ↦
              if weigh (signs tx_hash wit_map deeper) p.threshold p.accounts 0
              then from_succeed tt
              else fail env verify_multi_signature_failed
        ]

    -- `_verify_multi_signature`. The fuel bounds the depth of the calls, and
    -- `max_recursion_depth` of it is enough (`verify_multi_signature-fuel`).
    unfoldable pub verify_multi_signature :
        Hash → Dict Address (Bytes × Bytes) → ℕ → Address → ℕ → ServiceResponse (Unit {0})
    verify_multi_signature tx_hash wit_map zero sender recursion_depth =
        fail env above_max_recursion_depth
    verify_multi_signature tx_hash wit_map (suc fuel) sender recursion_depth =
        verify_level tx_hash wit_map
          (λ a. verify_multi_signature tx_hash wit_map fuel a (recursion_depth + 1)) sender
          recursion_depth

    unfoldable pub overflow_level : (Address → Bool) → Address → ℕ → Bool
    overflow_level deeper address recursion_depth =
        if leb max_recursion_depth (recursion_depth + 1)
        then true
        else elim (get_permission s address) [
          | none ↦ false
          | some p ↦ any (λ a. if a.is_multiple then deeper a.address else false) p.accounts
        ]

    -- `_is_recursion_depth_overflow`, with fuel in the same way.
    unfoldable pub is_recursion_depth_overflow : ℕ → Address → ℕ → Bool
    is_recursion_depth_overflow zero address recursion_depth = true
    is_recursion_depth_overflow (suc fuel) address recursion_depth =
        overflow_level (λ a. is_recursion_depth_overflow fuel a (recursion_depth + 1)) address
          recursion_depth

    abbrev pub depth_overflow : Address → ℕ → Bool
    depth_overflow = is_recursion_depth_overflow max_recursion_depth

    -- `_inner_verify_signature`, when the two lists are equally long and not one key of the sender.
    unfoldable pub verify_witness : VerifySignaturePayload → ServiceResponse (Unit {0})
    verify_witness p =
        verify_multi_signature p.tx_hash (into_addr_map crypto p.pubkeys p.signatures)
          max_recursion_depth p.sender 0

    -- One key and one signature: the sender's own, or a witness like any other.
    unfoldable pub verify_one : VerifySignaturePayload → Bytes → Bytes → ServiceResponse (Unit {0})
    verify_one p pk sig = elim (address_from_pubkey crypto pk) [
      | none ↦ fail env invalid_public_key
      | some addr ↦
          if addr == p.sender then verify_single_signature p.tx_hash sig pk else verify_witness p
    ]

    unfoldable pub inner_verify :
        VerifySignaturePayload → List Bytes → List Bytes → ServiceResponse (Unit {0})
    inner_verify p (pk ∷ []) (sig ∷ []) = verify_one p pk sig
    inner_verify p pks sigs = verify_witness p

    unfoldable pub inner_verify_signature : VerifySignaturePayload → ServiceResponse (Unit {0})
    inner_verify_signature p =
        if not (length p.pubkeys == length p.signatures)
        then fail env pubkey_and_signature_mismatch
        else inner_verify p p.pubkeys p.signatures

  -- `verify_signature`, of a transaction with its hash, its sender and the two encoded lists.
  unfoldable pub verify_signature_body :
      Hash → Address → Bytes → Bytes → S → ServiceContext → Outcome S (Unit {0})
  verify_signature_body tx_hash sender pubkey signature s ctx = record {
    response = elim (env.decode_list pubkey) [
      | none ↦ fail env (decode_err "public key")
      | some pubkeys ↦ elim (env.decode_list signature) [
        | none ↦ fail env (decode_err "signature")
        | some sigs ↦
            inner_verify_signature s
              (record { tx_hash = tx_hash; pubkeys = pubkeys; signatures = sigs; sender = sender })
      ]
    ];
    state = s;
    context = ctx;
  }

  unfoldable pub verify_signature :
      Hash → Address → Bytes → Bytes → S → ServiceContext → Outcome S (Unit {0})
  verify_signature tx_hash sender pubkey signature =
      cycles 21_000 (verify_signature_body tx_hash sender pubkey signature)
