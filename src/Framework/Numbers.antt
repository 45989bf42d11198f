-- ===== src/Framework/Numbers.antt =====
-- The arithmetic of a stored number (framework/src/binding/store/primitive.rs).
use native.Mathlib.Nat.{mul_comm, div-le_self, mod-le}
use mathlib.Core.Path.{subst}
use muta.Prelude.{
  Option, [], ap, arith, bind-ok, get_or, if◌then◌else◌, is_some, ltb, nat_beq, none, not, ok,
  ok_unique, refl, some, sym, ℕ, ◌%◌, ◌*◌, ◌+◌, ◌-◌, ◌/◌, ◌<◌, ◌>>=◌, ◌^◌, ◌∙◌, ◌≡◌, ◌≢◌,
}
use muta.Protocol.{Bytes, Hash, u64_mod}
use muta.Framework.StoreValues.{
  NumberOp, checked_op, found_or, get_number, inner_get, inner_set, safe_add, safe_div, safe_mul,
  safe_pow, safe_rem, safe_sub, set_number, store_result, uint64_key, update_number,
}
use muta.Framework.State.{
  FixedCodec, GeneralServiceState, TrieOps, get_value, insert_bytes, insert_value,
}
use muta.Framework.Views.{get_value-insert_value}

abbrev fit : ℕ → Option ℕ
fit n = if ltb n u64_mod then some n else none

-- The operations on natural numbers: none where the result is negative, divides by zero or does not
-- fit 64 bits.
abbrev pub exact_op : NumberOp → ℕ → ℕ → Option ℕ
exact_op safe_add val sv = fit (sv + val)
exact_op safe_sub val sv = if ltb sv val then none else some (sv - val)
exact_op safe_mul val sv = fit (sv * val)
exact_op safe_pow val sv = fit (sv ^ val)
exact_op safe_div val sv = if nat_beq val 0 then none else some (sv / val)
exact_op safe_rem val sv = if nat_beq val 0 then none else some (sv % val)

fit_wrapped : (n : ℕ) → (if ltb (u64_mod - 1) n then none else some (n % u64_mod)) ≡ fit n
fit_wrapped n = ground arith

checked_op-exact_op : (op : NumberOp) (val sv : ℕ) → checked_op op val sv ≡ exact_op op val sv
unfolding checked_op
checked_op-exact_op safe_add val sv = ground arith
checked_op-exact_op safe_sub val sv = ground arith
checked_op-exact_op safe_mul val sv = fit_wrapped (val * sv) ∙ ap fit (mul_comm val sv)
checked_op-exact_op safe_pow val sv = fit_wrapped (sv ^ val)
checked_op-exact_op safe_div val sv = refl
checked_op-exact_op safe_rem val sv = refl

exact_op-bound :
    (op : NumberOp) (val sv r : ℕ) → sv < u64_mod → exact_op op val sv ≡ some r → r < u64_mod
exact_op-bound safe_add val sv r small h = ground (arith, h)
exact_op-bound safe_sub val sv r small h = ground (arith, h)
exact_op-bound safe_mul val sv r small h = ground (arith, h)
exact_op-bound safe_pow val sv r small h = ground (arith, h)
exact_op-bound safe_div val sv r small h = ground (arith, h, div-le_self sv val)
exact_op-bound safe_rem val sv r small h = ground (arith, h, mod-le sv val)

module _ {T E : Type 0} (ops : TrieOps T E) (keys : FixedCodec Hash E) (digest : Bytes → Hash)
    (name : Bytes) (numbers : FixedCodec ℕ E) where
  -- The codec spells the key, and every number below 2 ^ 64 in bytes that it reads back.
  pub record IsLawful : Type 0 where
    pub key_bytes : Bytes
    pub key_encoded : keys.encode_fixed (uint64_key ops keys digest name) ≡ ok key_bytes
    pub bytes_of : ℕ → Bytes
    pub encoded : (n : ℕ) → n < u64_mod → numbers.encode_fixed n ≡ ok (bytes_of n)
    pub decoded : (n : ℕ) → n < u64_mod → numbers.decode_fixed (bytes_of n) ≡ ok n
    pub full : (n : ℕ) → bytes_of n ≢ []

  -- What a write leaves: a state that reads as the number.
  set_number-reads :
      (law : IsLawful) (n : ℕ) (s : GeneralServiceState T)
      → n < u64_mod
      → (s' : GeneralServiceState T) × (set_number ops keys digest name numbers n s ≡ ok s')
        × (get_number ops keys digest name numbers s' ≡ ok (s', n))
  unfolding set_number get_number inner_set inner_get found_or insert_value
  set_number-reads law n s small =
      let key = uint64_key ops keys digest name in
      let s' = insert_bytes ops law.key_bytes (law.bytes_of n) s in
      let stored : insert_value ops keys numbers key n s ≡ ok s' =
        rw (law.key_encoded, law.encoded n small) refl in
      let reads =
        get_value-insert_value ops keys numbers key n s law.key_bytes (law.bytes_of n)
          law.key_encoded (law.encoded n small) (law.decoded n small) (law.full n) in
      let read : get_value ops keys numbers key s' ≡ ok (some n) =
        sym (ap (λ r. r >>= λ x. get_value ops keys numbers key x) stored) ∙ reads in
      (s', stored, ap (λ r. r >>= λ found. found_or ops keys numbers key 0 s' found) read)

  -- The first read decides the others: it stores what it answers.
  found_or-again :
      (law : IsLawful) (s s1 : GeneralServiceState T) (v : ℕ) (found : Option ℕ)
      → get_value ops keys numbers (uint64_key ops keys digest name) s ≡ ok found
      → found_or ops keys numbers (uint64_key ops keys digest name) 0 s found ≡ ok (s1, v)
      → get_number ops keys digest name numbers s1 ≡ ok (s1, v)
  unfolding found_or get_number inner_get set_number inner_set
  found_or-again law s s1 v (some w) read h =
      let same = ok_unique _ _ _ refl h in
      subst
        (λ p.
          (get_value ops keys numbers (uint64_key ops keys digest name) p.0 >>= λ found.
          found_or ops keys numbers (uint64_key ops keys digest name) 0 p.0 found)
          ≡ ok p)
        same
        (ap
          (λ r.
            r >>= λ found. found_or ops keys numbers (uint64_key ops keys digest name) 0 s found)
          read)
  found_or-again law s s1 v none read h =
      let (s', stored, again) = set_number-reads law 0 s (omega arith) in
      subst (λ p. get_number ops keys digest name numbers p.0 ≡ ok p)
        (ok_unique _ _ _ (ap (λ r. r >>= λ x. ok (x, 0)) stored) h) again

  get_number-again :
      (law : IsLawful) (s s1 : GeneralServiceState T) (v : ℕ)
      → get_number ops keys digest name numbers s ≡ ok (s1, v)
      → get_number ops keys digest name numbers s1 ≡ ok (s1, v)
  unfolding get_number inner_get
  get_number-again law s s1 v h =
      let (found, read, rest) = bind-ok _ _ (s1, v) h in found_or-again law s s1 v found read rest

  stored_result :
      (law : IsLawful) (s : GeneralServiceState T) (v : ℕ) (result : Option ℕ)
      → ((r : ℕ) → result ≡ some r → r < u64_mod)
      → get_number ops keys digest name numbers s ≡ ok (s, v)
      → (s' : GeneralServiceState T) × (store_result ops keys digest name numbers s result
          ≡ ok (s', not (is_some result)))
        × (get_number ops keys digest name numbers s' ≡ ok (s', get_or result v))
  unfolding store_result
  stored_result law s v none small read = (s, refl, read)
  stored_result law s v (some r) small read =
      let (s', stored, again) = set_number-reads law r s (small r refl) in
      (s', rw stored refl, again)

  -- Over a codec that spells the key, and reads back every number below 2 ^ 64, an operation on a
  -- stored number below 2 ^ 64 answers whether the exact result is missing. What is read after it is
  -- the exact result, or the number before where that is missing.
  pub update_number-exact_op :
      (op : NumberOp) (val v : ℕ) (s s1 : GeneralServiceState T)
      → IsLawful
      → v < u64_mod
      → get_number ops keys digest name numbers s ≡ ok (s1, v)
      → (s' : GeneralServiceState T) × (update_number ops keys digest name numbers op val s
          ≡ ok (s', not (is_some (exact_op op val v))))
        × (get_number ops keys digest name numbers s' ≡ ok (s', get_or (exact_op op val v) v))
  unfolding update_number
  update_number-exact_op op val v s s1 law small read =
      rw (read, checked_op-exact_op op val v)
        (stored_result law s1 v (exact_op op val v) (λ r. exact_op-bound op val v r small)
          (get_number-again law s s1 v read))
