-- ===== src/Framework/StoreValues.antt =====
-- The single values that a service stores: a Boolean, a 64-bit number and a text
-- (framework/src/binding/store/primitive.rs). An error of the state is a panic in the code.
use Prim.Native.String.{len}
use muta.Prelude.{
  Bool, Option, Result, String, [], false, if◌then◌else◌, leb, ltb, nat_beq, none, ok, some, true,
  ℕ, ◌%◌, ◌*◌, ◌++◌, ◌-◌, ◌/◌, ◌>>=◌, ◌^◌, ◌∷◌,
}
use muta.Protocol.{Bytes, Hash, overflowing_add, u64_mod}
use muta.Framework.State.{FixedCodec, GeneralServiceState, TrieOps, get_value, insert_value}

-- `u64::overflowing_mul` and `u64::overflowing_pow`: the wrapped result, and whether it wrapped.
abbrev pub overflowing_mul : ℕ → ℕ → ℕ × Bool
overflowing_mul a b = ((a * b) % u64_mod, ltb (u64_mod - 1) (a * b))

abbrev pub overflowing_pow : ℕ → ℕ → ℕ × Bool
overflowing_pow a n = ((a ^ n) % u64_mod, ltb (u64_mod - 1) (a ^ n))

pub data NumberOp : Type 0 where
  safe_add safe_sub safe_mul safe_pow safe_div safe_rem : NumberOp

-- The new number, unless it does not fit or there is none.
unfoldable pub checked_op : NumberOp → ℕ → ℕ → Option ℕ
checked_op safe_add val sv =
    let (sum, overflow) = overflowing_add val sv in if overflow then none else some sum
checked_op safe_sub val sv = if leb val sv then some (sv - val) else none
checked_op safe_mul val sv =
    let (mul, overflow) = overflowing_mul val sv in if overflow then none else some mul
checked_op safe_pow val sv =
    let (pow, overflow) = overflowing_pow sv val in if overflow then none else some pow
checked_op safe_div val sv = if nat_beq val 0 then none else some (sv / val)
checked_op safe_rem val sv = if nat_beq val 0 then none else some (sv % val)

module _ {T E V : Type 0} (ops : TrieOps T E) (keys : FixedCodec Hash E) (values : FixedCodec V E)
    (key : Hash) where
  -- A value that is not there yet is stored, with its first value.
  unfoldable pub found_or :
      V → GeneralServiceState T → Option V → Result (GeneralServiceState T × V) E
  found_or first s (some v) = ok (s, v)
  found_or first s none = do s' ← insert_value ops keys values key first s; ok (s', first)

  unfoldable pub inner_get : V → GeneralServiceState T → Result (GeneralServiceState T × V) E
  inner_get first s = do found ← get_value ops keys values key s; found_or first s found

  unfoldable pub inner_set : V → GeneralServiceState T → Result (GeneralServiceState T) E
  inner_set v s = insert_value ops keys values key v s

module _ {T E : Type 0} (ops : TrieOps T E) (keys : FixedCodec Hash E) (digest : Bytes → Hash)
    (name : Bytes) where
  -- The keys: the digest of the name of the value and the name of its type.
  abbrev pub bool_key : Hash
  bool_key = digest (name ++ (98 ∷ 111 ∷ 111 ∷ 108 ∷ []))

  abbrev pub uint64_key : Hash
  uint64_key = digest (name ++ (117 ∷ 105 ∷ 110 ∷ 116 ∷ 54 ∷ 52 ∷ []))

  abbrev pub string_key : Hash
  string_key = digest (name ++ (115 ∷ 116 ∷ 114 ∷ 105 ∷ 110 ∷ 103 ∷ []))

  module _ (bools : FixedCodec Bool E) where
    unfoldable pub get_bool : GeneralServiceState T → Result (GeneralServiceState T × Bool) E
    get_bool = inner_get ops keys bools bool_key false

    unfoldable pub set_bool : Bool → GeneralServiceState T → Result (GeneralServiceState T) E
    set_bool = inner_set ops keys bools bool_key

  module _ (strings : FixedCodec String E) where
    unfoldable pub get_string : GeneralServiceState T → Result (GeneralServiceState T × String) E
    get_string = inner_get ops keys strings string_key ""

    unfoldable pub set_string : String → GeneralServiceState T → Result (GeneralServiceState T) E
    set_string = inner_set ops keys strings string_key

    unfoldable pub string_len : GeneralServiceState T → Result (GeneralServiceState T × ℕ) E
    string_len s = do found ← get_string s; ok (found.0, len found.1)

    unfoldable pub string_is_empty : GeneralServiceState T → Result (GeneralServiceState T × Bool) E
    string_is_empty s = do found ← get_string s; ok (found.0, nat_beq (len found.1) 0)

  module _ (numbers : FixedCodec ℕ E) where
    unfoldable pub get_number : GeneralServiceState T → Result (GeneralServiceState T × ℕ) E
    get_number = inner_get ops keys numbers uint64_key 0

    unfoldable pub set_number : ℕ → GeneralServiceState T → Result (GeneralServiceState T) E
    set_number = inner_set ops keys numbers uint64_key

    -- The end of an operation, which answers whether it failed.
    unfoldable pub store_result :
        GeneralServiceState T → Option ℕ → Result (GeneralServiceState T × Bool) E
    store_result s none = ok (s, true)
    store_result s (some v) = do s' ← set_number v s; ok (s', false)

    unfoldable pub update_number :
        NumberOp → ℕ → GeneralServiceState T → Result (GeneralServiceState T × Bool) E
    update_number op val s = do
      found ← get_number s
      store_result found.0 (checked_op op val found.1)
