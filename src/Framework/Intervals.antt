-- ===== src/Framework/Intervals.antt =====
-- The index of the keys of a stored map (framework/src/binding/store/mod.rs).
use mathlib.Core.Path.{subst}
use muta.Prelude.{
  Bool, Bool-cases, Eq, List, Result, [], ap, arith, err, get_elem?, get_or, if◌then◌else◌, inl,
  inr, length, nat_beq, nat_beq_iff, ok, refl, set, suc, sym, true, zero, ℕ, ◌+◌, ◌-◌, ◌<◌, ◌∙◌,
  ◌∷◌, ◌≡◌, ◌≤◌,
}
use muta.Framework.StoreBuckets.{
  FixedBuckets, StoreError, bucket_len, bucket_remove_item, contains_in, fill, finish_remove,
  get_bucket, insert_key, new_buckets, recover_bucket, remove_item, update_index_interval,
  update_loop,
}

get_or-set :
    {A : Type 0} (d : A) (xs : List A) (i k : ℕ) (v : A)
    → i < length xs
    → get_or (get_elem? (set xs i v) k) d ≡ (if nat_beq i k then v else get_or (get_elem? xs k) d)
get_or-set d [] i k v h = ground (arith, h)
get_or-set d (x ∷ xs) zero zero v h = refl
get_or-set d (x ∷ xs) zero (suc k) v h = ground arith
get_or-set d (x ∷ xs) (suc i) zero v h = ground arith
get_or-set d (x ∷ xs) (suc i) (suc k) v h = ground (arith, get_or-set d xs i k v (omega arith))

length-set : {A : Type 0} (xs : List A) (i : ℕ) (v : A) → length (set xs i v) ≡ length xs
length-set [] i v = refl
length-set (x ∷ xs) zero v = refl
length-set (x ∷ xs) (suc i) v = omega (arith, length-set xs i v)

ok_pair :
    {K B : Type 0} (k k' : K) (b b' : B)
    → ◌≡◌ {A = Result (K × B) StoreError} (ok (k, b)) (ok (k', b'))
    → b ≡ b'
ok_pair k k' b b' h = cc

if_true : {A : Type 0} {b : Bool} {x z : A} (y : A) → b ≡ true → (if b then x else y) ≡ z → x ≡ z
if_true y e h = ground (arith, e, h)

get_or-fill : {A : Type 0} (n i : ℕ) (d : A) → get_or (get_elem? (fill n d) i) d ≡ d
get_or-fill zero i d = refl
get_or-fill (suc n) zero d = refl
get_or-fill (suc n) (suc i) d = get_or-fill n i d

module _ {K : Type 0} where
  -- The keys before bucket `i`.
  abbrev pub keys_before : List (List K) → ℕ → ℕ
  keys_before bs zero = 0
  keys_before bs (suc i) = keys_before bs i + length (get_bucket bs i)

keys_before-fill : (K : Type 0) (n i : ℕ) → keys_before {K = K} (fill n []) i ≡ 0
keys_before-fill K n zero = refl
keys_before-fill K n (suc i) =
    let none_here : get_bucket {K = K} (fill n []) i ≡ [] = get_or-fill n i [] in
    ground (arith, keys_before-fill K n i, ap (λ (l : List K). length l) none_here)

module _ {K : Type 0} where
  -- Sixteen buckets, and for each index the number of the keys before it.
  pub record IsIndexed (b : FixedBuckets K) : Type 0 where
    pub buckets : length b.keys_bucket ≡ 16
    pub lens : length b.bucket_lens ≡ 17
    pub index : (i : ℕ) → i < 17 → bucket_len b.bucket_lens i ≡ keys_before b.keys_bucket i

  -- A change of a bucket keeps the number of the keys before it.
  keys_before-set :
      (bs : List (List K)) (index : ℕ) (bucket : List K) (i : ℕ)
      → index < length bs
      → i ≤ index
      → keys_before (set bs index bucket) i ≡ keys_before bs i
  keys_before-set bs index bucket zero h le = refl
  keys_before-set bs index bucket (suc i) h le = ground (
    arith,
    keys_before-set bs index bucket i h (omega (arith, le)),
    get_or-set [] bs index i bucket h,
  )

  keys_before-next :
      (bs : List (List K)) (j : ℕ)
      → keys_before bs (j + 1) ≡ keys_before bs j + length (get_bucket bs j)
  keys_before-next bs j = let step : j + 1 ≡ suc j = omega arith in ap (λ x. keys_before bs x) step

  length-update_loop :
      (n i acc : ℕ) (bs : List (List K)) (lens : List ℕ)
      → length (update_loop n i acc bs lens) ≡ length lens
  unfolding update_loop
  length-update_loop zero i acc bs lens = refl
  length-update_loop (suc n) i acc bs lens =
      length-update_loop n (i + 1) _ bs _ ∙ length-set lens i _

  update_loop-keys_before :
      (n j acc : ℕ) (bs : List (List K)) (lens : List ℕ)
      → j + n ≡ 16
      → acc ≡ keys_before bs j
      → length lens ≡ 17
      → ((k : ℕ) → k ≤ j → bucket_len lens k ≡ keys_before bs k)
      → (k : ℕ) → k < 17
      → bucket_len (update_loop n (j + 1) acc bs lens) k ≡ keys_before bs k
  unfolding update_loop
  update_loop-keys_before zero j acc bs lens e ea el h k lt = h k (omega (arith, e, lt))
  update_loop-keys_before (suc n) j acc bs lens e ea el h k lt =
      let acc' = acc + length (get_bucket bs j) in
      let this : j + 1 - 1 ≡ j = omega arith in
      let next = keys_before-next bs j in
      rw (this) (
        update_loop-keys_before n (j + 1) acc' bs (set lens (j + 1) acc') (omega (arith, e))
          (omega (arith, ea, next)) (length-set lens (j + 1) acc' ∙ el)
          (λ i le. elim (Bool-cases (nat_beq (j + 1) i)) [
            | inl same ↦
                get_or-set 0 lens (j + 1) i acc' (omega (arith, e, el))
                ∙ rw (same) (
                    omega (arith, ea, next)
                    ∙ ap (λ x. keys_before bs x) ((nat_beq_iff (j + 1) i).0 same))
            | inr other ↦
                get_or-set 0 lens (j + 1) i acc' (omega (arith, e, el))
                ∙ rw (other) (h i (ground (arith, le, other)))
          ])
          k lt)

  update_index_interval-IsIndexed :
      (index : ℕ) (bucket : List K) (b : FixedBuckets K) (recovered : List Bool)
      → index < 16
      → IsIndexed b
      → IsIndexed (
          update_index_interval index
            (record b { keys_bucket = set b.keys_bucket index bucket; is_recovered = recovered }))
  unfolding update_index_interval
  update_index_interval-IsIndexed index bucket b recovered lt v =
      let bs = set b.keys_bucket index bucket in
      let short : index < length b.keys_bucket = omega (arith, lt, v.buckets) in
      record {
        buckets = length-set b.keys_bucket index bucket ∙ v.buckets;
        lens = length-update_loop (16 - index) (index + 1) _ bs b.bucket_lens ∙ v.lens;
        index = λ k k_lt.
            update_loop-keys_before (16 - index) index (bucket_len b.bucket_lens index) bs
              b.bucket_lens (omega (arith, lt))
              (v.index index (omega (arith, lt))
                ∙ sym (keys_before-set b.keys_bucket index bucket index short (omega arith)))
              v.lens
              (λ i le.
                v.index i (omega (arith, le, lt))
                ∙ sym (keys_before-set b.keys_bucket index bucket i short le))
              k k_lt;
      }

  -- Putting a bucket into place, as a recovery from the state does, leaves the index right: each
  -- entry is the number of the keys in the buckets before it.
  pub recover_bucket-IsIndexed :
      (index : ℕ) (bucket : List K) (b : FixedBuckets K)
      → index < 16
      → IsIndexed b
      → IsIndexed (recover_bucket index bucket b)
  unfolding recover_bucket
  recover_bucket-IsIndexed index bucket b lt v =
      update_index_interval-IsIndexed index bucket b (set b.is_recovered index true) lt v

  -- A new key leaves the index right.
  pub insert_key-IsIndexed :
      (index : ℕ) (key : K) (b : FixedBuckets K)
      → index < 16
      → IsIndexed b
      → IsIndexed (insert_key index key b)
  unfolding insert_key
  insert_key-IsIndexed index key b lt v =
      update_index_interval-IsIndexed index _ b b.is_recovered lt v

  -- A new map has its index right.
  pub new_buckets-IsIndexed : IsIndexed (new_buckets {K = K})
  new_buckets-IsIndexed = record {
    buckets = refl;
    lens = refl;
    index = λ i lt. get_or-fill 17 i 0 ∙ sym (keys_before-fill K 16 i);
  }

module _ {K : Type 0} ⦃e : Eq K⦄ where
  finish_remove-IsIndexed :
      (index : ℕ) (b b' : FixedBuckets K) (key : K) (r : Result (K × List K) StoreError)
      → index < 16
      → IsIndexed b
      → finish_remove index b r ≡ ok (key, b')
      → IsIndexed b'
  unfolding finish_remove
  finish_remove-IsIndexed index b b' key (err e) lt v h = cc
  finish_remove-IsIndexed index b b' key (ok (k, ks)) lt v h =
      let same = ok_pair k key _ b' h in
      subst (λ x. IsIndexed x) same (update_index_interval-IsIndexed index ks b b.is_recovered lt v)

  -- A removal that finds the key leaves the index right.
  pub remove_item-IsIndexed :
      (index : ℕ) (key k : K) (b b' : FixedBuckets K)
      → index < 16
      → IsIndexed b
      → remove_item index key b ≡ ok (k, b')
      → IsIndexed b'
  unfolding remove_item
  remove_item-IsIndexed index key k b b' lt v h = elim (Bool-cases (contains_in index key b)) [
    | inl here ↦
        finish_remove-IsIndexed index b b' k
          (bucket_remove_item key (get_bucket b.keys_bucket index)) lt v (if_true _ here h)
    | inr gone ↦ ground (arith, gone, h)
  ]
