-- ===== src/Framework/StoreBuckets.antt =====
-- The keys of a stored map, in sixteen buckets with the index of each bucket's first key
-- (`FixedBuckets` and `Bucket` of framework/src/binding/store/mod.rs).
use muta.Prelude.{
  Bool, Eq, List, Result, [], any, err, false, get_elem?, get_or, if◌then◌else◌, length, nat_eq, ok,
  set, suc, true, zero, ℕ, ◌++◌, ◌+◌, ◌-◌, ◌==◌, ◌>>=◌, ◌∷◌,
}

pub data StoreError : Type 0 where
  get_none out_range decode_error overflow : StoreError

-- Every index is below sixteen, where the code panics otherwise.
pub record FixedBuckets (K : Type 0) : Type 0 where
  pub keys_bucket : List (List K)
  pub bucket_lens : List ℕ
  pub is_recovered : List Bool

-- `n` times the same value, as the loop of `new` pushes it.
abbrev pub fill : {A : Type 0} → ℕ → A → List A
fill zero a = []
fill (suc n) a = a ∷ fill n a

-- `bucket_lens[index]`
abbrev pub bucket_len : List ℕ → ℕ → ℕ
bucket_len lens index = get_or (get_elem? lens index) 0

module _ {K : Type 0} where
  -- `keys_bucket[index]`
  abbrev pub get_bucket : List (List K) → ℕ → List K
  get_bucket bs index = get_or (get_elem? bs index) []

  abbrev pub new_buckets : FixedBuckets K
  new_buckets = record {
    keys_bucket = fill 16 [];
    bucket_lens = fill 17 0;
    is_recovered = fill 16 false;
  }

  -- The loop over the `n` entries from `i` on, with the sum so far.
  unfoldable pub update_loop : ℕ → ℕ → ℕ → List (List K) → List ℕ → List ℕ
  update_loop zero i acc bs lens = lens
  update_loop (suc n) i acc bs lens =
      let acc' = acc + length (get_bucket bs (i - 1)) in
      update_loop n (i + 1) acc' bs (set lens i acc')

  unfoldable pub update_index_interval : ℕ → FixedBuckets K → FixedBuckets K
  update_index_interval index b = record b {
    bucket_lens =
        update_loop (16 - index) (index + 1) (bucket_len b.bucket_lens index) b.keys_bucket
          b.bucket_lens;
  }

  unfoldable pub recover_bucket : ℕ → List K → FixedBuckets K → FixedBuckets K
  recover_bucket index bucket b = update_index_interval index (record b {
    keys_bucket = set b.keys_bucket index bucket;
    is_recovered = set b.is_recovered index true;
  })

  unfoldable pub insert_key : ℕ → K → FixedBuckets K → FixedBuckets K
  insert_key index key b = update_index_interval index (record b {
    keys_bucket = set b.keys_bucket index (get_bucket b.keys_bucket index ++ (key ∷ []));
  })

  abbrev pub get_abs_index_interval : ℕ → FixedBuckets K → ℕ × ℕ
  get_abs_index_interval index b =
      (bucket_len b.bucket_lens index, bucket_len b.bucket_lens (index + 1))

module _ {K : Type 0} ⦃e : Eq K⦄ where
  unfoldable pub contains_in : ℕ → K → FixedBuckets K → Bool
  contains_in index key b = any (λ k. k == key) (get_bucket b.keys_bucket index)

  -- `Bucket::remove_item`: the first key that is equal, and the others.
  unfoldable pub bucket_remove_item : K → List K → Result (K × List K) StoreError
  bucket_remove_item key [] = err get_none
  bucket_remove_item key (k ∷ ks) =
      let rest = bucket_remove_item key ks in
      if k == key then ok (k, ks) else rest >>= λ found. ok (found.0, k ∷ found.1)

  -- The bucket without the key, put into place.
  unfoldable pub finish_remove :
      ℕ → FixedBuckets K → Result (K × List K) StoreError → Result (K × FixedBuckets K) StoreError
  finish_remove index b (err e) = err e
  finish_remove index b (ok (k, ks)) =
      ok (k, update_index_interval index (record b { keys_bucket = set b.keys_bucket index ks }))

  -- The code asks `contains` first, and answers the same error when the key is not there.
  unfoldable pub remove_item : ℕ → K → FixedBuckets K → Result (K × FixedBuckets K) StoreError
  remove_item index key b =
      if contains_in index key b
      then finish_remove index b (bucket_remove_item key (get_bucket b.keys_bucket index))
      else err get_none
