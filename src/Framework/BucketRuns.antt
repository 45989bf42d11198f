-- ===== src/Framework/BucketRuns.antt =====
-- The calls that change the buckets of a stored map, one after the other
-- (framework/src/binding/store/mod.rs).
use mathlib.Core.Path.{subst}
use muta.Prelude.{
  Eq, List, Option, Result, [], arith, err, guard_some, if◌then◌else◌, ltb, none, not, ok, refl,
  some, some_injective, ℕ, ◌<◌, ◌∷◌, ◌≡◌,
}
use muta.Framework.StoreBuckets.{
  FixedBuckets, StoreError, insert_key, new_buckets, recover_bucket, remove_item,
}
use muta.Framework.Intervals.{
  IsIndexed, insert_key-IsIndexed, new_buckets-IsIndexed, recover_bucket-IsIndexed,
  remove_item-IsIndexed,
}

pub data BucketCall (K : Type 0) : Type 0 where
  recovers : ℕ → List K → BucketCall K
  inserts : ℕ → K → BucketCall K
  removes : ℕ → K → BucketCall K

module _ {K : Type 0} ⦃e : Eq K⦄ where
  -- A removal that finds no key is an error, which leaves the buckets.
  abbrev removed_or : FixedBuckets K → Result (K × FixedBuckets K) StoreError → FixedBuckets K
  removed_or b (err x) = b
  removed_or b (ok (k, b')) = b'

  abbrev index_of : BucketCall K → ℕ
  index_of (recovers index bucket) = index
  index_of (inserts index key) = index
  index_of (removes index key) = index

  abbrev after_call : BucketCall K → FixedBuckets K → FixedBuckets K
  after_call (recovers index bucket) b = recover_bucket index bucket b
  after_call (inserts index key) b = insert_key index key b
  after_call (removes index key) b = removed_or b (remove_item index key b)

  -- An index past the last bucket panics.
  unfoldable pub bucket_calls : List (BucketCall K) → FixedBuckets K → Option (FixedBuckets K)
  bucket_calls [] b = some b
  bucket_calls (c ∷ cs) b =
      let rest = bucket_calls cs (after_call c b) in
      if not (ltb (index_of c) 16) then none else rest

  removed_or-IsIndexed :
      (index : ℕ) (key : K) (b : FixedBuckets K) (r : Result (K × FixedBuckets K) StoreError)
      → index < 16
      → IsIndexed b
      → remove_item index key b ≡ r
      → IsIndexed (removed_or b r)
  removed_or-IsIndexed index key b (err x) lt v h = v
  removed_or-IsIndexed index key b (ok (k, b')) lt v h =
      remove_item-IsIndexed index key k b b' lt v h

  after_call-IsIndexed :
      (c : BucketCall K) (b : FixedBuckets K)
      → index_of c < 16
      → IsIndexed b
      → IsIndexed (after_call c b)
  after_call-IsIndexed (recovers index bucket) b lt v = recover_bucket-IsIndexed index bucket b lt v
  after_call-IsIndexed (inserts index key) b lt v = insert_key-IsIndexed index key b lt v
  after_call-IsIndexed (removes index key) b lt v =
      removed_or-IsIndexed index key b (remove_item index key b) lt v refl

  bucket_calls_from-IsIndexed :
      (cs : List (BucketCall K)) (b b' : FixedBuckets K)
      → IsIndexed b
      → bucket_calls cs b ≡ some b'
      → IsIndexed b'
  unfolding bucket_calls
  bucket_calls_from-IsIndexed [] b b' v h = subst IsIndexed (some_injective b b' h) v
  bucket_calls_from-IsIndexed (c ∷ cs) b b' v h =
      let (inside, rest) = guard_some (not (ltb (index_of c) 16)) _ b' h in
      bucket_calls_from-IsIndexed cs (after_call c b) b'
        (after_call-IsIndexed c b (ground (arith, inside)) v) rest

  -- From empty buckets, any sequence of recovered buckets, insertions and removals that meets no
  -- panic leaves an index that holds, for each bucket, the number of keys before it.
  pub bucket_calls-IsIndexed :
      (cs : List (BucketCall K)) (b : FixedBuckets K)
      → bucket_calls cs new_buckets ≡ some b
      → IsIndexed b
  bucket_calls-IsIndexed cs b h =
      bucket_calls_from-IsIndexed cs new_buckets b new_buckets-IsIndexed h
