-- ===== src/Mempool/Buckets.antt =====
-- The map of sixteen buckets (core/mempool/src/map.rs). A bucket is locked for each access, and
-- the accesses stand one after the other here.
use muta.Prelude.{
  Bool, Dict, List, Option, [], contains_key, get_elem?, get_or, if◌then◌else◌, insert, length,
  lookup, nat_eq, none, remove, set, some, suc, zero, ℕ, ◌%◌, ◌++◌, ◌+◌, ◌/◌, ◌^◌, ◌∷◌,
}
use muta.Protocol.{Hash}

-- The first byte of a hash, less its lower four bits.
abbrev pub get_index : Hash → ℕ
get_index hash = hash / 2 ^ 248 % 256 / 2 ^ 4

abbrev pub bucket_count : ℕ
bucket_count = 16

pub record Map (V : Type 0) : Type 0 where
  pub buckets : List (Dict Hash V)

-- `h.entry(index).or_insert_with(Vec::new).push(hash)`
unfoldable pub push_entry : ℕ → Hash → Dict ℕ (List Hash) → Dict ℕ (List Hash)
push_entry index hash h = insert index (get_or (lookup index h) [] ++ (hash ∷ [])) h

unfoldable pub group_by_index : List Hash → Dict ℕ (List Hash) → Dict ℕ (List Hash)
group_by_index [] h = h
group_by_index (hash ∷ hashes) h = group_by_index hashes (push_entry (get_index hash) hash h)

module _ {V : Type 0} where
  abbrev empty_buckets : ℕ → List (Dict Hash V)
  empty_buckets zero = []
  empty_buckets (suc n) = [] ∷ empty_buckets n

  -- The capacity of a bucket is no limit.
  abbrev pub new_map : Map V
  new_map = record { buckets = empty_buckets bucket_count }

  -- Every index is below sixteen, so `[]` never stands for a bucket that is missing.
  abbrev pub bucket_at : List (Dict Hash V) → ℕ → Dict Hash V
  bucket_at bs i = get_or (get_elem? bs i) []

  abbrev pub get_bucket : Map V → Hash → Dict Hash V
  get_bucket m hash = bucket_at m.buckets (get_index hash)

  -- `Bucket::insert`: the value comes back if its key is in the bucket.
  unfoldable pub bucket_insert : Hash → V → Dict Hash V → Option V × Dict Hash V
  bucket_insert hash value store =
      if contains_key hash store then (some value, store) else (none, insert hash value store)

  unfoldable pub map_insert : Map V → Hash → V → Option V × Map V
  map_insert m hash value =
      let (answer, store) = bucket_insert hash value (get_bucket m hash) in
      (answer, record { buckets = set m.buckets (get_index hash) store })

  unfoldable pub map_contains_key : Map V → Hash → Bool
  map_contains_key m hash = contains_key hash (get_bucket m hash)

  unfoldable pub map_get : Map V → Hash → Option V
  map_get m hash = lookup hash (get_bucket m hash)

  unfoldable pub map_remove : Map V → Hash → Map V
  map_remove m hash = record {
    buckets = set m.buckets (get_index hash) (remove hash (get_bucket m hash));
  }

  -- `Bucket::remove_batch`
  unfoldable pub bucket_remove_batch : List Hash → Dict Hash V → Dict Hash V
  bucket_remove_batch [] store = store
  bucket_remove_batch (hash ∷ hashes) store = bucket_remove_batch hashes (remove hash store)

  -- The tasks work on different buckets, so their order does not show.
  unfoldable pub remove_groups : Dict ℕ (List Hash) → List (Dict Hash V) → List (Dict Hash V)
  remove_groups [] bs = bs
  remove_groups ((index, hashes) ∷ h) bs =
      remove_groups h (set bs index (bucket_remove_batch hashes (bucket_at bs index)))

  unfoldable pub remove_batch : Map V → List Hash → Map V
  remove_batch m hashes = record { buckets = remove_groups (group_by_index hashes []) m.buckets }

  abbrev total_length : List (Dict Hash V) → ℕ
  total_length [] = 0
  total_length (b ∷ bs) = length b + total_length bs

  unfoldable pub map_len : Map V → ℕ
  map_len m = total_length m.buckets

  abbrev clear_all : List (Dict Hash V) → List (Dict Hash V)
  clear_all [] = []
  clear_all (b ∷ bs) = [] ∷ clear_all bs

  unfoldable pub map_clear : Map V → Map V
  map_clear m = record { buckets = clear_all m.buckets }
