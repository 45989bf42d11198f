-- ===== src/Mempool/BucketLaws.antt =====
-- The sixteen buckets are one map (core/mempool/src/map.rs).
use muta.Prelude.{
  All, Bool, Dict, List, [], any, ap, arith, false, get_or, if_cases, if◌then◌else◌, insert,
  is_some, length, lookup, lookup-insert, lookup-remove, nat_beq, nat_beq_iff, nat_eq, none, refl,
  remove, set, some, suc, true, zero, ℕ, ◌++◌, ◌<◌, ◌∙◌, ◌∷◌, ◌≡◌,
}
use muta.Protocol.{Hash}
use muta.Mempool.Buckets.{
  Map, bucket_at, bucket_count, bucket_insert, bucket_remove_batch, get_index, group_by_index,
  map_get, map_insert, map_remove, push_entry, remove_batch, remove_groups,
}

get_index-lt : (h : Hash) → get_index h < bucket_count
get_index-lt h = omega arith

-- The hash `j` stands under the index `i` of the groups.
abbrev grouped : ℕ → Hash → Dict ℕ (List Hash) → Bool
grouped i j [] = false
grouped i j ((k, hs) ∷ g) =
    let rest = grouped i j g in
    if nat_beq k i then (if any (λ h. nat_beq h j) hs then true else rest) else rest

any-snoc :
    (j h : Hash) (hs : List Hash)
    → any (λ x. nat_beq x j) (hs ++ (h ∷ []))
      ≡ (if any (λ x. nat_beq x j) hs then true else nat_beq h j)
any-snoc j h [] = ground arith
any-snoc j h (x ∷ hs) = ground (arith, any-snoc j h hs)

grouped-insert :
    (i : ℕ) (j h : Hash) (k : ℕ) (g : Dict ℕ (List Hash))
    → grouped i j (push_entry k h g)
      ≡ (if grouped i j g then true else (if nat_beq k i then nat_beq h j else false))
unfolding push_entry
grouped-insert i j h k [] = ground arith
grouped-insert i j h k ((l, hs) ∷ g) =
    ground (arith, nat_beq_iff l k, any-snoc j h hs, grouped-insert i j h k g)

grouped-group_by_index :
    (j : Hash) (hs : List Hash) (g : Dict ℕ (List Hash))
    → grouped (get_index j) j (group_by_index hs g)
      ≡ (if grouped (get_index j) j g then true else any (λ h. nat_beq h j) hs)
unfolding group_by_index
grouped-group_by_index j [] g = ground arith
grouped-group_by_index j (h ∷ hs) g =
    let same : h ≡ j → get_index h ≡ get_index j = λ e. ap (λ (x : Hash). get_index x) e in
    ground (
      arith,
      nat_beq_iff h j,
      same,
      grouped-insert (get_index j) j h (get_index h) g,
      grouped-group_by_index j hs (push_entry (get_index h) h g),
    )

insert-below :
    (k : ℕ) (hs : List Hash) (g : Dict ℕ (List Hash))
    → k < bucket_count
    → All (λ (e : ℕ × List Hash). e.0 < bucket_count) g
    → All (λ (e : ℕ × List Hash). e.0 < bucket_count) (insert k hs g)
insert-below k hs [] lt below = (lt, tt)
insert-below k hs ((l, ks) ∷ g) lt below =
    if_cases (All (λ (e : ℕ × List Hash). e.0 < bucket_count)) (nat_beq l k) ((k, hs) ∷ g)
      ((l, ks) ∷ insert k hs g) (λ same. (lt, below.1))
      (λ other. (below.0, insert-below k hs g lt below.1))

group_by_index-below :
    (hs : List Hash) (g : Dict ℕ (List Hash))
    → All (λ (e : ℕ × List Hash). e.0 < bucket_count) g
    → All (λ (e : ℕ × List Hash). e.0 < bucket_count) (group_by_index hs g)
unfolding group_by_index push_entry
group_by_index-below [] g below = below
group_by_index-below (h ∷ hs) g below = group_by_index-below hs (push_entry (get_index h) h g) (
    insert-below (get_index h) (get_or (lookup (get_index h) g) [] ++ (h ∷ [])) g (get_index-lt h)
      below)

module _ {V : Type 0} where
  -- A map as it is built and kept: sixteen buckets.
  abbrev pub HasBuckets : Map V → Type 0
  HasBuckets m = length m.buckets ≡ bucket_count

  length-set : (bs : List (Dict Hash V)) (i : ℕ) (b : Dict Hash V) → length (set bs i b) ≡ length bs
  length-set [] i b = refl
  length-set (x ∷ bs) zero b = refl
  length-set (x ∷ bs) (suc i) b = omega (arith, length-set bs i b)

  bucket_at-set :
      (bs : List (Dict Hash V)) (i k : ℕ) (b : Dict Hash V)
      → i < length bs
      → bucket_at (set bs i b) k ≡ (if nat_beq i k then b else bucket_at bs k)
  bucket_at-set [] i k b h = ground (arith, h)
  bucket_at-set (x ∷ bs) zero zero b h = refl
  bucket_at-set (x ∷ bs) zero (suc k) b h = ground arith
  bucket_at-set (x ∷ bs) (suc i) zero b h = ground arith
  bucket_at-set (x ∷ bs) (suc i) (suc k) b h = ground (arith, bucket_at-set bs i k b (omega arith))

  lookup-bucket_remove_batch :
      (hs : List Hash) (b : Dict Hash V) (j : Hash)
      → lookup j (bucket_remove_batch hs b)
        ≡ (if any (λ h. nat_beq h j) hs then none else lookup j b)
  unfolding bucket_remove_batch
  lookup-bucket_remove_batch [] b j = refl
  lookup-bucket_remove_batch (h ∷ hs) b j =
      ground (arith, lookup-bucket_remove_batch hs (remove h b) j, lookup-remove h j b)

  lookup-remove_groups :
      (g : Dict ℕ (List Hash)) (bs : List (Dict Hash V)) (i : ℕ) (j : Hash)
      → length bs ≡ bucket_count
      → All (λ (e : ℕ × List Hash). e.0 < bucket_count) g
      → lookup j (bucket_at (remove_groups g bs) i)
        ≡ (if grouped i j g then none else lookup j (bucket_at bs i))
  unfolding remove_groups
  lookup-remove_groups [] bs i j h below = refl
  lookup-remove_groups ((k, hs) ∷ g) bs i j h below =
      let b = bucket_remove_batch hs (bucket_at bs k) in
      ground (
        arith,
        length-set bs k b,
        bucket_at-set bs k i b (omega (arith, h, below.0)),
        nat_beq_iff k i,
        lookup-bucket_remove_batch hs (bucket_at bs k) j,
        lookup-remove_groups g (set bs k b) i j (omega (arith, length-set bs k b, h)) below.1,
      )

  -- The removal of a batch, grouped by bucket, removes exactly the keys of the batch.
  pub map_get-remove_batch :
      (m : Map V) (hashes : List Hash) (j : Hash)
      → HasBuckets m
      → map_get (remove_batch m hashes) j
        ≡ (if any (λ h. nat_beq h j) hashes then none else map_get m j)
  unfolding map_get remove_batch
  map_get-remove_batch m hashes j h = ground (
    arith,
    lookup-remove_groups (group_by_index hashes []) m.buckets (get_index j) j h
        (group_by_index-below hashes [] tt),
    grouped-group_by_index j hashes [],
  )

  -- A key that is taken keeps its value, and the new value comes back; another key gets its value.
  pub map_get-map_insert :
      (m : Map V) (k : Hash) (v : V) (j : Hash)
      → HasBuckets m
      → ((map_insert m k v).0 ≡ (if is_some (map_get m k) then some v else none))
        × (map_get ((map_insert m k v).1) j ≡ (
            if is_some (map_get m k)
            then map_get m j
            else (if nat_beq k j then some v else map_get m j)))
  unfolding map_get map_insert bucket_insert
  map_get-map_insert m k v j h =
      let i = get_index k in
      let b = bucket_at m.buckets i in
      let same : k ≡ j → get_index k ≡ get_index j = λ e. ap (λ (x : Hash). get_index x) e in
      let old = bucket_at-set m.buckets i (get_index j) b (omega (arith, h, get_index-lt k)) in
      let new =
        bucket_at-set m.buckets i (get_index j) (insert k v b) (omega (arith, h, get_index-lt k)) in
      (
        ground arith,
        ground (
          arith,
          same,
          nat_beq_iff k j,
          nat_beq_iff i (get_index j),
          old,
          new,
          lookup-insert k v b j,
        ),
      )

  pub map_get-map_remove :
      (m : Map V) (k j : Hash)
      → HasBuckets m
      → map_get (map_remove m k) j ≡ (if nat_beq k j then none else map_get m j)
  unfolding map_get map_remove
  map_get-map_remove m k j h =
      let i = get_index k in
      let same : k ≡ j → get_index k ≡ get_index j = λ e. ap (λ (x : Hash). get_index x) e in
      ground (
        arith,
        same,
        nat_beq_iff k j,
        nat_beq_iff i (get_index j),
        bucket_at-set m.buckets i (get_index j) (remove k (bucket_at m.buckets i))
            (omega (arith, h, get_index-lt k)),
        lookup-remove k j (bucket_at m.buckets i),
      )

  length-remove_groups :
      (g : Dict ℕ (List Hash)) (bs : List (Dict Hash V)) → length (remove_groups g bs) ≡ length bs
  unfolding remove_groups
  length-remove_groups [] bs = refl
  length-remove_groups ((k, hs) ∷ g) bs =
      let b = bucket_remove_batch hs (bucket_at bs k) in
      length-remove_groups g (set bs k b) ∙ length-set bs k b

  pub remove_batch-HasBuckets :
      (m : Map V) (hashes : List Hash) → HasBuckets m → HasBuckets (remove_batch m hashes)
  unfolding remove_batch
  remove_batch-HasBuckets m hashes h = length-remove_groups (group_by_index hashes []) m.buckets ∙ h

  pub map_insert-HasBuckets :
      (m : Map V) (k : Hash) (v : V) → HasBuckets m → HasBuckets ((map_insert m k v).1)
  unfolding map_insert
  map_insert-HasBuckets m k v h = length-set m.buckets (get_index k) _ ∙ h

  pub map_remove-HasBuckets : (m : Map V) (k : Hash) → HasBuckets m → HasBuckets (map_remove m k)
  unfolding map_remove
  map_remove-HasBuckets m k h = length-set m.buckets (get_index k) _ ∙ h
