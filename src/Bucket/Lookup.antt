-- ===== src/Bucket/Lookup.antt =====
-- The array `lookup` of llheap.cc: the loop of `heapMasterCtor` that fills it, and `bucket_index`,
-- the choice between this table and the binary search that `doMalloc` makes.
use mathlib.Core.Path.{◌∙◌}
use llheap.Prelude.{
  ℕ, zero, suc, ◌+◌, ◌-◌, ◌%◌, ◌^◌, ◌≤◌, ◌<◌, ◌≡◌, refl, ◌||◌, update_self, update_ne, Option, none,
  some, arith, ltb, leb, if◌then◌else◌, update, Bool-cases, inl, inr, ltb→lt, ltb→le, le→leb,
}
use llheap.Bucket.Sizes.{
  no_bucket_sizes, lookup_sizes, bucket_sizes, bucket_size, bucket_size_lt, bucket_size_le,
  bucket_size_last, bucket_size_lookup,
}
use llheap.Bucket.Fit.{IsBestFit, best_fit_unique, bsearchl-IsBestFit, bsearchl_all-IsBestFit}
use llheap.Bucket.Search.{bsearchl}

-- `if ( i > bucketSizes[idx] ) idx += 1;`
unfoldable pub next_idx : ℕ → ℕ → ℕ
next_idx i idx = if ltb (bucket_size idx) i then idx + 1 else idx

-- The loop over `i`, with `n` rounds left; `none` is a failed `always_assert`. The entries are
-- `unsigned char`.
unfoldable pub fill_lookup : (n i idx : ℕ) → (ℕ → ℕ) → Option (ℕ → ℕ)
fill_lookup zero i idx lookup = some lookup
fill_lookup (suc n) i idx lookup =
    let idx' = next_idx i idx in
    let rest = fill_lookup n (i + 1) idx' (update lookup i (idx' % 2 ^ 8)) in
    if leb i (bucket_size idx') || ltb (bucket_size (idx' - 1)) i then rest else none

-- The free list that `doMalloc` takes for a total size below the mmap threshold.
unfoldable pub bucket_index : (lookup : ℕ → ℕ) (max_buckets_used tsize : ℕ) → ℕ
bucket_index lookup max_buckets_used tsize =
    if ltb tsize lookup_sizes then lookup tsize else bsearchl tsize bucket_sizes max_buckets_used

-- What the loop knows of `idx` when it comes to the size `i`: it fits the size before.
record Follows (i idx : ℕ) : Type 0 where
  inside : idx < no_bucket_sizes
  reaches : i ≤ bucket_size idx + 1
  least : (b : ℕ) → b < idx → bucket_size b < i

module _ (i idx : ℕ) (bound : i ≤ bucket_size 37) (inv : Follows i idx) where
  idx-le : idx ≤ 37
  idx-le = elim (Bool-cases (ltb 37 idx)) [
    | inl over ↦ absurd (omega (arith, inv.least 37 (ltb→lt 37 idx over)))
    | inr under ↦ ltb→le 37 idx under
  ]

  next_idx-le : next_idx i idx ≤ 37
  unfolding next_idx
  next_idx-le = elim (Bool-cases (ltb (bucket_size idx) i)) [
    | inr stay ↦ rw stay idx-le
    | inl move ↦ rw move (ground (arith, idx-le, ltb→lt _ _ move))
  ]

  next_idx-IsBestFit : IsBestFit i (next_idx i idx)
  unfolding next_idx
  next_idx-IsBestFit = elim (Bool-cases (ltb (bucket_size idx) i)) [
    | inr stay ↦ rw stay (record { fits = ltb→le _ _ stay; least = inv.least })
    | inl move ↦
        let lt : bucket_size idx < i = ltb→lt _ _ move in
        let room : idx < 37 = ground (arith, idx-le) in
        rw move (record {
          fits =
              omega (arith, inv.reaches, bucket_size_lt idx (idx + 1) (omega arith) (omega arith));
          least = λ b h. omega (arith, lt, bucket_size_le b idx (omega arith) (omega arith));
        })
  ]

  next_idx-Follows : Follows (i + 1) (next_idx i idx)
  next_idx-Follows = record {
    inside = omega (arith, next_idx-le);
    reaches = omega (arith, next_idx-IsBestFit.fits);
    least = λ b h. omega (arith, next_idx-IsBestFit.least b h);
  }

abbrev IsTableFrom : (ℕ → ℕ) → ℕ → ℕ → Type 0
IsTableFrom lookup i n = (t : ℕ) → i ≤ t → t < i + n → IsBestFit t (lookup t)

record Filled (lookup : ℕ → ℕ) (i n idx : ℕ) (table : ℕ → ℕ) : Type 0 where
  runs : fill_lookup n i idx lookup ≡ some table
  best : (t : ℕ) → i ≤ t → t < i + n → IsBestFit t (table t)
  keeps : (t : ℕ) → t < i → table t ≡ lookup t

fill_lookup-Filled :
    (n i idx : ℕ) (lookup : ℕ → ℕ)
    → i + n ≤ bucket_size 37 + 1
    → Follows i idx
    → (table : ℕ → ℕ) × Filled lookup i n idx table
unfolding fill_lookup
fill_lookup-Filled zero i idx lookup bound inv =
    (lookup, record { runs = refl; best = λ t p q. absurd (omega arith); keeps = λ t p. refl })
fill_lookup-Filled (suc n) i idx lookup bound inv =
    let b = next_idx i idx in
    let here = next_idx-IsBestFit i idx (omega arith) inv in
    let small : b % 2 ^ 8 ≡ b = omega (arith, next_idx-le i idx (omega arith) inv) in
    let (table, later) =
      fill_lookup-Filled n (i + 1) b (update lookup i (b % 2 ^ 8)) (omega arith)
        (next_idx-Follows i idx (omega arith) inv) in
    let own : table i ≡ b =
      later.keeps i (omega arith) ∙ update_self lookup i (b % 2 ^ 8) ∙ small in
    (
      table,
      record {
        runs = rw (le→leb i (bucket_size b) here.fits) later.runs;
        best = λ t p q. elim (Bool-cases (ltb i t)) [
          | inl after ↦ later.best t (omega (arith, ltb→lt i t after)) (omega arith)
          | inr at ↦ let e : t ≡ i = omega (arith, ltb→le i t at) in rw (e, own) here
        ];
        keeps = λ t p. later.keeps t (omega arith) ∙ update_ne lookup i (b % 2 ^ 8) t (omega arith);
      },
    )

-- The loop of `heapMasterCtor` passes its assertions, and each entry of the table it leaves is the
-- bucket that the binary search over all buckets would find.
pub fill_lookup-bsearchl :
    (lookup : ℕ → ℕ)
    → (table : ℕ → ℕ) × (fill_lookup lookup_sizes 0 0 lookup ≡ some table)
      × ((t : ℕ) → t < lookup_sizes → table t ≡ bsearchl t bucket_sizes no_bucket_sizes)
fill_lookup-bsearchl lookup =
    let start : Follows 0 0 = record {
      inside = omega arith;
      reaches = omega arith;
      least = λ b h. absurd (omega arith);
    } in
    let (table, filled) =
      fill_lookup-Filled lookup_sizes 0 0 lookup (omega (arith, bucket_size_lookup)) start in
    (
      table,
      filled.runs,
      λ t h.
          best_fit_unique t (table t) (bsearchl t bucket_sizes no_bucket_sizes)
            (filled.best t (omega arith) h)
            (bsearchl_all-IsBestFit t (omega (arith, bucket_size_last))),
    )

-- If the table agrees with the binary search on its entries, and the last bucket in use holds the
-- total size, the bucket that `doMalloc` chooses is the smallest that holds it.
pub bucket_index-IsBestFit :
    (lookup : ℕ → ℕ) (max_buckets_used tsize : ℕ)
    → ((t : ℕ) → t < lookup_sizes → lookup t ≡ bsearchl t bucket_sizes no_bucket_sizes)
    → max_buckets_used < no_bucket_sizes
    → tsize ≤ bucket_size max_buckets_used
    → IsBestFit tsize (bucket_index lookup max_buckets_used tsize)
unfolding bucket_index
bucket_index-IsBestFit lookup max_buckets_used tsize table h fits =
    elim (Bool-cases (ltb tsize lookup_sizes)) [
      | inl small ↦
          let lt : tsize < lookup_sizes = ltb→lt _ _ small in
          rw (small, table tsize lt)
            (bsearchl_all-IsBestFit tsize (omega (arith, bucket_size_last)))
      | inr large ↦ rw large (bsearchl-IsBestFit tsize max_buckets_used h fits)
    ]
