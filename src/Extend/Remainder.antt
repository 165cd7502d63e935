-- ===== src/Extend/Remainder.antt =====
-- The bucket for the storage left of an old block.
use llheap.Prelude.{ℕ, ◌-◌, ◌≤◌, ◌<◌, ◌≡◌, refl, arith, ltb, Bool-cases, inl, inr, ltb→lt, ltb→le}
use llheap.Bucket.{
  lookup_sizes, no_bucket_sizes, bucket_sizes, bucket_size, bucket_index, bsearchl,
  bucket_index-IsBestFit, bucket_size_le, bucket_size_lt,
}
use llheap.Machine.{Machine, free_header_addr}
use llheap.Extend.{remainder_list}

-- Bucket `b` is the largest whose size is at most `rem`, among those up to `max`.
pub record IsLargestWithin (rem max b : ℕ) : Type 0 where
  pub inside : b < no_bucket_sizes
  pub within : bucket_size b ≤ rem
  pub largest : (c : ℕ) → c ≤ max → bucket_size c ≤ rem → c ≤ b

module _ (m : Machine) (heap rem : ℕ) where
  abbrev found : ℕ
  found = bucket_index (m.lookup) (m.master.max_buckets_used) rem

  -- If the table agrees with the binary search and the bucket headers have their sizes: storage
  -- left over of at least the first bucket's size and at most that of the last bucket in use goes to
  -- the free list of the largest bucket in use whose size it has.
  pub remainder_list_lem :
      ((t : ℕ) → t < lookup_sizes → m.lookup t ≡ bsearchl t bucket_sizes no_bucket_sizes)
      → m.master.max_buckets_used < no_bucket_sizes
      → ((b : ℕ)
          → b < no_bucket_sizes
          → (m.free_headers (free_header_addr heap b)).block_size ≡ bucket_size b)
      → bucket_size 0 ≤ rem
      → rem ≤ bucket_size (m.master.max_buckets_used)
      → (b : ℕ) × (remainder_list m heap rem ≡ free_header_addr heap b)
        × IsLargestWithin rem (m.master.max_buckets_used) b
  unfolding remainder_list
  remainder_list_lem table limit sizes least most =
      let best =
        bucket_index-IsBestFit (m.lookup) (m.master.max_buckets_used) rem table limit most in
      let small : found < no_bucket_sizes =
        elim (Bool-cases (ltb (m.master.max_buckets_used) found)) [
          | inl over ↦
              absurd (omega (arith, best.least (m.master.max_buckets_used) (ltb→lt _ _ over)))
          | inr under ↦ omega (arith, ltb→le _ _ under)
        ] in
      elim (Bool-cases (ltb rem (bucket_size found))) [
        | inl over ↦
            let less = ltb→lt _ _ over in
            let pos : 0 < found = elim (Bool-cases (ltb 0 found)) [
              | inl p ↦ ltb→lt _ _ p
              | inr q ↦ absurd (
                  omega (
                    arith,
                    less,
                    bucket_size_le found 0 (omega (arith, ltb→le _ _ q)) (omega arith),
                  ))
            ] in
            (
              found - 1,
              rw (sizes found small, over) (omega (arith, pos)),
              record {
                inside = omega (arith, small);
                within = omega (arith, best.least (found - 1) (omega (arith, pos)));
                largest = λ c h fits. elim (Bool-cases (ltb c found)) [
                  | inl before ↦ omega (arith, ltb→lt _ _ before)
                  | inr after ↦ absurd (
                      omega (
                        arith,
                        less,
                        fits,
                        bucket_size_le found c (ltb→le _ _ after) (omega (arith, limit, h)),
                      ))
                ];
              },
            )
        | inr exact ↦ (
          found,
          rw (sizes found small, exact) refl,
          record {
            inside = small;
            within = ltb→le _ _ exact;
            largest = λ c h fits. elim (Bool-cases (ltb found c)) [
              | inl after ↦ absurd (
                  omega (
                    arith,
                    fits,
                    best.fits,
                    bucket_size_lt found c (ltb→lt _ _ after) (omega (arith, limit, h)),
                  ))
              | inr before ↦ ltb→le _ _ before
            ];
          },
        )
      ]
