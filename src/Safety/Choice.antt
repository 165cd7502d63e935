-- ===== src/Safety/Choice.antt =====
-- The bucket a small request of a ready heap is served from.
use llheap.Prelude.{
  ℕ, ◌+◌, ◌≤◌, ◌<◌, ◌≡◌, inl, inr, arith, Bool-cases, ltb, ltb→lt, ltb→le, update_self,
}
use llheap.Word.{add64}
use llheap.Bucket.{
  sizeof_storage, no_bucket_sizes, bucket_size, bucket_index, IsBestFit, bucket_index-IsBestFit,
  bucket_size_le, bucket_size_last,
}
use llheap.Stats.{Row}
use llheap.Machine.{Machine}
use llheap.Arena.{Layout}
use llheap.Safety.State.{IsReady}
use llheap.Safety.Serve.{counted}

module _ (m : Machine) (l : Layout) (ready : IsReady m l) (size : ℕ)
    (fits : size + sizeof_storage ≤ bucket_size (m.master.max_buckets_used)) where
  abbrev b : ℕ
  b = bucket_index (m.lookup) (m.master.max_buckets_used) (add64 size sizeof_storage)

  pub bucket-IsBestFit : IsBestFit (size + sizeof_storage) b
  bucket-IsBestFit =
      let e : add64 size sizeof_storage ≡ size + sizeof_storage = omega (
        arith,
        bucket_size_le (m.master.max_buckets_used) 63 (omega (arith, ready.limit)) (omega arith),
        bucket_size_last,
      ) in
      rw e (
        bucket_index-IsBestFit (m.lookup) (m.master.max_buckets_used) (size + sizeof_storage)
          ready.table ready.limit fits)

  pub bucket_below : b ≤ m.master.max_buckets_used
  bucket_below = elim (Bool-cases (ltb (m.master.max_buckets_used) b)) [
    | inr below ↦ ltb→le _ _ below
    | inl above ↦
        absurd (
          omega
            (arith, bucket-IsBestFit.least (m.master.max_buckets_used) (ltb→lt _ _ above), fits))
  ]

  pub bucket_small : b < no_bucket_sizes
  bucket_small = omega (arith, bucket_below, ready.limit)

module _ (m : Machine) (row : Row) (size : ℕ) where
  -- The counters leave the buffer alone.
  pub counted-start :
      ((counted m row size).heaps (m.heap_manager)).buf_start ≡ (m.heaps (m.heap_manager)).buf_start
  counted-start = simp update_self

  pub counted-room :
      ((counted m row size).heaps (m.heap_manager)).buf_remaining
      ≡ (m.heaps (m.heap_manager)).buf_remaining
  counted-room = simp update_self
