-- ===== src/Api/Threshold.antt =====
-- What the setting of the mmap threshold promises.
use llheap.Prelude.{
  ℕ, ◌≤◌, ◌<◌, ◌≡◌, ◌⊎◌, refl, true, false, ltb, arith, Bool-cases, inl, inr, ltb→lt, ltb→le,
  lt→ltb, le→leb,
}
use llheap.Bucket.{
  no_bucket_sizes, bucket_sizes, bucket_size, bsearchl, IsBestFit, bsearchl_all-IsBestFit,
}
use llheap.Machine.{Env, Machine}
use llheap.Machine.Outcome.{Returns}
use llheap.Api.Query.{set_mmap_start}

last_bucket :
    (value : ℕ)
    → value ≤ bucket_size 63
    → bsearchl value bucket_sizes no_bucket_sizes < no_bucket_sizes
last_bucket value small =
    let best = bsearchl_all-IsBestFit value small in
    elim (Bool-cases (ltb (bsearchl value bucket_sizes no_bucket_sizes) no_bucket_sizes)) [
      | inl inside ↦ ltb→lt _ _ inside
      | inr out ↦ absurd (omega (arith, best.least 63 (omega (arith, ltb→le _ _ out)), small))
    ]

-- In both builds `setMmapStart` returns. A value from the page size up to the last bucket's size
-- becomes the threshold, with the smallest bucket that holds it as the last bucket in use; any other value is
-- refused, and the allocator is as it was.
pub set_mmap_start_lem :
    (env : Env) (m : Machine) (value : ℕ)
    → Returns
        (λ done n.
          ((done ≡ true)
            × (m.master.page_size ≤ value)
            × (n.master.mmap_start ≡ value)
            × (n.master.max_buckets_used < no_bucket_sizes)
            × IsBestFit value (n.master.max_buckets_used))
          ⊎ ((done ≡ false) × ((value < m.master.page_size) ⊎ (bucket_size 63 < value)) × (n ≡ m)))
        (set_mmap_start env value m)
unfolding set_mmap_start
set_mmap_start_lem env m value = elim (Bool-cases (ltb value (m.master.page_size))) [
  | inl below ↦ rw below (inr (refl, inl (ltb→lt _ _ below), refl))
  | inr page ↦ elim (Bool-cases (ltb (bucket_size 63) value)) [
    | inl above ↦ rw (page, above) (inr (refl, inr (ltb→lt _ _ above), refl))
    | inr fits ↦
        let small : value ≤ bucket_size 63 = ltb→le _ _ fits in
        let last = last_bucket value small in
        let best = bsearchl_all-IsBestFit value small in
        elim (Bool-cases (env.debug)) [
          | inl debug ↦
              rw (page, fits, debug, lt→ltb _ _ last, le→leb _ _ best.fits)
                (inl (refl, ltb→le _ _ page, refl, last, best))
          | inr release ↦ rw (page, fits, release) (inl (refl, ltb→le _ _ page, refl, last, best))
        ]
  ]
]
