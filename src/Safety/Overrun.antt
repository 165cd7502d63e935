-- ===== src/Safety/Overrun.antt =====
-- The largest of the small requests under the default settings: `doMalloc` compares the size
-- without its header to `mmapStart`.
use llheap.Prelude.{ℕ, ◌+◌, ◌^◌, ◌<◌, ◌≡◌, ◌≢◌, refl, false, arith, le→ltb}
use llheap.Word.{add64}
use llheap.Bucket.{
  sizeof_storage, lookup_sizes, bucket_size, bucket_index, bsearchl_beyond, bucket_size_mmap,
}
use llheap.Stats.{Row}
use llheap.Machine.{null, Env, Machine, free_header_addr}
use llheap.Machine.Outcome.{Returns}
use llheap.Master.{default_mmap_start}
use llheap.Alloc.{do_malloc}
use llheap.Safety.Serve.{chosen}
use llheap.Safety.Pop.{do_malloc-pop}

bucket_index_beyond :
    (lookup : ℕ → ℕ) (size : ℕ)
    → 2 ^ 25 < size
    → size < default_mmap_start
    → bucket_index lookup 61 (add64 size sizeof_storage) ≡ 61
unfolding bucket_index
bucket_index_beyond lookup size above below =
    let e : add64 size sizeof_storage ≡ size + sizeof_storage = omega arith in
    let far = le→ltb (size + sizeof_storage) lookup_sizes (omega arith) in
    rw (e, far)
      (bsearchl_beyond (size + sizeof_storage) 61 (omega arith) (omega (arith, bucket_size_mmap))
        (omega arith))

-- In the release build with the default mmap threshold and its last bucket 61: a request of more
-- than 2 ^ 25 bytes and below the threshold is served, when bucket 61 has a free block, by this
-- block, although the bucket's size is less than the request and its header together.
pub do_malloc_overrun :
    (env : Env) (m : Machine) (row : Row) (size : ℕ)
    → let fh = free_header_addr (m.heap_manager) 61 in
      let p = (m.free_headers fh).free_list in
      env.debug ≡ false
      → m.heap_manager ≢ 1
      → m.master.mmap_start ≡ default_mmap_start
      → m.master.max_buckets_used ≡ 61
      → 2 ^ 25 < size
      → size < default_mmap_start
      → p ≢ null
      → (bucket_size 61 < size + sizeof_storage)
        × Returns
            (λ addr n.
              (addr ≡ add64 p sizeof_storage)
              × ((n.headers p).word0 ≡ fh)
              × ((n.headers p).word1 ≡ size))
            (do_malloc env size row m)
do_malloc_overrun env m row size release booted threshold last above below ne =
    let fh = free_header_addr (m.heap_manager) 61 in
    let p = (m.free_headers fh).free_list in
    let at : chosen m size ≡ fh = rw (last, bucket_index_beyond (m.lookup) size above below) refl in
    (
      omega (arith, bucket_size_mmap),
      do_malloc-pop env m row size fh p release booted (omega (arith, threshold)) at refl ne,
    )
