-- ===== src/Tests/Setup.antt =====
-- The theorems on start, settings, extension, aligned blocks and queries at the concrete process.
use llheap.Prelude.{
  ◌%◌, ℕ, ◌+◌, ◌-◌, ◌^◌, ◌≤◌, ◌<◌, ◌≡◌, ◌≢◌, ◌⊎◌, refl, ap, true, false, arith, update, update_self,
}
use llheap.Word.{word, add64}
use llheap.Report.Print.{bucket_subtotal, sum_storage, bucket_subtotal-sum_storage}
use llheap.Bucket.{
  sizeof_storage, align, no_bucket_sizes, lookup_sizes, bucket_sizes, bucket_size, bsearchl,
  IsBestFit, bucket_size_first, bucket_size_mmap,
}
use llheap.Stats.{Row, add_stats}
use llheap.Machine.{null, Machine, FreeHeader, ok, and_then, free_header_addr}
use llheap.Machine.Outcome.{Returns}
use llheap.Master.{
  default_mmap_start, heap_master_ctor, heap_manager_ctor, heap_manager_dtor, get_heap,
}
use llheap.Master.Boot.{heap_master_ctor_lem}
use llheap.Master.FreeLists.{init_free_lists_lem}
use llheap.Master.Recycle.{get_heap-heap_manager_dtor}
use llheap.Extend.{master_extend, remainder_list}
use llheap.Extend.Outcome.{Extends, master_extend-Extends}
use llheap.Safety.Startup.{Starts}
use llheap.Safety.Boot.{IsPaged, heap_manager_ctor-Starts}
use llheap.Extend.Remainder.{IsLargestWithin, remainder_list_lem}
use llheap.Alloc.{do_malloc}
use llheap.Aligned.{place_fake}
use llheap.Aligned.Placed.{IsPlaced, place_fake-IsPlaced}
use llheap.Api.Query.{
  set_mmap_start, malloc_request_size, malloc_alignment, malloc_usable_size, malloc_remote,
}
use llheap.Api.Threshold.{set_mmap_start_lem}
use llheap.Safety.Query.{query_lem}
use llheap.Safety.Overrun.{do_malloc_overrun}
use llheap.Tests.World.{
  linux, linux-mmap, linux-IsHonest, new_thread, heap, start, initial, no_free_header, one_block,
  holding, one_block-IsReady, one_block-IsLive,
}

heap_master_ctor_example :
    Returns
      (λ _ n.
        (n.boot_flag ≡ 1)
        × (n.master.mmap_start ≡ default_mmap_start)
        × (n.master.max_buckets_used ≡ 61)
        × (n.master.mgr_lock ≡ false)
        × (n.master.ext_lock ≡ false)
        × (n.master.free_heap_managers_list ≡ null)
        × (n.master.heap_managers_list ≡ null)
        × (n.master.heap_managers_storage ≡ null)
        × (n.master.heap_managers_storage_end ≡ null)
        × (n.os_calls ≡ new_thread.os_calls)
        × ((t : ℕ) → t < lookup_sizes → n.lookup t ≡ bsearchl t bucket_sizes no_bucket_sizes))
      (heap_master_ctor linux (record new_thread { boot_flag = 0 }))
heap_master_ctor_example =
    heap_master_ctor_lem linux (record new_thread { boot_flag = 0 })
      (record { heap_extend = refl; thread_block = refl; mmap_start = refl; page = refl }) refl

get_heap-heap_manager_dtor_example :
    Returns
      (λ h n.
        (h ≡ new_thread.heap_manager)
        × (n.master.free_heap_managers_list ≡ new_thread.master.free_heap_managers_list)
        × (n.master.stats
            ≡ add_stats
                (new_thread.master.stats)
                ((new_thread.heaps (new_thread.heap_manager)).stats))
        × (n.free_headers ≡ new_thread.free_headers)
        × (n.headers ≡ new_thread.headers)
        × (n.bytes ≡ new_thread.bytes)
        × ((other : ℕ) → other ≢ h → n.heaps other ≡ new_thread.heaps other)
        × ((n.heaps h).buf_start ≡ (new_thread.heaps h).buf_start)
        × ((n.heaps h).buf_remaining ≡ (new_thread.heaps h).buf_remaining)
        × (n.master.mgr_lock ≡ false))
      (and_then (heap_manager_dtor linux new_thread) (λ _. get_heap linux))
get_heap-heap_manager_dtor_example = get_heap-heap_manager_dtor linux new_thread refl (omega arith)

master_extend-Extends_example : Extends linux new_thread 4096 (master_extend linux 4096 new_thread)
master_extend-Extends_example = master_extend-Extends linux 4096 new_thread refl

linux-IsPaged : IsPaged linux
linux-IsPaged k hint length a q = omega (arith, linux-mmap k hint length a q)

heap_manager_ctor-Starts_example :
    Starts linux (heap_manager_ctor linux (record new_thread { boot_flag = 0 }))
heap_manager_ctor-Starts_example =
    heap_manager_ctor-Starts linux (record new_thread { boot_flag = 0 }) refl
      (record { heap_extend = refl; thread_block = refl; mmap_start = refl; page = refl }) refl
      linux-IsHonest linux-IsPaged refl

remainder_list_example :
    (b : ℕ) × (remainder_list new_thread heap 1000 ≡ free_header_addr heap b)
    × IsLargestWithin 1000 (new_thread.master.max_buckets_used) b
remainder_list_example =
    remainder_list_lem new_thread heap 1000 (λ t h. refl) (omega arith)
      (λ b h.
        ap (λ (f : FreeHeader). f.block_size) ((init_free_lists_lem heap no_free_header).0 b h))
      (omega (arith, bucket_size_first)) (omega (arith, bucket_size_mmap))

set_mmap_start_example :
    Returns
      (λ done n.
        ((done ≡ true)
          × (new_thread.master.page_size ≤ 100_000)
          × (n.master.mmap_start ≡ 100_000)
          × (n.master.max_buckets_used < no_bucket_sizes)
          × IsBestFit 100_000 (n.master.max_buckets_used))
        ⊎ ((done ≡ false)
            × ((100_000 < new_thread.master.page_size) ⊎ (bucket_size 63 < 100_000))
            × (n ≡ new_thread)))
      (set_mmap_start linux 100_000 new_thread)
set_mmap_start_example = set_mmap_start_lem linux new_thread 100_000

place_fake-IsPlaced_example :
    Returns
      (λ user n. IsPlaced n (start + 16) (2 ^ 6) 100 user)
      (place_fake linux (2 ^ 6) 100 64 (start + 16) new_thread)
place_fake-IsPlaced_example =
    place_fake-IsPlaced 6 (start + 16) 100 (omega arith) (omega arith) refl (omega arith)
      (omega arith) linux new_thread 64

query_example :
    (malloc_request_size (start + sizeof_storage) one_block
      ≡ ok (one_block.headers start).word1 one_block)
    × (malloc_alignment (start + sizeof_storage) one_block ≡ ok align one_block)
    × Returns
        (λ n _. n ≡ bucket_size 0 - sizeof_storage)
        (malloc_usable_size linux (start + sizeof_storage) one_block)
    × (malloc_remote (start + sizeof_storage) one_block ≡ ok true one_block)
query_example = query_lem linux refl one_block holding one_block-IsReady start 0 one_block-IsLive

-- The thread with a block on the free list of bucket 61.
abbrev large_free : Machine
large_free = record new_thread {
  free_headers =
      update initial (free_header_addr heap 61)
        (record (initial (free_header_addr heap 61)) { free_list = start });
}

large_free-first : (large_free.free_headers (free_header_addr heap 61)).free_list ≢ null
large_free-first = rw (update_self initial (free_header_addr heap 61) _) (omega arith)

do_malloc_overrun_example :
    let fh = free_header_addr (large_free.heap_manager) 61 in
    let p = (large_free.free_headers fh).free_list in
    (bucket_size 61 < 33_554_440 + sizeof_storage)
    × Returns
        (λ addr n.
          (addr ≡ add64 p sizeof_storage)
          × ((n.headers p).word0 ≡ fh)
          × ((n.headers p).word1 ≡ 33_554_440))
        (do_malloc linux 33_554_440 Row.malloc large_free)
do_malloc_overrun_example =
    do_malloc_overrun linux large_free Row.malloc 33_554_440 refl (omega arith) refl refl
      (omega arith) (omega arith) large_free-first

-- One block of 32 bytes was allocated from the first bucket.
abbrev one_allocation : ℕ → FreeHeader
one_allocation =
    update initial (free_header_addr heap 0)
      (record (initial (free_header_addr heap 0)) { allocations = 1 })

bucket_subtotal-sum_storage_example :
    bucket_subtotal no_bucket_sizes 0 heap one_allocation 0
    ≡ (0 + sum_storage no_bucket_sizes 0 heap one_allocation) % word
bucket_subtotal-sum_storage_example =
    bucket_subtotal-sum_storage no_bucket_sizes 0 heap one_allocation 0 (omega arith)
