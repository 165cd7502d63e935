-- ===== src/Master/Boot.antt =====
-- The initialization of the allocator under the default settings.
use llheap.Prelude.{ℕ, ◌<◌, ◌≡◌, refl, true, false, Bool-cases, inl, inr}
use llheap.Word.{ceiling}
use llheap.Bucket.{
  no_bucket_sizes, lookup_sizes, bucket_sizes, bsearchl, fill_lookup-bsearchl, bucket_size_mmap,
  bucket_size_last,
}
use llheap.Machine.{null, HeapMaster, Env, Machine}
use llheap.Machine.Outcome.{Returns}
use llheap.Master.{
  default_heap_extend, default_thread_block, default_mmap_start, initial_master, master_checks,
  heap_master_ctor,
}

-- The application has not replaced the hooks.
pub record IsDefault (env : Env) : Type 0 where
  pub heap_extend : env.malloc_heap_extend ≡ default_heap_extend
  pub thread_block : env.malloc_thread_block ≡ default_thread_block
  pub mmap_start : env.malloc_mmap_start ≡ default_mmap_start
  pub page : env.page_size ≡ 4096

bucket_of_default : bsearchl default_mmap_start bucket_sizes no_bucket_sizes ≡ 61
unfolding bsearchl bucket_sizes
bucket_of_default = refl

extend_of_default : ceiling default_heap_extend 4096 ≡ default_heap_extend
unfolding ceiling
extend_of_default = refl

default_checks :
    (env : Env) (g : HeapMaster) → IsDefault env → master_checks (initial_master env g) ≡ true
unfolding master_checks initial_master
default_checks env g d =
    rw
      (
        d.heap_extend, d.thread_block, d.mmap_start, d.page, bucket_of_default, extend_of_default,
        bucket_size_mmap, bucket_size_last,
      )
      refl

-- With the hooks that llheap has by default and pages of 4096 bytes, the first initialization
-- passes its assertions in both builds. It leaves the default mmap threshold, bucket 61 as the last
-- in use, both locks open, no heaps yet (the list of heaps, the stack of free heaps and the
-- superblock are null), and a table that agrees with the binary search on each of its entries.
pub heap_master_ctor_lem :
    (env : Env) (m : Machine)
    → IsDefault env
    → m.boot_flag ≡ 0
    → Returns
        (λ _ n.
          (n.boot_flag ≡ 1)
          × (n.master.mmap_start ≡ default_mmap_start)
          × (n.master.max_buckets_used ≡ 61)
          × (n.master.mgr_lock ≡ false)
          × (n.master.ext_lock ≡ false)
          × (n.master.free_heap_managers_list ≡ null)
          × (n.master.heap_managers_list ≡ null)
          × (n.master.heap_managers_storage ≡ null)
          × (n.master.heap_managers_storage_end ≡ null)
          × (n.os_calls ≡ m.os_calls)
          × ((t : ℕ) → t < lookup_sizes → n.lookup t ≡ bsearchl t bucket_sizes no_bucket_sizes))
        (heap_master_ctor env m)
unfolding heap_master_ctor initial_master
heap_master_ctor_lem env m d first =
    let (table, runs, agrees) = fill_lookup-bsearchl (m.lookup) in
    let checks = default_checks env (m.master) d in
    elim (Bool-cases (env.debug)) [
      | inl debug ↦
          rw (debug, first, checks, runs)
            (
              refl,
              d.mmap_start,
              rw (d.mmap_start) bucket_of_default,
              refl,
              refl,
              refl,
              refl,
              refl,
              refl,
              refl,
              agrees,
            )
      | inr release ↦
          rw (release, first, checks, runs)
            (
              refl,
              d.mmap_start,
              rw (d.mmap_start) bucket_of_default,
              refl,
              refl,
              refl,
              refl,
              refl,
              refl,
              refl,
              agrees,
            )
    ]
