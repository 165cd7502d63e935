-- ===== src/Master.antt =====
-- llheap.cc: the program-global `heapMaster`, the heaps of threads, and how both start and end.
pub mod Boot
pub mod FreeLists
pub mod Recycle
use llheap.Prelude.{
  ℕ, zero, suc, ◌+◌, ◌-◌, ◌*◌, ◌/◌, Bool, false, not, ◌&&◌, ◌||◌, none, some, ltb, leb, ◌==◌,
  if◌then◌else◌, update,
}
use llheap.Word.{add64, sub64, mul64, ceiling, int_word}
use llheap.Bucket.{no_bucket_sizes, lookup_sizes, bucket_sizes, bucket_size, bsearchl, fill_lookup}
use llheap.Stats.{heap_statistics_ctor, add_stats}
use llheap.Machine.{
  null, FreeHeader, HeapMaster, Env, mapped, map_failed, assertion, no_memory, map_error,
  setspecific_failed, key_create_failed, Cmd, pure, ◌>>=◌, ◌>>◌, fail, gets, modify, require, when,
  on_master, on_heap, free_header_addr, sizeof_heap, enomem,
}
use llheap.Os.{mmap, lock_mgr, unlock_mgr}

-- The defaults of the weak functions that an application may replace.
abbrev pub default_thread_extend : ℕ
default_thread_extend = 32

abbrev pub default_heap_extend : ℕ
default_heap_extend = 128 * 1024 * 1024

abbrev pub default_thread_block : ℕ
default_thread_block = 2 * 1024 * 1024

abbrev pub default_mmap_start : ℕ
default_mmap_start = 32 * 1024 * 1024 + 16

abbrev pub default_heap_unfreed : ℕ
default_heap_unfreed = 0

-- `heapManagerDtor`: push the thread's heap on the stack of free heaps, and keep its counters.
unfoldable pub heap_manager_dtor : Env → Cmd (Unit {0})
heap_manager_dtor env = do
  heap ← gets (λ m. m.heap_manager)
  when env.debug (require (not (heap == null)))
  lock_mgr
  free ← gets (λ m. m.master.free_heap_managers_list)
  on_heap heap (λ h. record h { next_free_heap_manager = free })
  on_master (λ g. record g { free_heap_managers_list = heap })
  stats ← gets (λ m. (m.heaps heap).stats)
  on_master (λ g. record g { stats = add_stats (g.stats) stats })
  on_heap heap (λ h. record h { stats = heap_statistics_ctor })
  on_master (λ g. record g { threads_exited = add64 (g.threads_exited) 1 })
  unlock_mgr

-- The values that `heapMasterCtor` assigns to the master; `sbrk_start` and `sbrk_end` are not set.
unfoldable pub initial_master : Env → HeapMaster → HeapMaster
initial_master env g = record g {
  page_size = env.page_size;
  ext_lock = false;
  mgr_lock = false;
  sbrk_remaining = 0;
  sbrk_extend = ceiling env.malloc_heap_extend env.page_size;
  sbrk_thread_block = env.malloc_thread_block;
  mmap_start = env.malloc_mmap_start;
  max_buckets_used = bsearchl env.malloc_mmap_start bucket_sizes no_bucket_sizes;
  heap_managers_list = null;
  free_heap_managers_list = null;
  heap_managers_storage = null;
  heap_managers_storage_end = null;
  stats = heap_statistics_ctor;
  blk_contig = 0;
  blk_noncontig = 0;
  blk_fragstorage = 0;
  threads_started = 0;
  threads_exited = 1;
  heap_reused = 0;
  heap_new = 0;
  sbrk_calls = 0;
  sbrk_storage = 0;
  stats_fd = 2;
}

-- The conditions that `heapMasterCtor` asserts of those values, in every build.
unfoldable pub master_checks : HeapMaster → Bool
master_checks g =
    leb (256 * 1024) g.sbrk_extend
    && leb g.sbrk_thread_block g.sbrk_extend
    && leb g.page_size g.mmap_start
    && leb g.mmap_start (bucket_size (no_bucket_sizes - 1))
    && ltb g.max_buckets_used no_bucket_sizes
    && leb g.mmap_start (bucket_size g.max_buckets_used)

-- `MALLOC_SCRUB`, read in the debug build; a missing or unusable value changes nothing.
abbrev scrub_setting : Env → ℕ → ℕ
scrub_setting env default = elim (env.malloc_scrub) [ none ↦ default | some n ↦ n ]

-- `heapMasterCtor`
unfoldable pub heap_master_ctor : Env → Cmd (Unit {0})
heap_master_ctor env = do
  flag ← gets (λ m. m.boot_flag)
  require (flag == 0)
  on_master (initial_master env)
  g ← gets (λ m. m.master)
  require (master_checks g)
  when env.debug (
      modify (λ m. record m {
        scrub_size = scrub_setting env (m.scrub_size);
        master = record (m.master) { alloc_unfreed = 0 };
      }))
  table ← gets (λ m. fill_lookup lookup_sizes 0 0 (m.lookup))
  elim table [
    | none ↦ fail assertion
    | some lookup ↦ modify (λ m. record m { lookup = lookup; boot_flag = 1 })
  ]

-- The loop of `getHeap` over the buckets of a new heap, with `n` rounds left.
unfoldable pub init_free_lists : (n b heap : ℕ) → (ℕ → FreeHeader) → ℕ → FreeHeader
init_free_lists zero b heap mem = mem
init_free_lists (suc n) b heap mem = init_free_lists n (b + 1) heap (
    update mem (free_header_addr heap b) (record {
      free_list = null;
      home_manager = heap;
      block_size = bucket_size b;
      allocations = 0;
      reuses = 0;
      remote_list = null;
    }))

-- `getHeap`, first branch: pop a heap that an ended thread left.
unfoldable pub reuse_heap : ℕ → Cmd ℕ
reuse_heap heap = do
  next ← gets (λ m. (m.heaps heap).next_free_heap_manager)
  on_master
      (λ g. record g { free_heap_managers_list = next; heap_reused = add64 (g.heap_reused) 1 })
  pure heap

-- `getHeap`: a new superblock of heaps, when there is none or the last is used up. The number of heaps
-- is stored in an `int`.
unfoldable pub extend_heaps : Env → Cmd (Unit {0})
extend_heaps env =
    let size = mul64 (int_word env.malloc_thread_extend) sizeof_heap in
    do
      answer ← mmap env 0 size
      elim answer [
        | map_failed e ↦ fail (if e == enomem then no_memory size else map_error size e)
        | mapped a ↦
            on_master (λ g. record g {
              heap_managers_storage = a;
              heap_managers_storage_end = add64 a size;
            })
      ]

-- `getHeap`, second branch: take the next heap of the superblock and initialize it.
unfoldable pub new_heap : Env → Cmd ℕ
new_heap env = do
  g ← gets (λ m. m.master)
  when
      ((g.heap_managers_storage == null)
        || (sub64 g.heap_managers_storage_end g.heap_managers_storage / sizeof_heap == 0))
      (extend_heaps env)
  heap ← gets (λ m. m.master.heap_managers_storage)
  first ← gets (λ m. m.master.heap_managers_list)
  on_master (λ g. record g {
    heap_managers_storage = add64 heap sizeof_heap;
    heap_managers_list = heap;
    heap_new = add64 (g.heap_new) 1;
  })
  modify (λ m. record m { free_headers = init_free_lists no_bucket_sizes 0 heap (m.free_headers) })
  on_heap heap (λ h. record h {
    buf_start = null;
    buf_remaining = 0;
    next_heap_manager = first;
    next_free_heap_manager = null;
  })
  when env.debug (on_heap heap (λ h. record h { alloc_unfreed = 0 }))
  pure heap

-- `getHeap`
unfoldable pub get_heap : Env → Cmd ℕ
unfolding reuse_heap new_heap
get_heap env = do
  free ← gets (λ m. m.master.free_heap_managers_list)
  if free == null then new_heap env else reuse_heap free

-- `SETSPECIFIC`
unfoldable pub set_specific : Env → Cmd (Unit {0})
set_specific env =
    if env.pthread_setspecific == 0
    then pure tt
    else fail (setspecific_failed env.pthread_setspecific)

-- `heapManagerCtor`: a heap for the running thread.
unfoldable pub heap_manager_ctor : Env → Cmd (Unit {0})
heap_manager_ctor env = do
  flag ← gets (λ m. m.boot_flag)
  when (flag == 0) (heap_master_ctor env)
  old ← gets (λ m. m.heap_manager)
  when env.debug (require (not (old == null)))
  lock_mgr
  heap ← get_heap env
  modify (λ m. record m { heap_manager = heap })
  on_heap heap (λ h. record h { stats = heap_statistics_ctor })
  on_master (λ g. record g { threads_started = add64 (g.threads_started) 1 })
  now ← gets (λ m. m.boot_flag)
  when (now == 2) (set_specific env)
  unlock_mgr

-- `startup`, run once before `main`.
unfoldable pub startup : Env → Cmd (Unit {0})
startup env = do
  flag ← gets (λ m. m.boot_flag)
  when (flag == 0) (heap_manager_ctor env)
  now ← gets (λ m. m.boot_flag)
  require (now == 1)
  when (not (env.pthread_key_create == 0)) (fail (key_create_failed env.pthread_key_create))
  set_specific env
  modify (λ m. record m { boot_flag = 2 })
  heap ← gets (λ m. m.heap_manager)
  when env.debug (on_heap heap (λ h. record h { alloc_unfreed = 0 }))

-- `BOOT_HEAP_MANAGER`: the thread's heap, on its first allocation.
unfoldable pub boot_heap_manager : Env → Cmd (Unit {0})
boot_heap_manager env = do
  heap ← gets (λ m. m.heap_manager)
  when (heap == 1) (do
    heap_manager_ctor env
    made ← gets (λ m. m.heap_manager)
    when env.debug (require (not (made == null))))
