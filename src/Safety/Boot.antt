-- ===== src/Safety/Boot.antt =====
-- The first heap of a process.
use llheap.Prelude.{
  ℕ, ◌+◌, ◌*◌, ◌%◌, ◌<◌, ◌≡◌, inl, inr, refl, true, false, arith, not, ◌==◌, ==_iff, ne→==,
  if◌then◌else◌, update, update_self,
}
use llheap.Word.{add64, int_word}
use llheap.Bucket.{no_bucket_sizes, lookup_sizes, bucket_sizes, bsearchl}
use llheap.Machine.{
  null, Env, mapped, map_failed, Machine, map_error, no_memory, ok, stop, require, enomem,
  sizeof_heap,
}
use llheap.Stats.{heap_statistics_ctor}
use llheap.Os.{lock_mgr, unlock_mgr}
use llheap.Master.{
  default_mmap_start, default_thread_extend, init_free_lists, new_heap, get_heap, heap_master_ctor,
  heap_manager_ctor,
}
use llheap.Master.Boot.{IsDefault, heap_master_ctor_lem}
use llheap.Safety.Clear.{IsHonest}
use llheap.Safety.Startup.{
  no_blocks-IsLaidOut, IsStarted, Starts, heaps_size, Returns-Starts, answer_cases,
  extend_heaps-mapped, extend_heaps-failed, quiet, stopped,
}

-- The system hands out whole pages.
abbrev pub IsPaged : Env → Type 0
IsPaged env = (k hint length a : ℕ) → env.mmap k hint length ≡ mapped a → a % 4096 ≡ 0

-- The allocator after `heapMasterCtor`, before it has a heap.
record IsFresh (k : Machine) : Type 0 where
  flag : k.boot_flag ≡ 1
  start : k.master.mmap_start ≡ default_mmap_start
  limit : k.master.max_buckets_used ≡ 61
  mgr : k.master.mgr_lock ≡ false
  ext : k.master.ext_lock ≡ false
  no_free : k.master.free_heap_managers_list ≡ null
  no_storage : k.master.heap_managers_storage ≡ null
  table : (t : ℕ) → t < lookup_sizes → k.lookup t ≡ bsearchl t bucket_sizes no_bucket_sizes

module _ (env : Env) (honest : IsHonest env) (paged : IsPaged env)
    (extend : env.malloc_thread_extend ≡ default_thread_extend) (release : env.debug ≡ false)
    (k : Machine) (new : IsFresh k) where
  heaps_size_default : heaps_size env ≡ default_thread_extend * sizeof_heap
  unfolding int_word
  heaps_size_default = rw extend refl

  abbrev locked : Machine
  locked = record k { master = record (k.master) { mgr_lock = true } }

  lock_run : lock_mgr k ≡ ok tt locked
  unfolding lock_mgr
  lock_run = simp (new.mgr)

  -- The machine with the new heap at `a`.
  abbrev made : (a : ℕ) → Machine
  made a = record k {
    os_calls = k.os_calls + 1;
    master = record (k.master) {
      mgr_lock = true;
      heap_managers_storage = add64 a sizeof_heap;
      heap_managers_storage_end = add64 a (heaps_size env);
      heap_managers_list = a;
      heap_new = add64 (k.master.heap_new) 1;
    };
    free_headers = init_free_lists no_bucket_sizes 0 a (k.free_headers);
    heaps = update (k.heaps) a (record (k.heaps a) {
      buf_start = null;
      buf_remaining = 0;
      next_heap_manager = k.master.heap_managers_list;
      next_free_heap_manager = null;
    });
  }

  get_heap-mapped :
      (a : ℕ)
      → env.mmap (k.os_calls) 0 (heaps_size env) ≡ mapped a
      → get_heap env locked ≡ ok a (made a)
  unfolding get_heap new_heap
  get_heap-mapped a q =
      let none_free : (k.master.free_heap_managers_list == null) ≡ true =
        (==_iff _ null).1 (new.no_free) in
      let none_made : (k.master.heap_managers_storage == null) ≡ true =
        (==_iff _ null).1 (new.no_storage) in
      rw (none_free, none_made, extend_heaps-mapped env locked a q, release) refl

  get_heap-failed :
      (e : ℕ)
      → env.mmap (k.os_calls) 0 (heaps_size env) ≡ map_failed e
      → get_heap env locked
        ≡ stop (if e == enomem then no_memory (heaps_size env) else map_error (heaps_size env) e)
  unfolding get_heap new_heap
  get_heap-failed e q =
      let none_free : (k.master.free_heap_managers_list == null) ≡ true =
        (==_iff _ null).1 (new.no_free) in
      let none_made : (k.master.heap_managers_storage == null) ≡ true =
        (==_iff _ null).1 (new.no_storage) in
      rw (none_free, none_made, extend_heaps-failed env locked e q) refl

  -- The counters of the new heap and of the program, and the open lock.
  abbrev booted : (a : ℕ) → Machine
  booted a = record (made a) {
    heap_manager = a;
    heaps = update ((made a).heaps) a (record ((made a).heaps a) { stats = heap_statistics_ctor });
    master = record ((made a).master) {
      threads_started = add64 (k.master.threads_started) 1;
      mgr_lock = false;
    };
  }

  booted-IsStarted :
      (a : ℕ) → env.mmap (k.os_calls) 0 (heaps_size env) ≡ mapped a → IsStarted env (booted a)
  booted-IsStarted a q =
      let place = honest.place _ _ _ _ q in
      let page = paged _ _ _ _ q in
      record {
        ready = record {
          booted = omega (arith, place.0, page);
          aligned = omega (arith, page);
          heap_space = omega (arith, place.1, heaps_size_default);
          table = new.table;
          limit = rw (new.limit) (omega arith);
          begun = inr (simp update_self);
          laid = simp update_self (no_blocks-IsLaidOut a (k.free_headers) (k.headers));
        };
        clear = record {
          blocks = λ j hint length p c b h r e. cc;
          buffer = λ j hint length p h r. simp update_self (inl (omega arith));
        };
        unlocked = new.ext;
        mmap_start = new.start;
        limit = new.limit;
        no_buffer = simp update_self;
        no_room = simp update_self;
      }

-- In the release build, with the hooks that llheap has by default, on a system that hands out
-- whole pages of the process's address space and no byte twice: the first thread of the process
-- gets a heap without blocks, whose buffer is null with no bytes remaining, that is ready to allocate, with the extension lock open, the
-- default mmap threshold and bucket 61 as the last in use, and all that the system maps later lies
-- apart from it. If the system gives no memory for the heap, the program is aborted.
pub heap_manager_ctor-Starts :
    (env : Env) (m : Machine)
    → env.debug ≡ false
    → IsDefault env
    → env.malloc_thread_extend ≡ default_thread_extend
    → IsHonest env
    → IsPaged env
    → m.boot_flag ≡ 0
    → Starts env (heap_manager_ctor env m)
unfolding heap_manager_ctor unlock_mgr
heap_manager_ctor-Starts env m release default extend honest paged unbooted =
    let zero_flag : (m.boot_flag == 0) ≡ true = (==_iff _ 0).1 unbooted in
    rw zero_flag (
      Returns-Starts _ env (heap_master_ctor env m) _ (heap_master_ctor_lem env m default unbooted)
        (λ k p.
          let (flag, start, limit, mgr, ext, no_free, _, no_storage, _, _, table) = p in
          let later : (k.boot_flag == 2) ≡ false = ne→== _ 2 (omega (arith, flag)) in
          let new : IsFresh k = record {
            flag = flag;
            start = start;
            limit = limit;
            mgr = mgr;
            ext = ext;
            no_free = no_free;
            no_storage = no_storage;
            table = table;
          } in
          let calm = quiet env (require (not (k.heap_manager == null))) k release in
          let locks = lock_run env honest paged extend release k new in
          elim (answer_cases (env.mmap (k.os_calls) 0 (heaps_size env))) [
            | inl (a, q) ↦
                rw (calm, locks, get_heap-mapped env honest paged extend release k new a q, later)
                  (booted-IsStarted env honest paged extend release k new a q)
            | inr (e, q) ↦
                rw (calm, locks, get_heap-failed env honest paged extend release k new e q)
                  (stopped env e)
          ]))
