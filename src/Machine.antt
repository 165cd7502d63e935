-- ===== src/Machine.antt =====
-- The state of the allocator and its environment: `Heap`, `HeapMaster`, the thread's variables of
-- llheap.cc, memory by address, and commands that read and write them.
-- Memory is typed: free-list headers, heaps, allocation headers and user bytes are kept apart,
-- each by its address, as the code reads and writes each at one type only.
pub mod Outcome
use llheap.Prelude.{ℕ, ◌+◌, ◌*◌, Bool, true, false, Option, update}
use llheap.Header.{Header}
use llheap.Stats.{HeapStatistics}

abbrev pub null : ℕ
null = 0

-- `FreeHeader`: one bucket of a heap.
pub record FreeHeader : Type 0 where
  pub free_list : ℕ
  pub home_manager : ℕ
  pub block_size : ℕ
  pub allocations : ℕ
  pub reuses : ℕ
  pub remote_list : ℕ

-- `Heap`, without its array `freeLists`, whose elements are in memory at `free_header_addr`.
-- `alloc_unfreed` is a `ptrdiff_t` as its 64-bit pattern.
pub record Heap : Type 0 where
  pub buf_start : ℕ
  pub buf_remaining : ℕ
  pub next_heap_manager : ℕ
  pub next_free_heap_manager : ℕ
  pub alloc_unfreed : ℕ
  pub stats : HeapStatistics

-- `HeapMaster`. A lock is `true` while it is held.
pub record HeapMaster : Type 0 where
  pub ext_lock : Bool
  pub mgr_lock : Bool
  pub sbrk_start : ℕ
  pub sbrk_end : ℕ
  pub sbrk_remaining : ℕ
  pub sbrk_extend : ℕ
  pub sbrk_thread_block : ℕ
  pub page_size : ℕ
  pub mmap_start : ℕ
  pub max_buckets_used : ℕ
  pub heap_managers_list : ℕ
  pub free_heap_managers_list : ℕ
  pub heap_managers_storage : ℕ
  pub heap_managers_storage_end : ℕ
  pub alloc_unfreed : ℕ
  pub stats : HeapStatistics
  pub blk_contig : ℕ
  pub blk_noncontig : ℕ
  pub blk_fragstorage : ℕ
  pub threads_started : ℕ
  pub threads_exited : ℕ
  pub heap_new : ℕ
  pub heap_reused : ℕ
  pub sbrk_calls : ℕ
  pub sbrk_storage : ℕ
  pub stats_fd : ℕ

-- What a system call that maps memory answers.
pub data MapAnswer : Type 0 where
  mapped : ℕ → MapAnswer
  map_failed : ℕ → MapAnswer

-- The operating system and the program around the allocator. The n-th call of `mmap` and `munmap`
-- is answered by `mmap n hint length` and `munmap n addr length`, an error being its `errno`.
-- `debug` is the build with `__DEBUG__`, without `NDEBUG`; both builds have `__STATISTICS__`.
pub record Env : Type 0 where
  pub debug : Bool
  pub page_size : ℕ
  pub mmap : ℕ → ℕ → ℕ → MapAnswer
  pub munmap : ℕ → ℕ → ℕ → Option ℕ
  pub malloc_thread_extend : ℕ
  pub malloc_heap_extend : ℕ
  pub malloc_thread_block : ℕ
  pub malloc_mmap_start : ℕ
  pub malloc_unfreed : ℕ
  pub pthread_key_create : ℕ
  pub pthread_setspecific : ℕ
  pub malloc_scrub : Option ℕ

pub record Machine : Type 0 where
  pub master : HeapMaster
  pub heaps : ℕ → Heap
  pub free_headers : ℕ → FreeHeader
  pub headers : ℕ → Header
  pub bytes : ℕ → ℕ
  pub lookup : ℕ → ℕ
  pub boot_flag : ℕ
  pub heap_manager : ℕ
  pub errno : ℕ
  pub os_calls : ℕ
  pub scrub_size : ℕ
  pub print_buckets : Bool

-- Why a run stops.
pub data Stop : Type 0 where
  assertion : Stop
  no_memory : ℕ → Stop
  map_error : ℕ → ℕ → Stop
  unmap_error : ℕ → ℕ → Stop
  bad_alignment : ℕ → Stop
  corrupted_header : ℕ → Stop
  setspecific_failed : ℕ → Stop
  key_create_failed : ℕ → Stop
  deadlock : Stop

pub data Run (A : Type 0) : Type 0 where
  ok : A → Machine → Run A
  stop : Stop → Run A

abbrev pub Cmd : Type 0 → Type 0
Cmd A = Machine → Run A

abbrev pub pure : {A : Type 0} → A → Cmd A
pure = ok

module _ {A B : Type 0} where
  abbrev pub and_then : Run A → (A → Cmd B) → Run B
  and_then (ok a m) k = k a m
  and_then (stop e) k = stop e

  infixl 5 ◌>>=◌ ◌>>◌
  abbrev pub ◌>>=◌ : Cmd A → (A → Cmd B) → Cmd B
  c >>= k = λ m. and_then (c m) k

  abbrev pub ◌>>◌ : Cmd A → Cmd B → Cmd B
  c >> d = c >>= λ _. d

abbrev pub fail : {A : Type 0} → Stop → Cmd A
fail e = λ m. stop e

-- Read a part of the state.
abbrev pub gets : {A : Type 0} → (Machine → A) → Cmd A
gets f m = ok (f m) m

abbrev pub modify : (Machine → Machine) → Cmd (Unit {0})
modify f m = ok tt (f m)

-- `assert` and `always_assert`.
abbrev pub require : Bool → Cmd (Unit {0})
require true = pure tt
require false = fail assertion

abbrev pub when : Bool → Cmd (Unit {0}) → Cmd (Unit {0})
when true c = c
when false c = pure tt

abbrev pub on_master : (HeapMaster → HeapMaster) → Cmd (Unit {0})
on_master f = modify (λ m. record m { master = f (m.master) })

abbrev pub on_heap : ℕ → (Heap → Heap) → Cmd (Unit {0})
on_heap p f = modify (λ m. record m { heaps = update (m.heaps) p (f (m.heaps p)) })

abbrev pub on_free_header : ℕ → (FreeHeader → FreeHeader) → Cmd (Unit {0})
on_free_header p f =
    modify (λ m. record m { free_headers = update (m.free_headers) p (f (m.free_headers p)) })

abbrev pub on_header : ℕ → (Header → Header) → Cmd (Unit {0})
on_header p f = modify (λ m. record m { headers = update (m.headers) p (f (m.headers p)) })

abbrev pub set_errno : ℕ → Cmd (Unit {0})
set_errno e = modify (λ m. record m { errno = e })

-- The counters of the running thread's heap.
abbrev pub on_stats : ℕ → (HeapStatistics → HeapStatistics) → Cmd (Unit {0})
on_stats p f = on_heap p (λ h. record h { stats = f (h.stats) })

-- `&heap->freeLists[ b ]`: a `FreeHeader` is two cache lines.
abbrev pub sizeof_free_header : ℕ
sizeof_free_header = 128

abbrev pub free_header_addr : ℕ → ℕ → ℕ
free_header_addr heap b = heap + sizeof_free_header * b

-- `sizeof( Heap )`: 64 free-list headers, the other fields and the counters, in whole cache lines.
abbrev pub sizeof_heap : ℕ
sizeof_heap = 8832

-- `ENOMEM`
abbrev pub enomem : ℕ
enomem = 12

-- `EINVAL`
abbrev pub einval : ℕ
einval = 22
