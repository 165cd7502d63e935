-- ===== src/Tests/World.antt =====
-- A concrete process: a release build under the default settings on a system that hands out one
-- stretch of 2 ^ 33 bytes per call; a thread whose heap has no storage yet, one whose heap has a
-- buffer of 2 ^ 26 bytes, and the same thread holding one block.
use llheap.Prelude.{
  get_or, ℕ, ◌+◌, ◌-◌, ◌*◌, ◌^◌, ◌<◌, ◌≡◌, refl, ap, inl, inr, false, none, [], ltb, ltb→lt, ◌&&◌,
  if◌then◌else◌, Bool-cases, arith, update, update_self, update_ne,
}
use llheap.Bucket.{bucket_size, no_bucket_sizes, bucket_sizes, bucket_size_first, bsearchl}
use llheap.Header.{Header}
use llheap.Stats.{heap_statistics_ctor}
use llheap.Machine.{
  null, mapped, map_failed, enomem, FreeHeader, Heap, HeapMaster, Env, Machine, free_header_addr,
}
use llheap.Master.{
  default_thread_extend, default_heap_extend, default_thread_block, default_mmap_start,
  init_free_lists,
}
use llheap.Master.FreeLists.{init_free_lists_lem}
use llheap.Arena.{Layout, IsLaidOut}
use llheap.Arena.Cut.{cut, cut-IsLaidOut}
use llheap.Arena.Move.{refill-IsLaidOut}
use llheap.Safety.{IsReady, IsLive, IsHonest, HasClear, update-blocks}

abbrev pub linux : Env
linux = record {
  debug = false;
  page_size = 4096;
  mmap = λ n hint length.
      if ltb length (2 ^ 33) && ltb n 1024 then mapped (2 ^ 40 + n * 2 ^ 33) else map_failed enomem;
  munmap = λ n addr length. none;
  malloc_thread_extend = default_thread_extend;
  malloc_heap_extend = default_heap_extend;
  malloc_thread_block = default_thread_block;
  malloc_mmap_start = default_mmap_start;
  malloc_unfreed = 0;
  pthread_key_create = 0;
  pthread_setspecific = 0;
  malloc_scrub = none;
}

pub linux-mmap :
    (k hint length a : ℕ)
    → linux.mmap k hint length ≡ mapped a
    → (a ≡ 2 ^ 40 + k * 2 ^ 33) × (length < 2 ^ 33) × (k < 1024)
linux-mmap k hint length a q = elim (Bool-cases (ltb length (2 ^ 33))) [
  | inr long ↦ absurd (let e : map_failed enomem ≡ mapped a = rw long at q in cc)
  | inl short ↦ elim (Bool-cases (ltb k 1024)) [
    | inr late ↦ absurd (let e : map_failed enomem ≡ mapped a = rw (short, late) at q in cc)
    | inl early ↦
        let e : mapped (2 ^ 40 + k * 2 ^ 33) ≡ mapped a = rw (short, early) at q in
        (cc, ltb→lt _ _ short, ltb→lt _ _ early)
  ]
]

pub linux-IsHonest : IsHonest linux
linux-IsHonest = record {
  place = λ k hint length a q.
      let p = linux-mmap k hint length a q in (omega (arith, p), omega (arith, p));
  apart = λ j k hint length hint' length' a a' before q q'.
      let p = linux-mmap j hint length a q in
      let p' = linux-mmap k hint' length' a' q' in inl (omega (arith, p, p', before));
}

abbrev pub master : HeapMaster
master = record {
  ext_lock = false;
  mgr_lock = false;
  sbrk_start = 0;
  sbrk_end = 0;
  sbrk_remaining = 0;
  sbrk_extend = default_heap_extend;
  sbrk_thread_block = default_thread_block;
  page_size = 4096;
  mmap_start = default_mmap_start;
  max_buckets_used = 61;
  heap_managers_list = null;
  free_heap_managers_list = null;
  heap_managers_storage = null;
  heap_managers_storage_end = null;
  alloc_unfreed = 0;
  stats = heap_statistics_ctor;
  blk_contig = 0;
  blk_noncontig = 0;
  blk_fragstorage = 0;
  threads_started = 1;
  threads_exited = 0;
  heap_new = 1;
  heap_reused = 0;
  sbrk_calls = 0;
  sbrk_storage = 0;
  stats_fd = 2;
}

abbrev pub heap : ℕ
heap = 2 ^ 20

abbrev pub start : ℕ
start = 2 ^ 28

abbrev pub room : ℕ
room = 2 ^ 26

abbrev pub no_free_header : ℕ → FreeHeader
no_free_header p = record {
  free_list = null;
  home_manager = null;
  block_size = 0;
  allocations = 0;
  reuses = 0;
  remote_list = null;
}

abbrev pub no_header : ℕ → Header
no_header p = record { word0 = 0; word1 = 0 }

abbrev pub heap_at : (start room : ℕ) → Heap
heap_at start room = record {
  buf_start = start;
  buf_remaining = room;
  next_heap_manager = null;
  next_free_heap_manager = null;
  alloc_unfreed = 0;
  stats = heap_statistics_ctor;
}

abbrev pub new_thread : Machine
new_thread = record {
  master = master;
  heaps = λ p. heap_at start room;
  free_headers = init_free_lists no_bucket_sizes 0 heap no_free_header;
  headers = no_header;
  bytes = λ p. 255;
  lookup = λ t. bsearchl t bucket_sizes no_bucket_sizes;
  boot_flag = 2;
  heap_manager = heap;
  errno = 12;
  os_calls = 0;
  scrub_size = 512;
  print_buckets = false;
}

abbrev pub empty : Layout
empty = record { blocks = λ a. none; live = λ a. false; free = λ b. []; remote = λ b. [] }

abbrev pub initial : ℕ → FreeHeader
initial = init_free_lists no_bucket_sizes 0 heap no_free_header

empty-IsLaidOut : IsLaidOut heap start room initial no_header empty
empty-IsLaidOut =
    let at = (init_free_lists_lem heap no_free_header).0 in
    record {
      sizes = λ b h. ap (λ (f : FreeHeader). f.block_size) (at b h);
      homes = λ b h. ap (λ (f : FreeHeader). f.home_manager) (at b h);
      known = λ a b e. cc;
      space = omega arith;
      apart = λ a b c d e. cc;
      outside = λ a b e. cc;
      freed = λ b h. ap (λ (f : FreeHeader). f.free_list) (at b h);
      returned = λ b h. ap (λ (f : FreeHeader). f.remote_list) (at b h);
      idle = λ a b h i. absurd i;
      distinct = λ b h. tt;
      used = λ a b e. cc;
    }

-- The thread before its heap has any storage.
abbrev pub bare_thread : Machine
bare_thread = record new_thread { heaps = λ p. heap_at 0 0 }

pub bare_thread-IsReady : IsReady bare_thread empty
bare_thread-IsReady = record {
  booted = omega arith;
  aligned = refl;
  heap_space = omega arith;
  table = λ t h. refl;
  limit = omega arith;
  begun = inr refl;
  laid =
      refill-IsLaidOut heap start room 0 0 initial no_header empty empty-IsLaidOut (omega arith)
        (λ a b e. cc);
}

pub bare_thread-HasClear : HasClear linux bare_thread empty
bare_thread-HasClear = record {
  blocks = λ k hint length p a b h q e. cc;
  buffer = λ k hint length p h q. inl (omega arith);
}

pub new_thread-IsReady : IsReady new_thread empty
new_thread-IsReady = record {
  booted = omega arith;
  aligned = refl;
  heap_space = omega arith;
  table = λ t h. refl;
  limit = omega arith;
  begun = inl (omega arith);
  laid = empty-IsLaidOut;
}

-- The block at the start of the buffer is in use, with a request of 10 bytes.
abbrev pub one_header : ℕ → Header
one_header = update no_header start (record { word0 = free_header_addr heap 0; word1 = 10 })

abbrev pub one_block : Machine
one_block = record new_thread {
  heaps = λ p. heap_at (start + 32) (room - 32);
  headers = one_header;
}

abbrev pub holding : Layout
holding = cut empty start 0

pub one_block-IsReady : IsReady one_block holding
unfolding bucket_size get_or bucket_sizes
one_block-IsReady = record {
  booted = omega arith;
  aligned = refl;
  heap_space = omega arith;
  table = λ t h. refl;
  limit = omega arith;
  begun = inl (omega arith);
  laid =
      cut-IsLaidOut heap start room initial initial no_header one_header empty 0 empty-IsLaidOut
        (omega arith) (omega arith) (omega (arith, bucket_size_first))
        (record {
          block_sizes = λ c. refl;
          home_managers = λ c. refl;
          free_lists = λ c. refl;
          remote_lists = λ c. refl;
          links = λ c ne. rw (update_ne no_header start _ c ne) refl;
        })
        (rw (update_self no_header start _) refl);
}

pub one_block-IsLive : IsLive holding start 0
one_block-IsLive = (update_self _ start _, update_self _ start _)

pub one_block-HasClear : HasClear linux one_block holding
one_block-HasClear = record {
  blocks = λ k hint length p a b h q e. elim (update-blocks empty start 0 a b e) [
    | inl old ↦ cc
    | inr (at, same) ↦
        let size : bucket_size b ≡ 32 = rw same bucket_size_first in
        inl (omega (arith, at, size, linux-mmap k hint length p q))
  ];
  buffer = λ k hint length p h q. inl (omega (arith, linux-mmap k hint length p q));
}
