-- ===== src/Alloc.antt =====
-- llheap.cc: `doMalloc`, the allocation of a block and its header.
use llheap.Prelude.{ℕ, ◌-◌, not, ◌&&◌, ltb, leb, ◌==◌, if◌then◌else◌, min, bit_and}
use llheap.Word.{word, add64, sub64, ceiling}
use llheap.Bucket.{sizeof_storage, align, bucket_index}
use llheap.Header.{mark_mmapped_bit}
use llheap.Stats.{Row, count_request, count_alloc, count_calls_0, count_sizes}
use llheap.Machine.{
  null, Env, map_error, mapped, map_failed, Cmd, pure, ◌>>=◌, ◌>>◌, fail, gets, require, when,
  on_heap, on_free_header, on_header, on_stats, set_errno, free_header_addr, enomem,
}
use llheap.Os.{mmap, negative}
use llheap.Master.{boot_heap_manager}
use llheap.Extend.{manager_extend}
use llheap.Memory.{memset}

-- `SCRUB`
abbrev pub scrub : ℕ
scrub = 0xff

-- The scrub of new memory in the debug build: the first `scrub_size` bytes of the data.
unfoldable pub scrub_new : Env → (block tsize : ℕ) → Cmd (Unit {0})
scrub_new env block tsize = when env.debug (do
  n ← gets (λ m. m.scrub_size)
  memset (add64 block sizeof_storage) scrub (min n (tsize - sizeof_storage)))

-- A block from the free list `free_head`, whose first block is `block`.
unfoldable pub pop_block : (free_head block : ℕ) → Cmd ℕ
pop_block free_head block = do
  next ← gets (λ m. (m.headers block).word0)
  on_free_header free_head (λ f. record f { free_list = next; reuses = add64 (f.reuses) 1 })
  pure block

-- The whole remote list: its first block is taken, the rest becomes the free list.
unfoldable pub pull_remote : (heap free_head block : ℕ) → Cmd ℕ
pull_remote heap free_head block = do
  on_free_header free_head (λ f. record f { remote_list = null })
  next ← gets (λ m. (m.headers block).word0)
  on_free_header free_head (λ f. record f { free_list = next })
  on_stats heap (count_calls_0 Row.remote)
  on_free_header free_head (λ f. record f { allocations = add64 (f.allocations) 1 })
  pure block

-- Bump allocation from the heap's block, or from a new one; null when there is no memory.
unfoldable pub bump_block : Env → (heap free_head : ℕ) → Cmd ℕ
bump_block env heap free_head = do
  tsize ← gets (λ m. (m.free_headers free_head).block_size)
  h ← gets (λ m. m.heaps heap)
  let rem = sub64 h.buf_remaining tsize
  block ←
      (if negative rem
        then (do
          new ← manager_extend env tsize
          when (not (new == null)) (scrub_new env new tsize)
          pure new)
        else (do
          on_heap heap
              (λ h. record h { buf_remaining = rem; buf_start = add64 (h.buf_start) tsize })
          pure (h.buf_start)))
  when (not (block == null))
      (on_free_header free_head (λ f. record f { allocations = add64 (f.allocations) 1 }))
  pure block

-- A block for the free list `free_head`: freed storage first, then what other threads returned,
-- then new storage.
unfoldable pub take_block : Env → (heap free_head : ℕ) → Cmd ℕ
take_block env heap free_head = do
  f ← gets (λ m. m.free_headers free_head)
  if not (f.free_list == null)
      then pop_block free_head f.free_list
      else if not (f.remote_list == null)
      then pull_remote heap free_head f.remote_list
      else bump_block env heap free_head

-- The small sizes of `doMalloc`: a block of the bucket, with its home in the header.
unfoldable pub small_block : Env → Row → (heap tsize : ℕ) → Cmd ℕ
small_block env row heap tsize = do
  b ← gets (λ m. bucket_index (m.lookup) (m.master.max_buckets_used) tsize)
  let free_head = free_header_addr heap b
  max ← gets (λ m. m.master.max_buckets_used)
  when env.debug (require (leb b max))
  bsize ← gets (λ m. (m.free_headers free_head).block_size)
  when env.debug (require (leb tsize bsize))
  on_stats heap (count_alloc row bsize)
  block ← take_block env heap free_head
  when (not (block == null)) (on_header block (λ h. record h { word0 = free_head }))
  pure block

-- The large sizes of `doMalloc`: a mapping of whole pages, with its size in the header.
unfoldable pub large_block : Env → Row → (heap size tsize : ℕ) → Cmd ℕ
large_block env row heap size tsize = do
  page ← gets (λ m. m.master.page_size)
  if env.debug && ltb (word - 1 - page) size
      then set_errno enomem >> pure null
      else (let tsize = ceiling tsize page in
          do
            on_stats heap (count_alloc row tsize)
            on_stats heap (count_sizes Row.mmap size tsize)
            answer ← mmap env 0 tsize
            elim answer [
              | map_failed e ↦ if e == enomem then pure null else fail (map_error size e)
              | mapped block ↦ (do
                on_header block (λ h. record h { word0 = mark_mmapped_bit tsize })
                scrub_new env block tsize
                pure block)
            ])

-- The end of `doMalloc`: the request's size goes to the header, the user gets what follows it.
unfoldable pub finish_block : Env → (size block : ℕ) → Cmd ℕ
finish_block env size block =
    if block == null
    then pure null
    else (let addr = add64 block sizeof_storage in
        do
          on_header block (λ h. record h { word1 = size })
          when env.debug (require (bit_and addr (align - 1) == 0))
          pure addr)

-- `doMalloc`
unfoldable pub do_malloc : Env → (size : ℕ) → Row → Cmd ℕ
do_malloc env size row = do
  boot_heap_manager env
  heap ← gets (λ m. m.heap_manager)
  if env.debug && ltb (word - 1 - sizeof_storage) size
      then set_errno enomem >> pure null
      else (let tsize = add64 size sizeof_storage in
          do
            on_stats heap (count_request row size)
            when env.debug
                (on_heap heap (λ h. record h { alloc_unfreed = add64 (h.alloc_unfreed) size }))
            start ← gets (λ m. m.master.mmap_start)
            block ←
                (if ltb size start
                  then small_block env row heap tsize
                  else large_block env row heap size tsize)
            finish_block env size block)
