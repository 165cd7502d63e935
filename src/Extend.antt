-- ===== src/Extend.antt =====
-- llheap.cc: `master_extend`, which carves blocks out of reserved address space, and
-- `manager_extend`, which gives the running thread's heap a new block to allocate from.
pub mod Lock
pub mod Outcome
pub mod Remainder
use llheap.Prelude.{ℕ, ◌-◌, ◌%◌, ◌^◌, ltb, leb, ◌==◌, if◌then◌else◌, max}
use llheap.Word.{add64, sub64, ceiling}
use llheap.Bucket.{align, bucket_size, bucket_index}
use llheap.Machine.{
  null, Env, MapAnswer, mapped, map_failed, Machine, map_error, Cmd, pure, ◌>>=◌, ◌>>◌, fail, gets,
  when, on_master, on_heap, on_free_header, on_header, free_header_addr, sizeof_free_header, enomem,
}
use llheap.Os.{mmap, lock_ext, unlock_ext, negative}

-- `MMAP_CHECK`: no memory gives the lock back and answers null, any other error aborts.
unfoldable pub mmap_check : (size : ℕ) → MapAnswer → (ℕ → Cmd ℕ) → Cmd ℕ
mmap_check size (mapped a) next = next a
mmap_check size (map_failed e) next =
    if e == enomem then unlock_ext >> pure null else fail (map_error size e)

-- The second half of `master_extend`: make the next block of the reserve accessible.
unfoldable pub carve : Env → (size rem : ℕ) → Cmd ℕ
carve env size rem = do
  g ← gets (λ m. m.master)
  answer ← mmap env g.sbrk_end (max size g.sbrk_thread_block)
  mmap_check size answer λ newblock. do
    on_master (λ g. record g { sbrk_remaining = rem; sbrk_end = add64 (g.sbrk_end) size })
    unlock_ext
    pure newblock

-- `master_extend`
unfoldable pub master_extend : Env → (size : ℕ) → Cmd ℕ
unfolding carve mmap_check
master_extend env size = do
  lock_ext
  g ← gets (λ m. m.master)
  if negative (sub64 g.sbrk_remaining size)
      then (let increase = ceiling (max size g.sbrk_extend) align in
          do
            answer ← mmap env 0 g.sbrk_extend
            mmap_check size answer λ block. do
              on_master (λ g. record g {
                sbrk_start = block;
                sbrk_end = block;
                sbrk_calls = add64 (g.sbrk_calls) 1;
                sbrk_storage = add64 (g.sbrk_storage) increase;
              })
              carve env size (sub64 increase size))
      else carve env size (sub64 g.sbrk_remaining size)

-- The free list of `manager_extend` for the storage that is left of the old block: the bucket
-- that is found, or the one before it if that is too large.
unfoldable pub remainder_list : Machine → (heap rem : ℕ) → ℕ
remainder_list m heap rem =
    let found = free_header_addr heap (bucket_index (m.lookup) (m.master.max_buckets_used) rem) in
    if ltb rem (m.free_headers found).block_size then found - sizeof_free_header else found

-- The storage left of a block that is not contiguous with the new one, pushed on a free list.
unfoldable pub chain_remainder : ℕ → Cmd (Unit {0})
chain_remainder heap = do
  rem ← gets (λ m. (m.heaps heap).buf_remaining)
  on_master (λ g. record g {
    blk_noncontig = add64 (g.blk_noncontig) 1;
    blk_fragstorage = add64 (g.blk_fragstorage) rem;
  })
  when (leb (bucket_size 0) (rem % 2 ^ 32)) (do
    free_head ← gets (λ m. remainder_list m heap rem)
    block ← gets (λ m. (m.heaps heap).buf_start)
    top ← gets (λ m. (m.free_headers free_head).free_list)
    on_header block (λ h. record h { word0 = top })
    on_free_header free_head (λ f. record f { free_list = block }))

-- `manager_extend`
unfoldable pub manager_extend : Env → (size : ℕ) → Cmd ℕ
unfolding chain_remainder remainder_list
manager_extend env size =
    let increase = ceiling (max size env.malloc_thread_block) align in
    do
      newblock ← master_extend env increase
      if newblock == null then pure null else (do
        heap ← gets (λ m. m.heap_manager)
        h ← gets (λ m. m.heaps heap)
        if newblock == add64 h.buf_start h.buf_remaining
            then on_master (λ g. record g { blk_contig = add64 (g.blk_contig) 1 })
            else chain_remainder heap
        on_heap heap
            (λ h. record h { buf_remaining = sub64 increase size; buf_start = add64 newblock size })
        pure newblock)
