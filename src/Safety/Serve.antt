-- ===== src/Safety/Serve.antt =====
-- The small requests of `doMalloc` in the release build, as one equation: counters, then a block
-- from `take_block`, then its header.
use llheap.Prelude.{◌⊎◌, ◌≤◌, ℕ, ◌<◌, ◌≡◌, ◌≢◌, false, not, ◌==◌, update, lt→ltb, ne→==}
use llheap.Word.{add64}
use llheap.Bucket.{sizeof_storage, bucket_index}
use llheap.Stats.{Row, count_request, count_alloc}
use llheap.Machine.{
  null, Env, Machine, and_then, Cmd, pure, ◌>>=◌, ◌>>◌, when, free_header_addr, on_header, on_stats,
}
use llheap.Machine.Outcome.{and_then_assoc}
use llheap.Master.{boot_heap_manager}
use llheap.Alloc.{do_malloc, small_block, take_block, finish_block}

-- The bucket header that a small request is served from.
abbrev pub chosen : Machine → (size : ℕ) → ℕ
chosen m size =
    free_header_addr (m.heap_manager)
      (bucket_index (m.lookup) (m.master.max_buckets_used) (add64 size sizeof_storage))

-- The bucket of a small request has a block at hand, so that no storage is asked of the system.
abbrev pub HasStorage : Machine → (size : ℕ) → Type 0
HasStorage m size =
    let f = m.free_headers (chosen m size) in
    (f.free_list ≢ null)
    ⊎ (f.remote_list ≢ null)
    ⊎ (f.block_size ≤ (m.heaps (m.heap_manager)).buf_remaining)

-- The machine with changed counters of the running thread's heap.
abbrev pub counted : Machine → Row → (size : ℕ) → Machine
counted m row size =
    let heap = m.heap_manager in
    let first =
      update (m.heaps) heap
        (record (m.heaps heap) { stats = count_request row size ((m.heaps heap).stats) }) in
    let bsize = (m.free_headers (chosen m size)).block_size in
    record m {
      heaps =
          update first heap
            (record (first heap) { stats = count_alloc row bsize ((first heap).stats) });
    }

-- The header of the block that was taken.
abbrev pub seal : Env → (size free_head block : ℕ) → Cmd ℕ
seal env size free_head block =
    (when (not (block == null)) (on_header block (λ h. record h { word0 = free_head }))
      >> pure block)
    >>= finish_block env size

module _ (env : Env) (release : env.debug ≡ false) (row : Row) (size : ℕ) where
  small_block-take_block :
      (m : Machine) (heap tsize : ℕ)
      → let fh =
          free_header_addr heap (bucket_index (m.lookup) (m.master.max_buckets_used) tsize) in
        small_block env row heap tsize m
        ≡ (on_stats heap (count_alloc row (m.free_headers fh).block_size)
              >> take_block env heap fh
              >>= λ block.
                  when (not (block == null)) (on_header block (λ h. record h { word0 = fh }))
                  >> pure block)
            m
  unfolding small_block
  small_block-take_block m heap tsize = rw release

  pub do_malloc-take_block :
      (m : Machine)
      → m.heap_manager ≢ 1
      → size < m.master.mmap_start
      → do_malloc env size row m
        ≡ and_then
            (take_block env (m.heap_manager) (chosen m size) (counted m row size))
            (seal env size (chosen m size))
  unfolding do_malloc boot_heap_manager
  do_malloc-take_block m booted small =
      simp (ne→== (m.heap_manager) 1 booted, release, lt→ltb size _ small, small_block-take_block)
        (and_then_assoc (take_block env (m.heap_manager) (chosen m size) (counted m row size)) _ _)
