-- ===== src/Api/Basic.antt =====
-- llheap.cc: `malloc`, `aalloc`, `calloc`, `free`, and the aligned allocations that copy nothing.
use llheap.Prelude.{ℕ, ◌||◌, ◌==◌, if◌then◌else◌, ltb}
use llheap.Word.{mul64, ceiling}
use llheap.Header.{mmapped_bit, mark_zero_filled_bit, header_addr}
use llheap.Stats.{Row, count_calls_0}
use llheap.Machine.{
  null, Env, Cmd, pure, ◌>>=◌, ◌>>◌, gets, when, on_master, on_header, on_stats, enomem,
}
use llheap.Memory.{memset}
use llheap.Alloc.{do_malloc}
use llheap.Free.{fake_header, do_free}
use llheap.Aligned.{memalign_no_stats}

unfoldable pub malloc : Env → (size : ℕ) → Cmd ℕ
malloc env size = do_malloc env size Row.malloc

unfoldable pub aalloc : Env → (dimension elem_size : ℕ) → Cmd ℕ
aalloc env dimension elem_size = do_malloc env (mul64 dimension elem_size) Row.aalloc

-- The end of `calloc` and `cmemalign`. A mapping is zero already, but not after the debug
-- build's scrub.
unfoldable pub zero_block : Env → (header addr size : ℕ) → Cmd ℕ
zero_block env header addr size = do
  h ← gets (λ m. m.headers header)
  when (env.debug || mmapped_bit h == 0) (memset addr 0 size)
  on_header header mark_zero_filled_bit
  pure addr

unfoldable pub calloc : Env → (dimension elem_size : ℕ) → Cmd ℕ
unfolding zero_block
calloc env dimension elem_size =
    let size = mul64 dimension elem_size in
    do
      addr ← do_malloc env size Row.calloc
      if addr == null then pure null else zero_block env (header_addr addr) addr size

-- Freeing null only counts, in the master's row when the thread has no heap.
unfoldable pub free : Env → (addr : ℕ) → Cmd (Unit {0})
free env addr =
    if addr == null
    then (do
      heap ← gets (λ m. m.heap_manager)
      if ltb 1 heap
          then on_stats heap (count_calls_0 Row.free)
          else on_master (λ g. record g { stats = count_calls_0 Row.free (g.stats) }))
    else do_free env addr

unfoldable pub memalign : Env → (alignment size : ℕ) → Cmd ℕ
memalign env alignment size = memalign_no_stats env alignment size Row.memalign

unfoldable pub amemalign : Env → (alignment dimension elem_size : ℕ) → Cmd ℕ
amemalign env alignment dimension elem_size =
    memalign_no_stats env alignment (mul64 dimension elem_size) Row.amemalign

unfoldable pub cmemalign : Env → (alignment dimension elem_size : ℕ) → Cmd ℕ
unfolding zero_block
cmemalign env alignment dimension elem_size =
    let size = mul64 dimension elem_size in
    do
      addr ← memalign_no_stats env alignment size Row.cmemalign
      found ← gets (λ m. fake_header m (header_addr addr))
      if addr == null then pure null else zero_block env found.header addr size

unfoldable pub aligned_alloc : Env → (alignment size : ℕ) → Cmd ℕ
aligned_alloc env alignment size = memalign_no_stats env alignment size Row.aligned_alloc

-- The pointer behind `memptr` is an argument and a result; the result's other part is the code.
unfoldable pub posix_memalign : Env → (memptr alignment size : ℕ) → Cmd (ℕ × ℕ)
posix_memalign env memptr alignment size = do
  ret ← memalign_no_stats env alignment size Row.posix_memalign
  pure (if ret == null then (enomem, memptr) else (0, ret))

unfoldable pub valloc : Env → (size : ℕ) → Cmd ℕ
valloc env size = do
  page ← gets (λ m. m.master.page_size)
  memalign_no_stats env page size Row.valloc

unfoldable pub pvalloc : Env → (size : ℕ) → Cmd ℕ
unfolding valloc
pvalloc env size = do page ← gets (λ m. m.master.page_size); valloc env (ceiling size page)
