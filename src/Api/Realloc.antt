-- ===== src/Api/Realloc.antt =====
-- llheap.cc: `realloc`, which keeps contents, zero fill and alignment, and its variants.
use llheap.Prelude.{ℕ, ◌-◌, not, ◌&&◌, leb, ltb, ◌==◌, if◌then◌else◌, min}
use llheap.Word.{add64, mul64}
use llheap.Bucket.{align}
use llheap.Header.{Header, zero_fill_bit, mark_zero_filled_bit, header_addr, data_size}
use llheap.Stats.{Row, count_calls, count_calls_0, count_request_1, count_alloc_1}
use llheap.Machine.{null, Env, Cmd, pure, ◌>>=◌, ◌>>◌, gets, when, on_header, on_stats, enomem}
use llheap.Memory.{memset, memcpy}
use llheap.Alloc.{do_malloc}
use llheap.Free.{fake_header, headers, do_free}
use llheap.Aligned.{memalign_no_stats}
use llheap.Api.Resize.{free_for_zero, adjust_unfreed, reusable}

-- The zero fill of storage added to a zero-filled block, which is counted.
unfoldable pub zero_added : (addr osize nsize : ℕ) → Cmd (Unit {0})
zero_added addr osize nsize = when (ltb osize nsize) (do
  heap ← gets (λ m. m.heap_manager)
  on_stats heap (count_alloc_1 Row.reallocx)
  memset (add64 addr osize) 0 (nsize - osize))

-- `realloc` within the block.
unfoldable pub realloc_in_place : Env → (oaddr header nsize : ℕ) → Cmd ℕ
unfolding zero_added
realloc_in_place env oaddr header nsize = do
  h ← gets (λ m. m.headers header)
  adjust_unfreed env nsize header
  on_header header (λ h. record h { word1 = nsize })
  when (not (zero_fill_bit h == 0)) (zero_added oaddr h.word1 nsize)
  heap ← gets (λ m. m.heap_manager)
  on_stats heap (count_calls Row.realloc)
  on_stats heap (count_calls_0 Row.reallocx)
  pure oaddr

-- The new area of `realloc`, with the alignment of the old one.
unfoldable pub new_area : Env → (oalignment nsize : ℕ) → Cmd ℕ
new_area env oalignment nsize =
    if leb oalignment align then do_malloc env nsize Row.realloc else (do
      heap ← gets (λ m. m.heap_manager)
      on_stats heap (count_request_1 Row.reallocx)
      memalign_no_stats env oalignment nsize Row.realloc)

-- The contents move to the new area, and the old one is freed.
unfoldable pub move_contents : Env → (oaddr naddr : ℕ) (old : Header) (nsize : ℕ) → Cmd ℕ
unfolding zero_added
move_contents env oaddr naddr old nsize = do
  found ← gets (λ m. fake_header m (header_addr naddr))
  memcpy naddr oaddr (min old.word1 nsize)
  do_free env oaddr
  when (not (zero_fill_bit old == 0))
      (do on_header found.header mark_zero_filled_bit; zero_added naddr old.word1 nsize)
  pure naddr

-- `realloc` to a new area.
unfoldable pub realloc_move : Env → (oaddr header oalignment nsize : ℕ) → Cmd ℕ
unfolding new_area move_contents
realloc_move env oaddr header oalignment nsize = do
  old ← gets (λ m. m.headers header)
  heap ← gets (λ m. m.heap_manager)
  on_stats heap (count_calls Row.reallocx)
  naddr ← new_area env oalignment nsize
  if naddr == null then pure null else move_contents env oaddr naddr old nsize

unfoldable pub realloc : Env → (oaddr nsize : ℕ) → Cmd ℕ
unfolding realloc_in_place realloc_move
realloc env oaddr nsize =
    if oaddr == null
    then do_malloc env nsize Row.realloc
    else if nsize == 0
    then free_for_zero env Row.realloc oaddr
    else (do
      at ← headers env oaddr
      if reusable nsize (data_size at.size oaddr at.header)
          then realloc_in_place env oaddr at.header nsize
          else realloc_move env oaddr at.header at.alignment nsize)

unfoldable pub reallocarray : Env → (oaddr dimension elem_size : ℕ) → Cmd ℕ
reallocarray env oaddr dimension elem_size = realloc env oaddr (mul64 dimension elem_size)

-- The pointer behind `oaddrp` is an argument and a result; the result's other part is the code.
unfoldable pub posix_result : (oaddrp ret : ℕ) → Cmd (ℕ × ℕ)
posix_result oaddrp ret =
    gets (λ m. if (ret == null) && (m.errno == enomem) then (enomem, oaddrp) else (0, ret))

unfoldable pub posix_realloc : Env → (oaddrp size : ℕ) → Cmd (ℕ × ℕ)
unfolding posix_result
posix_realloc env oaddrp size = do ret ← realloc env oaddrp size; posix_result oaddrp ret

unfoldable pub posix_reallocarray : Env → (oaddrp dimension elem_size : ℕ) → Cmd (ℕ × ℕ)
posix_reallocarray env oaddrp dimension elem_size =
    posix_realloc env oaddrp (mul64 dimension elem_size)
