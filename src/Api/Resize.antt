-- ===== src/Api/Resize.antt =====
-- llheap.cc: `resize`, which changes the size of an allocation and keeps neither its contents nor
-- its sticky properties.
use llheap.Prelude.{ℕ, Bool, ◌&&◌, leb, ◌==◌, if◌then◌else◌}
use llheap.Word.{add64, sub64, mul64}
use llheap.Bucket.{align}
use llheap.Header.{clear_zero_fill_bit, data_size}
use llheap.Stats.{Row, count_calls, count_calls_0}
use llheap.Machine.{null, Env, Cmd, pure, ◌>>=◌, ◌>>◌, gets, when, on_heap, on_header, on_stats}
use llheap.Alloc.{do_malloc}
use llheap.Free.{headers, do_free}

-- Size 0 with a block: count, and free the block.
unfoldable pub free_for_zero : Env → Row → (oaddr : ℕ) → Cmd ℕ
free_for_zero env row oaddr = do
  heap ← gets (λ m. m.heap_manager)
  on_stats heap (count_calls_0 row)
  do_free env oaddr
  pure null

-- The debug build's count of unfreed bytes, when a block changes its size in place.
unfoldable pub adjust_unfreed : Env → (size header : ℕ) → Cmd (Unit {0})
adjust_unfreed env size header = when env.debug (do
  heap ← gets (λ m. m.heap_manager)
  old ← gets (λ m. (m.headers header).word1)
  on_heap heap (λ h. record h { alloc_unfreed = add64 (h.alloc_unfreed) (sub64 size old) }))

-- "allow 50% wasted storage": a request that the data area holds and at least half fills.
abbrev pub reusable : (size odsize : ℕ) → Bool
reusable size odsize = leb size odsize && leb odsize (mul64 size 2)

-- Reuse of the block by `resize` and `aligned_resize`.
unfoldable pub resize_in_place : Env → Row → (oaddr header size : ℕ) → Cmd ℕ
unfolding adjust_unfreed
resize_in_place env row oaddr header size = do
  on_header header clear_zero_fill_bit
  adjust_unfreed env size header
  on_header header (λ h. record h { word1 = size })
  heap ← gets (λ m. m.heap_manager)
  on_stats heap (count_calls row)
  pure oaddr

unfoldable pub resize : Env → (oaddr size : ℕ) → Cmd ℕ
unfolding free_for_zero resize_in_place
resize env oaddr size =
    if oaddr == null
    then do_malloc env size Row.resize
    else if size == 0
    then free_for_zero env Row.resize oaddr
    else (do
      at ← headers env oaddr
      if (at.alignment == align) && reusable size (data_size at.size oaddr at.header)
          then resize_in_place env Row.resize oaddr at.header size
          else (do do_free env oaddr; do_malloc env size Row.resize))

unfoldable pub resizearray : Env → (oaddr dimension elem_size : ℕ) → Cmd ℕ
resizearray env oaddr dimension elem_size = resize env oaddr (mul64 dimension elem_size)
