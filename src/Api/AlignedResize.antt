-- ===== src/Api/AlignedResize.antt =====
-- llheap.cc: `aligned_resize` and `aligned_realloc`, which also change the alignment, with their
-- array and error-code variants.
use llheap.Prelude.{ℕ, ◌-◌, ◌%◌, Bool, not, ◌&&◌, ◌||◌, leb, ltb, ◌==◌, if◌then◌else◌, min, max}
use llheap.Word.{add64, mul64}
use llheap.Bucket.{align}
use llheap.Header.{
  Header, alignment_bit, clear_alignment_bit, mark_alignment_bit, zero_fill_bit,
  mark_zero_filled_bit, header_addr, data_size,
}
use llheap.Stats.{Row}
use llheap.Machine.{null, Env, Cmd, pure, ◌>>=◌, ◌>>◌, gets, when, on_header}
use llheap.Memory.{memset, memcpy}
use llheap.Free.{fake_header, headers, do_free}
use llheap.Aligned.{check_align, memalign_no_stats}
use llheap.Api.Resize.{free_for_zero, reusable, resize_in_place, resize}
use llheap.Api.Realloc.{realloc, posix_result}

-- "lucky match": the address has the new alignment, and not much is wasted by keeping it.
unfoldable pub lucky : (oaddr oalignment nalignment : ℕ) → Bool
lucky oaddr oalignment nalignment =
    (oaddr % nalignment == 0)
    && (leb oalignment nalignment || (leb nalignment oalignment && leb oalignment 256))

-- The fake header before the address takes the new alignment.
unfoldable pub set_alignment : (oaddr nalignment : ℕ) → Cmd (Unit {0})
set_alignment oaddr nalignment =
    on_header (header_addr oaddr) (λ h. record h { word0 = mark_alignment_bit nalignment })

-- The end of `aligned_resize`: a new block in place of the old one.
unfoldable pub replace_aligned : Env → (oaddr nalignment size : ℕ) → Cmd ℕ
replace_aligned env oaddr nalignment size = do
  do_free env oaddr
  memalign_no_stats env nalignment size Row.aligned_resize

-- `aligned_resize` of a block that has the new alignment.
unfoldable pub resize_lucky : Env → (oaddr nalignment size : ℕ) → Cmd ℕ
unfolding set_alignment replace_aligned
resize_lucky env oaddr nalignment size = do
  set_alignment oaddr nalignment
  at ← headers env oaddr
  if reusable size (data_size at.size oaddr at.header)
      then (do
        set_alignment oaddr nalignment
        resize_in_place env Row.aligned_resize oaddr at.header size)
      else replace_aligned env oaddr nalignment size

-- `aligned_resize`, once the alignment is at least the minimum.
unfoldable pub aligned_resize_to : Env → (oaddr nalignment size : ℕ) → Cmd ℕ
unfolding lucky resize_lucky
aligned_resize_to env oaddr nalignment size = do
  h ← gets (λ m. m.headers (header_addr oaddr))
  if alignment_bit h == 0
      then (if nalignment == align
          then resize env oaddr size
          else replace_aligned env oaddr nalignment size)
      else (do
        when env.debug (check_align nalignment)
        if lucky oaddr (clear_alignment_bit h) nalignment
            then resize_lucky env oaddr nalignment size
            else replace_aligned env oaddr nalignment size)

unfoldable pub aligned_resize : Env → (oaddr nalignment size : ℕ) → Cmd ℕ
unfolding aligned_resize_to
aligned_resize env oaddr nalignment size =
    if oaddr == null
    then memalign_no_stats env nalignment size Row.aligned_resize
    else if size == 0
    then free_for_zero env Row.aligned_resize oaddr
    else aligned_resize_to env oaddr (max nalignment align) size

unfoldable pub aligned_resizearray : Env → (oaddr nalignment dimension elem_size : ℕ) → Cmd ℕ
aligned_resizearray env oaddr nalignment dimension elem_size =
    aligned_resize env oaddr nalignment (mul64 dimension elem_size)

-- The contents move to the aligned area, and the old one is freed.
unfoldable pub move_aligned : Env → (oaddr naddr : ℕ) (old : Header) (size : ℕ) → Cmd ℕ
move_aligned env oaddr naddr old size = do
  found ← gets (λ m. fake_header m (header_addr naddr))
  memcpy naddr oaddr (min old.word1 size)
  do_free env oaddr
  when (not (zero_fill_bit old == 0)) (do
    on_header found.header mark_zero_filled_bit
    when (ltb old.word1 size) (memset (add64 naddr old.word1) 0 (size - old.word1)))
  pure naddr

-- The end of `aligned_realloc`: a new aligned area with the old contents.
unfoldable pub realloc_aligned : Env → (oaddr nalignment size : ℕ) → Cmd ℕ
unfolding move_aligned
realloc_aligned env oaddr nalignment size = do
  at ← headers env oaddr
  old ← gets (λ m. m.headers at.header)
  naddr ← memalign_no_stats env nalignment size Row.aligned_realloc
  if naddr == null then pure null else move_aligned env oaddr naddr old size

-- `aligned_realloc` of a block behind a fake header.
unfoldable pub realloc_faked : Env → (oaddr oalignment nalignment size : ℕ) → Cmd ℕ
unfolding realloc_aligned lucky set_alignment
realloc_faked env oaddr oalignment nalignment size =
    if lucky oaddr oalignment nalignment
    then (do set_alignment oaddr nalignment; realloc env oaddr size)
    else realloc_aligned env oaddr nalignment size

unfoldable pub aligned_realloc : Env → (oaddr nalignment size : ℕ) → Cmd ℕ
unfolding realloc_faked
aligned_realloc env oaddr nalignment size =
    if oaddr == null
    then memalign_no_stats env nalignment size Row.aligned_realloc
    else if size == 0
    then free_for_zero env Row.aligned_realloc oaddr
    else (do
      h ← gets (λ m. m.headers (header_addr oaddr))
      if alignment_bit h == 0
          then (if nalignment == align
              then realloc env oaddr size
              else realloc_aligned env oaddr nalignment size)
          else (do
            when env.debug (check_align nalignment)
            realloc_faked env oaddr (clear_alignment_bit h) (max nalignment align) size))

unfoldable pub aligned_reallocarray : Env → (oaddr nalignment dimension elem_size : ℕ) → Cmd ℕ
aligned_reallocarray env oaddr nalignment dimension elem_size =
    aligned_realloc env oaddr nalignment (mul64 dimension elem_size)

unfoldable pub posix_aligned_realloc : Env → (oaddrp nalignment size : ℕ) → Cmd (ℕ × ℕ)
posix_aligned_realloc env oaddrp nalignment size = do
  ret ← aligned_realloc env oaddrp nalignment size
  posix_result oaddrp ret

unfoldable pub posix_aligned_reallocarray :
    Env → (oaddrp nalignment dimension elem_size : ℕ) → Cmd (ℕ × ℕ)
posix_aligned_reallocarray env oaddrp nalignment dimension elem_size =
    posix_aligned_realloc env oaddrp nalignment (mul64 dimension elem_size)
