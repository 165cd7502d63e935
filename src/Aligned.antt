-- ===== src/Aligned.antt =====
-- llheap.cc: `memalignNoStats`, an allocation at a multiple of a larger alignment, behind a second,
-- fake header that leads back to the real one.
pub mod Placed
use llheap.Prelude.{ℕ, not, ◌||◌, leb, ◌==◌, if◌then◌else◌}
use llheap.Word.{add64, sub64, pow2, ceiling}
use llheap.Bucket.{sizeof_storage, align}
use llheap.Header.{mark_alignment_bit, header_addr}
use llheap.Stats.{Row}
use llheap.Machine.{
  null, Env, bad_alignment, Cmd, pure, ◌>>=◌, ◌>>◌, fail, gets, when, on_heap, on_header,
}
use llheap.Alloc.{do_malloc}

-- `checkAlign`
unfoldable pub check_align : (alignment : ℕ) → Cmd (Unit {0})
check_align alignment = when (not (pow2 alignment)) (fail (bad_alignment alignment))

-- The two headers of an aligned block whose plain address is `addr`.
unfoldable pub place_fake : Env → (alignment size offset addr : ℕ) → Cmd ℕ
place_fake env alignment size offset addr =
    let user = ceiling (add64 addr sizeof_storage) alignment in
    let real = header_addr addr in
    let fake = header_addr user in
    do
      on_header real (λ h. record h { word1 = size })
      heap ← gets (λ m. m.heap_manager)
      when env.debug
          (on_heap heap (λ h. record h { alloc_unfreed = sub64 (h.alloc_unfreed) offset }))
      on_header fake (λ h. record h { word1 = sub64 fake real })
      on_header fake (λ h. record h { word0 = mark_alignment_bit alignment })
      pure user

-- `memalignNoStats`
unfoldable pub memalign_no_stats : Env → (alignment size : ℕ) → Row → Cmd ℕ
unfolding check_align place_fake
memalign_no_stats env alignment size row = do
  when env.debug (check_align alignment)
  if leb alignment align || size == 0
      then do_malloc env size row
      else (let offset = add64 (sub64 alignment align) sizeof_storage in
          do
            addr ← do_malloc env (add64 size offset) row
            if addr == null then pure null else place_fake env alignment size offset addr)
