-- ===== src/Tests/Heaps.antt =====
-- The theorems on allocation and release at the concrete process.
use llheap.Prelude.{
  ◌^◌, ◌≤◌, ◌<◌, update, get_or, ◌+◌, ◌*◌, ◌≡◌, refl, inr, [], ◌∷◌, if◌then◌else◌, ◌==◌, arith,
  leb→le,
}
use llheap.Word.{add64, ceiling}
use llheap.Safety.Mapped.{Besides, do_free-do_malloc}
use llheap.Bucket.{
  bucket_size, sizeof_storage, bucket_size_first, bucket_size_mmap, IsBestFit, bucket_index,
  bucket_sizes, bsearchl,
}
use llheap.Master.{init_free_lists}
use llheap.Stats.{Row}
use llheap.Machine.{null, and_then, enomem}
use llheap.Machine.Outcome.{Returns, Ends}
use llheap.Alloc.{do_malloc}
use llheap.Free.{do_free}
use llheap.Api.Basic.{calloc}
use llheap.Api.Realloc.{realloc, posix_realloc}
use llheap.Arena.Give.{give}
use llheap.Safety.{IsReady, Served}
use llheap.Safety.Serve.{HasStorage}
use llheap.Safety.Malloc.{do_malloc-Served}
use llheap.Safety.Settle.{Settles, do_malloc-Settles}
use llheap.Safety.Release.{do_free-IsReady}
use llheap.Safety.Reuse.{do_malloc-do_free}
use llheap.Safety.Calloc.{SettlesZeroed, calloc-SettlesZeroed}
use llheap.Safety.Stale.{posix_realloc_zero}
use llheap.Safety.Realloc.{AnsweredResized, realloc-Resized}
use llheap.Tests.Zeroed.{zero_block_held, zero_block_held-IsReady, zero_block_held-HasClear}
use llheap.Tests.World.{
  linux, linux-IsHonest, bare_thread, bare_thread-IsReady, bare_thread-HasClear, new_thread, empty,
  new_thread-IsReady, start, one_block, holding, one_block-IsReady, one_block-IsLive,
  one_block-HasClear,
}

-- The first request finds its block in the buffer.
new_thread-HasStorage : HasStorage new_thread 10
unfolding bucket_index bsearchl bucket_sizes init_free_lists bucket_size get_or update
new_thread-HasStorage = inr (inr (leb→le _ _ refl))

do_malloc-Served_example :
    Returns (Served linux new_thread empty 10) (do_malloc linux 10 Row.malloc new_thread)
do_malloc-Served_example =
    do_malloc-Served linux new_thread empty Row.malloc 10 refl new_thread-IsReady (omega arith)
      (omega (arith, bucket_size_mmap)) new_thread-HasStorage

-- The first request of a thread without storage asks the system for a buffer.
do_malloc-Settles_example :
    Settles linux bare_thread empty 10 (do_malloc linux 10 Row.malloc bare_thread)
do_malloc-Settles_example =
    do_malloc-Settles linux linux-IsHonest (omega arith) refl bare_thread empty bare_thread-IsReady
      bare_thread-HasClear refl Row.malloc 10 (omega arith) (omega (arith, bucket_size_mmap))

do_free-IsReady_example :
    Returns
      (λ _ n. IsReady n (give holding start 0 (start ∷ []) []))
      (do_free linux (start + sizeof_storage) one_block)
do_free-IsReady_example =
    do_free-IsReady linux refl one_block holding one_block-IsReady start 0 one_block-IsLive

sixteen-IsBestFit : IsBestFit (16 + sizeof_storage) 0
sixteen-IsBestFit = record {
  fits = omega (arith, bucket_size_first);
  least = λ i h. absurd (omega arith);
}

do_malloc-do_free_example :
    Returns
      (λ addr _. addr ≡ start + sizeof_storage)
      (and_then
        (do_free linux (start + sizeof_storage) one_block)
        (λ _. do_malloc linux 16 Row.malloc))
do_malloc-do_free_example =
    do_malloc-do_free linux one_block holding Row.malloc start 0 16 refl one_block-IsReady
      one_block-IsLive sixteen-IsBestFit (omega arith) (omega (arith, bucket_size_mmap))

calloc-SettlesZeroed_example :
    SettlesZeroed linux bare_thread empty (5 * 8) (calloc linux 5 8 bare_thread)
calloc-SettlesZeroed_example =
    calloc-SettlesZeroed linux bare_thread empty 5 8 linux-IsHonest (omega arith) refl
      bare_thread-IsReady bare_thread-HasClear refl (omega arith) (omega (arith, bucket_size_mmap))

-- Forty million bytes are mapped and given back.
do_free-do_malloc_example :
    Returns
      (λ addr n.
        (addr ≡ 2 ^ 40 + sizeof_storage)
        × (40000000 + sizeof_storage ≤ ceiling (add64 40000000 sizeof_storage) 4096)
        × (ceiling (add64 40000000 sizeof_storage) 4096 < 40000000 + sizeof_storage + 4096)
        × Besides linux one_block holding n
        × Returns
            (λ _ e. Besides linux one_block holding e × (e.os_calls ≡ one_block.os_calls + 2))
            (do_free linux addr n))
      (do_malloc linux 40000000 Row.malloc one_block)
unfolding ceiling
do_free-do_malloc_example =
    do_free-do_malloc linux refl one_block holding one_block-IsReady one_block-HasClear Row.malloc
      40000000 12 (2 ^ 40) (omega arith) refl (omega arith) (omega arith) (omega arith) refl
      (omega arith) (omega arith) refl

-- The first block, which is zero filled, grows, and has to move.
realloc-Resized_example :
    Ends
      (AnsweredResized linux zero_block_held holding start 100)
      (realloc linux (start + sizeof_storage) 100 zero_block_held)
realloc-Resized_example =
    realloc-Resized linux linux-IsHonest (omega arith) refl zero_block_held holding
      zero_block_held-IsReady zero_block_held-HasClear refl start 0 one_block-IsLive 100
      (omega arith) (omega (arith, bucket_size_mmap)) (omega arith)

posix_realloc_zero_example :
    Returns
      (λ answer n.
        (answer
          ≡ (if one_block.errno == enomem then (enomem, start + sizeof_storage) else (0, null)))
        × IsReady n (give holding start 0 (start ∷ []) []))
      (posix_realloc linux (start + sizeof_storage) 0 one_block)
posix_realloc_zero_example =
    posix_realloc_zero linux one_block holding start 0 refl one_block-IsReady one_block-IsLive
