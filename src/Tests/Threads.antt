-- ===== src/Tests/Threads.antt =====
-- A thread without storage that allocates a block, writes to it and enlarges it, which moves it,
-- and allocates again, where the first block was.
use llheap.Prelude.{first, ℕ, ◌+◌, ◌^◌, ◌≡◌, refl, [], ◌∷◌, arith, leb→le, ltb→lt, update, get_or}
use llheap.Bucket.{bucket_size, bucket_size_mmap, bucket_index, bucket_sizes, bsearchl}
use llheap.Header.{sticky_bits, zero_fill_bit}
use llheap.Stats.{Row}
use llheap.Machine.{Machine, Run, ok, stop}
use llheap.Master.{init_free_lists, boot_heap_manager}
use llheap.Alloc.{
  scrub_new, do_malloc, small_block, take_block, pop_block, bump_block, finish_block,
}
use llheap.Word.{ceiling}
use llheap.Os.{mmap, lock_ext, unlock_ext}
use llheap.Extend.{mmap_check, carve, master_extend, chain_remainder, manager_extend}
use llheap.Free.{do_free, fake_header, headers, locate_bucket, push_local, scrub_old}
use llheap.Api.Realloc.{realloc, realloc_move, new_area, move_contents}
use llheap.Safety.Held.{Held, All, Reads, AllApart}
use llheap.Safety.Thread.{Thread, carried}
use llheap.Safety.Client.{
  Step, allocates, resizes, writes, Reach, start, then_step, Reach-AllApart, Reach-Reads,
}
use llheap.Tests.World.{
  linux, linux-IsHonest, bare_thread, empty, bare_thread-IsReady, bare_thread-HasClear,
}

abbrev machine_of : {A : Type 0} → Run A → Machine
machine_of (ok a n) = n
machine_of (stop e) = bare_thread

abbrev at_1 : ℕ
at_1 = 2 ^ 40 + 2 ^ 33 + 16

abbrev at_2 : ℕ
at_2 = 2 ^ 40 + 2 ^ 33 + 32 + 16

abbrev machine_1 : Machine
machine_1 = machine_of (do_malloc linux 10 Row.malloc bare_thread)

abbrev block_1 : Held
block_1 = record { addr = at_1; size = 10; contents = λ i. machine_1.bytes (at_1 + i) }

-- The byte at place 3 becomes 7.
abbrev machine_2 : Machine
machine_2 = record machine_1 { bytes = update (machine_1.bytes) (at_1 + 3) 7 }

abbrev block_1_written : Held
block_1_written = record block_1 { contents = update (block_1.contents) 3 7 }

abbrev machine_3 : Machine
machine_3 = machine_of (realloc linux at_1 100 machine_2)

abbrev block_2 : Held
block_2 = record {
  addr = at_2;
  size = 100;
  contents = carried block_1_written 100 (λ i. machine_3.bytes (at_2 + i));
}

abbrev machine_4 : Machine
machine_4 = machine_of (do_malloc linux 16 Row.malloc machine_3)

abbrev block_3 : Held
block_3 = record { addr = at_1; size = 16; contents = λ i. machine_4.bytes (at_1 + i) }

bare_thread-10 : do_malloc linux 10 Row.malloc bare_thread ≡ ok at_1 machine_1
unfolding scrub_new manager_extend master_extend chain_remainder carve mmap_check mmap lock_ext
    unlock_ext ceiling do_malloc boot_heap_manager small_block take_block init_free_lists update
    bucket_index bsearchl bucket_sizes bump_block bucket_size finish_block get_or
bare_thread-10 = refl

machine_2-100 : realloc linux at_1 100 machine_2 ≡ ok at_2 machine_3
unfolding scrub_new manager_extend master_extend chain_remainder carve mmap_check mmap lock_ext
    unlock_ext ceiling do_free do_malloc boot_heap_manager small_block take_block init_free_lists
    update bucket_index bsearchl bucket_sizes bump_block bucket_size finish_block get_or headers
    push_local sticky_bits locate_bucket scrub_old pop_block realloc realloc_move new_area
    move_contents fake_header zero_fill_bit
machine_2-100 = refl

machine_3-16 : do_malloc linux 16 Row.malloc machine_3 ≡ ok at_1 machine_4
unfolding scrub_new manager_extend master_extend chain_remainder carve mmap_check mmap lock_ext
    unlock_ext ceiling do_free do_malloc boot_heap_manager small_block take_block init_free_lists
    update bucket_index bsearchl bucket_sizes bump_block bucket_size finish_block get_or headers
    push_local sticky_bits locate_bucket scrub_old pop_block realloc realloc_move new_area
    move_contents fake_header zero_fill_bit
machine_3-16 = refl

abbrev thread_0 : Thread
thread_0 = record { machine = bare_thread; held = [] }

abbrev thread_1 : Thread
thread_1 = record { machine = machine_1; held = block_1 ∷ [] }

abbrev thread_2 : Thread
thread_2 = record { machine = machine_2; held = block_1_written ∷ [] }

abbrev thread_3 : Thread
thread_3 = record { machine = machine_3; held = block_2 ∷ [] }

abbrev thread_4 : Thread
thread_4 = record { machine = machine_4; held = block_3 ∷ block_2 ∷ [] }

stage_1 : Step linux thread_0 thread_1
stage_1 =
    allocates Row.malloc 10 at_1 machine_1 (omega arith) (omega (arith, bucket_size_mmap))
      bare_thread-10 (omega arith)

stage_2 : Step linux thread_1 thread_2
stage_2 = writes block_1 [] 3 7 (first []) (omega arith)

stage_3 : Step linux thread_2 thread_3
unfolding scrub_new manager_extend master_extend chain_remainder carve mmap_check mmap lock_ext
    unlock_ext ceiling do_malloc boot_heap_manager small_block take_block init_free_lists update
    bucket_index bsearchl bucket_sizes bump_block bucket_size finish_block get_or
stage_3 =
    resizes block_1_written [] 100 at_2 machine_3 (first []) (omega arith) (ltb→lt _ _ refl)
      (leb→le _ _ refl) machine_2-100 (omega arith)

stage_4 : Step linux thread_3 thread_4
unfolding scrub_new manager_extend master_extend chain_remainder carve mmap_check mmap lock_ext
    unlock_ext ceiling do_free do_malloc boot_heap_manager small_block take_block init_free_lists
    update bucket_index bsearchl bucket_sizes bump_block bucket_size finish_block get_or headers
    push_local sticky_bits locate_bucket scrub_old pop_block realloc realloc_move new_area
    move_contents fake_header zero_fill_bit
stage_4 =
    allocates Row.malloc 16 at_1 machine_4 (ltb→lt _ _ refl) (leb→le _ _ refl) machine_3-16
      (omega arith)

thread_4-Reach : Reach linux thread_0 thread_4
thread_4-Reach = then_step (then_step (then_step (then_step start stage_1) stage_2) stage_3) stage_4

Reach-AllApart_example : AllApart (block_3 ∷ block_2 ∷ [])
Reach-AllApart_example =
    Reach-AllApart linux linux-IsHonest (omega arith) refl bare_thread empty
      (record { machine = machine_4; held = block_3 ∷ block_2 ∷ [] }) bare_thread-IsReady
      bare_thread-HasClear refl thread_4-Reach

Reach-Reads_example : All (Reads machine_4) (block_3 ∷ block_2 ∷ [])
Reach-Reads_example =
    Reach-Reads linux linux-IsHonest (omega arith) refl bare_thread empty
      (record { machine = machine_4; held = block_3 ∷ block_2 ∷ [] }) bare_thread-IsReady
      bare_thread-HasClear refl thread_4-Reach
