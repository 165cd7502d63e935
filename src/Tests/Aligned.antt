-- ===== src/Tests/Aligned.antt =====
-- An aligned allocation in a block of 64 bytes.
use llheap.Prelude.{
  ℕ, ◌+◌, ◌-◌, ◌^◌, ◌≡◌, refl, inl, ◌∷◌, [], arith, get_or, update, update_self, update_ne,
}
use llheap.Bucket.{sizeof_storage, bucket_size, bucket_sizes}
use llheap.Header.{Header}
use llheap.Machine.{Machine, free_header_addr}
use llheap.Machine.Outcome.{Returns}
use llheap.Free.{do_free}
use llheap.Aligned.{place_fake}
use llheap.Aligned.Placed.{IsPlaced}
use llheap.Arena.{Layout}
use llheap.Arena.Cut.{cut, cut-IsLaidOut}
use llheap.Arena.Give.{give}
use llheap.Safety.{IsReady, IsLive}
use llheap.Safety.Aligned.{do_free-place_fake}
use llheap.Tests.World.{
  linux, heap, start, room, no_header, heap_at, initial, new_thread, empty, new_thread-IsReady,
}

abbrev wide_header : ℕ → Header
wide_header = update no_header start (record { word0 = free_header_addr heap 2; word1 = 36 })

abbrev wide_block : Machine
wide_block = record new_thread {
  heaps = λ p. heap_at (start + 64) (room - 64);
  headers = wide_header;
}

abbrev wide : Layout
wide = cut empty start 2

wide_size : bucket_size 2 ≡ 64
unfolding bucket_size get_or bucket_sizes
wide_size = refl

wide_block-IsReady : IsReady wide_block wide
unfolding bucket_size get_or bucket_sizes
wide_block-IsReady = record {
  booted = omega arith;
  aligned = refl;
  heap_space = omega arith;
  table = λ t h. refl;
  limit = omega arith;
  begun = inl (omega arith);
  laid =
      cut-IsLaidOut heap start room initial initial no_header wide_header empty 2
        (new_thread-IsReady.laid) (omega arith) (omega arith) (omega (arith, wide_size))
        (record {
          block_sizes = λ c. refl;
          home_managers = λ c. refl;
          free_lists = λ c. refl;
          remote_lists = λ c. refl;
          links = λ c ne. rw (update_ne no_header start _ c ne) refl;
        })
        (rw (update_self no_header start _) refl);
}

wide_block-IsLive : IsLive wide start 2
wide_block-IsLive = (update_self _ start _, update_self _ start _)

-- Four bytes at a multiple of 32.
do_free-place_fake_example :
    Returns
      (λ u n.
        IsPlaced n (start + sizeof_storage) (2 ^ 5) 4 u
        × IsReady n wide
        × (n.bytes ≡ wide_block.bytes)
        × Returns (λ _ e. IsReady e (give wide start 2 (start ∷ []) [])) (do_free linux u n))
      (place_fake linux (2 ^ 5) 4 32 (start + sizeof_storage) wide_block)
do_free-place_fake_example =
    do_free-place_fake linux refl wide_block wide wide_block-IsReady start 2 wide_block-IsLive 5 4
      (omega arith) (omega arith) refl (omega (arith, wide_size)) 32
