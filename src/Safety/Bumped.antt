-- ===== src/Safety/Bumped.antt =====
-- A request that is served by the buffer the heap has.
use llheap.Prelude.{ℕ, ◌+◌, ◌≤◌, ◌<◌, inl, inr, refl, arith, update, update_self}
use llheap.Word.{add64, sub64}
use llheap.Bucket.{sizeof_storage, no_bucket_sizes, bucket_size, bucket_index}
use llheap.Stats.{Row}
use llheap.Machine.{Env, Machine, free_header_addr}
use llheap.Arena.{Layout}
use llheap.Arena.Cut.{bucket_size_pos}
use llheap.Safety.State.{IsReady, Served}
use llheap.Safety.Serve.{counted}
use llheap.Safety.Choice.{bucket-IsBestFit, bucket_small}
use llheap.Safety.Front.{Fronted, front-Served}
use llheap.Safety.Sources.{bumped, sealed}

-- The machine after the heap's buffer gave `n` bytes from its front.
abbrev advanced : Machine → (heap n : ℕ) → Machine
advanced m heap n =
    let h = m.heaps heap in
    record m {
      heaps =
          update (m.heaps) heap
            (record h { buf_remaining = sub64 h.buf_remaining n; buf_start = add64 h.buf_start n });
    }

module _ (env : Env) (m : Machine) (l : Layout) (ready : IsReady m l) (row : Row) (size : ℕ)
    (fits : size + sizeof_storage ≤ bucket_size (m.master.max_buckets_used)) where
  abbrev b : ℕ
  b = bucket_index (m.lookup) (m.master.max_buckets_used) (add64 size sizeof_storage)

  b_small : b < no_bucket_sizes
  b_small = bucket_small m l ready size fits

  abbrev heap : ℕ
  heap = m.heap_manager

  abbrev fh : ℕ
  fh = free_header_addr heap b

  abbrev start : ℕ
  start = (m.heaps heap).buf_start

  module _ (enough : bucket_size b ≤ (m.heaps heap).buf_remaining) where
    pub place : 0 < start
    place = elim (ready.begun) [
      | inl pos ↦ pos
      | inr none_left ↦ absurd (omega (arith, bucket_size_pos b b_small))
    ]

    bump-Fronted :
        Fronted env m l b start (advanced (counted m row size) heap (m.free_headers fh).block_size)
    bump-Fronted = record {
      layout = l;
      increase = (m.heaps heap).buf_remaining;
      place = place;
      enough = enough;
      laid = ready.laid;
      clear = λ far. far;
      live = λ c d. (λ x. x, λ x. x);
      start =
          simp (update_self, ready.laid.sizes b b_small) (omega (arith, ready.laid.space, enough));
      room =
          simp (update_self, ready.laid.sizes b b_small) (omega (arith, ready.laid.space, enough));
      manager = refl;
      table = refl;
      bytes = refl;
      sizes = λ c. refl;
      limit = refl;
      mmap_start = refl;
      unlocked = λ free. free;
    }

    pub bump-Served :
        Served env m l size
          (add64 start sizeof_storage)
          (sealed (bumped (counted m row size) heap fh) size fh start)
    bump-Served =
        front-Served env m l ready size b start (bucket-IsBestFit m l ready size fits) b_small
          (advanced (counted m row size) heap (m.free_headers fh).block_size) bump-Fronted
