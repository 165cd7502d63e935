-- ===== src/Safety/Realloc.antt =====
-- `realloc` of a block in use to another small size, in the release build.
use llheap.Prelude.{
  ℕ, ◌+◌, ◌-◌, ◌≤◌, ◌<◌, ◌≡◌, ◌⊎◌, inl, inr, refl, true, false, leb, ne→==, arith, Bool-cases,
  leb→le,
}
use llheap.Bucket.{sizeof_storage, align, bucket_size}
use llheap.Header.{data_size}
use llheap.Stats.{Row}
use llheap.Machine.{null, Env, Machine, free_header_addr}
use llheap.Machine.Outcome.{Ends, Returns-Ends, Ends-and_then}
use llheap.Alloc.{do_malloc}
use llheap.Api.Resize.{reusable}
use llheap.Api.Realloc.{realloc, realloc_move, new_area}
use llheap.Arena.{Layout, user_space}
use llheap.Arena.Cut.{bucket_size_pos}
use llheap.Safety.State.{IsReady, IsLive}
use llheap.Safety.Clear.{IsHonest, HasClear}
use llheap.Safety.Alike.{Alike-IsReady, Alike-HasClear}
use llheap.Safety.Settle.{IsRefused, do_malloc-Settles}
use llheap.Safety.Release.{headers-live}
use llheap.Safety.Resized.{Resized}
use llheap.Safety.Within.{realloc_in_place-Resized}
use llheap.Safety.Moving.{moving, moving-Alike}
use llheap.Safety.Moved.{move_contents-Resized}

-- A new size for the block at `a`, or null with the block and its heap as before.
abbrev pub AnsweredResized : Env → Machine → Layout → (a size addr : ℕ) → Machine → Type 0
AnsweredResized env m l a size addr n =
    ((addr ≡ null) × IsRefused env m l n) ⊎ Resized env m l a size addr n

module _ (env : Env) (honest : IsHonest env) (block : env.malloc_thread_block < user_space)
    (release : env.debug ≡ false) (m : Machine) (l : Layout) (ready : IsReady m l)
    (clear : HasClear env m l) (unlocked : m.master.ext_lock ≡ false) (a b : ℕ)
    (live : IsLive l a b) (size : ℕ) (small : size < m.master.mmap_start)
    (fits : size + sizeof_storage ≤ bucket_size (m.master.max_buckets_used)) where
  refused : (n : Machine) → IsRefused env (moving m) l n → IsRefused env m l n
  refused n r = record {
    ready = r.ready;
    clear = λ far. r.clear (Alike-HasClear m (moving m) l (moving-Alike l m) env far);
    unlocked = r.unlocked;
    said = r.said;
    contents = r.contents;
    headers = r.headers;
    settings = r.settings;
  }

  realloc_move-Resized :
      Ends (AnsweredResized env m l a size) (realloc_move env (a + sizeof_storage) a align size m)
  unfolding realloc_move new_area
  realloc_move-Resized =
      Ends-and_then (AnsweredResized env m l a size) (do_malloc env size Row.realloc (moving m)) _
        (do_malloc-Settles env honest block release (moving m) l
          (Alike-IsReady m (moving m) l (moving-Alike l m) ready)
          (Alike-HasClear m (moving m) l (moving-Alike l m) env clear) unlocked Row.realloc size
          small fits)
        (λ addr k answer. elim answer [
          | inl (none, r) ↦ rw none (inl (refl, refused k r))
          | inr s ↦ rw (ne→== addr null (omega (arith, s.address))) (
              Returns-Ends (AnsweredResized env m l a size) _
                (move_contents-Resized env release m l ready a b live size k addr s)
                (λ c n z. inr z))
        ])

  data_room :
      data_size
        (m.free_headers (free_header_addr (m.heap_manager) b)).block_size
        (a + sizeof_storage)
        a
      ≡ bucket_size b - sizeof_storage
  data_room =
      let (b_small, _, low) = ready.laid.known a b (live.0) in
      omega (arith, ready.laid.sizes b b_small, low, bucket_size_pos b b_small)

  reusable_fits :
      reusable size (bucket_size b - sizeof_storage) ≡ true → size + sizeof_storage ≤ bucket_size b
  reusable_fits reuse = elim (Bool-cases (leb size (bucket_size b - sizeof_storage))) [
    | inl low ↦
        let (b_small, _, _) = ready.laid.known a b (live.0) in
        omega (arith, leb→le _ _ low, bucket_size_pos b b_small)
    | inr high ↦ absurd (let no : false ≡ true = rw high at reuse in cc)
  ]

  -- In the release build, with a thread block below 2 ^ 63 bytes, on a system that hands out memory
  -- of the process's address space and no byte twice: the heap is ready, the memory that the system
  -- hands out later lies apart from it, and the extension lock is open. `realloc` of a block in use,
  -- zero filled or not, to a size other than 0, below the mmap threshold, that fits the last bucket in use with its
  -- header, ends in one of three ways. It answers the address of an area of the new size, in the same
  -- block or in another one that was not in use, with the old bytes up to the lesser of the old and
  -- the new size. It is marked zero filled exactly when the old one was, and then the bytes from the
  -- old size up to the new one are zero. No byte outside this area has changed, if the block is another one then the old
  -- one is no longer in use, and all other blocks are in use exactly as before. Or it answers null
  -- with `ENOMEM`, and the old block is still in use, as are the others, with all bytes as before. In
  -- both cases the heap is ready again. Or the program is aborted, for another error of `mmap` than
  -- `ENOMEM`.
  pub realloc-Resized :
      0 < size → Ends (AnsweredResized env m l a size) (realloc env (a + sizeof_storage) size m)
  unfolding realloc
  realloc-Resized pos = elim (Bool-cases (reusable size (bucket_size b - sizeof_storage))) [
    | inl reuse ↦
        rw
          (
            ne→== (a + sizeof_storage) null (omega arith),
            ne→== size 0 (omega (arith, pos)),
            headers-live env release m l ready a b live,
            data_room,
            reuse,
          )
          (Returns-Ends (AnsweredResized env m l a size) _
            (realloc_in_place-Resized env release m l ready a b live size (reusable_fits reuse))
            (λ c n z. inr z))
    | inr move ↦
        rw
          (
            ne→== (a + sizeof_storage) null (omega arith),
            ne→== size 0 (omega (arith, pos)),
            headers-live env release m l ready a b live,
            data_room,
            move,
          )
          realloc_move-Resized
  ]
