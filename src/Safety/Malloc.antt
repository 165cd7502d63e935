-- ===== src/Safety/Malloc.antt =====
-- A small request is served by a block that was not in use, of the best bucket.
use llheap.Prelude.{
  ℕ, ◌+◌, ◌≤◌, ◌<◌, ◌≡◌, ◌≢◌, inl, inr, refl, ap, ◌∙◌, false, [], ◌∷◌, arith, ℕ_discrete,
  update_self,
}
use mathlib.Core.List.{append-nil}
use llheap.Word.{add64}
use llheap.Bucket.{sizeof_storage, no_bucket_sizes, bucket_size, bucket_index}
use llheap.Stats.{Row}
use llheap.Machine.{null, Env, Machine, ok, free_header_addr}
use llheap.Machine.Outcome.{Returns}
use llheap.Alloc.{do_malloc, take_block}
use llheap.Arena.{Layout, Chain, Chain-cons, Chain-nil}
use llheap.Safety.Listed.{served}
use llheap.Safety.Bumped.{place, bump-Served}
use llheap.Safety.State.{IsReady, Served}
use llheap.Safety.Serve.{HasStorage, counted, do_malloc-take_block}
use llheap.Safety.Choice.{bucket_small, counted-start, counted-room}
use llheap.Safety.Sources.{
  popped, pulled, bumped, sealed, take_block-popped, take_block-pulled, take_block-bumped,
  seal-sealed, popped-Touches, pulled-Touches,
}

module _ (env : Env) (release : env.debug ≡ false) (m : Machine) (l : Layout) (ready : IsReady m l)
    (row : Row) (size : ℕ) (small : size < m.master.mmap_start)
    (fits : size + sizeof_storage ≤ bucket_size (m.master.max_buckets_used)) where
  abbrev b : ℕ
  b = bucket_index (m.lookup) (m.master.max_buckets_used) (add64 size sizeof_storage)

  b_small : b < no_bucket_sizes
  b_small = bucket_small m l ready size fits

  same_start :
      ((counted m row size).heaps (m.heap_manager)).buf_start ≡ (m.heaps (m.heap_manager)).buf_start
  same_start = counted-start m row size

  same_room :
      ((counted m row size).heaps (m.heap_manager)).buf_remaining
      ≡ (m.heaps (m.heap_manager)).buf_remaining
  same_room = counted-room m row size

  abbrev heap : ℕ
  heap = m.heap_manager

  abbrev fh : ℕ
  fh = free_header_addr heap b

  abbrev start : ℕ
  start = (m.heaps heap).buf_start

  abbrev room : ℕ
  room = (m.heaps heap).buf_remaining

  abbrev counts : Machine
  counts = counted m row size

  -- A block `p` that `take_block` answers gets its header.
  sealing :
      (p : ℕ) (m2 : Machine)
      → take_block env heap fh counts ≡ ok p m2
      → p ≢ null
      → Served env m l size (add64 p sizeof_storage) (sealed m2 size fh p)
      → Returns (Served env m l size) (do_malloc env size row m)
  sealing p m2 run ne is =
      rw
        (
          do_malloc-take_block env release row size m (omega (arith, ready.booted)) small,
          run,
          seal-sealed env m2 size fh p release ne,
        )
        is

  from_free :
      (m.free_headers fh).free_list ≢ null
      → Returns (Served env m l size) (do_malloc env size row m)
  from_free ne =
      let p = (m.free_headers fh).free_list in
      let chain = ready.laid.freed b b_small in
      let (rest, e) = Chain-cons (m.headers) p (l.free b) chain ne in
      let linked : Chain (m.headers) p (p ∷ rest) = rw e at chain in
      sealing p (popped counts fh) (take_block-popped env counts heap fh ne) ne (
        served env m l ready size fits p rest (l.remote b) (popped counts fh)
          (record {
            manager = refl;
            table = refl;
            master = refl;
            start = same_start;
            room = same_room;
            calls = refl;
            bytes = refl;
            headers = refl;
          })
          (rw e) (popped-Touches counts size fh) (rw update_self linked.2)
          (rw update_self (ready.laid.returned b b_small)))

  from_remote :
      (m.free_headers fh).free_list ≡ null
      → (m.free_headers fh).remote_list ≢ null
      → Returns (Served env m l size) (do_malloc env size row m)
  from_remote none_free ne =
      let p = (m.free_headers fh).remote_list in
      let chain = ready.laid.returned b b_small in
      let (rest, e) = Chain-cons (m.headers) p (l.remote b) chain ne in
      let linked : Chain (m.headers) p (p ∷ rest) = rw e at chain in
      let empty : l.free b ≡ [] =
        Chain-nil (m.headers) _ (l.free b) (ready.laid.freed b b_small) none_free in
      sealing p (pulled counts heap fh) (take_block-pulled env counts heap fh none_free ne) ne (
        served env m l ready size fits p rest [] (pulled counts heap fh)
          (record {
            manager = refl;
            table = refl;
            master = refl;
            start = simp update_self;
            room = simp update_self;
            calls = refl;
            bytes = refl;
            headers = refl;
          })
          (rw (empty, e, append-nil)) (pulled-Touches counts size fh heap)
          (simp update_self (linked.2)) (simp update_self))

  from_buffer :
      (m.free_headers fh).free_list ≡ null
      → (m.free_headers fh).remote_list ≡ null
      → bucket_size b ≤ room
      → Returns (Served env m l size) (do_malloc env size row m)
  from_buffer none_free none_back enough =
      let sz = ready.laid.sizes b b_small in
      let run =
        take_block-bumped env counts heap fh none_free none_back (rw (same_room, sz) enough)
          (rw same_room (omega (arith, ready.laid.space)))
          (rw same_start (omega (arith, place env m l ready row size fits enough))) in
      sealing start (bumped counts heap fh)
        (run ∙ ap (λ t. ok t (bumped counts heap fh)) same_start)
        (omega (arith, place env m l ready row size fits enough))
        (bump-Served env m l ready row size fits enough)

  -- There is a block: on the free list, on the remote list, or in the buffer.
  from_storage : HasStorage m size → Returns (Served env m l size) (do_malloc env size row m)
  from_storage storage = elim (ℕ_discrete ((m.free_headers fh).free_list) null) [
    | no some_free ↦ from_free some_free
    | yes none_free ↦ elim (ℕ_discrete ((m.free_headers fh).remote_list) null) [
      | no some_back ↦ from_remote none_free some_back
      | yes none_back ↦ elim storage [
        | inl free ↦ absurd (free none_free)
        | inr (inl back) ↦ absurd (back none_back)
        | inr (inr enough) ↦
            from_buffer none_free none_back (rw (ready.laid.sizes b b_small) at enough)
      ]
    ]
  ]

-- In the release build, a ready heap that has storage at hand serves a request below the mmap
-- threshold that fits the last bucket in use with its header: the answer is 16 bytes after a block
-- that was not in use and now is, in the smallest bucket that holds the size and a header, with the
-- size in the header. All other blocks are in use exactly as before, the user's bytes and the
-- settings are as before, and the heap is ready again.
pub do_malloc-Served :
    (env : Env) (m : Machine) (l : Layout) (row : Row) (size : ℕ)
    → env.debug ≡ false
    → IsReady m l
    → size < m.master.mmap_start
    → size + sizeof_storage ≤ bucket_size (m.master.max_buckets_used)
    → HasStorage m size
    → Returns (Served env m l size) (do_malloc env size row m)
do_malloc-Served env m l row size release ready small fits storage =
    from_storage env release m l ready row size small fits storage
