-- ===== src/Safety/Mapped.antt =====
-- A large size, in the release build: `doMalloc` maps it, and `doFree` gives the mapping back.
use llheap.Prelude.{
  ℕ, ◌+◌, ◌-◌, ◌*◌, ◌%◌, ◌^◌, ◌≤◌, ◌<◌, ◌≡◌, ◌≢◌, ◌∙◌, refl, ap, inl, inr, false, none, some, arith,
  bit_or, ◌==◌, ne→==, update, update_self, le→ltb,
}
use llheap.Prelude.Bits.{two_pow_add}
use llheap.Word.{word, add64, ceiling, ceiling_multiple}
use llheap.Bucket.{sizeof_storage}
use llheap.Header.{
  Header, alignment_bit, mmapped_bit, clear_sticky_bits, sticky_bits, mark_mmapped_bit, header_addr,
}
use llheap.Header.Bits.{and_seven, or_four}
use llheap.Header.Sticky.{mark_mmapped_bit_lem}
use llheap.Stats.{Row, count_request, count_alloc, count_sizes, count_free}
use llheap.Machine.{null, Env, mapped, Machine, ok}
use llheap.Machine.Outcome.{Returns}
use llheap.Os.{mmap, munmap}
use llheap.Master.{boot_heap_manager}
use llheap.Alloc.{do_malloc, large_block, scrub_new, finish_block}
use llheap.Free.{do_free, headers, locate_sticky, fake_header, unmap_block}
use llheap.Arena.{Layout}
use llheap.Arena.Cut.{bucket_size_pos}
use llheap.Safety.State.{IsReady}
use llheap.Safety.Clear.{HasClear}
use llheap.Safety.Alike.{Alike, Alike-IsReady, Alike-HasClear}

-- The machine after a request of `size` bytes was mapped at `a`, in `tsize` bytes.
abbrev pub placed : Machine → Row → (size tsize a : ℕ) → Machine
placed m row size tsize a =
    let heap = m.heap_manager in
    let h0 = m.heaps in
    let h1 =
      update h0 heap (record (h0 heap) { stats = count_request row size ((h0 heap).stats) }) in
    let h2 =
      update h1 heap (record (h1 heap) { stats = count_alloc row tsize ((h1 heap).stats) }) in
    let h3 =
      update h2 heap
        (record (h2 heap) { stats = count_sizes Row.mmap size tsize ((h2 heap).stats) }) in
    let g1 = update (m.headers) a (record (m.headers a) { word0 = mark_mmapped_bit tsize }) in
    record m {
      heaps = h3;
      headers = update g1 a (record (g1 a) { word1 = size });
      os_calls = m.os_calls + 1;
    }

-- The machine after such a mapping was given back.
abbrev pub unplaced : Machine → (size tsize : ℕ) → Machine
unplaced m size tsize =
    let heap = m.heap_manager in
    let h0 = m.heaps in
    let h1 =
      update h0 heap (record (h0 heap) { stats = count_free size tsize ((h0 heap).stats) }) in
    record m {
      heaps =
          update h1 heap
            (record (h1 heap) { stats = count_sizes Row.munmap size tsize ((h1 heap).stats) });
      os_calls = m.os_calls + 1;
    }

sticky_mapped :
    (size word1 : ℕ)
    → size % 8 ≡ 0
    → sticky_bits (record { word0 = mark_mmapped_bit size; word1 = word1 }) ≡ 4
unfolding sticky_bits mark_mmapped_bit
sticky_mapped size word1 whole = omega (arith, or_four size, and_seven (bit_or size 4), whole)

mul-mod_eight : (m k : ℕ) → 3 ≤ k → m * 2 ^ k % 8 ≡ 0
mul-mod_eight m k h =
    let split : 2 ^ k ≡ 2 ^ (k - 3) * 2 ^ 3 =
      ap (λ (i : ℕ). 2 ^ i) (omega arith) ∙ two_pow_add 3 (k - 3) in
    rw split (eight (2 ^ (k - 3)))
  where
    eight : (p : ℕ) → m * (p * 2 ^ 3) % 8 ≡ 0
    eight p = grind arith

module _ (env : Env) (release : env.debug ≡ false) (m : Machine) (row : Row) (size k a : ℕ)
    (booted : 1 < m.heap_manager) (large : m.master.mmap_start ≤ size)
    (page : m.master.page_size ≡ 2 ^ k) (least : 3 ≤ k) (most : k < 64)
    (fits : size + sizeof_storage + 2 ^ k < word) where
  abbrev tsize : ℕ
  tsize = ceiling (add64 size sizeof_storage) (m.master.page_size)

  whole :
      (size + sizeof_storage ≤ tsize) × (tsize < size + sizeof_storage + 2 ^ k) × (tsize % 8 ≡ 0)
  whole =
      let exact : add64 size sizeof_storage ≡ size + sizeof_storage = omega (arith, fits) in
      let (n, e, low, high) =
        ceiling_multiple k (size + sizeof_storage) most (omega (arith, fits)) in
      rw (page, exact) (low, high, rw e (mul-mod_eight n k least))

  module _ (got : env.mmap (m.os_calls) 0 tsize ≡ mapped a) (place : 0 < a)
      (top : a + sizeof_storage < word) where
    abbrev n : Machine
    n = placed m row size tsize a

    do_malloc-placed : do_malloc env size row m ≡ ok (a + sizeof_storage) n
    unfolding do_malloc boot_heap_manager large_block mmap scrub_new finish_block
    do_malloc-placed =
        let addr : add64 a sizeof_storage ≡ a + sizeof_storage = omega (arith, top) in
        rw
          (
            ne→== (m.heap_manager) 1 (omega (arith, booted)),
            release,
            le→ltb size (m.master.mmap_start) large,
            got,
            release,
            ne→== a null (omega (arith, place)),
            addr,
          )
          refl

    head : n.headers a ≡ record { word0 = mark_mmapped_bit tsize; word1 = size }
    head = simp update_self

    at_header : header_addr (a + sizeof_storage) ≡ a
    at_header = omega (arith, top)

    bits :
        let h : Header = record { word0 = mark_mmapped_bit tsize; word1 = size } in
        ((sticky_bits h == 0) ≡ false)
        × (alignment_bit h ≡ 0)
        × ((mmapped_bit h == 0) ≡ false)
        × (clear_sticky_bits (mark_mmapped_bit tsize) ≡ tsize)
    bits =
        let (is_mapped, is_real, _, exact) =
          mark_mmapped_bit_lem tsize size (omega (arith, whole, fits)) (whole.2) in
        (rw (sticky_mapped tsize size (whole.2)) refl, is_real, rw is_mapped refl, exact)

    do_free-placed :
        env.munmap (m.os_calls + 1) a tsize ≡ none
        → do_free env (a + sizeof_storage) n ≡ ok tt (unplaced n size tsize)
    unfolding do_free boot_heap_manager headers locate_sticky fake_header unmap_block munmap
    do_free-placed back =
        let (sticky, is_real, is_mapped, exact) = bits in
        rw
          (
            ne→== (m.heap_manager) 1 (omega (arith, booted)),
            release,
            at_header,
            head,
            sticky,
            head,
            is_real,
            head,
            is_mapped,
            exact,
            back,
            exact,
          )
          (ap (λ (x : ℕ). ok tt (unplaced n x tsize)) (ap (λ (h : Header). h.word1) head))

-- What a thread with heap `l` keeps while it uses a mapping.
pub record Besides (env : Env) (m : Machine) (l : Layout) (n : Machine) : Type 0 where
  pub ready : IsReady n l
  pub clear : HasClear env n l
  pub buckets : n.free_headers ≡ m.free_headers
  pub master : n.master ≡ m.master
  pub bytes : n.bytes ≡ m.bytes

module _ (env : Env) (release : env.debug ≡ false) (m : Machine) (l : Layout) (ready : IsReady m l)
    (clear : HasClear env m l) (row : Row) (size k a : ℕ) (large : m.master.mmap_start ≤ size)
    (page : m.master.page_size ≡ 2 ^ k) (least : 3 ≤ k) (most : k < 64)
    (fits : size + sizeof_storage + 2 ^ k < word)
    (got : env.mmap (m.os_calls) 0 (ceiling (add64 size sizeof_storage) (m.master.page_size))
      ≡ mapped a)
    (place : 0 < a) (top : a + sizeof_storage < word) where
  abbrev mapping : ℕ
  mapping = ceiling (add64 size sizeof_storage) (m.master.page_size)

  abbrev used : Machine
  used = placed m row size mapping a

  room :
      (size + sizeof_storage ≤ mapping)
      × (mapping < size + sizeof_storage + 2 ^ k)
      × (mapping % 8 ≡ 0)
  room = whole env release m row size k a (ready.booted) large page least most fits

  -- The mapping is no block of the heap.
  outside : (c d : ℕ) → l.blocks c ≡ some d → c ≢ a
  outside c d at e =
      let small = (ready.laid.known c d at).0 in
      elim (clear.blocks (m.os_calls) 0 mapping a c d (omega arith) got at) [
        | inl before ↦ omega (arith, before, e, bucket_size_pos d small)
        | inr after ↦ omega (arith, after, e, room)
      ]

  used-Alike : Alike l m used
  unfolding update
  used-Alike = record {
    manager = refl;
    table = refl;
    master = refl;
    calls = omega arith;
    start = ground arith;
    room = ground arith;
    buckets = refl;
    links = λ c d at. let ne = outside c d at in inl (ground arith);
  }

  unused-Alike : Alike l used (unplaced used size mapping)
  unfolding update
  unused-Alike = record {
    manager = refl;
    table = refl;
    master = refl;
    calls = omega arith;
    start = ground arith;
    room = ground arith;
    buckets = refl;
    links = λ c d at. inl refl;
  }

  used-Besides : Besides env m l used
  used-Besides = record {
    ready = Alike-IsReady m used l used-Alike ready;
    clear = Alike-HasClear m used l used-Alike env clear;
    buckets = refl;
    master = refl;
    bytes = refl;
  }

  -- In the release build, on a machine with a ready heap, from which the memory that the system hands
  -- out later lies apart, and with pages of 2 ^ k bytes, k from 3 to 63: a request at or above the mmap
  -- threshold, that with its header and a page stays below 2 ^ 64, asks the system for a whole number
  -- of pages. If the system maps them at `a`, the answer is 16 bytes after it, the mapping holds the
  -- size and a header, and is less than a page longer. A free of this address then gives exactly
  -- this mapping back, if the system takes it. Before and after the free, the heap is ready, with the
  -- same blocks in use, and its free lists, the settings and the user's bytes are as before.
  pub do_free-do_malloc :
      env.munmap (m.os_calls + 1) a mapping ≡ none
      → Returns
          (λ addr n.
            (addr ≡ a + sizeof_storage)
            × (size + sizeof_storage ≤ mapping)
            × (mapping < size + sizeof_storage + m.master.page_size)
            × Besides env m l n
            × Returns
                (λ _ e. Besides env m l e × (e.os_calls ≡ m.os_calls + 2))
                (do_free env addr n))
          (do_malloc env size row m)
  do_free-do_malloc back =
      rw
        (
          do_malloc-placed env release m row size k a (ready.booted) large page least most fits got
              place top,
          do_free-placed env release m row size k a (ready.booted) large page least most fits got
              place top back,
        )
        (
          refl,
          room.0,
          omega (arith, room, page),
          used-Besides,
          (
            record {
              ready = Alike-IsReady used _ l unused-Alike (used-Besides.ready);
              clear = Alike-HasClear used _ l unused-Alike env (used-Besides.clear);
              buckets = refl;
              master = refl;
              bytes = refl;
            },
            omega arith,
          ),
        )
