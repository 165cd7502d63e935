-- ===== src/Safety/Calloc.antt =====
-- `calloc` of a small size, in the release build.
use llheap.Prelude.{
  ℕ, ◌+◌, ◌*◌, ◌≤◌, ◌<◌, ◌≡◌, ◌≢◌, ◌⊎◌, ◌↔◌, ◌∙◌, ap, update, inl, inr, refl, false, arith, ne→==,
  update_self,
}
use llheap.Word.{word, mul64}
use llheap.Bucket.{sizeof_storage, bucket_size, bucket_size_le, bucket_size_last}
use llheap.Header.{header_addr, mmapped_bit, zero_fill_bit, mark_zero_filled_bit}
use llheap.Header.Bits.{and_four}
use llheap.Header.Sticky.{mark_zero_filled_bit_lem}
use llheap.Stats.{Row}
use llheap.Machine.{null, Env, Machine, Run}
use llheap.Machine.Outcome.{Returns, Returns-and_then, Ends, Returns-Ends, Ends-and_then}
use llheap.Memory.{fill_inside, fill_outside}
use llheap.Alloc.{do_malloc}
use llheap.Api.Basic.{calloc, zero_block}
use llheap.Arena.{Layout, user_space}
use llheap.Safety.State.{IsReady, IsLive, Served}
use llheap.Safety.Alike.{Alike-IsReady}
use llheap.Safety.Moving.{mark-Adjusts, written-Alike}
use llheap.Safety.Serve.{HasStorage}
use llheap.Safety.Clear.{IsHonest, HasClear}
use llheap.Safety.Settle.{IsRefused, do_malloc-Settles}
use llheap.Safety.Malloc.{do_malloc-Served}

-- A zeroed area of `size` bytes, in a block of its own that was not in use, whose header says that it
-- is zero filled and how large it is. All else is as it was on `m`, whose heap was laid out as `l`.
pub record IsZeroed (m : Machine) (l : Layout) (size addr : ℕ) (n : Machine) : Type 0 where
  pub some_area : addr ≢ null
  pub zeros : (i : ℕ) → i < size → n.bytes (addr + i) ≡ 0
  pub marked : zero_fill_bit (n.headers (header_addr addr)) ≡ 2
  pub recorded : (n.headers (header_addr addr)).word1 ≡ size
  pub bucket : ℕ
  pub layout : Layout
  pub ready : IsReady n layout
  pub was_idle : (b : ℕ) → ¬ (IsLive l (header_addr addr) b)
  pub now_live : IsLive layout (header_addr addr) bucket
  pub room : size + sizeof_storage ≤ bucket_size bucket
  pub others : (a b : ℕ) → a ≢ header_addr addr → IsLive l a b ↔ IsLive layout a b
  pub untouched : (x : ℕ) → (x < addr) ⊎ (addr + size ≤ x) → n.bytes x ≡ m.bytes x

module _ (env : Env) (release : env.debug ≡ false) (before m : Machine) (l : Layout) (size addr : ℕ)
    (s : Served env before l size addr m) where
  at_header : header_addr addr ≡ s.block
  at_header = omega (arith, s.address, s.ready.laid.known (s.block) (s.bucket) (s.now_live.0))

  word_small : (m.headers (s.block)).word0 < word
  word_small = omega (
    arith,
    s.home,
    s.ready.heap_space,
    (s.ready.laid.known (s.block) (s.bucket) (s.now_live.0)).0,
  )

  not_mapped : mmapped_bit (m.headers (s.block)) ≡ 0
  unfolding mmapped_bit
  not_mapped = omega (arith, s.home, s.ready.aligned, and_four (m.headers (s.block)).word0)

  abbrev marked : Machine
  marked = record m {
    headers = update (m.headers) (s.block) (mark_zero_filled_bit (m.headers (s.block)));
  }

  pub zero_block-IsZeroed :
      Returns (IsZeroed before l size) (zero_block env (header_addr addr) addr size m)
  unfolding zero_block mark_zero_filled_bit
  zero_block-IsZeroed =
      let mark = mark_zero_filled_bit_lem (m.headers (s.block)) word_small in
      rw (release, at_header, not_mapped)
        (record {
          some_area = omega (arith, s.address);
          zeros = λ i h. fill_inside addr size 0 (m.bytes) (addr + i) (omega arith) (omega arith);
          marked = rw (at_header, update_self (m.headers) (s.block) _) (mark.0);
          recorded = rw (at_header, update_self (m.headers) (s.block) _) (s.recorded);
          bucket = s.bucket;
          layout = s.layout;
          ready = Alike-IsReady marked _ (s.layout) (written-Alike (s.layout) marked _) (
              Alike-IsReady m marked (s.layout)
                (mark-Adjusts (s.layout) m (s.block) 0 0 (s.now_live.1)).alike (s.ready));
          was_idle = rw at_header (s.was_idle);
          now_live = rw at_header (s.now_live);
          room = s.best.fits;
          others = rw at_header (s.others);
          untouched = λ x out.
              fill_outside addr size 0 (m.bytes) x out ∙ ap (λ (f : ℕ → ℕ). f x) (s.contents);
        })

-- In the release build, `calloc` of a small product of sizes, on a ready heap whose bucket for it
-- has a block at hand, answers an area whose bytes are all zero, with a header that has the size and
-- is marked as zero filled.
pub calloc-IsZeroed :
    (env : Env) (m : Machine) (l : Layout) (dimension elem_size : ℕ)
    → env.debug ≡ false
    → IsReady m l
    → dimension * elem_size < m.master.mmap_start
    → dimension * elem_size + sizeof_storage ≤ bucket_size (m.master.max_buckets_used)
    → HasStorage m (dimension * elem_size)
    → Returns (IsZeroed m l (dimension * elem_size)) (calloc env dimension elem_size m)
unfolding calloc
calloc-IsZeroed env m l dimension elem_size release ready small fits storage =
    let exact : mul64 dimension elem_size ≡ dimension * elem_size = omega (
      arith,
      bucket_size_le (m.master.max_buckets_used) 63 (omega (arith, ready.limit)) (omega arith),
      bucket_size_last,
    ) in
    rw exact (
      Returns-and_then (IsZeroed m l (dimension * elem_size))
        (do_malloc env (dimension * elem_size) Row.calloc m) _
        (do_malloc-Served env m l Row.calloc (dimension * elem_size) release ready small fits
          storage)
        (λ addr n s.
          rw (ne→== addr null (omega (arith, s.address)))
            (zero_block-IsZeroed env release m n l (dimension * elem_size) addr s)))

abbrev pub AnsweredZeroed : Env → Machine → Layout → (size addr : ℕ) → Machine → Type 0
AnsweredZeroed env m l size addr n =
    ((addr ≡ null) × IsRefused env m l n) ⊎ IsZeroed m l size addr n

-- Zeroed memory, or null for lack of memory; or the run stops because of another error of `mmap`.
abbrev pub SettlesZeroed : Env → Machine → Layout → (size : ℕ) → Run ℕ → Type 0
SettlesZeroed env m l size = Ends (AnsweredZeroed env m l size)

-- In the release build, with a thread block below 2 ^ 63 bytes, on a system that hands out memory of
-- the process's address space and no byte twice: the heap is ready, the memory that the system hands
-- out later lies apart from it, and the extension lock is open. `calloc` of a product of sizes below
-- the mmap threshold, which fits the last bucket in use with its header, answers an area whose bytes
-- are all zero, with a header that has the size and is marked as zero filled, also when the storage
-- for it has to come from the system. The area lies in a block that was not in use and now is, which
-- has room for it; all other blocks are in use exactly as before, no byte outside the area has changed,
-- and the heap is ready with its zero-filled block. Or it answers null with `ENOMEM`, and the heap is as ready as
-- before; or the program is aborted, for another error of `mmap` than `ENOMEM`.
pub calloc-SettlesZeroed :
    (env : Env) (m : Machine) (l : Layout) (dimension elem_size : ℕ)
    → IsHonest env
    → env.malloc_thread_block < user_space
    → env.debug ≡ false
    → IsReady m l
    → HasClear env m l
    → m.master.ext_lock ≡ false
    → dimension * elem_size < m.master.mmap_start
    → dimension * elem_size + sizeof_storage ≤ bucket_size (m.master.max_buckets_used)
    → SettlesZeroed env m l (dimension * elem_size) (calloc env dimension elem_size m)
unfolding calloc
calloc-SettlesZeroed env m l dimension elem_size honest block release ready clear unlocked small
      fits =
    let size = dimension * elem_size in
    let exact : mul64 dimension elem_size ≡ dimension * elem_size = omega (
      arith,
      bucket_size_le (m.master.max_buckets_used) 63 (omega (arith, ready.limit)) (omega arith),
      bucket_size_last,
    ) in
    rw exact (
      Ends-and_then (AnsweredZeroed env m l size) (do_malloc env size Row.calloc m) _
        (do_malloc-Settles env honest block release m l ready clear unlocked Row.calloc size small
          fits)
        (λ addr n answer. elim answer [
          | inl (none, refused) ↦ rw none (inl (refl, refused))
          | inr s ↦ rw (ne→== addr null (omega (arith, s.address))) (
              Returns-Ends (AnsweredZeroed env m l size) _
                (zero_block-IsZeroed env release m n l size addr s) (λ a k p. inr p))
        ]))
