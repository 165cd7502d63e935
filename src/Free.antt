-- ===== src/Free.antt =====
-- llheap.cc: `fakeHeader` and `headers`, which find the real header of an allocation, and `doFree`.
use llheap.Prelude.{
  ℕ, ◌+◌, ◌-◌, ◌*◌, Bool, true, false, not, ◌&&◌, ◌||◌, ltb, leb, ◌==◌, if◌then◌else◌,
}
use llheap.Word.{add64, sub64, pow2}
use llheap.Bucket.{sizeof_storage, align, no_bucket_sizes}
use llheap.Header.{
  sticky_bits, clear_sticky_bits, alignment_bit, clear_alignment_bit, mmapped_bit, header_addr,
  real_header,
}
use llheap.Stats.{Row, count_free, count_sizes}
use llheap.Machine.{
  null, Env, Machine, corrupted_header, unmap_error, Cmd, pure, ◌>>=◌, ◌>>◌, fail, gets, require,
  when, on_heap, on_free_header, on_header, on_stats, sizeof_free_header,
}
use llheap.Os.{munmap}
use llheap.Master.{boot_heap_manager}
use llheap.Memory.{memset}
use llheap.Alloc.{scrub}

-- A header found from a user address, with the alignment of the allocation.
pub record Found : Type 0 where
  pub header : ℕ
  pub alignment : ℕ

-- `fakeHeader`
unfoldable pub fake_header : Machine → (header : ℕ) → Found
fake_header m header =
    let h = m.headers header in
    if alignment_bit h == 0
    then record { header = header; alignment = align }
    else record { header = real_header header h; alignment = clear_alignment_bit h }

-- What `headers` finds. `free_head` is null for a mapping, and `size` is its length then, else
-- the size of the bucket.
pub record Location : Type 0 where
  pub mapped : Bool
  pub header : ℕ
  pub free_head : ℕ
  pub size : ℕ
  pub alignment : ℕ

-- The checks that `headers` makes in the debug build before it follows `free_head`.
unfoldable pub corrupted : Machine → (header free_head : ℕ) → Bool
corrupted m header free_head =
    (free_head == null)
    || ((m.heap_manager == (m.free_headers free_head).home_manager)
        && (ltb free_head (m.heap_manager)
            || leb (m.heap_manager + sizeof_free_header * no_bucket_sizes) free_head))
    || ltb (m.free_headers free_head).block_size (m.headers header).word1

-- The end of `headers`, for an allocation from a bucket.
unfoldable pub locate_bucket : Env → (addr header free_head alignment : ℕ) → Cmd Location
locate_bucket env addr header free_head alignment = do
  bad ← gets (λ m. corrupted m header free_head)
  when (env.debug && bad) (fail (corrupted_header addr))
  size ← gets (λ m. (m.free_headers free_head).block_size)
  pure (record {
    mapped = false;
    header = header;
    free_head = free_head;
    size = size;
    alignment = alignment;
  })

-- `headers`, when the header before the address has sticky bits.
unfoldable pub locate_sticky : Env → (addr : ℕ) → Cmd Location
unfolding fake_header locate_bucket
locate_sticky env addr = do
  found ← gets (λ m. fake_header m (header_addr addr))
  when (env.debug && (ltb found.alignment align || not (pow2 found.alignment)))
      (fail (corrupted_header addr))
  h ← gets (λ m. m.headers found.header)
  g ← gets (λ m. m.master)
  if mmapped_bit h == 0
      then locate_bucket env addr found.header (clear_sticky_bits h.word0) found.alignment
      else (do
        when env.debug (require (ltb addr g.sbrk_start || ltb g.sbrk_end addr))
        pure (record {
          mapped = true;
          header = found.header;
          free_head = null;
          size = clear_sticky_bits h.word0;
          alignment = found.alignment;
        }))

-- `headers`
unfoldable pub headers : Env → (addr : ℕ) → Cmd Location
unfolding locate_sticky
headers env addr = do
  h ← gets (λ m. m.headers (header_addr addr))
  if sticky_bits h == 0
      then locate_bucket env addr (header_addr addr) h.word0 align
      else locate_sticky env addr

-- The scrub of freed memory in the debug build: all of a short block, else its two ends.
unfoldable pub scrub_old : Env → (header tsize : ℕ) → Cmd (Unit {0})
scrub_old env header tsize = when env.debug (do
  n ← gets (λ m. m.scrub_size)
  let start = add64 header sizeof_storage
  let dsize = tsize - sizeof_storage
  when (not (n == 0)) (
      if leb dsize (n * 2)
      then memset start scrub dsize
      else memset start scrub n >> memset (start + dsize - n) scrub n))

-- A block of this thread's heap: pushed on the bucket's free list.
unfoldable pub push_local : (header free_head : ℕ) → Cmd (Unit {0})
push_local header free_head = do
  top ← gets (λ m. (m.free_headers free_head).free_list)
  on_header header (λ h. record h { word0 = top })
  on_free_header free_head (λ f. record f { free_list = header })

-- A block of another thread's heap: pushed on the remote list of its bucket. With no other thread
-- running the compare-and-swap loop passes at once.
unfoldable pub push_remote : Env → (heap header free_head size tsize : ℕ) → Cmd (Unit {0})
push_remote env heap header free_head size tsize = do
  top ← gets (λ m. (m.free_headers free_head).remote_list)
  on_header header (λ h. record h { word0 = top })
  on_free_header free_head (λ f. record f { remote_list = header })
  when env.debug (require (not (heap == null)))
  on_stats heap (count_sizes Row.remote size tsize)

-- A mapping goes back to the system.
unfoldable pub unmap_block : Env → (heap addr header size tsize : ℕ) → Cmd (Unit {0})
unmap_block env heap addr header size tsize = do
  on_stats heap (count_sizes Row.munmap size tsize)
  done ← munmap env header tsize
  when (not done) (fail (unmap_error addr tsize))

-- `doFree`
unfoldable pub do_free : Env → (addr : ℕ) → Cmd (Unit {0})
unfolding headers scrub_old push_local push_remote unmap_block
do_free env addr = do
  boot_heap_manager env
  when env.debug (require (not (addr == null)))
  heap ← gets (λ m. m.heap_manager)
  at ← headers env addr
  size ← gets (λ m. (m.headers at.header).word1)
  when env.debug (on_heap heap (λ h. record h { alloc_unfreed = sub64 (h.alloc_unfreed) size }))
  on_stats heap (count_free size at.size)
  if at.mapped then unmap_block env heap addr at.header size at.size else (do
    when env.debug (require (not (at.free_head == null)))
    scrub_old env at.header at.size
    home ← gets (λ m. (m.free_headers at.free_head).home_manager)
    if heap == home
        then push_local at.header at.free_head
        else push_remote env heap at.header at.free_head size at.size)
