-- ===== src/Api/Query.antt =====
-- llheap.cc: what a program can ask of an allocation, and the controls of the allocator.
use llheap.Prelude.{
  ℕ, ◌-◌, ◌*◌, Option, none, some, Bool, true, false, not, ◌||◌, leb, ltb, ◌==◌, if◌then◌else◌,
}
use llheap.Word.{ceiling}
use llheap.Bucket.{align, no_bucket_sizes, bucket_sizes, bucket_size, bsearchl}
use llheap.Header.{
  clear_sticky_bits, alignment_bit, clear_alignment_bit, zero_fill_bit, header_addr, real_header,
  data_size,
}
use llheap.Machine.{
  null, Env, Machine, Cmd, pure, ◌>>=◌, ◌>>◌, gets, modify, require, when, on_master, on_header,
}
use llheap.Free.{headers}

-- The real header of an allocation, as the queries find it.
unfoldable pub query_header : Machine → (addr : ℕ) → ℕ
query_header m addr =
    let at = header_addr addr in
    let h = m.headers at in if alignment_bit h == 0 then at else real_header at h

unfoldable pub malloc_request_size : (addr : ℕ) → Cmd ℕ
unfolding query_header
malloc_request_size addr =
    if addr == null then pure 0 else gets (λ m. (m.headers (query_header m addr)).word1)

unfoldable pub malloc_alignment : (addr : ℕ) → Cmd ℕ
malloc_alignment addr =
    if addr == null
    then pure align
    else gets (λ m.
      let h = m.headers (header_addr addr) in
      if alignment_bit h == 0 then align else clear_alignment_bit h)

unfoldable pub malloc_zero_fill : (addr : ℕ) → Cmd Bool
unfolding query_header
malloc_zero_fill addr =
    if addr == null
    then pure false
    else gets (λ m. not (zero_fill_bit (m.headers (query_header m addr)) == 0))

unfoldable pub malloc_remote : (addr : ℕ) → Cmd Bool
unfolding query_header
malloc_remote addr =
    if addr == null
    then pure false
    else gets (λ m.
      m.heap_manager
      == (m.free_headers (clear_sticky_bits (m.headers (query_header m addr)).word0)).home_manager)

unfoldable pub malloc_usable_size : Env → (addr : ℕ) → Cmd ℕ
malloc_usable_size env addr = if addr == null then pure 0 else (do
  at ← headers env addr
  let dsize = data_size at.size addr at.header
  on_header at.header (λ h. record h { word1 = dsize })
  pure dsize)

-- `setMmapStart`
unfoldable pub set_mmap_start : Env → (value : ℕ) → Cmd Bool
set_mmap_start env value = do
  g ← gets (λ m. m.master)
  if ltb value g.page_size || ltb (bucket_size (no_bucket_sizes - 1)) value
      then pure false
      else (let used = bsearchl value bucket_sizes no_bucket_sizes in
          do
            on_master (λ g. record g { mmap_start = value; max_buckets_used = used })
            when env.debug (require (ltb used no_bucket_sizes))
            when env.debug (require (leb value (bucket_size used)))
            pure true)

-- The options of `mallopt`; any other is unsupported.
pub data Mallopt : Type 0 where
  top_pad mmap_threshold other : Mallopt

-- `mallopt`. A negative value is `none`.
unfoldable pub mallopt : Env → Mallopt → Option ℕ → Cmd ℕ
unfolding set_mmap_start
mallopt env option none = pure 0
mallopt env Mallopt.top_pad (some value) = do
  page ← gets (λ m. m.master.page_size)
  on_master (λ g. record g { sbrk_extend = ceiling value page })
  require (leb (256 * 1024) (ceiling value page))
  pure 1
mallopt env Mallopt.mmap_threshold (some value) = do
  done ← set_mmap_start env value
  pure (if done then 1 else 0)
mallopt env Mallopt.other (some value) = pure 0

-- `malloc_stats_all`
unfoldable pub malloc_stats_all : Bool → Cmd Bool
malloc_stats_all state = do
  prev ← gets (λ m. m.print_buckets)
  modify (λ m. record m { print_buckets = state })
  pure prev

-- `malloc_stats_fd`
unfoldable pub malloc_stats_fd : ℕ → Cmd ℕ
malloc_stats_fd fd = do
  temp ← gets (λ m. m.master.stats_fd)
  on_master (λ g. record g { stats_fd = fd })
  pure temp

-- `malloc_trim`, `malloc_get_state` and `malloc_set_state` do nothing.
unfoldable pub malloc_trim : (pad : ℕ) → Cmd ℕ
malloc_trim pad = pure 0

unfoldable pub malloc_get_state : Cmd ℕ
malloc_get_state = pure null

unfoldable pub malloc_set_state : (state : ℕ) → Cmd ℕ
malloc_set_state state = pure 0
