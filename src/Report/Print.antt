-- ===== src/Report/Print.antt =====
-- llheap.cc: what `printStats` writes, as a list of lines with their numbers. The text of the
-- lines, and the count of bytes that is returned, are not modelled.
use mathlib.Core.Option.{map}
use llheap.Prelude.{
  ==_iff, ◌*◌, ℕ, zero, suc, ◌+◌, ◌-◌, ◌%◌, ◌<◌, ◌≡◌, ap, ◌∙◌, arith, Option, none, some, List, [],
  ◌∷◌, ◌++◌, ◌==◌, if◌then◌else◌, Bool-cases, inl, inr,
}
use llheap.Word.{word, add64, mul64}
use llheap.Bucket.{no_bucket_sizes}
use llheap.Stats.{HeapStatistics, cnt_triples, heap_statistics_ctor}
use llheap.Machine.{Env, Machine, FreeHeader, Cmd, ◌>>=◌, gets, free_header_addr}
use llheap.Report.{collect_stats}

-- One written line. A row has its number in `prtfmt1` or `prtfmt2`.
pub data Line : Type 0 where
  title bucket_title line_end : Line
  row_4 : (row calls calls_0 request alloc : ℕ) → Line
  row_3 : (row calls request alloc : ℕ) → Line
  blocks : (contig noncontig fragstorage : ℕ) → Line
  sbrk : (calls storage : ℕ) → Line
  threads : (started exited : ℕ) → Line
  heaps : (new reused : ℕ) → Line
  heap_number : ℕ → Line
  bucket : (block_size allocations reuses : ℕ) → Line
  subtotal_storage unfreed_storage total_storage : ℕ → Line

-- `boundary`: the rows from there on have three fields.
abbrev pub boundary : ℕ
boundary = cnt_triples - 2

-- The loop over the rows of four fields, with `n` rounds left.
unfoldable pub rows_4 : (n i : ℕ) → HeapStatistics → List Line
rows_4 zero i stats = []
rows_4 (suc n) i stats =
    let c = stats i in
    let rest = rows_4 n (i + 1) stats in
    if c.calls == 0 then rest else row_4 i c.calls c.calls_0 c.request c.alloc ∷ rest

-- The loop over the rows of three fields.
unfoldable pub rows_3 : (n i : ℕ) → HeapStatistics → List Line
rows_3 zero i stats = []
rows_3 (suc n) i stats =
    let c = stats i in
    let rest = rows_3 n (i + 1) stats in
    if c.calls == 0 then rest else row_3 (i - boundary) c.calls c.request c.alloc ∷ rest

-- The loop over the buckets of a heap, with `c` buckets written: eight to a line.
unfoldable pub bucket_lines : (n b c heap : ℕ) → (ℕ → FreeHeader) → List Line
bucket_lines zero b c heap mem = []
bucket_lines (suc n) b c heap mem =
    let f = mem (free_header_addr heap b) in
    let unused = f.allocations == 0 in
    let rest = bucket_lines n (b + 1) (if unused then c else c + 1) heap mem in
    if unused
    then rest
    else bucket f.block_size f.allocations f.reuses
      ∷ (if (c + 1) % 8 == 0 then line_end ∷ rest else rest)

-- `subtotal` after that loop.
unfoldable pub bucket_subtotal : (n b heap : ℕ) → (ℕ → FreeHeader) → (subtotal : ℕ) → ℕ
bucket_subtotal zero b heap mem subtotal = subtotal
bucket_subtotal (suc n) b heap mem subtotal =
    let f = mem (free_header_addr heap b) in
    bucket_subtotal n (b + 1) heap mem
      (if f.allocations == 0 then subtotal else add64 subtotal (mul64 f.block_size f.allocations))

-- The loop over the heaps from `p`, the `th`-th, and the line after it.
unfoldable pub heap_lines : Env → (fuel p th total : ℕ) → Machine → Option (List Line)
unfolding bucket_lines bucket_subtotal
heap_lines env fuel zero th total m = some (total_storage total ∷ [])
heap_lines env zero (suc p) th total m = none
heap_lines env (suc fuel) (suc p) th total m =
    let heap = m.heaps (suc p) in
    let subtotal = bucket_subtotal no_bucket_sizes 0 (suc p) (m.free_headers) 0 in
    let rest = heap_lines env fuel heap.next_heap_manager (th + 1) (add64 total subtotal) m in
    map
      (λ lines.
        (heap_number th ∷ bucket_lines no_bucket_sizes 0 0 (suc p) (m.free_headers))
        ++ (subtotal_storage subtotal
            ∷ (if env.debug then unfreed_storage heap.alloc_unfreed ∷ [] else []))
        ++ (line_end ∷ lines))
      rest

-- `printStats`
unfoldable pub print_stats : Env → (fuel : ℕ) → HeapStatistics → Machine → Option (List Line)
unfolding rows_4 rows_3 heap_lines
print_stats env fuel stats m =
    let g = m.master in
    let head =
      (title ∷ rows_4 boundary 0 stats)
      ++ rows_3 2 boundary stats
      ++ (blocks g.blk_contig g.blk_noncontig g.blk_fragstorage
          ∷ sbrk g.sbrk_calls g.sbrk_storage
          ∷ threads g.threads_started g.threads_exited
          ∷ heaps g.heap_new g.heap_reused
          ∷ []) in
    if m.print_buckets
    then map (λ lines. head ++ (bucket_title ∷ lines))
        (heap_lines env fuel g.heap_managers_list 0 0 m)
    else some head

-- `malloc_stats`
unfoldable pub malloc_stats : Env → (fuel : ℕ) → Cmd (Option (List Line))
malloc_stats env fuel = do
  stats ← collect_stats fuel heap_statistics_ctor
  gets (λ m. elim stats [ none ↦ none | some s ↦ print_stats env fuel s m ])

-- `heap_stats`: the counters of the running thread's heap.
unfoldable pub heap_stats : Env → (fuel : ℕ) → Cmd (Option (List Line))
heap_stats env fuel = gets (λ m. print_stats env fuel ((m.heaps (m.heap_manager)).stats) m)

-- The sum over `n` buckets from `b` of all bytes allocated from them.
abbrev pub sum_storage : (n b heap : ℕ) → (ℕ → FreeHeader) → ℕ
sum_storage zero b heap mem = 0
sum_storage (suc n) b heap mem =
    let f = mem (free_header_addr heap b) in
    f.block_size * f.allocations + sum_storage n (b + 1) heap mem

-- The subtotal that `printStats` writes for a heap, although it passes over unused buckets, is the
-- sum over all buckets of size times allocations, modulo 2 ^ 64.
pub bucket_subtotal-sum_storage :
    (n b heap : ℕ) (mem : ℕ → FreeHeader) (subtotal : ℕ)
    → subtotal < word
    → bucket_subtotal n b heap mem subtotal ≡ (subtotal + sum_storage n b heap mem) % word
unfolding bucket_subtotal
bucket_subtotal-sum_storage zero b heap mem subtotal h = omega arith
bucket_subtotal-sum_storage (suc n) b heap mem subtotal h =
    let f = mem (free_header_addr heap b) in
    elim (Bool-cases (f.allocations == 0)) [
      | inl unused ↦
          let none_left : f.allocations ≡ 0 = (==_iff (f.allocations) 0).0 unused in
          let same : sum_storage n (b + 1) heap mem
              ≡ f.block_size * 0 + sum_storage n (b + 1) heap mem =
            omega arith in
          rw (unused, none_left)
            (bucket_subtotal-sum_storage n (b + 1) heap mem subtotal h
              ∙ ap (λ t. (subtotal + t) % word) same)
      | inr used ↦
          rw used (bucket_subtotal-sum_storage n (b + 1) heap mem _ (omega arith) ∙ omega arith)
    ]
