-- ===== src/Stats.antt =====
-- llheap.cc, "Heap Statistics": `HeapStatistics`, its constructor and `operator+=`.
-- The union of named counters with the array `counters` is the array: each row has the four
-- fields that its named members overlay.
pub mod Add
use llheap.Prelude.{
  ℕ, zero, suc, ◌+◌, ◌-◌, ◌<◌, ◌≡◌, refl, ltb, ◌==◌, if◌then◌else◌, update, update_self, update_ne,
}
use llheap.Prelude.{arith, Bool-cases, inl, inr, ltb→lt, ltb→le, ◌∙◌, ap}
use llheap.Word.{add64}

-- `CntTriples`.
abbrev pub cnt_triples : ℕ
cnt_triples = 18

-- The enumeration in `HeapStatistics`, then the rows that have named members only.
pub data Row : Type 0 where
  malloc aalloc calloc resize realloc reallocx memalign amemalign cmemalign : Row
  aligned_alloc posix_memalign valloc aligned_resize aligned_realloc free : Row
  remote mmap munmap : Row

unfoldable pub row_index : Row → ℕ
row_index Row.malloc = 0
row_index Row.aalloc = 1
row_index Row.calloc = 2
row_index Row.resize = 3
row_index Row.realloc = 4
row_index Row.reallocx = 5
row_index Row.memalign = 6
row_index Row.amemalign = 7
row_index Row.cmemalign = 8
row_index Row.aligned_alloc = 9
row_index Row.posix_memalign = 10
row_index Row.valloc = 11
row_index Row.aligned_resize = 12
row_index Row.aligned_realloc = 13
row_index Row.free = 14
row_index Row.remote = 15
row_index Row.mmap = 16
row_index Row.munmap = 17

-- One row, by the names of the overlay for iteration.
pub record Counters : Type 0 where
  pub calls : ℕ
  pub calls_0 : ℕ
  pub request : ℕ
  pub alloc : ℕ

abbrev pub HeapStatistics : Type 0
HeapStatistics = ℕ → Counters

abbrev pub no_counters : Counters
no_counters = record { calls = 0; calls_0 = 0; request = 0; alloc = 0 }

-- `HeapStatisticsCtor`: all bytes zero.
abbrev pub heap_statistics_ctor : HeapStatistics
heap_statistics_ctor = λ i. no_counters

abbrev pub add_counters : Counters → Counters → Counters
add_counters l r = record {
  calls = add64 l.calls r.calls;
  calls_0 = add64 l.calls_0 r.calls_0;
  request = add64 l.request r.request;
  alloc = add64 l.alloc r.alloc;
}

-- The loop of `operator+=`, with `n` rounds left.
unfoldable pub add_rows : (n i : ℕ) → HeapStatistics → HeapStatistics → HeapStatistics
add_rows zero i lhs rhs = lhs
add_rows (suc n) i lhs rhs = add_rows n (i + 1) (update lhs i (add_counters (lhs i) (rhs i))) rhs

-- `lhs += rhs`
unfoldable pub add_stats : HeapStatistics → HeapStatistics → HeapStatistics
unfolding add_rows
add_stats lhs rhs = add_rows cnt_triples 0 lhs rhs

-- The count of a request in `doMalloc`: calls for size 0 are counted apart.
unfoldable pub count_request : Row → ℕ → HeapStatistics → HeapStatistics
count_request row size stats =
    let i = row_index row in
    let c = stats i in
    update stats i (
      if size == 0
      then record c { calls_0 = add64 c.calls_0 1 }
      else record c { calls = add64 c.calls 1; request = add64 c.request size })

unfoldable pub count_alloc : Row → ℕ → HeapStatistics → HeapStatistics
count_alloc row size stats =
    let i = row_index row in
    let c = stats i in update stats i (record c { alloc = add64 c.alloc size })

unfoldable pub count_calls : Row → HeapStatistics → HeapStatistics
count_calls row stats =
    let i = row_index row in
    let c = stats i in update stats i (record c { calls = add64 c.calls 1 })

unfoldable pub count_calls_0 : Row → HeapStatistics → HeapStatistics
count_calls_0 row stats =
    let i = row_index row in
    let c = stats i in update stats i (record c { calls_0 = add64 c.calls_0 1 })

-- One more call with its sizes, as the rows `remote`, `mmap` and `munmap` count.
unfoldable pub count_sizes : Row → (size tsize : ℕ) → HeapStatistics → HeapStatistics
count_sizes row size tsize stats =
    let i = row_index row in
    let c = stats i in
    update stats i (record c {
      calls = add64 c.calls 1;
      request = add64 c.request size;
      alloc = add64 c.alloc tsize;
    })

-- The counts of `doFree`: a size 0 is counted with the frees of null.
unfoldable pub count_free : (size tsize : ℕ) → HeapStatistics → HeapStatistics
count_free size tsize stats =
    let i = row_index Row.free in
    let c = stats i in
    update stats i (record {
      calls = if size == 0 then c.calls else add64 c.calls 1;
      calls_0 = if size == 0 then add64 c.calls_0 1 else c.calls_0;
      request = add64 c.request size;
      alloc = add64 c.alloc tsize;
    })

-- One more in the third or the fourth field of a row, by which `realloc` counts the cases of
-- its row `reallocx`.
unfoldable pub count_request_1 : Row → HeapStatistics → HeapStatistics
count_request_1 row stats =
    let i = row_index row in
    let c = stats i in update stats i (record c { request = add64 c.request 1 })

unfoldable pub count_alloc_1 : Row → HeapStatistics → HeapStatistics
count_alloc_1 row stats =
    let i = row_index row in
    let c = stats i in update stats i (record c { alloc = add64 c.alloc 1 })
