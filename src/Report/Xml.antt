-- ===== src/Report/Xml.antt =====
-- llheap.cc: what `printStatsXML` and `malloc_info` write, as a list of lines with their numbers.
use mathlib.Core.Path.{subst}
use mathlib.Core.Option.{some-injective}
use llheap.Prelude.{
  ℕ, zero, suc, ◌+◌, ◌-◌, ◌≡◌, ◌≢◌, refl, sym, ◌⊎◌, inl, inr, false, none, some, List, [], ◌∷◌,
  ◌++◌, ◌==◌, not, if◌then◌else◌, Bool-cases,
}
use llheap.Stats.{Row, row_index, HeapStatistics, heap_statistics_ctor}
use llheap.Machine.{Env, Machine, Cmd, pure, ◌>>=◌, ◌>>◌, gets, set_errno, einval}
use llheap.Report.{collect_stats}
use llheap.Report.Print.{
  Line, title, row_4, row_3, blocks, sbrk, threads, heaps, boundary, rows_4, rows_3, print_stats,
}

-- A row of the counters, also one that is zero.
abbrev xml_4 : HeapStatistics → Row → Line
xml_4 stats r =
    let c = stats (row_index r) in row_4 (row_index r) c.calls c.calls_0 c.request c.alloc

abbrev xml_3 : HeapStatistics → Row → Line
xml_3 stats r =
    let c = stats (row_index r) in row_3 (row_index r - boundary) c.calls c.request c.alloc

-- `printStatsXML`
unfoldable pub print_stats_xml : HeapStatistics → Machine → List Line
unfolding row_index
print_stats_xml stats m =
    let g = m.master in
    xml_4 stats Row.malloc
    ∷ xml_4 stats Row.aalloc
    ∷ xml_4 stats Row.calloc
    ∷ xml_4 stats Row.resize
    ∷ xml_4 stats Row.realloc
    ∷ xml_4 stats Row.reallocx
    ∷ xml_4 stats Row.memalign
    ∷ xml_4 stats Row.amemalign
    ∷ xml_4 stats Row.cmemalign
    ∷ xml_4 stats Row.aligned_alloc
    ∷ xml_4 stats Row.posix_memalign
    ∷ xml_4 stats Row.valloc
    ∷ xml_4 stats Row.aligned_resize
    ∷ xml_4 stats Row.aligned_realloc
    ∷ xml_4 stats Row.free
    ∷ xml_4 stats Row.remote
    ∷ sbrk g.sbrk_calls g.sbrk_storage
    ∷ xml_3 stats Row.mmap
    ∷ xml_3 stats Row.munmap
    ∷ blocks g.blk_contig g.blk_noncontig g.blk_fragstorage
    ∷ threads g.threads_started g.threads_exited
    ∷ heaps g.heap_new g.heap_reused
    ∷ []

-- What `malloc_info` does: -1, or the lines that it writes; `endless` when the list of heaps has more
-- than `fuel` heaps.
pub data Info : Type 0 where
  refused : Info
  written : List Line → Info
  endless : Info

-- `malloc_info`
unfoldable pub malloc_info : (fuel options : ℕ) → Cmd Info
malloc_info fuel options = if not (options == 0) then set_errno einval >> pure refused else (do
  stats ← collect_stats fuel heap_statistics_ctor
  gets (λ m. elim stats [ none ↦ endless | some s ↦ written (print_stats_xml s m) ]))

abbrev pub Has : Line → List Line → Type 0
Has x [] = ⊥
Has x (y ∷ ys) = (x ≡ y) ⊎ Has x ys

Has-append : (x : Line) (xs ys : List Line) → Has x (xs ++ ys) → Has x xs ⊎ Has x ys
Has-append x [] ys h = inr h
Has-append x (y ∷ xs) ys (inl e) = inl (inl e)
Has-append x (y ∷ xs) ys (inr h) = elim (Has-append x xs ys h) [
  | inl i ↦ inl (inr i)
  | inr i ↦ inr i
]

-- All rows, from `i` on.
abbrev all_4 : (n i : ℕ) → HeapStatistics → List Line
all_4 zero i stats = []
all_4 (suc n) i stats =
    let c = stats i in row_4 i c.calls c.calls_0 c.request c.alloc ∷ all_4 n (i + 1) stats

abbrev all_3 : (n i : ℕ) → HeapStatistics → List Line
all_3 zero i stats = []
all_3 (suc n) i stats =
    let c = stats i in row_3 (i - boundary) c.calls c.request c.alloc ∷ all_3 n (i + 1) stats

rows_4-Has :
    (n i : ℕ) (stats : HeapStatistics) (x : Line)
    → Has x (rows_4 n i stats)
    → Has x (all_4 n i stats)
unfolding rows_4
rows_4-Has zero i stats x h = h
rows_4-Has (suc n) i stats x h = elim (Bool-cases ((stats i).calls == 0)) [
  | inl none_made ↦ inr (rows_4-Has n (i + 1) stats x (rw none_made at h))
  | inr made ↦
      let h' : Has x (
          row_4 i (stats i).calls (stats i).calls_0 (stats i).request (stats i).alloc
          ∷ rows_4 n (i + 1) stats) =
        rw made at h in
      elim h' [ inl e ↦ inl e | inr k ↦ inr (rows_4-Has n (i + 1) stats x k) ]
]

rows_3-Has :
    (n i : ℕ) (stats : HeapStatistics) (x : Line)
    → Has x (rows_3 n i stats)
    → Has x (all_3 n i stats)
unfolding rows_3
rows_3-Has zero i stats x h = h
rows_3-Has (suc n) i stats x h = elim (Bool-cases ((stats i).calls == 0)) [
  | inl none_made ↦ inr (rows_3-Has n (i + 1) stats x (rw none_made at h))
  | inr made ↦
      let h' : Has x (
          row_3 (i - boundary) (stats i).calls (stats i).request (stats i).alloc
          ∷ rows_3 n (i + 1) stats) =
        rw made at h in
      elim h' [ inl e ↦ inl e | inr k ↦ inr (rows_3-Has n (i + 1) stats x k) ]
]

Has-left : (x : Line) (xs ys : List Line) → Has x xs → Has x (xs ++ ys)
Has-left x [] ys h = absurd h
Has-left x (y ∷ xs) ys (inl e) = inl e
Has-left x (y ∷ xs) ys (inr h) = inr (Has-left x xs ys h)

Has-right : (x : Line) (xs ys : List Line) → Has x ys → Has x (xs ++ ys)
Has-right x [] ys h = h
Has-right x (y ∷ xs) ys h = inr (Has-right x xs ys h)

xml_rows :
    (stats : HeapStatistics) (m : Machine)
    → let g = m.master in
      print_stats_xml stats m
      ≡ all_4 boundary 0 stats
        ++ (sbrk g.sbrk_calls g.sbrk_storage
            ∷ (all_3 2 boundary stats
                ++ (blocks g.blk_contig g.blk_noncontig g.blk_fragstorage
                    ∷ threads g.threads_started g.threads_exited
                    ∷ heaps g.heap_new g.heap_reused
                    ∷ [])))
unfolding print_stats_xml row_index
xml_rows stats m = refl

-- Where a line of the report without buckets comes from.
stats_lines :
    (env : Env) (fuel : ℕ) (stats : HeapStatistics) (m : Machine) (x : Line) (lines : List Line)
    → m.print_buckets ≡ false
    → print_stats env fuel stats m ≡ some lines
    → Has x lines
    → let g = m.master in
      Has x (
        (title ∷ rows_4 boundary 0 stats)
        ++ rows_3 2 boundary stats
        ++ (blocks g.blk_contig g.blk_noncontig g.blk_fragstorage
            ∷ sbrk g.sbrk_calls g.sbrk_storage
            ∷ threads g.threads_started g.threads_exited
            ∷ heaps g.heap_new g.heap_reused
            ∷ []))
unfolding print_stats
stats_lines env fuel stats m x lines off run h =
    let g = m.master in
    let e : some (
          (title ∷ rows_4 boundary 0 stats)
          ++ rows_3 2 boundary stats
          ++ (blocks g.blk_contig g.blk_noncontig g.blk_fragstorage
              ∷ sbrk g.sbrk_calls g.sbrk_storage
              ∷ threads g.threads_started g.threads_exited
              ∷ heaps g.heap_new g.heap_reused
              ∷ []))
        ≡ some lines =
      rw off at run in
    subst (Has x) (sym (some-injective _ lines e)) h

-- The report's lines in the order of the XML.
merged :
    (x b s : Line) (r4 r3 a4 a3 t : List Line)
    → (Has x r4 → Has x a4)
    → (Has x r3 → Has x a3)
    → Has x (r4 ++ r3 ++ (b ∷ s ∷ t))
    → Has x (a4 ++ (s ∷ (a3 ++ (b ∷ t))))
merged x b s r4 r3 a4 a3 t f4 f3 h =
    let after = λ (k : Has x (s ∷ (a3 ++ (b ∷ t)))). Has-right x a4 (s ∷ (a3 ++ (b ∷ t))) k in
    elim (Has-append x (r4 ++ r3) (b ∷ s ∷ t) h) [
      | inl rows ↦ elim (Has-append x r4 r3 rows) [
        | inl four ↦ Has-left x a4 (s ∷ (a3 ++ (b ∷ t))) (f4 four)
        | inr three ↦ after (inr (Has-left x a3 (b ∷ t) (f3 three)))
      ]
      | inr (inl e) ↦ after (inr (Has-right x a3 (b ∷ t) (inl e)))
      | inr (inr (inl e)) ↦ after (inl e)
      | inr (inr (inr k)) ↦ after (inr (Has-right x a3 (b ∷ t) (inr k)))
    ]

-- With the printing of buckets off, each line with numbers that `printStats` writes of some counters
-- is among the lines of `printStatsXML`, with the same numbers: each row that is not zero, and the
-- totals of the program.
pub print_stats-print_stats_xml :
    (env : Env) (fuel : ℕ) (stats : HeapStatistics) (m : Machine) (x : Line) (lines : List Line)
    → m.print_buckets ≡ false
    → print_stats env fuel stats m ≡ some lines
    → Has x lines
    → x ≢ title
    → Has x (print_stats_xml stats m)
print_stats-print_stats_xml env fuel stats m x lines off run h other =
    let g = m.master in
    rw (xml_rows stats m) (elim (stats_lines env fuel stats m x lines off run h) [
      | inl e ↦ absurd (other e)
      | inr k ↦
          merged x (blocks g.blk_contig g.blk_noncontig g.blk_fragstorage)
            (sbrk g.sbrk_calls g.sbrk_storage) (rows_4 boundary 0 stats) (rows_3 2 boundary stats)
            (all_4 boundary 0 stats) (all_3 2 boundary stats)
            (threads g.threads_started g.threads_exited ∷ heaps g.heap_new g.heap_reused ∷ [])
            (rows_4-Has boundary 0 stats x) (rows_3-Has 2 boundary stats x) k
    ])
