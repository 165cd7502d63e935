-- ===== src/Tests/Reports.antt =====
-- The XML report, the binding of threads to processors and the random numbers at concrete inputs.
use llheap.Prelude.{
  ℕ, ◌+◌, ◌*◌, ◌%◌, ◌^◌, ◌<◌, ◌≡◌, ◌≢◌, refl, inl, inr, arith, Option, some, none, List, [],
}
use llheap.Stats.{HeapStatistics}
use llheap.Report.Print.{Line, row_4, rows_4, rows_3, print_stats}
use llheap.Report.Xml.{Has, print_stats_xml, print_stats-print_stats_xml}
use llheap.Affinity.{nasus, affinity, processors, affinity_lem}
use llheap.Larson.{Lran2, lran2_max, ia, ic, lran2_init, lran2, IsSeeded, lran2_lem}
use llheap.Larson.Shuffle.{shuffle, IsPermuted, shuffle-IsPermuted}
use llheap.Tests.World.{linux, new_thread}

-- Each row has its number as the number of calls.
abbrev counts : HeapStatistics
counts i = record { calls = i; calls_0 = 0; request = 8; alloc = 32 }

abbrev lines_of : Option (List Line) → List Line
lines_of (some lines) = lines
lines_of none = []

abbrev report : List Line
report = lines_of (print_stats linux 3 counts new_thread)

report-run : print_stats linux 3 counts new_thread ≡ some report
unfolding print_stats rows_4 rows_3
report-run = refl

report-Has : Has (row_4 1 1 0 8 32) report
unfolding print_stats rows_4 rows_3
report-Has = inr (inl refl)

print_stats-print_stats_xml_example : Has (row_4 1 1 0 8 32) (print_stats_xml counts new_thread)
print_stats-print_stats_xml_example =
    print_stats-print_stats_xml linux 3 counts new_thread (row_4 1 1 0 8 32) report refl report-run
      report-Has (λ e. cc)

affinity_example :
    (c : ℕ) × (d : ℕ) × (affinity (λ cpu. 0) nasus 6 ≡ some c)
    × (affinity (λ cpu. 0) nasus 7 ≡ some d)
    × (c < processors nasus)
    × (d < processors nasus)
    × (c ≢ d)
affinity_example =
    affinity_lem (λ cpu. 0) nasus 6 7 (λ cpu h. refl) (omega arith) (omega arith) (omega arith)

-- A generator with numbers of its own, and the one of the default seed.
abbrev drawn : Lran2
drawn = record { x = 1; y = 2; v = λ j. j }

drawn-IsSeeded : IsSeeded drawn
drawn-IsSeeded = record {
  small_x = omega arith;
  small_y = omega arith;
  small_v = λ j h. omega (arith, h);
}

lran2_example :
    IsSeeded (lran2_init 12345 drawn)
    × ((lran2 drawn).0 < lran2_max)
    × ((lran2 drawn).0 ≡ drawn.v (drawn.y % 97))
    × ((lran2 drawn).1.y ≡ (lran2 drawn).0)
    × (ia * drawn.x + ic < 2 ^ 31)
    × IsSeeded (lran2 drawn).1
lran2_example = lran2_lem 12345 drawn drawn drawn-IsSeeded

shuffle-IsPermuted_example :
    let (p', s', _) = shuffle 4 drawn (λ i. 100 * i) (λ i. i) in
    IsPermuted 5 (λ i. 100 * i) (λ i. i) p' s'
shuffle-IsPermuted_example = shuffle-IsPermuted 5 4 drawn (λ i. 100 * i) (λ i. i) (omega arith)
