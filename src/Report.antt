-- ===== src/Report.antt =====
-- llheap.cc: the sums over the list of all heaps, as `malloc_stats` and the end of the program take
-- them.
pub mod Sums
pub mod Print
pub mod Xml
use llheap.Prelude.{
  ℕ, zero, suc, ◌||◌, update, false, true, Bool, none, some, Option, not, ltb, leb, ◌&&◌, ◌==◌,
  if◌then◌else◌,
}
use llheap.Word.{add64, sub64}
use llheap.Stats.{HeapStatistics, heap_statistics_ctor, add_stats}
use llheap.Machine.{
  null, Env, Machine, Heap, assertion, Cmd, pure, ◌>>=◌, ◌>>◌, fail, gets, modify, on_master,
  set_errno, einval,
}
use llheap.Os.{lock_mgr, unlock_mgr, negative}

-- The loop of `collectStats` from the heap at `p`, with `fuel` rounds left.
unfoldable pub collect_from : (fuel p : ℕ) → (ℕ → Heap) → HeapStatistics → Option HeapStatistics
collect_from fuel zero heaps stats = some stats
collect_from zero (suc p) heaps stats = none
collect_from (suc fuel) (suc p) heaps stats =
    collect_from fuel (heaps (suc p)).next_heap_manager heaps
      (add_stats stats (heaps (suc p)).stats)

-- `collectStats`: the counters of ended threads, which the master has, and those of all heaps.
unfoldable pub collect_stats : (fuel : ℕ) → HeapStatistics → Cmd (Option HeapStatistics)
unfolding collect_from
collect_stats fuel stats = do
  lock_mgr
  all ← gets (λ m.
      collect_from fuel (m.master.heap_managers_list) (m.heaps) (add_stats stats (m.master.stats)))
  unlock_mgr
  pure all

-- The loop of `clearStats`.
unfoldable pub clear_from : (fuel p : ℕ) → (ℕ → Heap) → Option (ℕ → Heap)
clear_from fuel zero heaps = some heaps
clear_from zero (suc p) heaps = none
clear_from (suc fuel) (suc p) heaps =
    clear_from fuel (heaps (suc p)).next_heap_manager
      (update heaps (suc p) (record (heaps (suc p)) { stats = heap_statistics_ctor }))

-- The loop of `shutdown` in the debug build.
unfoldable pub unfreed_from : (fuel p : ℕ) → (ℕ → Heap) → (total : ℕ) → Option ℕ
unfreed_from fuel zero heaps total = some total
unfreed_from zero (suc p) heaps total = none
unfreed_from (suc fuel) (suc p) heaps total =
    unfreed_from fuel (heaps (suc p)).next_heap_manager heaps
      (add64 total (heaps (suc p)).alloc_unfreed)

-- `shutdown` in the debug build: the bytes that the program has not freed, as it reports them; `none`
-- inside is no report.
unfoldable pub unfreed_report : Env → (fuel : ℕ) → Machine → Option (Option ℕ)
unfreed_report env fuel m =
    elim (unfreed_from fuel (m.master.heap_managers_list) (m.heaps) (m.master.alloc_unfreed)) [
      | none ↦ none
      | some total ↦
          let left = sub64 total env.malloc_unfreed in
          some (if negative left || (left == 0) then none else some left)
    ]

-- `clearStats`, which `malloc_stats_clear` calls.
unfoldable pub clear_stats : (fuel : ℕ) → Cmd Bool
clear_stats fuel = do
  lock_mgr
  on_master (λ g. record g { stats = heap_statistics_ctor })
  cleared ← gets (λ m. clear_from fuel (m.master.heap_managers_list) (m.heaps))
  elim cleared [
    | none ↦ pure false
    | some heaps ↦ (do modify (λ m. record m { heaps = heaps }); unlock_mgr; pure true)
  ]

-- `malloc_stats_clear`
unfoldable pub malloc_stats_clear : (fuel : ℕ) → Cmd Bool
unfolding clear_stats
malloc_stats_clear fuel = clear_stats fuel
