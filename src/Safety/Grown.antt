-- ===== src/Safety/Grown.antt =====
-- The zero fill of `realloc`, `zero_added`, and its last counts.
use llheap.Prelude.{
  ℕ, ◌+◌, ◌-◌, ◌≤◌, ◌<◌, ◌≡◌, ◌⊎◌, refl, inl, inr, ltb, Bool-cases, ltb→lt, ltb→le, arith, update,
  if◌then◌else◌,
}
use llheap.Word.{word, add64}
use llheap.Stats.{HeapStatistics, Row, count_calls, count_calls_0, count_alloc_1}
use llheap.Machine.{Machine, ok}
use llheap.Memory.{fill, fill_inside, fill_outside}
use llheap.Api.Realloc.{zero_added}
use llheap.Arena.{Layout}
use llheap.Safety.Alike.{Alike}
use llheap.Safety.Resized.{Adjusts}

abbrev noted : Machine → (HeapStatistics → HeapStatistics) → Machine
noted m f =
    let heap = m.heap_manager in
    record m {
      heaps = update (m.heaps) heap (record (m.heaps heap) { stats = f ((m.heaps heap).stats) });
    }

noted-Alike :
    (l : Layout) (m : Machine) (f : HeapStatistics → HeapStatistics) (bytes : ℕ → ℕ)
    → Alike l m (record (noted m f) { bytes = bytes })
unfolding update
noted-Alike l m f bytes = record {
  manager = refl;
  table = refl;
  master = refl;
  calls = omega arith;
  start = ground arith;
  room = ground arith;
  buckets = refl;
  links = λ c d at. inl refl;
}

same-Alike : (l : Layout) (m : Machine) → Alike l m m
same-Alike l m = record {
  manager = refl;
  table = refl;
  master = refl;
  calls = omega arith;
  start = refl;
  room = refl;
  buckets = refl;
  links = λ c d at. inl refl;
}

pub noted-Adjusts :
    (l : Layout) (from to : ℕ) (m : Machine) (f : HeapStatistics → HeapStatistics)
    → Adjusts l from to m (noted m f)
noted-Adjusts l from to m f = record {
  alike = noted-Alike l m f (m.bytes);
  sizes = λ c. refl;
  outside = λ x out. refl;
}

-- The machine after `zero_added`.
abbrev pub grown : Machine → (addr osize nsize : ℕ) → Machine
grown m addr osize nsize =
    if ltb osize nsize
    then (record (noted m (count_alloc_1 Row.reallocx)) {
      bytes = fill (add64 addr osize) (nsize - osize) 0 (m.bytes);
    })
    else m

pub zero_added-grown :
    (m : Machine) (addr osize nsize : ℕ)
    → zero_added addr osize nsize m ≡ ok tt (grown m addr osize nsize)
unfolding zero_added
zero_added-grown m addr osize nsize = elim (Bool-cases (ltb osize nsize)) [
  | inl more ↦ rw more refl
  | inr less ↦ rw less refl
]

module _ (m : Machine) (addr osize nsize : ℕ) (space : addr + nsize < word) where
  filled_outside :
      osize < nsize
      → (x : ℕ) → (x < addr + osize) ⊎ (addr + nsize ≤ x)
      → fill (add64 addr osize) (nsize - osize) 0 (m.bytes) x ≡ m.bytes x
  filled_outside more x (inl before) =
      fill_outside (add64 addr osize) (nsize - osize) 0 (m.bytes) x (inl (omega arith))
  filled_outside more x (inr after) =
      fill_outside (add64 addr osize) (nsize - osize) 0 (m.bytes) x (inr (omega arith))

  pub grown-Adjusts :
      (l : Layout) → Adjusts l (addr + osize) (addr + nsize) m (grown m addr osize nsize)
  grown-Adjusts l = elim (Bool-cases (ltb osize nsize)) [
    | inl more ↦ rw more (record {
      alike = noted-Alike l m (count_alloc_1 Row.reallocx) _;
      sizes = λ c. refl;
      outside = filled_outside (ltb→lt _ _ more);
    })
    | inr less ↦
        rw less (record { alike = same-Alike l m; sizes = λ c. refl; outside = λ x out. refl })
  ]

  pub grown_zeros :
      (i : ℕ) → osize ≤ i → i < nsize → (grown m addr osize nsize).bytes (addr + i) ≡ 0
  grown_zeros i low high = elim (Bool-cases (ltb osize nsize)) [
    | inl more ↦ rw more (
        fill_inside (add64 addr osize) (nsize - osize) 0 (m.bytes) (addr + i) (omega arith)
          (omega arith))
    | inr less ↦ absurd (omega (arith, ltb→le _ _ less))
  ]

  pub grown_headers : (grown m addr osize nsize).headers ≡ m.headers
  grown_headers = elim (Bool-cases (ltb osize nsize)) [
    | inl more ↦ rw more refl
    | inr less ↦ rw less refl
  ]

  pub grown_manager : (grown m addr osize nsize).heap_manager ≡ m.heap_manager
  grown_manager = elim (Bool-cases (ltb osize nsize)) [
    | inl more ↦ rw more refl
    | inr less ↦ rw less refl
  ]

-- The machine after the last counts of a `realloc` within its block.
abbrev pub tallied : Machine → Machine
tallied m = noted (noted m (count_calls Row.realloc)) (count_calls_0 Row.reallocx)
