-- ===== src/Report/Sums.antt =====
-- The loops over the list of heaps reach each heap once.
use llheap.Prelude.{ℕ, zero, suc, ◌≤◌, ◌≡◌, ◌≢◌, refl, some, List, [], ◌∷◌, arith, length}
use llheap.Word.{add64}
use llheap.Stats.{HeapStatistics, add_stats}
use llheap.Machine.{null, Heap}
use llheap.Report.{collect_from, unfreed_from}

-- From `p` the links lead through the heaps `hs` to null.
abbrev pub Heaps : (ℕ → Heap) → ℕ → List ℕ → Type 0
Heaps heaps p [] = p ≡ null
Heaps heaps p (h ∷ hs) = (p ≡ h) × (h ≢ null) × Heaps heaps (heaps h).next_heap_manager hs

-- The sums in the order of the list.
abbrev pub total_stats : (ℕ → Heap) → List ℕ → HeapStatistics → HeapStatistics
total_stats heaps [] stats = stats
total_stats heaps (h ∷ hs) stats = total_stats heaps hs (add_stats stats (heaps h).stats)

abbrev pub total_unfreed : (ℕ → Heap) → List ℕ → ℕ → ℕ
total_unfreed heaps [] total = total
total_unfreed heaps (h ∷ hs) total = total_unfreed heaps hs (add64 total (heaps h).alloc_unfreed)

-- On a list of heaps that ends, with as much fuel as it has heaps, both loops stop with the sum
-- over exactly these heaps: that of the counters and that of the unfreed bytes.
pub sums_lem :
    (heaps : ℕ → Heap) (hs : List ℕ) (p fuel : ℕ) (stats : HeapStatistics) (total : ℕ)
    → Heaps heaps p hs
    → length hs ≤ fuel
    → (collect_from fuel p heaps stats ≡ some (total_stats heaps hs stats))
      × (unfreed_from fuel p heaps total ≡ some (total_unfreed heaps hs total))
unfolding collect_from unfreed_from
sums_lem heaps [] p fuel stats total linked enough = rw linked (refl, refl)
sums_lem heaps (zero ∷ hs) p fuel stats total (e, ne, rest) enough = absurd (ne refl)
sums_lem heaps (suc h ∷ hs) p zero stats total (e, ne, rest) enough = absurd (omega arith)
sums_lem heaps (suc h ∷ hs) p (suc fuel) stats total (e, ne, rest) enough =
    rw e (sums_lem heaps hs _ fuel _ _ rest (omega arith))
