-- ===== src/Tests/Words.antt =====
-- The theorems on words, buckets, headers and counters at concrete values.
use llheap.Prelude.{
  if◌then◌else◌, ◌==◌, [], ◌∷◌, ℕ, ◌+◌, ◌-◌, ◌*◌, ◌/◌, ◌%◌, ◌^◌, ◌<◌, ◌≡◌, ◌↔◌, refl, true, some,
  arith,
}
use llheap.Word.{word, ceiling, pow2, IsPowerOfTwo, pow2_iff, ceiling-eq-div-mul}
use llheap.Bucket.{
  no_bucket_sizes, lookup_sizes, bucket_sizes, bsearchl, bucket_index, fill_lookup, IsBestFit,
  bucket_index-IsBestFit, fill_lookup-bsearchl, bucket_size_mmap,
}
use llheap.Machine.{null, Heap}
use llheap.Report.{collect_from, unfreed_from}
use llheap.Report.Sums.{total_stats, total_unfreed, sums_lem}
use llheap.Tests.World.{heap_at}
use llheap.Header.{
  Header, zero_fill_bit, mark_zero_filled_bit, mmapped_bit, alignment_bit, clear_sticky_bits,
}
use llheap.Header.Sticky.{mark_zero_filled_bit_lem}
use llheap.Stats.{Row, HeapStatistics, heap_statistics_ctor, add_stats, count_request}
use llheap.Stats.Add.{add_stats_lem}

ceiling-eq-div-mul_example : ceiling 1000 (2 ^ 4) ≡ (1000 + (2 ^ 4 - 1)) / 2 ^ 4 * 2 ^ 4
ceiling-eq-div-mul_example = ceiling-eq-div-mul 4 1000 (omega arith) (omega arith)

pow2_iff_example : (pow2 4096 ≡ true) ↔ IsPowerOfTwo 4096
pow2_iff_example = pow2_iff 4096 (omega arith) (omega arith)

fill_lookup-bsearchl_example :
    (table : ℕ → ℕ) × (fill_lookup lookup_sizes 0 0 (λ t. 0) ≡ some table)
    × ((t : ℕ) → t < lookup_sizes → table t ≡ bsearchl t bucket_sizes no_bucket_sizes)
fill_lookup-bsearchl_example = fill_lookup-bsearchl (λ t. 0)

bucket_index-IsBestFit_example :
    IsBestFit 100_000 (bucket_index (λ t. bsearchl t bucket_sizes no_bucket_sizes) 61 100_000)
bucket_index-IsBestFit_example =
    bucket_index-IsBestFit (λ t. bsearchl t bucket_sizes no_bucket_sizes) 61 100_000 (λ t h. refl)
      (omega arith) (omega (arith, bucket_size_mmap))

abbrev header : Header
header = record { word0 = 0x12340; word1 = 40 }

mark_zero_filled_bit_example :
    (zero_fill_bit (mark_zero_filled_bit header) ≡ 2)
    × (mmapped_bit (mark_zero_filled_bit header) ≡ mmapped_bit header)
    × (alignment_bit (mark_zero_filled_bit header) ≡ alignment_bit header)
    × (clear_sticky_bits (mark_zero_filled_bit header).word0 ≡ clear_sticky_bits (header.word0))
    × ((mark_zero_filled_bit header).word1 ≡ header.word1)
mark_zero_filled_bit_example = mark_zero_filled_bit_lem header (omega arith)

abbrev one_call : HeapStatistics
one_call = count_request Row.malloc 10 heap_statistics_ctor

add_stats_example :
    let sum = add_stats one_call one_call 0 in
    (sum.calls ≡ ((one_call 0).calls + (one_call 0).calls) % word)
    × (sum.calls_0 ≡ ((one_call 0).calls_0 + (one_call 0).calls_0) % word)
    × (sum.request ≡ ((one_call 0).request + (one_call 0).request) % word)
    × (sum.alloc ≡ ((one_call 0).alloc + (one_call 0).alloc) % word)
add_stats_example = add_stats_lem one_call one_call 0 (omega arith)

-- Two heaps, at 4096 and 8192, the first linked to the second.
abbrev two_heaps : ℕ → Heap
two_heaps = λ p. record (heap_at 0 0) { next_heap_manager = if p == 4096 then 8192 else null }

sums_example :
    (collect_from 2 4096 two_heaps one_call
      ≡ some (total_stats two_heaps (4096 ∷ 8192 ∷ []) one_call))
    × (unfreed_from 2 4096 two_heaps 7 ≡ some (total_unfreed two_heaps (4096 ∷ 8192 ∷ []) 7))
sums_example =
    sums_lem two_heaps (4096 ∷ 8192 ∷ []) 4096 2 one_call 7
      (refl, omega arith, (refl, omega arith, refl)) (omega arith)
