-- ===== src/Stats/Add.antt =====
-- What `operator+=` adds: every row, once, and nothing beyond the array.
use llheap.Prelude.{
  ℕ, zero, suc, ◌+◌, ◌%◌, ◌≤◌, ◌<◌, ◌≡◌, refl, ltb, update, update_self, update_ne, arith,
  Bool-cases, inl, inr, ltb→lt, ltb→le, ◌∙◌, ap,
}
use llheap.Word.{word}
use llheap.Stats.{cnt_triples, HeapStatistics, Counters, add_counters, add_rows, add_stats}

module _ (rhs : HeapStatistics) where
  add_rows-outside :
      (n i : ℕ) (lhs : HeapStatistics) (j : ℕ)
      → ((i ≤ j → j < i + n → ⊥))
      → add_rows n i lhs rhs j ≡ lhs j
  unfolding add_rows
  add_rows-outside zero i lhs j h = refl
  add_rows-outside (suc n) i lhs j h =
      add_rows-outside n (i + 1) (update lhs i (add_counters (lhs i) (rhs i))) j
        (λ p q. h (omega arith) (omega arith))
      ∙ update_ne lhs i _ j (λ e. h (omega (arith, e)) (omega (arith, e)))

  add_rows-inside :
      (n i : ℕ) (lhs : HeapStatistics) (j : ℕ)
      → i ≤ j
      → j < i + n
      → add_rows n i lhs rhs j ≡ add_counters (lhs j) (rhs j)
  unfolding add_rows
  add_rows-inside zero i lhs j p q = absurd (omega arith)
  add_rows-inside (suc n) i lhs j p q =
      let lhs' = update lhs i (add_counters (lhs i) (rhs i)) in
      elim (Bool-cases (ltb i j)) [
        | inl after ↦
            let lt : i < j = ltb→lt i j after in
            add_rows-inside n (i + 1) lhs' j (omega arith) (omega arith)
            ∙ ap (λ (c : Counters). add_counters c (rhs j)) (update_ne lhs i _ j (omega arith))
        | inr at ↦
            let e : i ≡ j = omega (arith, ltb→le i j at) in
            rw (← e) (add_rows-outside n (i + 1) lhs' i (λ a b. omega arith) ∙ update_self lhs i _)
      ]

-- `+=` adds each of the 18 counter rows once: the calls, the calls for size 0, the requested and the
-- allocated bytes of a row are the sums of both sides as 64-bit words.
pub add_stats_lem :
    (lhs rhs : HeapStatistics) (i : ℕ)
    → i < cnt_triples
    → let sum = add_stats lhs rhs i in
      (sum.calls ≡ ((lhs i).calls + (rhs i).calls) % word)
      × (sum.calls_0 ≡ ((lhs i).calls_0 + (rhs i).calls_0) % word)
      × (sum.request ≡ ((lhs i).request + (rhs i).request) % word)
      × (sum.alloc ≡ ((lhs i).alloc + (rhs i).alloc) % word)
unfolding add_stats
add_stats_lem lhs rhs i h =
    rw (add_rows-inside rhs cnt_triples 0 lhs i (omega arith) h) (refl, refl, refl, refl)
