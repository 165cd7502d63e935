-- ===== src/Bucket/Search.antt =====
-- `Bsearchl` of llheap.cc. The loop runs on fuel; `dimension` rounds are enough, since each
-- round narrows the interval.
use llheap.Prelude.{
  ℕ, zero, suc, ◌+◌, ◌-◌, ◌/◌, ◌%◌, ◌^◌, ◌≤◌, ◌<◌, ◌≡◌, true, false, List, arith, ltb, get_or,
  Bool-cases, inl, inr, ltb→lt, ltb→le,
}

unfoldable pub bsearch_loop : ℕ → ℕ → List ℕ → ℕ → ℕ → ℕ
bsearch_loop zero key vals l h = l
bsearch_loop (suc fuel) key vals l h = elim (ltb l h) [
  | true ↦
      (let m = (l + h) / 2 in
        elim (ltb (get_or vals m 0) key) [
          | true ↦ bsearch_loop fuel key vals (m + 1) h
          | false ↦ bsearch_loop fuel key vals l m
        ])
  | false ↦ l
]

-- The key is an `unsigned int`.
unfoldable pub bsearchl : ℕ → List ℕ → ℕ → ℕ
unfolding bsearch_loop get_or
bsearchl key vals dimension = bsearch_loop dimension (key % 2 ^ 32) vals 0 dimension

abbrev pub IsAscending : List ℕ → ℕ → Type 0
IsAscending vals n = (i j : ℕ) → i ≤ j → j < n → get_or vals i 0 ≤ get_or vals j 0

-- `r` divides the first `n` values into those below the key and those that are not.
pub record Splits (vals : List ℕ) (key n r : ℕ) : Type 0 where
  pub within : r ≤ n
  pub below : (i : ℕ) → i < r → get_or vals i 0 < key
  pub above : (i : ℕ) → r ≤ i → i < n → key ≤ get_or vals i 0

module _ (vals : List ℕ) (key n : ℕ) (sorted : IsAscending vals n) where
  bsearch_loop-Splits :
      (fuel l h : ℕ)
      → l ≤ h
      → h ≤ n
      → h - l ≤ fuel
      → ((i : ℕ) → i < l → get_or vals i 0 < key)
      → ((i : ℕ) → h ≤ i → i < n → key ≤ get_or vals i 0)
      → Splits vals key n (bsearch_loop fuel key vals l h)
  unfolding bsearch_loop
  bsearch_loop-Splits zero l h lh hn enough below above = record {
    within = omega arith;
    below = below;
    above = λ i p. above i (omega arith);
  }
  bsearch_loop-Splits (suc fuel) l h lh hn enough below above = elim (Bool-cases (ltb l h)) [
    | inr done ↦
        let le : h ≤ l = ltb→le l h done in
        rw (done, bsearch_loop)
          (record { within = omega arith; below = below; above = λ i p. above i (omega arith) })
    | inl more ↦
        let lt : l < h = ltb→lt l h more in
        let m = (l + h) / 2 in
        rw (more, bsearch_loop)
          (elim (Bool-cases (ltb (get_or vals m 0) key)) [
            | inl small ↦
                rw (small, bsearch_loop)
                  (bsearch_loop-Splits fuel (m + 1) h (omega arith) hn (omega arith)
                    (λ i p. omega (arith, sorted i m (omega arith) (omega arith), ltb→lt _ _ small))
                    above)
            | inr large ↦
                rw (large, bsearch_loop)
                  (bsearch_loop-Splits fuel l m (omega arith) (omega arith) (omega arith) below
                    (λ i p q. omega (arith, sorted m i p q, ltb→le _ _ large)))
          ])
  ]

  -- On values in ascending order and a key below 2 ^ 32, `Bsearchl` stops and answers with the
  -- number of values below the key: all before are below it, all from there on are not.
  pub bsearchl-Splits : key < 2 ^ 32 → Splits vals key n (bsearchl key vals n)
  unfolding bsearchl
  bsearchl-Splits small =
      let e : key % 2 ^ 32 ≡ key = omega arith in
      rw e (
        bsearch_loop-Splits n 0 n (omega arith) (omega arith) (omega arith)
          (λ i p. absurd (omega arith)) (λ i p q. absurd (omega arith)))
