-- ===== src/Bucket/Fit.antt =====
-- The best bucket for a size, and that the binary search finds it.
use mathlib.Core.Path.{subst, sym}
use llheap.Prelude.{ℕ, ◌^◌, ◌≤◌, ◌<◌, ◌≡◌, arith, ltb, Bool-cases, inl, inr, ltb→lt, ltb→le}
use llheap.Bucket.Sizes.{
  no_bucket_sizes, bucket_sizes, bucket_size, bucket_size_le, bucket_size_last,
}
use llheap.Bucket.Search.{bsearchl, Splits, bsearchl-Splits}

-- Bucket `b` is the smallest that holds `tsize` bytes.
pub record IsBestFit (tsize b : ℕ) : Type 0 where
  pub fits : tsize ≤ bucket_size b
  pub least : (i : ℕ) → i < b → bucket_size i < tsize

pub best_fit_unique : (t b c : ℕ) → IsBestFit t b → IsBestFit t c → b ≡ c
best_fit_unique t b c p q = ground (arith, p.fits, q.fits, p.least c, q.least b)

sizes_split :
    (tsize n : ℕ)
    → n ≤ no_bucket_sizes
    → tsize ≤ bucket_size 63
    → Splits bucket_sizes tsize n (bsearchl tsize bucket_sizes n)
unfolding bucket_size
sizes_split tsize n h small =
    bsearchl-Splits bucket_sizes tsize n (λ i j p q. bucket_size_le i j p (omega arith))
      (omega (arith, small, bucket_size_last))

-- On sizes that the bucket after the searched ones holds, the binary search finds the best fit.
pub bsearchl-IsBestFit :
    (tsize n : ℕ)
    → n < no_bucket_sizes
    → tsize ≤ bucket_size n
    → IsBestFit tsize (bsearchl tsize bucket_sizes n)
unfolding bucket_size
bsearchl-IsBestFit tsize n h fits =
    let r = bsearchl tsize bucket_sizes n in
    let at : Splits bucket_sizes tsize n r =
      sizes_split tsize n (omega arith)
        (omega (arith, bucket_size_le n 63 (omega arith) (omega arith))) in
    record {
      fits = elim (Bool-cases (ltb r n)) [
        | inl inside ↦ at.above r (omega arith) (ltb→lt r n inside)
        | inr last ↦
            let e : r ≡ n = omega (arith, at.within, ltb→le r n last) in
            subst (λ (b : ℕ). tsize ≤ bucket_size b) (sym e) fits
      ];
      least = at.below;
    }

-- Over all buckets.
pub bsearchl_all-IsBestFit :
    (tsize : ℕ)
    → tsize ≤ bucket_size 63
    → IsBestFit tsize (bsearchl tsize bucket_sizes no_bucket_sizes)
unfolding bucket_size
bsearchl_all-IsBestFit tsize small =
    let r = bsearchl tsize bucket_sizes no_bucket_sizes in
    let at : Splits bucket_sizes tsize no_bucket_sizes r =
      sizes_split tsize no_bucket_sizes (omega arith) small in
    record {
      fits = elim (Bool-cases (ltb r no_bucket_sizes)) [
        | inl inside ↦ at.above r (omega arith) (ltb→lt r 64 inside)
        | inr out ↦ absurd (omega (arith, at.below 63 (omega (arith, ltb→le r 64 out))))
      ];
      least = at.below;
    }

-- Beyond the bucket after the searched ones, the search falls short: it answers with that bucket.
pub bsearchl_beyond :
    (tsize n : ℕ)
    → n < no_bucket_sizes
    → bucket_size n < tsize
    → tsize < 2 ^ 32
    → bsearchl tsize bucket_sizes n ≡ n
unfolding bucket_size
bsearchl_beyond tsize n h over small =
    let r = bsearchl tsize bucket_sizes n in
    let at : Splits bucket_sizes tsize n r =
      bsearchl-Splits bucket_sizes tsize n (λ i j p q. bucket_size_le i j p (omega arith)) small in
    elim (Bool-cases (ltb r n)) [
      | inl inside ↦ absurd (
          omega (
            arith,
            at.above r (omega arith) (ltb→lt r n inside),
            bucket_size_le r n (omega (arith, at.within)) (omega arith),
            over,
          ))
      | inr last ↦ omega (arith, at.within, ltb→le r n last)
    ]
