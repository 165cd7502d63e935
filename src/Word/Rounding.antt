-- ===== src/Word/Rounding.antt =====
-- `Floor` and `Ceiling` of llheap.cc, on 64-bit words.
use native.Mathlib.Nat.{one-le-pow, pow-le-pow_right, div-add-mod', mod-lt, add-mul}
use mathlib.Core.Path.{subst}
use llheap.Prelude.{
  ℕ, zero, suc, ◌+◌, ◌-◌, ◌*◌, ◌/◌, ◌%◌, ◌^◌, ◌≤◌, ◌<◌, bit_and, ◌≡◌, ltb, if◌then◌else◌, sym, ap,
  ◌∙◌, arith,
}
use llheap.Prelude.Bits.{bit_and_clear, two_pow_add}

-- 2 ^ 64, one more than `ULONG_MAX`.
abbrev pub word : ℕ
word = 0x1_0000_0000_0000_0000

abbrev pub add64 : ℕ → ℕ → ℕ
add64 a b = (a + b) % word

abbrev pub sub64 : ℕ → ℕ → ℕ
sub64 a b = (a + word - b) % word

abbrev pub mul64 : ℕ → ℕ → ℕ
mul64 a b = a * b % word

-- A word stored in an `int`, which keeps the low 32 bits, and used as a word again, which extends
-- the sign.
unfoldable pub int_word : ℕ → ℕ
int_word a =
    let low = a % 0x1_0000_0000 in if ltb low 0x8000_0000 then low else low + (word - 0x1_0000_0000)

-- Unary minus on a word.
abbrev pub neg64 : ℕ → ℕ
neg64 a = (word - a) % word

unfoldable pub floor : ℕ → ℕ → ℕ
floor value alignment = bit_and value (neg64 alignment)

unfoldable pub ceiling : ℕ → ℕ → ℕ
unfolding floor
ceiling value alignment = neg64 (floor (neg64 value) alignment)

pred-mul : (a b : ℕ) → 1 ≤ a → (a - 1) * b + b ≡ a * b
pred-mul zero b h = absurd (omega arith)
pred-mul (suc a) b h = grind arith

sub-mul : (a q b : ℕ) → q ≤ a → (a - q) * b + q * b ≡ a * b
sub-mul a q b h =
    let e : a - q + q ≡ a = omega arith in sym (add-mul (a - q) q b) ∙ ap (λ (t : ℕ). t * b) e

-- A multiple of p is determined by a window of width p.
multiple_unique : (p m v : ℕ) → v ≤ m * p → m * p < v + p → m ≡ (v + (p - 1)) / p
multiple_unique p m v lo hi = grind arith

-- A word divided into a high part below `top` and a low part below `p`.
module _ (p top : ℕ) (whole : top * p ≡ word) (pos : 1 ≤ p) (high : 2 ≤ top) where
  mask_as_product : neg64 p ≡ (top - 1) * p
  mask_as_product =
      let e : (top - 1) * p + p ≡ word = pred-mul top p (omega arith) ∙ whole in
      omega (arith, pos, e)

  high_part : (v : ℕ) → v < word → v / p < top
  high_part v h = grind (arith, whole, pos)

-- "negate, round down, negate": the multiple below `-v` is the complement of the one above `v`.
module _ (p top : ℕ) (whole : top * p ≡ word) (pos : 1 ≤ p) (high : 2 ≤ top) where
  complement :
      (v : ℕ)
      → v + p ≤ word
      → (m : ℕ) × (neg64 (neg64 v / p * p) ≡ m * p)
        × (v ≤ neg64 (neg64 v / p * p))
        × (neg64 (neg64 v / p * p) < v + p)
  complement zero fits = (0, omega arith, omega arith, omega (arith, pos))
  complement (suc v) fits =
      let q = neg64 (suc v) / p in
      let low : q * p ≤ word - suc v = grind (arith, pos) in
      let above : word - suc v < q * p + p = grind (arith, pos) in
      let size : neg64 (q * p) ≡ word - q * p = omega (arith, low, above, fits) in
      let inside : q ≤ top =
        omega (arith, high_part p top whole pos high (neg64 (suc v)) (omega arith)) in
      let factor : (top - q) * p + q * p ≡ word = sub-mul top q p inside ∙ whole in
      (
        top - q,
        omega (arith, size, factor, low),
        omega (arith, size, low, above),
        omega (arith, size, low, above),
      )

-- The parts of a word above and below bit k.
module _ (k d : ℕ) (sum : k + d ≡ 64) (high : 0 < d) where
  split : 2 ^ d * 2 ^ k ≡ word
  split = sym (two_pow_add k d) ∙ ap (λ (t : ℕ). 2 ^ t) sum

  two-le-pow : 2 ≤ 2 ^ d
  two-le-pow = pow-le-pow_right {n = 2} (omega arith) {i = 1} {j = d} high

  -- The mask `-alignment` is a run of ones above k zeros.
  neg64-pow : neg64 (2 ^ k) ≡ (2 ^ d - 1) * 2 ^ k
  neg64-pow = mask_as_product (2 ^ k) (2 ^ d) split (one-le-pow k 2 (omega arith)) two-le-pow

  floor_fields : (q r : ℕ) → r < 2 ^ k → q < 2 ^ d → floor (q * 2 ^ k + r) (2 ^ k) ≡ q * 2 ^ k
  unfolding floor
  floor_fields q r h b = rw neg64-pow (bit_and_clear k d q r h b)

  floor-div : (v : ℕ) → v < word → floor v (2 ^ k) ≡ v / 2 ^ k * 2 ^ k
  floor-div v h =
      subst (λ (t : ℕ). floor t (2 ^ k) ≡ v / 2 ^ k * 2 ^ k) (div-add-mod' v (2 ^ k))
        (floor_fields (v / 2 ^ k) (v % 2 ^ k) (mod-lt v (one-le-pow k 2 (omega arith)))
          (high_part (2 ^ k) (2 ^ d) split (one-le-pow k 2 (omega arith)) two-le-pow v h))

  ceiling-multiple :
      (v : ℕ)
      → v + 2 ^ k ≤ word
      → (m : ℕ) × (ceiling v (2 ^ k) ≡ m * 2 ^ k)
        × (v ≤ ceiling v (2 ^ k))
        × (ceiling v (2 ^ k) < v + 2 ^ k)
  unfolding ceiling
  ceiling-multiple v h =
      rw (floor-div (neg64 v) (omega arith))
        (complement (2 ^ k) (2 ^ d) split (one-le-pow k 2 (omega arith)) two-le-pow v h)

-- For an alignment 2 ^ k with k below 64, `Floor` by its bit mask is the greatest multiple of the
-- alignment that is not above the 64-bit value.
pub floor-eq-div-mul : (k v : ℕ) → k < 64 → v < word → floor v (2 ^ k) ≡ v / 2 ^ k * 2 ^ k
floor-eq-div-mul k v h b = floor-div k (64 - k) (omega arith) (omega arith) v b

-- For an alignment 2 ^ k, `Ceiling` is the least multiple that is not below the value, provided
-- that one interval more still fits a word.
pub ceiling_multiple :
    (k v : ℕ)
    → k < 64
    → v + 2 ^ k ≤ word
    → (m : ℕ) × (ceiling v (2 ^ k) ≡ m * 2 ^ k)
      × (v ≤ ceiling v (2 ^ k))
      × (ceiling v (2 ^ k) < v + 2 ^ k)
ceiling_multiple k v h b = ceiling-multiple k (64 - k) (omega arith) (omega arith) v b

-- For an alignment 2 ^ k with k below 64, `Ceiling` by its two negations and mask is the least
-- multiple of the alignment that is not below the value, if value and alignment together do not
-- pass 2 ^ 64.
pub ceiling-eq-div-mul :
    (k v : ℕ) → k < 64 → v + 2 ^ k ≤ word → ceiling v (2 ^ k) ≡ (v + (2 ^ k - 1)) / 2 ^ k * 2 ^ k
ceiling-eq-div-mul k v h b =
    let (m, e, lo, hi) = ceiling_multiple k v h b in
    let u : m ≡ (v + (2 ^ k - 1)) / 2 ^ k =
      multiple_unique (2 ^ k) m v (omega (arith, e, lo)) (omega (arith, e, hi)) in
    e ∙ ap (λ (t : ℕ). t * 2 ^ k) u
