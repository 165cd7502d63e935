-- ===== src/Word/Power.antt =====
-- `Pow2` of llheap.cc: the test for a power of two.
use mathlib.Core.Path.{subst}
use native.Mathlib.Nat.{pow-suc, one-le-pow}
use llheap.Prelude.{
  ℕ, zero, suc, ◌+◌, ◌-◌, ◌*◌, ◌/◌, ◌%◌, ◌^◌, ◌≤◌, ◌<◌, bit_and, ◌≡◌, refl, Bool, true, arith, ◌==◌,
  ==_iff, Bool-cases, inl, inr, ◌↔◌, sym, ap, ◌∙◌,
}
use llheap.Prelude.Bits.{bit_and_step, bit_and_self}
use llheap.Word.Rounding.{word, sub64}

unfoldable pub pow2 : ℕ → Bool
pow2 value = bit_and value (sub64 value 1) == 0

-- An even number shares a digit with its predecessor exactly when its half does; an odd number
-- shares all but the last.
and_pred_even : (w : ℕ) → 0 < w → bit_and (w * 2) (w * 2 - 1) ≡ bit_and w (w - 1) * 2
and_pred_even w h = ground (arith, bit_and_step (w * 2) (w * 2 - 1))

and_pred_odd : (w : ℕ) → bit_and (w * 2 + 1) (w * 2) ≡ w * 2
and_pred_odd w = ground (arith, bit_and_step (w * 2 + 1) (w * 2), bit_and_self w)

abbrev pub IsPowerOfTwo : ℕ → Type 0
IsPowerOfTwo v = (k : ℕ) × (v ≡ 2 ^ k)

and_pred_pow : (k : ℕ) → bit_and (2 ^ k) (2 ^ k - 1) ≡ 0
and_pred_pow zero = refl
and_pred_pow (suc k) =
    ground
      (arith, pow-suc 2 k, and_pred_even (2 ^ k) (one-le-pow k 2 (omega arith)), and_pred_pow k)

double-IsPowerOfTwo : (w : ℕ) → IsPowerOfTwo w → IsPowerOfTwo (w * 2)
double-IsPowerOfTwo w (k, e) = (suc k, omega (arith, pow-suc 2 k, e))

-- Strong induction, by a bound on the value.
power_of_and_pred : (bound v : ℕ) → v ≤ bound → 0 < v → bit_and v (v - 1) ≡ 0 → IsPowerOfTwo v
power_of_and_pred zero v h p e = absurd (omega arith)
power_of_and_pred (suc bound) v h p e = elim (Bool-cases (v % 2 == 0)) [
  | inl even ↦
      let w = v / 2 in
      let twice : v ≡ w * 2 = ground arith in
      let half : bit_and w (w - 1) * 2 ≡ 0 =
        sym (and_pred_even w (omega arith)) ∙ subst (λ (t : ℕ). bit_and t (t - 1) ≡ 0) twice e in
      subst IsPowerOfTwo (sym twice) (
        double-IsPowerOfTwo w
          (power_of_and_pred bound w (omega arith) (omega arith) (omega (arith, half))))
  | inr odd ↦
      let w = v / 2 in
      let twice : v ≡ w * 2 + 1 = ground arith in
      let less : v - 1 ≡ w * 2 = omega arith in
      let none_left : w * 2 ≡ 0 =
        sym (and_pred_odd w)
        ∙ ap (λ (t : ℕ). bit_and t (w * 2)) (sym twice)
        ∙ ap (λ (t : ℕ). bit_and v t) (sym less)
        ∙ e in
      (0, omega arith)
]

-- On a positive 64-bit word `Pow2` answers true exactly for the powers of two.
pub pow2_iff : (v : ℕ) → 0 < v → v < word → (pow2 v ≡ true) ↔ IsPowerOfTwo v
unfolding pow2
pow2_iff v p h =
    let less : sub64 v 1 ≡ v - 1 = omega arith in
    (
      λ t.
          power_of_and_pred v v (omega arith) p
            (subst (λ (t : ℕ). bit_and v t ≡ 0) less ((==_iff _ 0).0 t)),
      λ (k, e). (==_iff _ 0).1 (rw (less, e) (and_pred_pow k)),
    )
