-- ===== src/Header/Bits.antt =====
-- The sticky-bit masks as arithmetic on the header's first word.
use llheap.Prelude.{ℕ, ◌+◌, ◌-◌, ◌*◌, ◌/◌, ◌%◌, ◌^◌, ◌<◌, bit_and, bit_or, ◌≡◌, arith, ap, ◌∙◌}
use llheap.Prelude.Bits.{
  bit_and_step, bit_or_step, bit_and-zero, bit_or-zero, bit_and_clear, bit_and_ones,
}
use llheap.Word.{word}

pub and_one : (a : ℕ) → bit_and a 1 ≡ a % 2
and_one a = ground (arith, bit_and_step a 1, bit_and-zero (a / 2))

pub and_two : (a : ℕ) → bit_and a 2 ≡ a / 2 % 2 * 2
and_two a = ground (arith, bit_and_step a 2, and_one (a / 2))

pub and_four : (a : ℕ) → bit_and a 4 ≡ a / 4 % 2 * 4
and_four a = ground (arith, bit_and_step a 4, and_two (a / 2))

and_three : (a : ℕ) → bit_and a 3 ≡ a % 4
and_three a = ground (arith, bit_and_step a 3, and_one (a / 2))

pub and_seven : (a : ℕ) → bit_and a 7 ≡ a % 8
and_seven a = ground (arith, bit_and_step a 7, and_three (a / 2))

pub or_one : (a : ℕ) → bit_or a 1 ≡ a / 2 * 2 + 1
or_one a = ground (arith, bit_or_step a 1, bit_or-zero (a / 2))

pub or_two : (a : ℕ) → bit_or a 2 ≡ a / 4 * 4 + 2 + a % 2
or_two a = ground (arith, bit_or_step a 2, or_one (a / 2))

pub or_four : (a : ℕ) → bit_or a 4 ≡ a / 8 * 8 + 4 + a % 4
or_four a = ground (arith, bit_or_step a 4, or_two (a / 2))

pub and_not_one : (a : ℕ) → a < word → bit_and a (word - 2) ≡ a / 2 * 2
and_not_one a h =
    let e : a ≡ a / 2 * 2 ^ 1 + a % 2 = omega arith in
    ap (λ (t : ℕ). bit_and t (word - 2)) e
    ∙ bit_and_clear 1 63 (a / 2) (a % 2) (omega arith) (omega arith)

pub and_not_seven : (a : ℕ) → a < word → bit_and a (word - 8) ≡ a / 8 * 8
and_not_seven a h =
    let e : a ≡ a / 8 * 2 ^ 3 + a % 8 = omega arith in
    ap (λ (t : ℕ). bit_and t (word - 8)) e
    ∙ bit_and_clear 3 61 (a / 8) (a % 8) (omega arith) (omega arith)

pub and_not_two : (a : ℕ) → a < word → bit_and a (word - 3) ≡ a / 4 * 4 + a % 2
and_not_two a h = ground (
  arith,
  bit_and_step a (word - 3),
  bit_and_step (a / 2) ((word - 3) / 2),
  bit_and_ones 62 (a / 2 / 2) (omega arith),
)
