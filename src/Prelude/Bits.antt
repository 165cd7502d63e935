-- ===== src/Prelude/Bits.antt =====
-- Laws of `bit_and` and `bit_or` at variables, from the recursion on binary digits.
use Prim.Native.Nat.{
  ℕ, zero, suc, ◌+◌, ◌*◌, ◌/◌, ◌%◌, ◌-◌, ◌^◌, ◌≤◌, ◌<◌, min, max, bit_and, bit_or, digits,
  bit_and-bitwise, bit_or-bitwise,
}
use mathlib.Core.Path.{◌≡◌, refl, ap}
use mathlib.Core.WellFounded.{Acc, WellFounded, induction}
use native.Mathlib.Nat.{pow-suc, one-le-pow}
use native.Mathlib.Omega.{arith}

acc_below : (k n : ℕ) → n < k → Acc ◌<◌ n
acc_below zero n h = elim h [ ]
acc_below (suc k) n h = Acc.intro n (λ m below. acc_below k m (omega arith))

pub lt_wf : WellFounded ◌<◌
unfolding acc_below
lt_wf = record { apply = λ n. acc_below (suc n) n (omega arith) }

-- The digit recursion does not depend on its fuel, once there is enough.
module _ (rest : ℕ → ℕ) (op : ℕ → ℕ → ℕ) where
  fuel_irrelevant : (n m a b : ℕ) → a ≤ n → a ≤ m → digits rest op n a b ≡ digits rest op m a b
  fuel_irrelevant zero zero a b p q = refl
  fuel_irrelevant (suc n) zero zero b p q = refl
  fuel_irrelevant zero (suc m) zero b p q = refl
  fuel_irrelevant (suc n) (suc m) zero b p q = refl
  fuel_irrelevant zero _ (suc a) b p q = absurd (omega arith)
  fuel_irrelevant (suc n) zero (suc a) b p q = absurd (omega arith)
  fuel_irrelevant (suc n) (suc m) (suc a) b p q =
      let half = fuel_irrelevant n m (suc a / 2) (b / 2) (omega arith) (omega arith) in
      ap (λ (t : ℕ). t * 2 + op (suc a % 2) (b % 2)) half

-- The lowest digit of a conjunction, and the rest.
pub bit_and_step : (x y : ℕ) → bit_and x y ≡ bit_and (x / 2) (y / 2) * 2 + min (x % 2) (y % 2)
bit_and_step zero y = omega (arith, bit_and-bitwise 0 y, bit_and-bitwise 0 (y / 2))
bit_and_step (suc x) y =
    let half = suc x / 2 in
    let same = fuel_irrelevant (λ z. zero) min x half half (y / 2) (omega arith) (omega arith) in
    omega (arith, bit_and-bitwise (suc x) y, bit_and-bitwise half (y / 2), same)

pub zero-bit_or : (b : ℕ) → bit_or 0 b ≡ b
zero-bit_or b = bit_or-bitwise 0 b

pub bit_or_step : (a b : ℕ) → bit_or a b ≡ bit_or (a / 2) (b / 2) * 2 + max (a % 2) (b % 2)
bit_or_step zero b = omega (arith, zero-bit_or b, zero-bit_or (b / 2))
bit_or_step (suc a) b =
    let half = suc a / 2 in
    omega (
      arith,
      bit_or-bitwise (suc a) b,
      bit_or-bitwise half (b / 2),
      fuel_irrelevant (λ b. b) max a half half (b / 2) (omega arith) (omega arith),
    )

pub bit_and-zero : (a : ℕ) → bit_and a 0 ≡ 0
bit_and-zero a = induction lt_wf {C = λ n. bit_and n 0 ≡ 0} a λ n ih.
    elim n as (λ n. ((m : ℕ) → m < n → bit_and m 0 ≡ 0) → bit_and n 0 ≡ 0) [
      | zero ↦ λ ih. refl
      | suc n ↦ λ ih. omega (arith, bit_and_step (suc n) 0, ih (suc n / 2) (omega arith))
    ]
      ih

pub bit_or-zero : (a : ℕ) → bit_or a 0 ≡ a
bit_or-zero a = induction lt_wf {C = λ n. bit_or n 0 ≡ n} a λ n ih.
    elim n as (λ n. ((m : ℕ) → m < n → bit_or m 0 ≡ m) → bit_or n 0 ≡ n) [
      | zero ↦ λ ih. refl
      | suc n ↦ λ ih. omega (arith, bit_or_step (suc n) 0, ih (suc n / 2) (omega arith))
    ]
      ih

-- A mask of n ones keeps a number of n digits.
pub bit_and_ones : (n v : ℕ) → v < 2 ^ n → bit_and v (2 ^ n - 1) ≡ v
bit_and_ones zero v h = ground (arith, bit_and-zero v)
bit_and_ones (suc n) v h = ground (
  arith,
  pow-suc 2 n,
  one-le-pow n 2,
  bit_and_step v (2 ^ suc n - 1),
  bit_and_ones n (v / 2) (omega (arith, pow-suc 2 n)),
)

two-mul-pow : (q k : ℕ) → q * 2 ^ suc k ≡ 2 * (q * 2 ^ k)
two-mul-pow q k = omega (arith, ap (λ (t : ℕ). q * t) (pow-suc 2 k))

-- A mask of ones above k zeros clears the k low digits.
pub bit_and_clear :
    (k d q r : ℕ)
    → r < 2 ^ k
    → q < 2 ^ d
    → bit_and (q * 2 ^ k + r) ((2 ^ d - 1) * 2 ^ k) ≡ q * 2 ^ k
bit_and_clear zero d q r h b = ground (arith, bit_and_ones d q)
bit_and_clear (suc k) d q r h b = ground (
  arith,
  pow-suc 2 k,
  two-mul-pow q k,
  two-mul-pow (2 ^ d - 1) k,
  bit_and_step (q * 2 ^ suc k + r) ((2 ^ d - 1) * 2 ^ suc k),
  bit_and_clear k d q (r / 2) (omega (arith, pow-suc 2 k)) b,
)

pub bit_and_self : (a : ℕ) → bit_and a a ≡ a
bit_and_self a = induction lt_wf {C = λ n. bit_and n n ≡ n} a λ n ih.
    elim n as (λ n. ((m : ℕ) → m < n → bit_and m m ≡ m) → bit_and n n ≡ n) [
      | zero ↦ λ ih. refl
      | suc n ↦ λ ih. omega (arith, bit_and_step (suc n) (suc n), ih (suc n / 2) (omega arith))
    ]
      ih

pub two_pow_add : (k d : ℕ) → 2 ^ (k + d) ≡ 2 ^ d * 2 ^ k
two_pow_add zero d = ground arith
two_pow_add (suc k) d =
    let e : suc k + d ≡ suc (k + d) = omega arith in
    rw e (omega (arith, pow-suc 2 (k + d), two_pow_add k d, two-mul-pow (2 ^ d) k))
