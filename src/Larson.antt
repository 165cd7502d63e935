-- ===== src/Larson.antt =====
-- larson.cc: the random numbers that the benchmark draws its sizes and victims from, `lran2`.
-- A `long` of the generator is never negative and stays below 2 ^ 31, so it is a natural number.
pub mod Shuffle
use llheap.Prelude.{
  ℕ, zero, suc, ◌+◌, ◌-◌, ◌*◌, ◌%◌, ◌^◌, ◌≤◌, ◌<◌, ◌≡◌, refl, arith, ltb, if◌then◌else◌, Bool-cases,
  inl, inr, ℕ_discrete, update, update_self, update_ne,
}

-- `LRAN2_MAX`
abbrev pub lran2_max : ℕ
lran2_max = 714025

-- `IA`
abbrev pub ia : ℕ
ia = 1366

-- `IC`
abbrev pub ic : ℕ
ic = 150889

-- `struct lran2_st`: the array `v` has 97 elements.
pub record Lran2 : Type 0 where
  pub x : ℕ
  pub y : ℕ
  pub v : ℕ → ℕ

-- `( IA * x + IC ) % LRAN2_MAX`
abbrev pub next_x : ℕ → ℕ
next_x x = (ia * x + ic) % lran2_max

-- The loop of `lran2_init` from element `j` on, with `n` rounds left: the last `x`, and the array.
unfoldable pub fill_v : (n j x : ℕ) → (ℕ → ℕ) → ℕ × (ℕ → ℕ)
fill_v zero j x v = (x, v)
fill_v (suc n) j x v = fill_v n (j + 1) (next_x x) (update v j (next_x x))

-- `lran2_init` for a seed that is not negative: `%` of C keeps the sign, which is then dropped.
unfoldable pub lran2_init : (seed : ℕ) → Lran2 → Lran2
unfolding fill_v
lran2_init seed d =
    let first = (if ltb ic seed then seed - ic else ic - seed) % lran2_max in
    let (x, v) = fill_v 97 0 first (d.v) in record { x = next_x x; y = next_x x; v = v }

-- `lran2`
unfoldable pub lran2 : Lran2 → ℕ × Lran2
lran2 d =
    let j = d.y % 97 in
    let x = next_x d.x in (d.v j, record { x = x; y = d.v j; v = update (d.v) j x })

-- The generator after its start.
pub record IsSeeded (d : Lran2) : Type 0 where
  pub small_x : d.x < lran2_max
  pub small_y : d.y < lran2_max
  pub small_v : (j : ℕ) → j < 97 → d.v j < lran2_max

fill_v-small :
    (n j x : ℕ) (v : ℕ → ℕ)
    → x < lran2_max
    → ((i : ℕ) → i < j → v i < lran2_max)
    → ((fill_v n j x v).0 < lran2_max) × ((i : ℕ) → i < j + n → (fill_v n j x v).1 i < lran2_max)
unfolding fill_v
fill_v-small zero j x v small done = (small, λ i h. done i (omega arith))
fill_v-small (suc n) j x v small done =
    let (last, all) =
      fill_v-small n (j + 1) (next_x x) (update v j (next_x x)) (omega arith) (λ i h.
        elim (ℕ_discrete i j) [
          | yes e ↦ rw (e, update_self v j (next_x x)) (omega arith)
          | no ne ↦ rw (update_ne v j (next_x x) i ne) (done i (omega (arith, ne)))
        ]) in
    (last, λ i h. all i (omega arith))

next_x-small : (x : ℕ) → next_x x < lran2_max
next_x-small x = omega arith

-- The generator after the fill of its array.
filled-IsSeeded :
    (n x : ℕ) (v : ℕ → ℕ)
    → 97 ≤ n
    → x < lran2_max
    → IsSeeded (record {
      x = next_x (fill_v n 0 x v).0;
      y = next_x (fill_v n 0 x v).0;
      v = (fill_v n 0 x v).1;
    })
filled-IsSeeded n x v enough small = record {
  small_x = next_x-small (fill_v n 0 x v).0;
  small_y = next_x-small (fill_v n 0 x v).0;
  small_v = λ i h.
      (fill_v-small n 0 x v small (λ k none. absurd (omega (arith, none)))).1 i
        (omega (arith, h, enough));
}

start_small : (seed : ℕ) → (if ltb ic seed then seed - ic else ic - seed) % lran2_max < lran2_max
start_small seed = elim (Bool-cases (ltb ic seed)) [
  | inl later ↦ rw later (omega arith)
  | inr sooner ↦ rw sooner (omega arith)
]

lran2_init-IsSeeded : (seed : ℕ) (d : Lran2) → IsSeeded (lran2_init seed d)
unfolding lran2_init
lran2_init-IsSeeded seed d = filled-IsSeeded 97 _ (d.v) (omega arith) (start_small seed)

lran2-IsSeeded : (e : Lran2) → IsSeeded e → IsSeeded (lran2 e).1
unfolding lran2
lran2-IsSeeded e seeded =
    let j = e.y % 97 in
    let x = next_x e.x in
    record {
      small_x = next_x-small e.x;
      small_y = seeded.small_v j (omega arith);
      small_v = λ i h. elim (ℕ_discrete i j) [
        | yes q ↦ rw (q, update_self (e.v) j x) (next_x-small e.x)
        | no ne ↦ rw (update_ne (e.v) j x i ne) (seeded.small_v i h)
      ];
    }

-- For any seed that is not negative the generator starts with x, y and all 97 elements below
-- `LRAN2_MAX`, whatever they were before. From such numbers each draw is the element that the last draw
-- chose, is below `LRAN2_MAX`, chooses the next element, computes below 2 ^ 31, and leaves such numbers.
pub lran2_lem :
    (seed : ℕ) (d e : Lran2)
    → IsSeeded e
    → IsSeeded (lran2_init seed d)
      × ((lran2 e).0 < lran2_max)
      × ((lran2 e).0 ≡ e.v (e.y % 97))
      × ((lran2 e).1.y ≡ (lran2 e).0)
      × (ia * e.x + ic < 2 ^ 31)
      × IsSeeded (lran2 e).1
unfolding lran2
lran2_lem seed d e seeded = (
  lran2_init-IsSeeded seed d,
  seeded.small_v (e.y % 97) (omega arith),
  refl,
  refl,
  omega (arith, seeded.small_x),
  lran2-IsSeeded e seeded,
)
