-- ===== src/Memory.antt =====
-- `memset` and `memcpy` on the user's bytes.
use llheap.Prelude.{ℕ, ◌+◌, ◌-◌, ◌≤◌, ◌<◌, ◌⊎◌, ◌&&◌, ◌≡◌, leb, ltb, if◌then◌else◌, arith}
use llheap.Machine.{Cmd, modify}

unfoldable pub fill : (at n value : ℕ) → (ℕ → ℕ) → ℕ → ℕ
fill at n value bytes a = if leb at a && ltb a (at + n) then value else bytes a

unfoldable pub copy : (to from n : ℕ) → (ℕ → ℕ) → ℕ → ℕ
copy to from n bytes a = if leb to a && ltb a (to + n) then bytes (from + (a - to)) else bytes a

abbrev pub memset : (at value n : ℕ) → Cmd (Unit {0})
memset at value n = modify (λ m. record m { bytes = fill at n value (m.bytes) })

abbrev pub memcpy : (to from n : ℕ) → Cmd (Unit {0})
memcpy to from n = modify (λ m. record m { bytes = copy to from n (m.bytes) })

pub copy_outside :
    (to from n : ℕ) (bytes : ℕ → ℕ) (a : ℕ)
    → (a < to) ⊎ (to + n ≤ a)
    → copy to from n bytes a ≡ bytes a
unfolding copy
copy_outside to from n bytes a out = ground arith

pub fill_outside :
    (at n v : ℕ) (bytes : ℕ → ℕ) (a : ℕ) → (a < at) ⊎ (at + n ≤ a) → fill at n v bytes a ≡ bytes a
unfolding fill
fill_outside at n v bytes a out = ground arith

pub fill_inside :
    (at n v : ℕ) (bytes : ℕ → ℕ) (a : ℕ) → at ≤ a → a < at + n → fill at n v bytes a ≡ v
unfolding fill
fill_inside at n v bytes a p q = ground arith

pub copy_inside :
    (to from n : ℕ) (bytes : ℕ → ℕ) (i : ℕ)
    → i < n
    → copy to from n bytes (to + i) ≡ bytes (from + i)
unfolding copy
copy_inside to from n bytes i p = ground arith
