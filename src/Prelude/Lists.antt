-- ===== src/Prelude/Lists.antt =====
-- Lists measured and indexed by native numbers, under the library's names.
use Prim.Native.Nat.{ℕ, zero, suc}
use mathlib.Core.Path.{◌≡◌, refl, ap}
use mathlib.Core.List.{List, [], ◌∷◌}

module _ {ℓ} {A : Type ℓ} where
  abbrev pub length : List A → ℕ
  length [] = 0
  length (x ∷ xs) = suc (length xs)

  -- A read past the end gives the default.
  unfoldable pub get_or : List A → ℕ → A → A
  get_or [] i d = d
  get_or (x ∷ xs) zero d = x
  get_or (x ∷ xs) (suc i) d = get_or xs i d

  -- One less: `x` is taken out of the first list.
  pub data Drop (x : A) : List A → List A → Type ℓ where
    first : (xs : List A) → Drop x (x ∷ xs) xs
    later : (y : A) {xs ys : List A} → Drop x xs ys → Drop x (y ∷ xs) (y ∷ ys)

  pub length-Drop : {x : A} {xs ys : List A} → Drop x xs ys → length xs ≡ suc (length ys)
  length-Drop (first xs) = refl
  length-Drop (later y d) = ap suc (length-Drop d)
