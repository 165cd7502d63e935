-- ===== src/Arena/Linked.antt =====
-- Blocks linked through the first word of their headers, as on a free list.
use llheap.Prelude.{
  ℕ, ◌≡◌, ◌≢◌, refl, ◌⊎◌, inl, inr, List, [], ◌∷◌, ◌++◌, sym, ◌∙◌, ap, update, update_ne,
}
use llheap.Header.{Header}
use llheap.Machine.{null}

abbrev pub In : ℕ → List ℕ → Type 0
In a [] = ⊥
In a (x ∷ xs) = (a ≡ x) ⊎ In a xs

abbrev pub IsDistinct : List ℕ → Type 0
IsDistinct [] = Unit {0}
IsDistinct (x ∷ xs) = (¬ (In x xs)) × IsDistinct xs

-- From `p` the links lead through the blocks `xs` to null.
abbrev pub Chain : (ℕ → Header) → ℕ → List ℕ → Type 0
Chain hd p [] = p ≡ null
Chain hd p (x ∷ xs) = (p ≡ x) × (x ≢ null) × Chain hd (hd x).word0 xs

-- A chain survives a change of headers that spares the links of its own blocks.
pub Chain-frame :
    (hd hd' : ℕ → Header) (p : ℕ) (xs : List ℕ)
    → Chain hd p xs
    → ((a : ℕ) → In a xs → (hd' a).word0 ≡ (hd a).word0)
    → Chain hd' p xs
Chain-frame hd hd' p [] c same = c
Chain-frame hd hd' p (x ∷ xs) (e, ne, rest) same =
    (e, ne, rw (same x (inl refl)) (Chain-frame hd hd' _ xs rest (λ a i. same a (inr i))))

pub Chain-update :
    (hd : ℕ → Header) (q : ℕ) (h : Header) (p : ℕ) (xs : List ℕ)
    → Chain hd p xs
    → ¬ (In q xs)
    → Chain (update hd q h) p xs
Chain-update hd q h p xs c out =
    Chain-frame hd (update hd q h) p xs c
      (λ a i. ap (λ (k : Header). k.word0) (update_ne hd q h a (λ e. out (rw (← e) i))))

-- A list that starts at a block other than null is not empty.
pub Chain-cons :
    (hd : ℕ → Header) (p : ℕ) (xs : List ℕ)
    → Chain hd p xs
    → p ≢ null
    → (rest : List ℕ) × (xs ≡ p ∷ rest)
Chain-cons hd p [] c ne = absurd (ne c)
Chain-cons hd p (x ∷ xs) (e, _, _) ne = (xs, ap (λ (y : ℕ). y ∷ xs) (sym e))

pub Chain-nil : (hd : ℕ → Header) (p : ℕ) (xs : List ℕ) → Chain hd p xs → p ≡ null → xs ≡ []
Chain-nil hd p [] c e = refl
Chain-nil hd p (x ∷ xs) (f, ne, _) e = absurd (ne (sym f ∙ e))

pub In-append : (a : ℕ) (xs ys : List ℕ) → In a (xs ++ ys) → In a xs ⊎ In a ys
In-append a [] ys i = inr i
In-append a (x ∷ xs) ys (inl e) = inl (inl e)
In-append a (x ∷ xs) ys (inr i) = elim (In-append a xs ys i) [ inl j ↦ inl (inr j) | inr j ↦ inr j ]

pub In-left : (a : ℕ) (xs ys : List ℕ) → In a xs → In a (xs ++ ys)
In-left a [] ys i = absurd i
In-left a (x ∷ xs) ys (inl e) = inl e
In-left a (x ∷ xs) ys (inr i) = inr (In-left a xs ys i)

pub In-right : (a : ℕ) (xs ys : List ℕ) → In a ys → In a (xs ++ ys)
In-right a [] ys i = i
In-right a (x ∷ xs) ys i = inr (In-right a xs ys i)
