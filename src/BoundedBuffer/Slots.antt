-- ===== src/BoundedBuffer/Slots.antt =====
-- The slots of the bounded buffer in order, and what a round of `insert` and of `remove` does to them.
use native.Mathlib.Nat.{mod-eq_of_lt, mod_self}
use llheap.Prelude.{
  ℕ, zero, suc, ◌+◌, ◌-◌, ◌%◌, ◌^◌, ◌≤◌, ◌<◌, ◌≡◌, ◌≢◌, ◌∙◌, refl, ap, inl, inr, ltb, if◌then◌else◌,
  none, some, length, List, [], ◌∷◌, ◌++◌, arith, update, update_self, update_ne, ℕ_discrete, ne→==,
  ==_refl, ◌⊎◌,
}
use llheap.BoundedBuffer.{Buffer, bounded_buffer, next_slot, insert, remove}

-- A place past the end, from the start again.
abbrev pub wrap : (size i : ℕ) → ℕ
wrap size i = if ltb i size then i else i - size

next_slot-wrap : (size i : ℕ) → size < 2 ^ 32 → i < size → next_slot i size ≡ wrap size (i + 1)
next_slot-wrap size i small h =
    let plain : (i + 1) % 2 ^ 32 ≡ i + 1 = omega arith in
    elim (ℕ_discrete (i + 1) size) [
      | yes e ↦ rw (plain, e, mod_self) (ground arith)
      | no ne ↦ rw (plain, mod-eq_of_lt {n = i + 1} {m = size} (omega arith)) (ground arith)
    ]

wrap_below : (size i : ℕ) → i < size + size → wrap size i < size
wrap_below size i h = ground arith

wrap_later :
    (size f c : ℕ)
    → f < size
    → c < size
    → wrap size (wrap size (f + c) + 1) ≡ wrap size (f + (c + 1))
wrap_later size f c hf hc = ground arith

wrap_sooner :
    (size f c : ℕ)
    → f < size
    → 0 < c
    → c ≤ size
    → wrap size (f + c) ≡ wrap size (wrap size (f + 1) + (c - 1))
wrap_sooner size f c hf pos hc = ground arith

pub some_injective : {A : Type 0} {a b : A} → some a ≡ some b → a ≡ b
some_injective e = cc

module _ {T : Type 0} where
  -- The `n` elements from place `h` on.
  abbrev pub elements : (f : ℕ → T) (size h n : ℕ) → List T
  elements f size h zero = []
  elements f size h (suc n) = f h ∷ elements f size (wrap size (h + 1)) n

  -- The elements of the buffer, the oldest first.
  abbrev pub contents : Buffer T → List T
  contents b = elements (b.buffer) (b.size) (b.front) (b.count)

  length-elements : (f : ℕ → T) (size h n : ℕ) → length (elements f size h n) ≡ n
  length-elements f size h zero = refl
  length-elements f size h (suc n) = ap suc (length-elements f size (wrap size (h + 1)) n)

  pub length-contents : (b : Buffer T) → length (contents b) ≡ b.count
  length-contents b = length-elements (b.buffer) (b.size) (b.front) (b.count)

  pub record IsValid (b : Buffer T) : Type 0 where
    pub some_slot : 0 < b.size
    pub small : b.size < 2 ^ 32
    pub front_in : b.front < b.size
    pub count_in : b.count ≤ b.size
    pub back_at : b.back ≡ wrap (b.size) (b.front + b.count)

  -- A write past the last element makes it one more.
  elements-update :
      (f : ℕ → T) (size n h i : ℕ) (x : T)
      → h < size
      → n < size
      → i ≡ wrap size (h + n)
      → elements (update f i x) size h (suc n) ≡ elements f size h n ++ (x ∷ [])
  elements-update f size zero h i x hh hn at =
      let here : i ≡ h = ground arith in rw (here, update_self f h x)
  elements-update f size (suc n) h i x hh hn at =
      let before : h ≢ i = ground arith in
      rw (update_ne f i x h before) (
        ap (λ (t : List T). f h ∷ t)
          (elements-update f size n (wrap size (h + 1)) i x (ground arith) (omega arith)
            (ground arith)))

  pub bounded_buffer-IsValid :
      (size : ℕ) (f : ℕ → T) → 0 < size → size < 2 ^ 32 → IsValid (bounded_buffer size f)
  unfolding bounded_buffer
  bounded_buffer-IsValid size f pos small = record {
    some_slot = pos;
    small = small;
    front_in = pos;
    count_in = omega arith;
    back_at = ground arith;
  }

  abbrev pub stored : T → Buffer T → Buffer T
  stored x b = record b {
    buffer = update (b.buffer) (b.back) x;
    count = (b.count + 1) % 2 ^ 32;
    back = next_slot (b.back) (b.size);
  }

  abbrev pub dropped : Buffer T → Buffer T
  dropped b = record b { count = b.count - 1; front = next_slot (b.front) (b.size) }

  pub insert-cases :
      (x : T) (b : Buffer T)
      → IsValid b
      → ((b.count ≡ b.size) × (insert x b ≡ none))
        ⊎ ((b.count < b.size) × (insert x b ≡ some (stored x b)))
  unfolding insert
  insert-cases x b valid = elim (ℕ_discrete (b.count) (b.size)) [
    | yes e ↦ inl (e, rw (e, ==_refl (b.size)) refl)
    | no ne ↦ inr (omega (arith, valid.count_in, ne), rw (ne→== _ _ ne) refl)
  ]

  pub remove-cases :
      (b : Buffer T)
      → ((b.count ≡ 0) × (remove b ≡ none))
        ⊎ ((0 < b.count) × (remove b ≡ some (b.buffer (b.front), dropped b)))
  unfolding remove
  remove-cases b = elim (ℕ_discrete (b.count) 0) [
    | yes e ↦ inl (e, rw e refl)
    | no ne ↦ inr (omega (arith, ne), rw (ne→== _ _ ne) refl)
  ]

  pub stored-IsValid : (x : T) (b : Buffer T) → IsValid b → b.count < b.size → IsValid (stored x b)
  stored-IsValid x b valid some_room =
      let one_more : (b.count + 1) % 2 ^ 32 ≡ b.count + 1 = omega (arith, valid.small, some_room) in
      let back_in =
        wrap_below (b.size) (b.front + b.count) (omega (arith, valid.front_in, some_room)) in
      record {
        some_slot = valid.some_slot;
        small = valid.small;
        front_in = valid.front_in;
        count_in = omega (arith, valid.small, some_room);
        back_at =
            rw (valid.back_at, one_more)
              (next_slot-wrap (b.size) (wrap (b.size) (b.front + b.count)) (valid.small) back_in
                ∙ wrap_later (b.size) (b.front) (b.count) (valid.front_in) some_room);
      }

  pub stored-contents :
      (x : T) (b : Buffer T)
      → IsValid b
      → b.count < b.size
      → contents (stored x b) ≡ contents b ++ (x ∷ [])
  stored-contents x b valid some_room =
      let one_more : (b.count + 1) % 2 ^ 32 ≡ suc (b.count) =
        omega (arith, valid.small, some_room) in
      rw one_more (
        elements-update (b.buffer) (b.size) (b.count) (b.front) (b.back) x (valid.front_in)
          some_room (valid.back_at))

  pub dropped-IsValid : (b : Buffer T) → IsValid b → 0 < b.count → IsValid (dropped b)
  dropped-IsValid b valid some_element =
      let next = next_slot-wrap (b.size) (b.front) (valid.small) (valid.front_in) in
      record {
        some_slot = valid.some_slot;
        small = valid.small;
        front_in = rw next (wrap_below (b.size) (b.front + 1) (omega (arith, valid.front_in)));
        count_in = omega (arith, valid.count_in);
        back_at =
            valid.back_at
            ∙ rw next (
                wrap_sooner (b.size) (b.front) (b.count) (valid.front_in) some_element
                  (valid.count_in));
      }

  elements_pos :
      (f : ℕ → T) (size h n : ℕ)
      → 0 < n
      → elements f size h n ≡ f h ∷ elements f size (wrap size (h + 1)) (n - 1)
  elements_pos f size h zero pos = absurd (omega (arith, pos))
  elements_pos f size h (suc n) pos = ap (λ k. elements f size h (suc k)) (omega arith)

  pub dropped-contents :
      (b : Buffer T)
      → IsValid b
      → 0 < b.count
      → contents b ≡ b.buffer (b.front) ∷ contents (dropped b)
  dropped-contents b valid some_element =
      rw (next_slot-wrap (b.size) (b.front) (valid.small) (valid.front_in))
        (elements_pos (b.buffer) (b.size) (b.front) (b.count) some_element)
