-- ===== src/BoundedBuffer/Fifo.antt =====
-- The bounded buffer is a queue: what is removed is what was inserted, in the same order.
use mathlib.Core.List.{append_assoc}
use llheap.Prelude.{
  ℕ, ◌^◌, ◌≤◌, ◌<◌, ◌≡◌, ◌∙◌, sym, refl, ap, inl, inr, none, some, length, List, [], ◌∷◌, ◌++◌,
}
use llheap.BoundedBuffer.{
  Buffer, bounded_buffer, Monitor, Step, calls_insert, inserts, insert_waits, insert_wakes,
  calls_remove, removes, remove_waits, remove_wakes, fresh, Reach, start, then_step,
}
use llheap.BoundedBuffer.Slots.{
  IsValid, contents, length-contents, stored, dropped, insert-cases, remove-cases, stored-IsValid,
  stored-contents, dropped-IsValid, dropped-contents, bounded_buffer-IsValid, some_injective,
}

module _ {T : Type 0} where
  -- What the monitor keeps: all that was inserted was removed or is in the buffer, in order.
  pub record IsFifo (size : ℕ) (s : Monitor T) : Type 0 where
    pub valid : IsValid (s.buffer)
    pub sized : s.buffer.size ≡ size
    pub order : s.given ≡ s.taken ++ contents (s.buffer)

  pub Step-IsFifo : {size : ℕ} {s t : Monitor T} → Step s t → IsFifo size s → IsFifo size t
  Step-IsFifo (calls_insert x) fifo = record {
    valid = fifo.valid;
    sized = fifo.sized;
    order = fifo.order;
  }
  Step-IsFifo {s} (inserts x rest b drop run) fifo = elim (insert-cases x (s.buffer) (fifo.valid)) [
    | inl (_, full) ↦ absurd (let no : some b ≡ none = sym run ∙ full in cc)
    | inr (room, done) ↦
        let is : b ≡ stored x (s.buffer) = some_injective (sym run ∙ done) in
        rw is (record {
          valid = stored-IsValid x (s.buffer) (fifo.valid) room;
          sized = fifo.sized;
          order =
              rw (stored-contents x (s.buffer) (fifo.valid) room, fifo.order)
                (append_assoc (s.taken) (contents (s.buffer)) (x ∷ []));
        })
  ]
  Step-IsFifo (insert_waits x rest drop run) fifo = record {
    valid = fifo.valid;
    sized = fifo.sized;
    order = fifo.order;
  }
  Step-IsFifo (insert_wakes x rest drop) fifo = record {
    valid = fifo.valid;
    sized = fifo.sized;
    order = fifo.order;
  }
  Step-IsFifo calls_remove fifo = record {
    valid = fifo.valid;
    sized = fifo.sized;
    order = fifo.order;
  }
  Step-IsFifo {s} (removes k x b inserting prod one run sig) fifo = elim (remove-cases (s.buffer)) [
    | inl (_, empty) ↦ absurd (let no : some (x, b) ≡ none = sym run ∙ empty in cc)
    | inr (pos, done) ↦
        let is : (x, b) ≡ (s.buffer.buffer (s.buffer.front), dropped (s.buffer)) =
          some_injective (sym run ∙ done) in
        let element : x ≡ s.buffer.buffer (s.buffer.front) = ap (λ (p : T × Buffer T). p.0) is in
        let rest : b ≡ dropped (s.buffer) = ap (λ (p : T × Buffer T). p.1) is in
        rw (rest, element)
          (record {
            valid = dropped-IsValid (s.buffer) (fifo.valid) pos;
            sized = fifo.sized;
            order =
                fifo.order
                ∙ ap (λ (xs : List T). s.taken ++ xs) (dropped-contents (s.buffer) (fifo.valid) pos)
                ∙ sym (append_assoc (s.taken) (s.buffer.buffer (s.buffer.front) ∷ []) _);
          })
  ]
  Step-IsFifo (remove_waits k one run) fifo = record {
    valid = fifo.valid;
    sized = fifo.sized;
    order = fifo.order;
  }
  Step-IsFifo (remove_wakes k one) fifo = record {
    valid = fifo.valid;
    sized = fifo.sized;
    order = fifo.order;
  }

  Reach-IsFifo : {size : ℕ} {s t : Monitor T} → Reach s t → IsFifo size s → IsFifo size t
  Reach-IsFifo start fifo = fifo
  Reach-IsFifo (then_step r step) fifo = Step-IsFifo step (Reach-IsFifo r fifo)

  pub fresh-IsFifo : (size : ℕ) (f : ℕ → T) → 0 < size → size < 2 ^ 32 → IsFifo size (fresh size f)
  unfolding bounded_buffer
  fresh-IsFifo size f pos small = record {
    valid = bounded_buffer-IsValid size f pos small;
    sized = refl;
    order = refl;
  }

  -- From a new buffer of at least one and fewer than 2 ^ 32 slots, whatever threads insert, remove,
  -- wait and wake up in whatever order: the elements inserted so far are those removed so far followed
  -- by those in the buffer, in the order of their insertion, so that each element is removed at most
  -- once, none is lost, and none is overwritten; and never are there more in the buffer than its size.
  pub Reach-Fifo :
      (size : ℕ) (f : ℕ → T) (t : Monitor T)
      → 0 < size
      → size < 2 ^ 32
      → Reach (fresh size f) t
      → (t.given ≡ t.taken ++ contents (t.buffer)) × (length (contents (t.buffer)) ≤ size)
  Reach-Fifo size f t pos small r =
      let fifo = Reach-IsFifo r (fresh-IsFifo size f pos small) in
      (fifo.order, rw (length-contents (t.buffer), ← fifo.sized) (fifo.valid.count_in))
