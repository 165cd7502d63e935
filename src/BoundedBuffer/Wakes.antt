-- ===== src/BoundedBuffer/Wakes.antt =====
-- The signals of the bounded buffer: no thread sleeps for good while there is something for it to do.
use llheap.Prelude.{
  ℕ, ◌+◌, ◌^◌, ◌≤◌, ◌<◌, ◌≡◌, ◌∙◌, sym, refl, inl, inr, none, some, List, [], length, length-Drop,
  arith, ap, ne→==,
}
use llheap.BoundedBuffer.{
  Buffer, bounded_buffer, insert, remove, Monitor, Signal, nobody, wakes_one, Step, calls_insert,
  inserts, insert_waits, insert_wakes, calls_remove, removes, remove_waits, remove_wakes, fresh,
  Reach, start, then_step,
}
use llheap.BoundedBuffer.Slots.{stored, dropped, insert-cases, remove-cases, some_injective}
use llheap.BoundedBuffer.Fifo.{IsFifo, Step-IsFifo, fresh-IsFifo}

module _ {T : Type 0} where
  -- While a thread waits in `remove`, enough threads are about to remove what is in the buffer; while
  -- one waits in `insert`, enough are about to fill its free slots.
  pub record IsAwake (size : ℕ) (s : Monitor T) : Type 0 where
    pub removers : 0 < s.cons → s.buffer.count ≤ s.removing
    pub inserters : 0 < length (s.prod) → size ≤ s.buffer.count + length (s.inserting)

  inserted-count :
      (size : ℕ) (s : Monitor T) (x : T) (b : Buffer T)
      → IsFifo size s
      → insert x (s.buffer) ≡ some b
      → b.count ≡ s.buffer.count + 1
  inserted-count size s x b fifo run = elim (insert-cases x (s.buffer) (fifo.valid)) [
    | inl (_, full) ↦ absurd (let no : some b ≡ none = sym run ∙ full in cc)
    | inr (room, done) ↦
        let is : b ≡ stored x (s.buffer) = some_injective (sym run ∙ done) in
        rw is (omega (arith, room, fifo.valid.small))
  ]

  removed-count :
      (s : Monitor T) (x : T) (b : Buffer T)
      → remove (s.buffer) ≡ some (x, b)
      → s.buffer.count ≡ b.count + 1
  removed-count s x b run = elim (remove-cases (s.buffer)) [
    | inl (_, empty) ↦ absurd (let no : some (x, b) ≡ none = sym run ∙ empty in cc)
    | inr (pos, done) ↦
        let is : b ≡ dropped (s.buffer) =
          ap (λ (p : T × Buffer T). p.1) (some_injective (sym run ∙ done)) in
        rw is (omega (arith, pos))
  ]

  full-count :
      (size : ℕ) (s : Monitor T) (x : T)
      → IsFifo size s
      → insert x (s.buffer) ≡ none
      → s.buffer.count ≡ size
  full-count size s x fifo run = elim (insert-cases x (s.buffer) (fifo.valid)) [
    | inl (full, _) ↦ full ∙ fifo.sized
    | inr (room, done) ↦ absurd (let no : some (stored x (s.buffer)) ≡ none = sym done ∙ run in cc)
  ]

  empty-count : (s : Monitor T) → remove (s.buffer) ≡ none → s.buffer.count ≡ 0
  empty-count s run = elim (remove-cases (s.buffer)) [
    | inl (empty, _) ↦ empty
    | inr (pos, done) ↦ absurd (
        let no : some (s.buffer.buffer (s.buffer.front), dropped (s.buffer)) ≡ none =
          sym done ∙ run in
        cc)
  ]

  -- If a thread still waits in `insert` after a signal, the signal has woken one.
  Signal-length :
      {inserting prod inserting' prod' : List T}
      → Signal inserting prod inserting' prod'
      → 0 < length prod'
      → (length inserting' ≡ length inserting + 1) × (0 < length prod)
  Signal-length nobody pos = absurd (omega (arith, pos))
  Signal-length (wakes_one x drop) pos = (omega arith, omega (arith, length-Drop drop))

  Step-IsAwake :
      {size : ℕ} {s t : Monitor T} → Step s t → IsFifo size s → IsAwake size s → IsAwake size t
  Step-IsAwake (calls_insert x) fifo awake = record {
    removers = awake.removers;
    inserters = λ h. omega (arith, awake.inserters h);
  }
  Step-IsAwake {size} {s} (inserts x rest b drop run) fifo awake =
      let more = inserted-count size s x b fifo run in
      record {
        removers = λ h.
            rw (ne→== (s.cons) 0 (omega arith)) (omega (arith, more, awake.removers (omega arith)));
        inserters = λ h. omega (arith, more, length-Drop drop, awake.inserters h);
      }
  Step-IsAwake {size} {s} (insert_waits x rest drop run) fifo awake = record {
    removers = awake.removers;
    inserters = λ h. omega (arith, full-count size s x fifo run);
  }
  Step-IsAwake (insert_wakes x rest drop) fifo awake = record {
    removers = awake.removers;
    inserters = λ h. omega (arith, awake.inserters (omega (arith, length-Drop drop)));
  }
  Step-IsAwake calls_remove fifo awake = record {
    removers = λ h. omega (arith, awake.removers h);
    inserters = awake.inserters;
  }
  Step-IsAwake {size} {s} (removes k x b inserting prod one run sig) fifo awake =
      let less = removed-count s x b run in
      record {
        removers = λ h. omega (arith, one, less, awake.removers h);
        inserters = λ h.
            let (more, some_asleep) = Signal-length sig h in
            omega (arith, more, less, awake.inserters some_asleep);
      }
  Step-IsAwake {size} {s} (remove_waits k one run) fifo awake = record {
    removers = λ h. omega (arith, empty-count s run);
    inserters = awake.inserters;
  }
  Step-IsAwake (remove_wakes k one) fifo awake = record {
    removers = λ h. omega (arith, one, awake.removers (omega (arith, one)));
    inserters = awake.inserters;
  }

  Reach-both :
      {size : ℕ} {s t : Monitor T}
      → Reach s t
      → IsFifo size s
      → IsAwake size s
      → IsFifo size t × IsAwake size t
  Reach-both start fifo awake = (fifo, awake)
  Reach-both (then_step r step) fifo awake =
      let (f, a) = Reach-both r fifo awake in (Step-IsFifo step f, Step-IsAwake step f a)

  -- From a new buffer of at least one and fewer than 2 ^ 32 slots, after any steps of its threads:
  -- while a thread waits in `remove`, at least as many threads are about to remove as there are
  -- elements in the buffer; while one waits in `insert`, at least as many are about to insert as
  -- there are free slots. So if all threads inside `insert` and `remove` are asleep, then those in
  -- `remove` only while the buffer is empty, those in `insert` only while it is full, and never
  -- threads of both kinds: the one signal for each operation loses no wake-up.
  pub Reach-IsAwake :
      (size : ℕ) (f : ℕ → T) (t : Monitor T)
      → 0 < size
      → size < 2 ^ 32
      → Reach (fresh size f) t
      → IsAwake size t
        × ¬ ((t.inserting ≡ []) × (t.removing ≡ 0) × (0 < t.cons) × (0 < length (t.prod)))
  unfolding bounded_buffer
  Reach-IsAwake size f t pos small r =
      let (_, awake) =
        Reach-both r (fresh-IsFifo size f pos small) (record {
          removers = λ h. omega (arith, h);
          inserters = λ h. absurd (omega (arith, h));
        }) in
      (
        awake,
        λ (none_in, none_out, asleep, asleep').
            let few = awake.removers asleep in
            let full = awake.inserters asleep' in
            let nobody : length (t.inserting) ≡ 0 = rw none_in refl in
            omega (arith, few, full, nobody, none_out, pos),
      )
