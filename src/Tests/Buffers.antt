-- ===== src/Tests/Buffers.antt =====
-- A buffer of one slot, with one thread that inserts twice and one that removes.
use llheap.Prelude.{ℕ, ◌≤◌, ◌<◌, ◌≡◌, refl, [], ◌∷◌, ◌++◌, length, first, arith, update}
use llheap.BoundedBuffer.{
  Buffer, bounded_buffer, insert, remove, Monitor, wakes_one, calls_insert, inserts, insert_waits,
  calls_remove, removes, fresh, Reach, start, then_step,
}
use llheap.BoundedBuffer.Slots.{contents}
use llheap.BoundedBuffer.Fifo.{Reach-Fifo}
use llheap.BoundedBuffer.Wakes.{IsAwake, Reach-IsAwake}

abbrev one_slot : Monitor ℕ
one_slot = fresh 1 (λ i. 0)

abbrev filled : Buffer ℕ
filled = record { size = 1; front = 0; back = 0; count = 1; buffer = update (λ i. 0) 0 5 }

abbrev emptied : Buffer ℕ
emptied = record { size = 1; front = 0; back = 0; count = 0; buffer = update (λ i. 0) 0 5 }

-- The element 5 went through, and the thread with 6 was woken.
abbrev last : Monitor ℕ
last = record {
  buffer = emptied;
  inserting = 6 ∷ [];
  prod = [];
  removing = 0;
  cons = 0;
  given = 5 ∷ [];
  taken = 5 ∷ [];
}

last-Reach : Reach one_slot last
unfolding bounded_buffer insert remove update
last-Reach =
    then_step
      (then_step
        (then_step
          (then_step
            (then_step (then_step start (calls_insert 5)) (inserts 5 [] filled (first []) refl))
            (calls_insert 6))
          (insert_waits 6 [] (first []) refl))
        calls_remove)
      (removes 0 5 emptied (6 ∷ []) [] refl refl (wakes_one 6 (first [])))

Reach-Fifo_example : ((5 ∷ []) ≡ (5 ∷ []) ++ contents emptied) × (length (contents emptied) ≤ 1)
Reach-Fifo_example = Reach-Fifo 1 (λ i. 0) last (omega arith) (omega arith) last-Reach

Reach-IsAwake_example :
    IsAwake 1 last
    × ¬ ((last.inserting ≡ []) × (last.removing ≡ 0) × (0 < last.cons) × (0 < length (last.prod)))
Reach-IsAwake_example = Reach-IsAwake 1 (λ i. 0) last (omega arith) (omega arith) last-Reach
