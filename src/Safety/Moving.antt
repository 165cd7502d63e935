-- ===== src/Safety/Moving.antt =====
-- The steps of `realloc` to another block that leave the layout as it is: the count, the copy, and the
-- zero-fill mark.
use llheap.Prelude.{ℕ, ℕ_discrete, ◌≡◌, inl, inr, refl, true, arith, update, update_self, update_ne}
use llheap.Header.{mark_zero_filled_bit}
use llheap.Stats.{Row, count_calls}
use llheap.Machine.{Machine}
use llheap.Memory.{copy}
use llheap.Arena.{Layout}
use llheap.Safety.Alike.{Alike}
use llheap.Safety.Resized.{Adjusts}

-- The machine after the count of a `realloc` that has to move.
abbrev pub moving : Machine → Machine
moving m =
    let heap = m.heap_manager in
    record m {
      heaps =
          update (m.heaps) heap
            (record (m.heaps heap) { stats = count_calls Row.reallocx ((m.heaps heap).stats) });
    }

pub moving-Alike : (l : Layout) (m : Machine) → Alike l m (moving m)
unfolding update
moving-Alike l m = record {
  manager = refl;
  table = refl;
  master = refl;
  calls = omega arith;
  start = ground arith;
  room = ground arith;
  buckets = refl;
  links = λ c d at. inl refl;
}

-- The user's bytes have changed.
pub written-Alike :
    (l : Layout) (m : Machine) (bytes : ℕ → ℕ) → Alike l m (record m { bytes = bytes })
written-Alike l m bytes = record {
  manager = refl;
  table = refl;
  master = refl;
  calls = omega arith;
  start = refl;
  room = refl;
  buckets = refl;
  links = λ c d at. inl refl;
}

abbrev pub copied : Machine → (to from n : ℕ) → Machine
copied m to from n = record m { bytes = copy to from n (m.bytes) }

pub copied-Alike : (l : Layout) (m : Machine) (to from n : ℕ) → Alike l m (copied m to from n)
copied-Alike l m to from n = written-Alike l m (copy to from n (m.bytes))

pub mark-Adjusts :
    (l : Layout) (m : Machine) (p from to : ℕ)
    → l.live p ≡ true
    → Adjusts l from to m
        (record m { headers = update (m.headers) p (mark_zero_filled_bit (m.headers p)) })
unfolding mark_zero_filled_bit
mark-Adjusts l m p from to live = record {
  alike = record {
    manager = refl;
    table = refl;
    master = refl;
    calls = omega arith;
    start = refl;
    room = refl;
    buckets = refl;
    links = λ c d at. elim (ℕ_discrete c p) [
      | yes e ↦ inr (rw e live, rw (e, update_self (m.headers) p _) refl)
      | no ne ↦ inl (rw (update_ne (m.headers) p _ c ne) refl)
    ];
  };
  sizes = λ c. elim (ℕ_discrete c p) [
    | yes e ↦ rw (e, update_self (m.headers) p _) refl
    | no ne ↦ rw (update_ne (m.headers) p _ c ne) refl
  ];
  outside = λ x out. refl;
}
