-- ===== src/Safety/Alike.antt =====
-- Machines that differ only in what a heap's storage does not rest on: counters, the sizes and the
-- zero-fill marks in the headers, headers of what is no block of the heap, the user's bytes, and calls of the system.
use llheap.Prelude.{ℕ, ◌%◌, ◌<◌, ◌≤◌, ◌≡◌, ◌⊎◌, ◌∙◌, sym, inl, inr, true, false, some, ◌++◌, arith}
use llheap.Bucket.{no_bucket_sizes}
use llheap.Header.{Header, mark_zero_filled_bit}
use llheap.Machine.{Env, FreeHeader, Machine, free_header_addr}
use llheap.Arena.{Layout, IsLaidOut, Chain-frame, In, In-left, In-right}
use llheap.Safety.Home.{mark-IsHome}
use llheap.Safety.State.{IsReady}
use llheap.Safety.Clear.{HasClear}

-- A block keeps its link, or it is in use and is marked zero filled.
abbrev pub IsRelinked : Layout → (hd hd' : ℕ → Header) → ℕ → Type 0
IsRelinked l hd hd' c =
    ((hd' c).word0 ≡ (hd c).word0)
    ⊎ ((l.live c ≡ true) × ((hd' c).word0 ≡ (mark_zero_filled_bit (hd c)).word0))

pub record Alike (l : Layout) (m n : Machine) : Type 0 where
  pub manager : n.heap_manager ≡ m.heap_manager
  pub table : n.lookup ≡ m.lookup
  pub master : n.master ≡ m.master
  pub calls : m.os_calls ≤ n.os_calls
  pub start : (n.heaps (m.heap_manager)).buf_start ≡ (m.heaps (m.heap_manager)).buf_start
  pub room : (n.heaps (m.heap_manager)).buf_remaining ≡ (m.heaps (m.heap_manager)).buf_remaining
  pub buckets : n.free_headers ≡ m.free_headers
  pub links : (c d : ℕ) → l.blocks c ≡ some d → IsRelinked l (m.headers) (n.headers) c

links-IsLaidOut :
    (heap start room : ℕ) (fh : ℕ → FreeHeader) (hd hd' : ℕ → Header) (l : Layout)
    → heap % 64 ≡ 0
    → ((c d : ℕ) → l.blocks c ≡ some d → IsRelinked l hd hd' c)
    → IsLaidOut heap start room fh hd l
    → IsLaidOut heap start room fh hd' l
links-IsLaidOut heap start room fh hd hd' l aligned same inv = record {
  sizes = inv.sizes;
  homes = inv.homes;
  known = inv.known;
  space = inv.space;
  apart = inv.apart;
  outside = inv.outside;
  freed = λ b h.
      Chain-frame hd hd' _ (l.free b) (inv.freed b h)
        (λ x i. listed x b h (In-left x (l.free b) (l.remote b) i));
  returned = λ b h.
      Chain-frame hd hd' _ (l.remote b) (inv.returned b h)
        (λ x i. listed x b h (In-right x (l.free b) (l.remote b) i));
  idle = inv.idle;
  distinct = inv.distinct;
  used = λ a b at on. elim (same a b at) [
    | inl kept ↦ rw kept (inv.used a b at on)
    | inr marked ↦
        rw (marked.1) (
          mark-IsHome (hd a) (free_header_addr heap b) (omega (arith, aligned))
            (inv.used a b at on))
  ];
}
  where
    listed :
        (x b : ℕ)
        → b < no_bucket_sizes
        → In x (l.free b ++ l.remote b)
        → (hd' x).word0 ≡ (hd x).word0
    listed x b h i =
        let (at, off) = inv.idle x b h i in
        elim (same x b at) [
          | inl kept ↦ kept
          | inr marked ↦ absurd (let on = marked.0 in let no : true ≡ false = sym on ∙ off in cc)
        ]

module _ (m n : Machine) (l : Layout) (alike : Alike l m n) where
  pub Alike-IsReady : IsReady m l → IsReady n l
  Alike-IsReady ready = record {
    booted = rw (alike.manager) (ready.booted);
    aligned = rw (alike.manager) (ready.aligned);
    heap_space = rw (alike.manager) (ready.heap_space);
    table = rw (alike.table) (ready.table);
    limit = rw (alike.master) (ready.limit);
    begun = rw (alike.manager, alike.start, alike.room) (ready.begun);
    laid =
        rw (alike.manager, alike.start, alike.room, alike.buckets)
          (links-IsLaidOut _ _ _ (m.free_headers) (m.headers) (n.headers) l (ready.aligned)
            (alike.links) (ready.laid));
  }

  pub Alike-HasClear : (env : Env) → HasClear env m l → HasClear env n l
  Alike-HasClear env clear = record {
    blocks = λ k hint length p a b h q at.
        clear.blocks k hint length p a b (omega (arith, h, alike.calls)) q at;
    buffer = λ k hint length p h q.
        rw (alike.manager, alike.start, alike.room)
          (clear.buffer k hint length p (omega (arith, h, alike.calls)) q);
  }
