-- ===== src/Safety/Front.antt =====
-- A request that is served by a block from the front of the heap's buffer.
use llheap.Prelude.{
  ℕ, ◌+◌, ◌-◌, ◌≤◌, ◌<◌, ◌≡◌, ◌≢◌, ◌∙◌, ◌↔◌, inl, refl, true, false, some, arith, update,
  update_self, update_ne,
}
use llheap.Word.{add64}
use llheap.Bucket.{sizeof_storage, no_bucket_sizes, bucket_size, IsBestFit}
use llheap.Machine.{Env, Machine, free_header_addr}
use llheap.Arena.{Layout, IsLaidOut}
use llheap.Arena.Cut.{Links, fresh, cut, cut-IsLaidOut, bucket_size_pos}
use llheap.Safety.State.{IsReady, IsLive, Served}
use llheap.Safety.Clear.{IsClear, HasClear, cut-IsClear, update-blocks}
use llheap.Safety.Sources.{sealed, sealed_elsewhere}

-- The buffer of the heap of `m` was the `increase` bytes from `a`, and the block of bucket `b` at its
-- front has been taken off it; the blocks in use are those of `l`, and the rest is as `m` has it.
pub record Fronted (env : Env) (m : Machine) (l : Layout) (b a : ℕ) (n : Machine) : Type 0 where
  pub layout : Layout
  pub increase : ℕ
  pub place : 0 < a
  pub enough : bucket_size b ≤ increase
  pub laid : IsLaidOut (m.heap_manager) a increase (n.free_headers) (n.headers) layout
  pub clear : HasClear env m l → IsClear env (n.os_calls) layout a increase
  pub live : (c d : ℕ) → IsLive l c d ↔ IsLive layout c d
  pub start : (n.heaps (m.heap_manager)).buf_start ≡ a + bucket_size b
  pub room : (n.heaps (m.heap_manager)).buf_remaining ≡ increase - bucket_size b
  pub manager : n.heap_manager ≡ m.heap_manager
  pub table : n.lookup ≡ m.lookup
  pub bytes : n.bytes ≡ m.bytes
  pub sizes : (c : ℕ) → (n.headers c).word1 ≡ (m.headers c).word1
  pub limit : n.master.max_buckets_used ≡ m.master.max_buckets_used
  pub mmap_start : n.master.mmap_start ≡ m.master.mmap_start
  pub unlocked : m.master.ext_lock ≡ false → n.master.ext_lock ≡ false

-- The machine after an allocation was counted in the bucket header `fh`.
abbrev pub noted : Machine → (fh : ℕ) → Machine
noted m fh = record m {
  free_headers =
      update (m.free_headers) fh
        (record (m.free_headers fh) { allocations = add64 ((m.free_headers fh).allocations) 1 });
}

noted-Links :
    (m : Machine) (size fh p : ℕ)
    → Links p
        (m.free_headers)
        (noted m fh).free_headers
        (m.headers)
        (sealed (noted m fh) size fh p).headers
unfolding update
noted-Links m size fh p = record {
  block_sizes = λ c. ground arith;
  home_managers = λ c. ground arith;
  free_lists = λ c. ground arith;
  remote_lists = λ c. ground arith;
  links = λ c ne. ground arith;
}

module _ (env : Env) (m : Machine) (l : Layout) (ready : IsReady m l) (size b a : ℕ)
    (best : IsBestFit (size + sizeof_storage) b) (small : b < no_bucket_sizes) (n : Machine)
    (front : Fronted env m l b a n) where
  abbrev heap : ℕ
  heap = m.heap_manager

  abbrev fh : ℕ
  fh = free_header_addr heap b

  abbrev last : Machine
  last = sealed (noted n fh) size fh a

  a_fresh : (c d : ℕ) → front.layout.blocks c ≡ some d → c ≢ a
  a_fresh =
      fresh heap a (front.increase) (n.free_headers) (last.free_headers) (n.headers) (last.headers)
        (front.layout) b (front.laid) small (front.place) (front.enough) (noted-Links n size fh a)
        (simp update_self)

  cut_laid :
      IsLaidOut heap
        (a + bucket_size b)
        (front.increase - bucket_size b)
        (last.free_headers)
        (last.headers)
        (cut (front.layout) a b)
  cut_laid =
      cut-IsLaidOut heap a (front.increase) (n.free_headers) (last.free_headers) (n.headers)
        (last.headers) (front.layout) b (front.laid) small (front.place) (front.enough)
        (noted-Links n size fh a) (simp update_self)

  cut-IsLive : (x c : ℕ) → x ≢ a → IsLive l x c ↔ IsLive (cut (front.layout) a b) x c
  cut-IsLive x c ne =
      rw
        (update_ne (front.layout.live) a true x ne, update_ne (front.layout.blocks) a (some b) x ne)
        (front.live x c)

  pub front-Served : Served env m l size (add64 a sizeof_storage) last
  front-Served = record {
    block = a;
    bucket = b;
    layout = cut (front.layout) a b;
    ready = record {
      booted = rw (front.manager) (ready.booted);
      aligned = rw (front.manager) (ready.aligned);
      heap_space = rw (front.manager) (ready.heap_space);
      table = rw (front.table) (ready.table);
      limit = rw (front.limit) (ready.limit);
      begun = rw (front.manager, front.start) (inl (omega (arith, front.place)));
      laid = rw (front.manager, front.start, front.room) cut_laid;
    };
    address = omega (arith, front.laid.space, front.enough, bucket_size_pos b small);
    was_idle = λ c on. a_fresh a c (((front.live a c).0 on).0) refl;
    now_live =
        (update_self (front.layout.blocks) a (some b), update_self (front.layout.live) a true);
    others = λ x c ne. cut-IsLive x c ne;
    best = best;
    recorded = simp update_self;
    home = rw (front.manager) (simp update_self);
    clear = λ far.
        rw (front.manager, front.start, front.room)
          (cut-IsClear env (n.os_calls) (front.layout) (cut (front.layout) a b) a (front.increase) a
            b (front.clear far) (front.enough) (λ c d at. update-blocks (front.layout) a b c d at));
    unlocked = front.unlocked;
    contents = front.bytes;
    sizes = λ c ne. sealed_elsewhere (noted n fh) size fh a c ne ∙ front.sizes c;
    settings = (front.mmap_start, front.limit);
  }
