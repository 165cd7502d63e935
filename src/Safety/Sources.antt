-- ===== src/Safety/Sources.antt =====
-- Where `take_block` finds a block: the free list, the remote list, the buffer; and the header that
-- the block then gets.
use llheap.Prelude.{ℕ, ◌≤◌, ◌<◌, ◌≡◌, ◌≢◌, true, false, arith, ◌==◌, update, ne→==, ==_iff, lt→leb}
use llheap.Word.{add64, sub64}
use llheap.Bucket.{sizeof_storage}
use llheap.Stats.{Row, count_calls_0}
use llheap.Machine.{null, Env, Machine, ok}
use llheap.Os.{negative}
use llheap.Alloc.{take_block, pop_block, pull_remote, bump_block, finish_block}
use llheap.Arena.{user_space}
use llheap.Arena.Take.{Touches}
use llheap.Arena.Cut.{Links}
use llheap.Safety.Serve.{seal}

eq→== : (a b : ℕ) → a ≡ b → (a == b) ≡ true
eq→== a b e = (==_iff a b).1 e

-- The machine after a block was popped from the free list.
abbrev pub popped : Machine → (fh : ℕ) → Machine
popped m fh =
    let f = m.free_headers fh in
    record m {
      free_headers =
          update (m.free_headers) fh
            (record f { free_list = (m.headers f.free_list).word0; reuses = add64 (f.reuses) 1 });
    }

-- The machine after the remote list became the free list, less its first block.
abbrev pub pulled : Machine → (heap fh : ℕ) → Machine
pulled m heap fh =
    let f0 = m.free_headers in
    let f1 = update f0 fh (record (f0 fh) { remote_list = null }) in
    let f2 = update f1 fh (record (f1 fh) { free_list = (m.headers (f0 fh).remote_list).word0 }) in
    record m {
      free_headers = update f2 fh (record (f2 fh) { allocations = add64 ((f2 fh).allocations) 1 });
      heaps =
          update (m.heaps) heap
            (record (m.heaps heap) { stats = count_calls_0 Row.remote ((m.heaps heap).stats) });
    }

-- The machine after `n` bytes were taken from the front of the buffer.
abbrev pub bumped : Machine → (heap fh : ℕ) → Machine
bumped m heap fh =
    let h = m.heaps heap in
    let f = m.free_headers fh in
    record m {
      heaps = update (m.heaps) heap (record h {
        buf_remaining = sub64 h.buf_remaining f.block_size;
        buf_start = add64 h.buf_start f.block_size;
      });
      free_headers =
          update (m.free_headers) fh (record f { allocations = add64 (f.allocations) 1 });
    }

module _ (env : Env) (m : Machine) (heap fh : ℕ) where
  pub take_block-popped :
      (m.free_headers fh).free_list ≢ null
      → take_block env heap fh m ≡ ok (m.free_headers fh).free_list (popped m fh)
  unfolding take_block pop_block
  take_block-popped ready = rw (ne→== _ null ready)

  pub take_block-pulled :
      (m.free_headers fh).free_list ≡ null
      → (m.free_headers fh).remote_list ≢ null
      → take_block env heap fh m ≡ ok (m.free_headers fh).remote_list (pulled m heap fh)
  unfolding take_block pull_remote
  take_block-pulled empty ready = rw (eq→== _ null empty, ne→== _ null ready)

  pub take_block-bumped :
      (m.free_headers fh).free_list ≡ null
      → (m.free_headers fh).remote_list ≡ null
      → (m.free_headers fh).block_size ≤ (m.heaps heap).buf_remaining
      → (m.heaps heap).buf_remaining < user_space
      → (m.heaps heap).buf_start ≢ null
      → take_block env heap fh m ≡ ok (m.heaps heap).buf_start (bumped m heap fh)
  unfolding take_block bump_block
  take_block-bumped empty none_back fits space place =
      let room : negative (sub64 (m.heaps heap).buf_remaining (m.free_headers fh).block_size)
          ≡ false =
        lt→leb _ _ (omega arith) in
      rw (eq→== _ null empty, eq→== _ null none_back, room, ne→== _ null place)

-- The machine after the header of block `p` was written.
abbrev pub sealed : Machine → (size fh p : ℕ) → Machine
sealed m size fh p =
    let h1 = update (m.headers) p (record (m.headers p) { word0 = fh }) in
    record m { headers = update h1 p (record (h1 p) { word1 = size }) }

pub sealed_elsewhere :
    (m : Machine) (size fh p c : ℕ)
    → c ≢ p
    → ((sealed m size fh p).headers c).word1 ≡ (m.headers c).word1
unfolding update
sealed_elsewhere m size fh p c ne = ground arith

pub seal-sealed :
    (env : Env) (m : Machine) (size fh p : ℕ)
    → env.debug ≡ false
    → p ≢ null
    → seal env size fh p m ≡ ok (add64 p sizeof_storage) (sealed m size fh p)
unfolding finish_block
seal-sealed env m size fh p release ne = rw (ne→== p null ne, ne→== p null ne, release)

module _ (m : Machine) (size fh : ℕ) where
  -- Popping and pulling write to one bucket header, sealing to the block's header.
  pub popped-Touches :
      let p = (m.free_headers fh).free_list in
      Touches fh p
        (m.free_headers)
        (popped m fh).free_headers
        (m.headers)
        (sealed (popped m fh) size fh p).headers
  unfolding update
  popped-Touches = record {
    block_sizes = λ c. ground arith;
    home_managers = λ c. ground arith;
    free_lists = λ c ne. ground arith;
    remote_lists = λ c ne. ground arith;
    links = λ c ne. ground arith;
  }

  pub pulled-Touches :
      (heap : ℕ)
      → let p = (m.free_headers fh).remote_list in
        Touches fh p
          (m.free_headers)
          (pulled m heap fh).free_headers
          (m.headers)
          (sealed (pulled m heap fh) size fh p).headers
  unfolding update
  pulled-Touches heap = record {
    block_sizes = λ c. ground arith;
    home_managers = λ c. ground arith;
    free_lists = λ c ne. ground arith;
    remote_lists = λ c ne. ground arith;
    links = λ c ne. ground arith;
  }

  pub bumped-Links :
      (heap p : ℕ)
      → Links p
          (m.free_headers)
          (bumped m heap fh).free_headers
          (m.headers)
          (sealed (bumped m heap fh) size fh p).headers
  unfolding update
  bumped-Links heap p = record {
    block_sizes = λ c. ground arith;
    home_managers = λ c. ground arith;
    free_lists = λ c. ground arith;
    remote_lists = λ c. ground arith;
    links = λ c ne. ground arith;
  }
