-- ===== src/Safety/Rest.antt =====
-- `manager_extend`, what it does with the storage that is left of the old block.
use llheap.Prelude.{
  ℕ, ◌%◌, ◌^◌, ◌≤◌, ◌<◌, ◌≡◌, ◌↔◌, inl, inr, refl, true, false, some, arith, Bool-cases, leb,
  leb→le, ℕ_discrete, update, update_self, update_ne,
}
use llheap.Word.{add64}
use llheap.Bucket.{no_bucket_sizes, bucket_size}
use llheap.Machine.{Env, HeapMaster, Machine, free_header_addr}
use llheap.Machine.Outcome.{Returns}
use llheap.Extend.{chain_remainder}
use llheap.Extend.Remainder.{remainder_list_lem}
use llheap.Arena.{Layout, IsLaidOut}
use llheap.Arena.Take.{Touches}
use llheap.Arena.Move.{retire, retire-IsLaidOut}
use llheap.Arena.Cut.{bucket_size_pos}
use llheap.Safety.State.{IsReady, IsLive}
use llheap.Safety.Clear.{IsClear, cut-IsClear, update-blocks}

-- The machine after the block `p` went to the free list `fh`, with new counters in the master.
abbrev retired : Machine → HeapMaster → (p fh : ℕ) → Machine
retired m g p fh = record m {
  master = g;
  headers = update (m.headers) p (record (m.headers p) { word0 = (m.free_headers fh).free_list });
  free_headers = update (m.free_headers) fh (record (m.free_headers fh) { free_list = p });
}

retired-Touches :
    (m : Machine) (g : HeapMaster) (p fh : ℕ)
    → Touches fh p
        (m.free_headers)
        (retired m g p fh).free_headers
        (m.headers)
        (retired m g p fh).headers
unfolding update
retired-Touches m g p fh = record {
  block_sizes = λ c. ground arith;
  home_managers = λ c. ground arith;
  free_lists = λ c ne. ground arith;
  remote_lists = λ c ne. ground arith;
  links = λ c ne. ground arith;
}

retired_sizes :
    (m : Machine) (g : HeapMaster) (p fh c : ℕ)
    → ((retired m g p fh).headers c).word1 ≡ (m.headers c).word1
unfolding update
retired_sizes m g p fh c = ground arith

module _ (env : Env) (k : Machine) (l : Layout) (ready : IsReady k l) (calls : ℕ)
    (far : IsClear env calls l
      ((k.heaps (k.heap_manager)).buf_start)
      ((k.heaps (k.heap_manager)).buf_remaining)) where
  abbrev heap : ℕ
  heap = k.heap_manager

  abbrev start : ℕ
  start = (k.heaps heap).buf_start

  abbrev room : ℕ
  room = (k.heaps heap).buf_remaining

  -- The blocks in use and the heaps are as before, and the storage is laid out, with a buffer that
  -- the heap is about to leave.
  pub record Rested (n : Machine) : Type 0 where
    pub layout : Layout
    pub start' : ℕ
    pub room' : ℕ
    pub laid : IsLaidOut heap start' room' (n.free_headers) (n.headers) layout
    pub clear : IsClear env calls layout start' room'
    pub live : (c d : ℕ) → IsLive l c d ↔ IsLive layout c d
    pub heaps : n.heaps ≡ k.heaps
    pub manager : n.heap_manager ≡ k.heap_manager
    pub table : n.lookup ≡ k.lookup
    pub bytes : n.bytes ≡ k.bytes
    pub sizes : (c : ℕ) → (n.headers c).word1 ≡ (k.headers c).word1
    pub limit : n.master.max_buckets_used ≡ k.master.max_buckets_used
    pub mmap_start : n.master.mmap_start ≡ k.master.mmap_start
    pub unlocked : n.master.ext_lock ≡ k.master.ext_lock
    pub made : n.os_calls ≡ k.os_calls

  -- Counters only.
  pub counted-Rested :
      (g : HeapMaster)
      → g.max_buckets_used ≡ k.master.max_buckets_used
      → g.mmap_start ≡ k.master.mmap_start
      → g.ext_lock ≡ k.master.ext_lock
      → Rested (record k { master = g })
  counted-Rested g limit start unlocked = record {
    layout = l;
    start' = _;
    room' = _;
    laid = ready.laid;
    clear = far;
    live = λ c d. (λ x. x, λ x. x);
    heaps = refl;
    manager = refl;
    table = refl;
    bytes = refl;
    sizes = λ c. refl;
    limit = limit;
    mmap_start = start;
    unlocked = unlocked;
    made = refl;
  }

  module _ (c : ℕ) (small : c < no_bucket_sizes) (fits : bucket_size c ≤ room) where
    place : 0 < start
    place = elim (ready.begun) [
      | inl pos ↦ pos
      | inr none_left ↦ absurd (omega (arith, none_left, fits, bucket_size_pos c small))
    ]

    start_free : (d : ℕ) → ¬ (l.blocks start ≡ some d)
    start_free d at = elim (ready.laid.outside start d at) [
      | inl p ↦ omega (arith, p, bucket_size_pos d (ready.laid.known start d at).0)
      | inr p ↦ omega (arith, p, fits, bucket_size_pos c small)
    ]

    retire-IsLive : (a d : ℕ) → IsLive l a d ↔ IsLive (retire l start c) a d
    retire-IsLive a d = elim (ℕ_discrete a start) [
      | yes e ↦ (
        λ x. absurd (start_free d (rw e at x.0)),
        λ x. absurd (
            let off : update (update (l.live) start true) start false a ≡ false =
              rw e (update_self (update (l.live) start true) start false) in
            let on : update (update (l.live) start true) start false a ≡ true = x.1 in cc),
      )
      | no ne ↦
          rw
            (
              update_ne (l.blocks) start (some c) a ne,
              update_ne (update (l.live) start true) start false a ne,
              update_ne (l.live) start true a ne,
            )
            (λ x. x, λ x. x)
    ]

    pub retired-Rested :
        (g : HeapMaster)
        → g.max_buckets_used ≡ k.master.max_buckets_used
        → g.mmap_start ≡ k.master.mmap_start
        → g.ext_lock ≡ k.master.ext_lock
        → Rested (retired k g start (free_header_addr heap c))
    retired-Rested g limit same unlocked =
        let fh = free_header_addr heap c in
        let n = retired k g start fh in
        record {
          layout = retire l start c;
          start' = _;
          room' = _;
          laid =
              retire-IsLaidOut heap start room (k.free_headers) (n.free_headers) (k.headers)
                (n.headers) l c (ready.laid) small place fits (retired-Touches k g start fh)
                (simp update_self) (simp update_self) (simp update_self);
          clear =
              cut-IsClear env calls l (retire l start c) start room start c far fits
                (λ a d at. update-blocks l start c a d at);
          live = retire-IsLive;
          heaps = refl;
          manager = refl;
          table = refl;
          bytes = refl;
          sizes = retired_sizes k g start fh;
          limit = limit;
          mmap_start = same;
          unlocked = unlocked;
          made = refl;
        }

  -- The storage left of the old block goes to a free list, if it is large enough for a block.
  pub chain_remainder-Rested :
      room ≤ bucket_size (k.master.max_buckets_used)
      → Returns (λ _ n. Rested n) (chain_remainder heap k)
  unfolding chain_remainder
  chain_remainder-Rested most = elim (Bool-cases (leb (bucket_size 0) (room % 2 ^ 32))) [
    | inr little ↦ rw little (counted-Rested _ refl refl refl)
    | inl enough ↦
        let k1 : Machine = record k {
          master = record (k.master) {
            blk_noncontig = add64 (k.master.blk_noncontig) 1;
            blk_fragstorage = add64 (k.master.blk_fragstorage) room;
          };
        } in
        let (c, found, best) =
          remainder_list_lem k1 heap room ready.table ready.limit ready.laid.sizes
            (omega (arith, leb→le _ _ enough)) most in
        rw (enough, found) (retired-Rested c best.inside best.within _ refl refl refl)
  ]
