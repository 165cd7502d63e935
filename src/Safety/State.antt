-- ===== src/Safety/State.antt =====
-- When a thread of the release build is ready to allocate, and what a served request promises.
use llheap.Prelude.{ℕ, ◌+◌, ◌%◌, ◌<◌, ◌≡◌, ◌≢◌, ◌⊎◌, ◌↔◌, true, false, some}
use llheap.Bucket.{sizeof_storage, no_bucket_sizes, lookup_sizes, bucket_sizes, bsearchl, IsBestFit}
use llheap.Machine.{Env, Machine, free_header_addr, sizeof_heap}
use llheap.Arena.{Layout, IsLaidOut, user_space}
use llheap.Safety.Clear.{HasClear}

-- The running thread has a heap, whose storage is laid out as `l`; the bucket choice is set up.
pub record IsReady (m : Machine) (l : Layout) : Type 0 where
  pub booted : 1 < m.heap_manager
  pub aligned : m.heap_manager % 64 ≡ 0
  pub heap_space : m.heap_manager + sizeof_heap < user_space
  pub table : (t : ℕ) → t < lookup_sizes → m.lookup t ≡ bsearchl t bucket_sizes no_bucket_sizes
  pub limit : m.master.max_buckets_used < no_bucket_sizes
  pub begun : 0 < (m.heaps m.heap_manager).buf_start ⊎ ((m.heaps m.heap_manager).buf_remaining ≡ 0)
  pub laid :
      IsLaidOut
        (m.heap_manager)
        ((m.heaps m.heap_manager).buf_start)
        ((m.heaps m.heap_manager).buf_remaining)
        (m.free_headers)
        (m.headers)
        l

-- Block `a` of bucket `b` is in use.
abbrev pub IsLive : Layout → (a b : ℕ) → Type 0
IsLive l a b = (l.blocks a ≡ some b) × (l.live a ≡ true)

-- A request of `size` bytes on machine `m`, served from a heap laid out as `l` by the address `addr`.
pub record Served (env : Env) (m : Machine) (l : Layout) (size addr : ℕ) (n : Machine)
    : Type 0 where
  pub block : ℕ
  pub bucket : ℕ
  pub layout : Layout
  pub ready : IsReady n layout
  pub address : addr ≡ block + sizeof_storage
  pub was_idle : (b : ℕ) → ¬ (IsLive l block b)
  pub now_live : IsLive layout block bucket
  pub others : (a b : ℕ) → a ≢ block → IsLive l a b ↔ IsLive layout a b
  pub best : IsBestFit (size + sizeof_storage) bucket
  pub recorded : (n.headers block).word1 ≡ size
  pub home : (n.headers block).word0 ≡ free_header_addr (n.heap_manager) bucket
  pub clear : HasClear env m l → HasClear env n layout
  pub unlocked : m.master.ext_lock ≡ false → n.master.ext_lock ≡ false
  pub contents : n.bytes ≡ m.bytes
  pub sizes : (a : ℕ) → a ≢ block → (n.headers a).word1 ≡ (m.headers a).word1
  pub settings :
      (n.master.mmap_start ≡ m.master.mmap_start)
      × (n.master.max_buckets_used ≡ m.master.max_buckets_used)
