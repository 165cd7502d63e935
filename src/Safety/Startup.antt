-- ===== src/Safety/Startup.antt =====
-- The first heap of a process: what it promises, and how the system's answers decide on it.
use llheap.Prelude.{
  ℕ, ◌+◌, ◌≡◌, ◌⊎◌, ap, inl, inr, refl, false, none, [], arith, ◌==◌, Bool-cases, if◌then◌else◌,
}
use llheap.Word.{add64, mul64, int_word}
use llheap.Bucket.{no_bucket_sizes}
use llheap.Header.{Header}
use llheap.Machine.{
  null, Env, MapAnswer, mapped, map_failed, FreeHeader, Machine, map_error, no_memory, Run, ok,
  stop, Cmd, and_then, when, enomem, sizeof_heap,
}
use llheap.Machine.Outcome.{Returns}
use llheap.Os.{mmap}
use llheap.Master.{default_mmap_start, init_free_lists, extend_heaps}
use llheap.Master.FreeLists.{init_free_lists_lem}
use llheap.Arena.{Layout, IsLaidOut}
use llheap.Safety.State.{IsReady}
use llheap.Safety.Clear.{HasClear}

-- No block yet.
abbrev pub no_blocks : Layout
no_blocks = record { blocks = λ a. none; live = λ a. false; free = λ b. []; remote = λ b. [] }

-- A heap without a buffer, whose bucket headers are those of `getHeap`.
pub no_blocks-IsLaidOut :
    (heap : ℕ) (fh : ℕ → FreeHeader) (hd : ℕ → Header)
    → IsLaidOut heap 0 0 (init_free_lists no_bucket_sizes 0 heap fh) hd no_blocks
no_blocks-IsLaidOut heap fh hd =
    let at = (init_free_lists_lem heap fh).0 in
    record {
      sizes = λ b h. ap (λ (f : FreeHeader). f.block_size) (at b h);
      homes = λ b h. ap (λ (f : FreeHeader). f.home_manager) (at b h);
      known = λ a b e. cc;
      space = omega arith;
      apart = λ a b c d e. cc;
      outside = λ a b e. cc;
      freed = λ b h. ap (λ (f : FreeHeader). f.free_list) (at b h);
      returned = λ b h. ap (λ (f : FreeHeader). f.remote_list) (at b h);
      idle = λ a b h i. absurd i;
      distinct = λ b h. tt;
      used = λ a b e. cc;
    }

-- What a thread needs to allocate, and has at first.
pub record IsStarted (env : Env) (n : Machine) : Type 0 where
  pub ready : IsReady n no_blocks
  pub clear : HasClear env n no_blocks
  pub unlocked : n.master.ext_lock ≡ false
  pub mmap_start : n.master.mmap_start ≡ default_mmap_start
  pub limit : n.master.max_buckets_used ≡ 61
  pub no_buffer : (n.heaps (n.heap_manager)).buf_start ≡ null
  pub no_room : (n.heaps (n.heap_manager)).buf_remaining ≡ 0

-- The process has its first heap, or stops because the system gave no memory for it.
abbrev pub Starts : Env → Run (Unit {0}) → Type 0
Starts env (ok _ n) = IsStarted env n
Starts env (stop e) = (size : ℕ) × (errno : ℕ) × ((e ≡ no_memory size) ⊎ (e ≡ map_error size errno))

pub Returns-Starts :
    (P : Unit {0} → Machine → Type 0) (env : Env) (r : Run (Unit {0}))
    (k : Unit {0} → Cmd (Unit {0}))
    → Returns P r
    → ((m : Machine) → P tt m → Starts env (k tt m))
    → Starts env (and_then r k)
Returns-Starts P env (ok tt m) k p f = f m p
Returns-Starts P env (stop e) k p f = absurd p

pub answer_cases : (x : MapAnswer) → ((a : ℕ) × (x ≡ mapped a)) ⊎ ((e : ℕ) × (x ≡ map_failed e))
answer_cases (mapped a) = inl (a, refl)
answer_cases (map_failed e) = inr (e, refl)

abbrev pub heaps_size : Env → ℕ
heaps_size env = mul64 (int_word (env.malloc_thread_extend)) sizeof_heap

mmap-mapped :
    (env : Env) (hint length a : ℕ) (m : Machine)
    → env.mmap (m.os_calls) hint length ≡ mapped a
    → mmap env hint length m ≡ ok (mapped a) (record m { os_calls = m.os_calls + 1 })
unfolding mmap
mmap-mapped env hint length a m q = rw (mmap, q) refl

mmap-failed :
    (env : Env) (hint length e : ℕ) (m : Machine)
    → env.mmap (m.os_calls) hint length ≡ map_failed e
    → mmap env hint length m ≡ ok (map_failed e) (record m { os_calls = m.os_calls + 1; errno = e })
unfolding mmap
mmap-failed env hint length e m q = rw (mmap, q) refl

pub extend_heaps-mapped :
    (env : Env) (m : Machine) (a : ℕ)
    → env.mmap (m.os_calls) 0 (heaps_size env) ≡ mapped a
    → extend_heaps env m
      ≡ ok tt (record m {
        os_calls = m.os_calls + 1;
        master = record (m.master) {
          heap_managers_storage = a;
          heap_managers_storage_end = add64 a (heaps_size env);
        };
      })
unfolding extend_heaps
extend_heaps-mapped env m a q = rw (mmap-mapped env 0 (heaps_size env) a m q) refl

pub extend_heaps-failed :
    (env : Env) (m : Machine) (e : ℕ)
    → env.mmap (m.os_calls) 0 (heaps_size env) ≡ map_failed e
    → extend_heaps env m
      ≡ stop (if e == enomem then no_memory (heaps_size env) else map_error (heaps_size env) e)
unfolding extend_heaps
extend_heaps-failed env m e q = rw (mmap-failed env 0 (heaps_size env) e m q) refl

-- What only the debug build does.
pub quiet :
    (env : Env) (c : Cmd (Unit {0})) (m : Machine)
    → env.debug ≡ false
    → when env.debug c m ≡ ok tt m
quiet env c m release = rw release refl

-- No memory for a heap aborts the program.
pub stopped :
    (env : Env) (e : ℕ)
    → Starts env
        (stop (if e == enomem then no_memory (heaps_size env) else map_error (heaps_size env) e))
stopped env e = elim (Bool-cases (e == enomem)) [
  | inl full ↦ rw full (heaps_size env, e, inl refl)
  | inr other ↦ rw other (heaps_size env, e, inr refl)
]
