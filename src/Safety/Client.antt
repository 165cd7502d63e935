-- ===== src/Safety/Client.antt =====
-- A thread that allocates, frees, resizes and writes, and what it holds: a step relation on the
-- machine with the list of allocations that the thread was given and has not freed.
use llheap.Prelude.{Drop, update, ℕ, ◌+◌, ◌≤◌, ◌<◌, ◌≡◌, ◌≢◌, inl, inr, false, List, [], ◌∷◌, arith}
use llheap.Bucket.{sizeof_storage, bucket_size}
use llheap.Stats.{Row}
use llheap.Machine.{null, Env, Machine, ok}
use llheap.Alloc.{do_malloc}
use llheap.Free.{do_free}
use llheap.Arena.{Layout, user_space}
use llheap.Safety.State.{IsReady, Served}
use llheap.Safety.Clear.{IsHonest, HasClear}
use llheap.Safety.Settle.{IsRefused, Settles, do_malloc-Settles}
use llheap.Safety.Held.{Held, All, AllApart, Reads}
use llheap.Api.Realloc.{realloc}
use llheap.Safety.Thread.{
  Thread, IsSafe, carried, IsSafe-AllApart, IsSafe-Reads, refused-IsSafe, served-IsSafe,
}
use llheap.Safety.Changed.{own, freed-IsSafe, Carried-IsSafe, written-IsSafe}
use llheap.Safety.Realloc.{AnsweredResized, realloc-Resized}
use llheap.Safety.Resized.{Carried}

-- A small request that is served or refused, a free or a resize of an allocation that is held, or a
-- write to one of its bytes.
pub data Step (env : Env) (t : Thread) : Thread → Type 0 where
  allocates :
      (row : Row) (size addr : ℕ) (n : Machine)
      → size < t.machine.master.mmap_start
      → size + sizeof_storage ≤ bucket_size (t.machine.master.max_buckets_used)
      → do_malloc env size row (t.machine) ≡ ok addr n
      → addr ≢ null
      → Step env t (record {
        machine = n;
        held = record { addr = addr; size = size; contents = λ i. n.bytes (addr + i) } ∷ t.held;
      })
  refuses :
      (row : Row) (size : ℕ) (n : Machine)
      → size < t.machine.master.mmap_start
      → size + sizeof_storage ≤ bucket_size (t.machine.master.max_buckets_used)
      → do_malloc env size row (t.machine) ≡ ok null n
      → Step env t (record { machine = n; held = t.held })
  frees :
      (x : Held) (rest : List Held) (n : Machine)
      → Drop x (t.held) rest
      → do_free env (x.addr) (t.machine) ≡ ok tt n
      → Step env t (record { machine = n; held = rest })
  resizes :
      (x : Held) (rest : List Held) (size addr : ℕ) (n : Machine)
      → Drop x (t.held) rest
      → 0 < size
      → size < t.machine.master.mmap_start
      → size + sizeof_storage ≤ bucket_size (t.machine.master.max_buckets_used)
      → realloc env (x.addr) size (t.machine) ≡ ok addr n
      → addr ≢ null
      → Step env t (record {
        machine = n;
        held =
            record { addr = addr; size = size; contents = carried x size (λ i. n.bytes (addr + i)) }
            ∷ rest;
      })
  keeps :
      (x : Held) (rest : List Held) (size : ℕ) (n : Machine)
      → Drop x (t.held) rest
      → 0 < size
      → size < t.machine.master.mmap_start
      → size + sizeof_storage ≤ bucket_size (t.machine.master.max_buckets_used)
      → realloc env (x.addr) size (t.machine) ≡ ok null n
      → Step env t (record { machine = n; held = t.held })
  writes :
      (x : Held) (rest : List Held) (i v : ℕ)
      → Drop x (t.held) rest
      → i < x.size
      → Step env t (record {
        machine = record (t.machine) { bytes = update (t.machine.bytes) (x.addr + i) v };
        held = record x { contents = update (x.contents) i v } ∷ rest;
      })

pub data Reach (env : Env) (s : Thread) : Thread → Type 0 where
  start : Reach env s s
  then_step : {t u : Thread} → Reach env s t → Step env t u → Reach env s u

-- What a request that is not refused gives.
Settles-Served :
    (env : Env) (m : Machine) (l : Layout) (size addr : ℕ) (n : Machine)
    → Settles env m l size (ok addr n)
    → addr ≢ null
    → Served env m l size addr n
Settles-Served env m l size addr n (inl (none, _)) ne = absurd (ne none)
Settles-Served env m l size addr n (inr s) ne = s

Settles-IsRefused :
    (env : Env) (m : Machine) (l : Layout) (size : ℕ) (n : Machine)
    → Settles env m l size (ok null n)
    → IsRefused env m l n
Settles-IsRefused env m l size n (inl (_, r)) = r
Settles-IsRefused env m l size n (inr s) = absurd (omega (arith, s.address))

AnsweredResized-Carried :
    (env : Env) (m : Machine) (l : Layout) (a size addr : ℕ) (n : Machine)
    → AnsweredResized env m l a size addr n
    → addr ≢ null
    → Carried env m l a size addr n
AnsweredResized-Carried env m l a size addr n (inl (none, _)) ne = absurd (ne none)
AnsweredResized-Carried env m l a size addr n (inr z) ne = z.carried

AnsweredResized-IsRefused :
    (env : Env) (m : Machine) (l : Layout) (a size : ℕ) (n : Machine)
    → AnsweredResized env m l a size null n
    → IsRefused env m l n
AnsweredResized-IsRefused env m l a size n (inl (_, r)) = r
AnsweredResized-IsRefused env m l a size n (inr z) = absurd (omega (arith, z.carried.address))

module _ (env : Env) (honest : IsHonest env) (block : env.malloc_thread_block < user_space)
    (release : env.debug ≡ false) where
  settled :
      (t : Thread) (safe : IsSafe env t) (row : Row) (size : ℕ)
      → size < t.machine.master.mmap_start
      → size + sizeof_storage ≤ bucket_size (t.machine.master.max_buckets_used)
      → Settles env (t.machine) (safe.layout) size (do_malloc env size row (t.machine))
  settled t safe row size small fits =
      do_malloc-Settles env honest block release (t.machine) (safe.layout) (safe.ready) (safe.clear)
        (safe.unlocked) row size small fits

  resettled :
      (t : Thread) (safe : IsSafe env t) (x : Held) (rest : List Held) (drop : Drop x (t.held) rest)
      (size addr : ℕ) (n : Machine)
      → 0 < size
      → size < t.machine.master.mmap_start
      → size + sizeof_storage ≤ bucket_size (t.machine.master.max_buckets_used)
      → realloc env (x.addr) size (t.machine) ≡ ok addr n
      → AnsweredResized env
          (t.machine)
          (safe.layout)
          ((own env t safe x rest drop).block)
          size
          addr
          n
  resettled t safe x rest drop size addr n pos small fits run =
      let o = own env t safe x rest drop in
      rw (← o.address, run) at
        (realloc-Resized env honest block release (t.machine) (safe.layout) (safe.ready)
          (safe.clear) (safe.unlocked) (o.block) (o.bucket) (o.used) size small fits pos)

  Step-IsSafe : {t u : Thread} → Step env t u → IsSafe env t → IsSafe env u
  Step-IsSafe {t} (refuses row size n small fits run) safe =
      let r =
        Settles-IsRefused env (t.machine) (safe.layout) size n
          (rw run at (settled t safe row size small fits)) in
      refused-IsSafe env t safe n r
  Step-IsSafe {t} (allocates row size addr n small fits run ne) safe =
      served-IsSafe env t safe size addr n (
        Settles-Served env (t.machine) (safe.layout) size addr n
          (rw run at (settled t safe row size small fits)) ne)
  Step-IsSafe {t} (frees x rest n drop run) safe =
      rw run at (freed-IsSafe env t safe x rest drop release)
  Step-IsSafe {t} (resizes x rest size addr n drop pos small fits run ne) safe =
      Carried-IsSafe env t safe x rest drop size addr n (
        AnsweredResized-Carried env (t.machine) (safe.layout) _ size addr n
          (resettled t safe x rest drop size addr n pos small fits run) ne)
  Step-IsSafe {t} (keeps x rest size n drop pos small fits run) safe = refused-IsSafe env t safe n (
      AnsweredResized-IsRefused env (t.machine) (safe.layout) _ size n
        (resettled t safe x rest drop size null n pos small fits run))
  Step-IsSafe {t} (writes x rest i v drop inside) safe =
      written-IsSafe env t safe x rest drop i v inside

  Reach-IsSafe : {s t : Thread} → Reach env s t → IsSafe env s → IsSafe env t
  Reach-IsSafe start safe = safe
  Reach-IsSafe (then_step r s) safe = Step-IsSafe s (Reach-IsSafe r safe)

  start-IsSafe :
      (m : Machine) (l : Layout)
      → IsReady m l
      → HasClear env m l
      → m.master.ext_lock ≡ false
      → IsSafe env (record { machine = m; held = [] })
  start-IsSafe m l ready clear unlocked = record {
    layout = l;
    ready = ready;
    clear = clear;
    unlocked = unlocked;
    backed = tt;
    separate = tt;
  }

  -- In the release build, with a thread block below 2 ^ 63 bytes, on a system that hands out memory
  -- of the process's address space and no byte twice: a thread starts with a ready heap, from all of
  -- which the memory that the system hands out later lies apart, with the extension lock open and
  -- nothing held. It requests sizes below the mmap threshold that fit the last bucket in use with
  -- their header, frees what it holds or changes its size by `realloc` to another such size that is
  -- not 0, and writes to what it holds, in any order; requests are served from storage at hand or
  -- from new storage of the system, or refused. Then no two of the allocations it holds share a
  -- byte, each with the size that was asked for.
  pub Reach-AllApart :
      (m : Machine) (l : Layout) (t : Thread)
      → IsReady m l
      → HasClear env m l
      → m.master.ext_lock ≡ false
      → Reach env (record { machine = m; held = [] }) t
      → AllApart (t.held)
  Reach-AllApart m l t ready clear unlocked r =
      IsSafe-AllApart env t (Reach-IsSafe r (start-IsSafe m l ready clear unlocked))

  -- In the release build, with a thread block below 2 ^ 63 bytes, on a system that hands out memory
  -- of the process's address space and no byte twice: a thread starts with a ready heap, from all of
  -- which the memory that the system hands out later lies apart, with the extension lock open and
  -- nothing held. It requests sizes below the mmap threshold that fit the last bucket in use with
  -- their header, frees what it holds or changes its size by `realloc` to another such size that is
  -- not 0, and writes to what it holds, in any order. Then each byte of each allocation that it holds is
  -- what the thread wrote to it last, or else what it was when the allocation was made; a byte that
  -- `realloc` keeps, up to the lesser of the two sizes, counts as the same byte. No request, free or
  -- resize of another allocation changes it.
  pub Reach-Reads :
      (m : Machine) (l : Layout) (t : Thread)
      → IsReady m l
      → HasClear env m l
      → m.master.ext_lock ≡ false
      → Reach env (record { machine = m; held = [] }) t
      → All (Reads (t.machine)) (t.held)
  Reach-Reads m l t ready clear unlocked r =
      IsSafe-Reads env t (Reach-IsSafe r (start-IsSafe m l ready clear unlocked))
