-- ===== src/Extend/Outcome.antt =====
-- What `master_extend` leaves behind: a mapping that the system made during the call, or nothing.
use llheap.Prelude.{
  ℕ, ◌+◌, ◌≤◌, ◌<◌, arith, ◌≡◌, ◌≢◌, refl, ◌⊎◌, true, false, inl, inr, ◌==◌, Bool-cases, max,
}
use llheap.Word.{sub64}
use llheap.Machine.{
  null, Env, mapped, map_failed, HeapMaster, Machine, map_error, Run, ok, stop, ◌>>=◌, and_then,
  enomem,
}
use llheap.Os.{mmap, lock_ext, unlock_ext, negative}
use llheap.Extend.{mmap_check, carve, master_extend}

-- The storage and the tables of `m` are those of `n`, whose calls of the system come later.
pub record Kept (m n : Machine) : Type 0 where
  pub heaps : n.heaps ≡ m.heaps
  pub free_headers : n.free_headers ≡ m.free_headers
  pub headers : n.headers ≡ m.headers
  pub bytes : n.bytes ≡ m.bytes
  pub table : n.lookup ≡ m.lookup
  pub manager : n.heap_manager ≡ m.heap_manager
  pub limit : n.master.max_buckets_used ≡ m.master.max_buckets_used
  pub mmap_start : n.master.mmap_start ≡ m.master.mmap_start
  pub calls : m.os_calls ≤ n.os_calls

-- At `a` begins a mapping of at least `size` bytes that was made between `m` and `n`.
pub record Fresh (env : Env) (m : Machine) (size a : ℕ) (n : Machine) : Type 0 where
  pub call : ℕ
  pub hint : ℕ
  pub length : ℕ
  pub since : m.os_calls ≤ call
  pub until : call < n.os_calls
  pub answer : env.mmap call hint length ≡ mapped a
  pub enough : size ≤ length

-- The run ends with the lock given back and a fresh mapping, or with null because the system has
-- no memory; or it stops because of another error of `mmap`.
abbrev pub Extends : Env → Machine → (size : ℕ) → Run ℕ → Type 0
Extends env m size (ok a n) =
    Kept m n
    × (n.master.ext_lock ≡ false)
    × (((a ≡ null) × (n.errno ≡ enomem)) ⊎ Fresh env m size a n)
Extends env m size (stop e) = (s : ℕ) × (errno : ℕ) × (e ≡ map_error s errno) × (errno ≢ enomem)

-- A call of `mmap` whose answer is checked: what holds of the run after a mapping and of the two
-- ways a failure is handled holds of the whole.
module _ (env : Env) (hint length size : ℕ) (next : ℕ → Machine → Run ℕ) (m : Machine)
    (P : Run ℕ → Type 0) where
  pub mmap-cases :
      ((a : ℕ)
        → env.mmap (m.os_calls) hint length ≡ mapped a
        → P (next a (record m { os_calls = m.os_calls + 1 })))
      → ((e : ℕ)
          → P (
              mmap_check size
                (map_failed e)
                next
                (record m { os_calls = m.os_calls + 1; errno = e })))
      → P ((mmap env hint length >>= λ answer. mmap_check size answer next) m)
  unfolding mmap mmap_check
  mmap-cases got failed =
      (elim (env.mmap (m.os_calls) hint length)
          as (λ x.
            (env.mmap (m.os_calls) hint length ≡ x)
            → P (
                and_then
                  (elim x [
                    | mapped a ↦ ok (mapped a) (record m { os_calls = m.os_calls + 1 })
                    | map_failed e ↦
                        ok (map_failed e) (record m { os_calls = m.os_calls + 1; errno = e })
                  ])
                  (λ answer. mmap_check size answer next))) [
                    | mapped a ↦ λ q. got a q
                    | map_failed e ↦ λ q. failed e
                  ])
        refl

-- A failure of `mmap`, when all that was done before is kept.
failed-Extends :
    (env : Env) (base : Machine) (size : ℕ) (e : ℕ) (next : ℕ → Machine → Run ℕ) (m : Machine)
    → Kept base m
    → m.errno ≡ e
    → Extends env base size (mmap_check size (map_failed e) next m)
unfolding mmap_check unlock_ext
failed-Extends env base size e next m kept said = elim (Bool-cases (e == enomem)) [
  | inl full ↦ rw full (
    record {
      heaps = kept.heaps;
      free_headers = kept.free_headers;
      headers = kept.headers;
      bytes = kept.bytes;
      table = kept.table;
      manager = kept.manager;
      limit = kept.limit;
      mmap_start = kept.mmap_start;
      calls = kept.calls;
    },
    refl,
    inl (refl, ground (arith, full, said)),
  )
  | inr other ↦ rw other (size, e, refl, λ q. absurd (ground (arith, other, q)))
]

-- One more call of the system.
Kept-call :
    (base m : Machine) (e : ℕ)
    → Kept base m
    → Kept base (record m { os_calls = m.os_calls + 1; errno = e })
Kept-call base m e kept = record {
  heaps = kept.heaps;
  free_headers = kept.free_headers;
  headers = kept.headers;
  bytes = kept.bytes;
  table = kept.table;
  manager = kept.manager;
  limit = kept.limit;
  mmap_start = kept.mmap_start;
  calls = omega (arith, kept.calls);
}

mmap-Extends :
    (env : Env) (base : Machine) (hint length size : ℕ) (next : ℕ → Machine → Run ℕ) (m : Machine)
    → Kept base m
    → ((a : ℕ)
        → env.mmap (m.os_calls) hint length ≡ mapped a
        → Extends env base size (next a (record m { os_calls = m.os_calls + 1 })))
    → Extends env base size ((mmap env hint length >>= λ answer. mmap_check size answer next) m)
mmap-Extends env base hint length size next m kept got =
    mmap-cases env hint length size next m (Extends env base size) got
      (λ e. failed-Extends env base size e next _ (Kept-call base m e kept) refl)

carve-Extends :
    (env : Env) (base : Machine) (size rem : ℕ) (m : Machine)
    → Kept base m
    → Extends env base size (carve env size rem m)
unfolding carve unlock_ext
carve-Extends env base size rem m kept =
    let length = max size (m.master.sbrk_thread_block) in
    mmap-Extends env base (m.master.sbrk_end) length size _ m kept (λ a q. (
      record {
        heaps = kept.heaps;
        free_headers = kept.free_headers;
        headers = kept.headers;
        bytes = kept.bytes;
        table = kept.table;
        manager = kept.manager;
        limit = kept.limit;
        mmap_start = kept.mmap_start;
        calls = omega (arith, kept.calls);
      },
      refl,
      inr (record {
        call = m.os_calls;
        hint = m.master.sbrk_end;
        length = length;
        since = kept.calls;
        until = omega arith;
        answer = q;
        enough = omega arith;
      }),
    ))

-- Changes of the master that keep the largest bucket and the start of the large sizes.
Kept-held :
    (m : Machine) (g : HeapMaster)
    → (same : (g.max_buckets_used ≡ m.master.max_buckets_used)
        × (g.mmap_start ≡ m.master.mmap_start))
    → Kept m (record m { master = g })
Kept-held m g same = record {
  heaps = refl;
  free_headers = refl;
  headers = refl;
  bytes = refl;
  table = refl;
  manager = refl;
  limit = same.0;
  mmap_start = same.1;
  calls = omega arith;
}

Kept-later :
    (m : Machine) (g : HeapMaster)
    → (same : (g.max_buckets_used ≡ m.master.max_buckets_used)
        × (g.mmap_start ≡ m.master.mmap_start))
    → Kept m (record m { master = g; os_calls = m.os_calls + 1 })
Kept-later m g same = record {
  heaps = refl;
  free_headers = refl;
  headers = refl;
  bytes = refl;
  table = refl;
  manager = refl;
  limit = same.0;
  mmap_start = same.1;
  calls = omega arith;
}

lock_ext-free :
    (m : Machine)
    → m.master.ext_lock ≡ false
    → lock_ext m ≡ ok tt (record m { master = record (m.master) { ext_lock = true } })
unfolding lock_ext
lock_ext-free m unlocked = simp unlocked

-- `master_extend` gives its lock back on all ways out of it. It answers null when the system has no
-- memory, with `errno` set so, and otherwise a mapping of at least the requested size that the
-- system made during the call; in both cases the heaps, the free lists and the headers of blocks are
-- as before. Any other error of the system aborts the program.
pub master_extend-Extends :
    (env : Env) (size : ℕ) (m : Machine)
    → m.master.ext_lock ≡ false
    → Extends env m size (master_extend env size m)
unfolding master_extend
master_extend-Extends env size m unlocked =
    elim (Bool-cases (negative (sub64 (m.master.sbrk_remaining) size))) [
      | inl short ↦
          rw (lock_ext-free m unlocked, short)
            (mmap-Extends env m 0 (m.master.sbrk_extend) size _ _ (Kept-held m _ (refl, refl))
              (λ a q. carve-Extends env m size _ _ (Kept-later m _ (refl, refl))))
      | inr enough ↦
          rw (lock_ext-free m unlocked, enough)
            (carve-Extends env m size _ _ (Kept-held m _ (refl, refl)))
    ]
