-- ===== src/Extend/Lock.antt =====
-- `master_extend` and its lock.
use llheap.Prelude.{ℕ, ◌≡◌, ◌≢◌, false}
use llheap.Machine.{Env, Machine, map_error, Run, ok, stop, enomem}
use llheap.Extend.{master_extend}
use llheap.Extend.Outcome.{Extends, master_extend-Extends}

-- The run ends with the lock given back, or stops because of an error of `mmap`.
abbrev pub Unlocks : Run ℕ → Type 0
Unlocks (ok a n) = n.master.ext_lock ≡ false
Unlocks (stop e) = (size : ℕ) × (errno : ℕ) × (e ≡ map_error size errno) × (errno ≢ enomem)

Extends-Unlocks :
    (env : Env) (m : Machine) (size : ℕ) (r : Run ℕ) → Extends env m size r → Unlocks r
Extends-Unlocks env m size (ok a n) p = p.1
Extends-Unlocks env m size (stop e) p = p

-- `master_extend` returns with its lock given back, on all ways out of it: with new storage, or
-- with null when the system has no memory. Otherwise it aborts with the error of a system call,
-- which is another than `ENOMEM`.
pub master_extend-Unlocks :
    (env : Env) (size : ℕ) (m : Machine)
    → m.master.ext_lock ≡ false
    → Unlocks (master_extend env size m)
master_extend-Unlocks env size m unlocked =
    Extends-Unlocks env m size (master_extend env size m)
      (master_extend-Extends env size m unlocked)
