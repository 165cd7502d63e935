-- ===== src/Os.antt =====
-- The system calls of llheap.cc as commands, and the two mutex locks of `heapMaster`.
-- What the system answers is the environment's; a lock that is already held stops the run.
use llheap.Prelude.{ℕ, ◌+◌, Bool, true, false, none, some, if◌then◌else◌, leb}
use llheap.Machine.{Env, MapAnswer, mapped, map_failed, Cmd, ok, stop, deadlock, on_master}

-- `mmap`, which sets `errno` when it fails.
unfoldable pub mmap : Env → (hint length : ℕ) → Cmd MapAnswer
mmap env hint length m = elim (env.mmap (m.os_calls) hint length) [
  | mapped a ↦ ok (mapped a) (record m { os_calls = m.os_calls + 1 })
  | map_failed e ↦ ok (map_failed e) (record m { os_calls = m.os_calls + 1; errno = e })
]

-- `munmap`: false is the answer -1.
unfoldable pub munmap : Env → (addr length : ℕ) → Cmd Bool
munmap env addr length m = elim (env.munmap (m.os_calls) addr length) [
  | none ↦ ok true (record m { os_calls = m.os_calls + 1 })
  | some e ↦ ok false (record m { os_calls = m.os_calls + 1; errno = e })
]

unfoldable pub lock_mgr : Cmd (Unit {0})
lock_mgr m =
    if m.master.mgr_lock
    then stop deadlock
    else ok tt (record m { master = record (m.master) { mgr_lock = true } })

unfoldable pub unlock_mgr : Cmd (Unit {0})
unlock_mgr = on_master (λ h. record h { mgr_lock = false })

unfoldable pub lock_ext : Cmd (Unit {0})
lock_ext m =
    if m.master.ext_lock
    then stop deadlock
    else ok tt (record m { master = record (m.master) { ext_lock = true } })

unfoldable pub unlock_ext : Cmd (Unit {0})
unlock_ext = on_master (λ h. record h { ext_lock = false })

-- Bit 63 of a `ptrdiff_t`.
abbrev pub negative : ℕ → Bool
negative a = leb 0x8000_0000_0000_0000 a
