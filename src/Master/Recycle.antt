-- ===== src/Master/Recycle.antt =====
-- Heaps outlive their threads.
use llheap.Prelude.{ℕ, update_ne, ◌≡◌, ◌≢◌, refl, false, ne→==, update_self, Bool-cases, inl, inr}
use llheap.Machine.{null, Env, Machine, and_then}
use llheap.Machine.Outcome.{Returns}
use llheap.Stats.{add_stats}
use llheap.Os.{lock_mgr, unlock_mgr}
use llheap.Master.{heap_manager_dtor, get_heap, reuse_heap}

-- In both builds: the heap of a thread that ends is the one that the next thread gets, with its
-- bucket headers and its buffer as they were; the headers of all blocks, the user's bytes and the
-- other heaps are as they were, too. The stack of free heaps is then as
-- before, and the counters of the heap were added to the program's.
pub get_heap-heap_manager_dtor :
    (env : Env) (m : Machine)
    → m.master.mgr_lock ≡ false
    → m.heap_manager ≢ null
    → Returns
        (λ heap n.
          (heap ≡ m.heap_manager)
          × (n.master.free_heap_managers_list ≡ m.master.free_heap_managers_list)
          × (n.master.stats ≡ add_stats (m.master.stats) ((m.heaps (m.heap_manager)).stats))
          × (n.free_headers ≡ m.free_headers)
          × (n.headers ≡ m.headers)
          × (n.bytes ≡ m.bytes)
          × ((other : ℕ) → other ≢ heap → n.heaps other ≡ m.heaps other)
          × ((n.heaps heap).buf_start ≡ (m.heaps heap).buf_start)
          × ((n.heaps heap).buf_remaining ≡ (m.heaps heap).buf_remaining)
          × (n.master.mgr_lock ≡ false))
        (and_then (heap_manager_dtor env m) (λ _. get_heap env))
unfolding heap_manager_dtor get_heap reuse_heap lock_mgr unlock_mgr
get_heap-heap_manager_dtor env m unlocked some_heap =
    let ne = ne→== (m.heap_manager) null some_heap in
    elim (Bool-cases (env.debug)) [
      | inl debug ↦
          simp (debug, ne, unlocked, update_self)
            (
              refl,
              refl,
              refl,
              refl,
              refl,
              refl,
              λ o away. rw (update_ne _ _ _ o away, update_ne _ _ _ o away),
              refl,
              refl,
              refl,
            )
      | inr release ↦
          simp (release, ne, unlocked, update_self)
            (
              refl,
              refl,
              refl,
              refl,
              refl,
              refl,
              λ o away. rw (update_ne _ _ _ o away, update_ne _ _ _ o away),
              refl,
              refl,
              refl,
            )
    ]
