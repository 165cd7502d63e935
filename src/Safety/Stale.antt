-- ===== src/Safety/Stale.antt =====
-- `posix_realloc` of size 0, which looks at `errno` although nothing sets it.
use llheap.Prelude.{
  ℕ, ◌+◌, ◌≡◌, refl, false, ◌==◌, if◌then◌else◌, update, arith, ne→==, update_self, ◌∷◌,
}
use llheap.Bucket.{sizeof_storage}
use llheap.Stats.{Row, count_calls_0}
use llheap.Machine.{null, Env, Machine, enomem}
use llheap.Machine.Outcome.{Returns}
use llheap.Api.Resize.{free_for_zero}
use llheap.Api.Realloc.{posix_realloc, posix_result, realloc}
use llheap.Arena.{Layout}
use llheap.Arena.Give.{give}
use llheap.Safety.State.{IsReady, IsLive}
use llheap.Safety.Release.{do_free-freed, do_free-IsReady}

-- The machine with one more call for size 0.
abbrev called : Machine → Machine
called m =
    let heap = m.heap_manager in
    record m {
      heaps =
          update (m.heaps) heap
            (record (m.heaps heap) { stats = count_calls_0 Row.realloc ((m.heaps heap).stats) });
    }

called-IsReady : (m : Machine) (l : Layout) → IsReady m l → IsReady (called m) l
called-IsReady m l ready = record {
  booted = ready.booted;
  aligned = ready.aligned;
  heap_space = ready.heap_space;
  table = ready.table;
  limit = ready.limit;
  begun = simp update_self (ready.begun);
  laid = simp update_self (ready.laid);
}

-- In the release build `posix_realloc` of a block in use, zero filled or not, to size 0 frees the block. What it
-- answers depends on the `errno` from before the call: if that is `ENOMEM`, it answers `ENOMEM` and
-- leaves the address of the freed block; else it answers 0 and a null address.
pub posix_realloc_zero :
    (env : Env) (m : Machine) (l : Layout) (a b : ℕ)
    → env.debug ≡ false
    → IsReady m l
    → IsLive l a b
    → Returns
        (λ answer n.
          (answer ≡ (if m.errno == enomem then (enomem, a + sizeof_storage) else (0, null)))
          × IsReady n (give l a b (a ∷ l.free b) (l.remote b)))
        (posix_realloc env (a + sizeof_storage) 0 m)
unfolding posix_realloc realloc free_for_zero posix_result
posix_realloc_zero env m l a b release ready live =
    let again = called-IsReady m l ready in
    let run = do_free-freed env release (called m) l again a b live in
    let done = rw run at (do_free-IsReady env release (called m) l again a b live) in
    rw (ne→== (a + sizeof_storage) null (omega arith), run) (refl, done)
