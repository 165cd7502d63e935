-- ===== src/Safety/Reuse.antt =====
-- A freed block is the next one of its bucket that is allocated.
use llheap.Prelude.{ℕ, ◌+◌, ◌≤◌, ◌<◌, ◌≡◌, refl, false, arith, update_self}
use llheap.Word.{add64}
use llheap.Bucket.{sizeof_storage, bucket_size, bucket_index, IsBestFit, best_fit_unique}
use llheap.Stats.{Row}
use llheap.Machine.{Env, Machine, and_then, free_header_addr}
use llheap.Machine.Outcome.{Returns, Returns-map}
use llheap.Alloc.{do_malloc}
use llheap.Free.{do_free}
use llheap.Arena.{Layout}
use llheap.Safety.State.{IsReady, IsLive}
use llheap.Safety.Serve.{chosen}
use llheap.Safety.Choice.{bucket-IsBestFit}
use llheap.Safety.Pop.{do_malloc-pop}
use llheap.Safety.Release.{freed, do_free-freed}

-- In the release build, a small request after a free of a block in use, zero filled or not, if its best bucket is that
-- of the block, is served by that very block.
pub do_malloc-do_free :
    (env : Env) (m : Machine) (l : Layout) (row : Row) (a b size : ℕ)
    → env.debug ≡ false
    → IsReady m l
    → IsLive l a b
    → IsBestFit (size + sizeof_storage) b
    → size < m.master.mmap_start
    → size + sizeof_storage ≤ bucket_size (m.master.max_buckets_used)
    → Returns
        (λ addr _. addr ≡ a + sizeof_storage)
        (and_then (do_free env (a + sizeof_storage) m) (λ _. do_malloc env size row))
do_malloc-do_free env m l row a b size release ready live best small fits =
    let known = ready.laid.known a b (live.0) in
    let fh = free_header_addr (m.heap_manager) b in
    let n = freed m a fh in
    let same : bucket_index (m.lookup) (m.master.max_buckets_used) (add64 size sizeof_storage) ≡ b =
      best_fit_unique _ _ b (bucket-IsBestFit m l ready size fits) best in
    let at : chosen n size ≡ fh = rw same refl in
    let top : (n.free_headers fh).free_list ≡ a = simp update_self in
    rw (do_free-freed env release m l ready a b live) (
      Returns-map (do_malloc env size row n)
        (do_malloc-pop env n row size fh a release (omega (arith, ready.booted)) small at top
          (omega (arith, known)))
        (λ addr k is. omega (arith, is, known)))
