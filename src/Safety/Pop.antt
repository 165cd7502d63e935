-- ===== src/Safety/Pop.antt =====
-- A small request whose bucket has a free block, in the release build.
use llheap.Prelude.{ℕ, ◌<◌, ◌≡◌, ◌≢◌, refl, false, update_self}
use llheap.Word.{add64}
use llheap.Bucket.{sizeof_storage}
use llheap.Stats.{Row}
use llheap.Machine.{null, Env, Machine}
use llheap.Machine.Outcome.{Returns}
use llheap.Alloc.{do_malloc}
use llheap.Safety.Serve.{chosen, counted, do_malloc-take_block}
use llheap.Safety.Sources.{popped, take_block-popped, seal-sealed}

-- In the release build it is served by the first block of the free list, whose header then names the list and the size.
pub do_malloc-pop :
    (env : Env) (m : Machine) (row : Row) (size fh p : ℕ)
    → env.debug ≡ false
    → m.heap_manager ≢ 1
    → size < m.master.mmap_start
    → chosen m size ≡ fh
    → (m.free_headers fh).free_list ≡ p
    → p ≢ null
    → Returns
        (λ addr n.
          (addr ≡ add64 p sizeof_storage)
          × ((n.headers p).word0 ≡ fh)
          × ((n.headers p).word1 ≡ size))
        (do_malloc env size row m)
do_malloc-pop env m row size fh p release booted small at top ne =
    let c = chosen m size in
    let q = (m.free_headers c).free_list in
    let same : q ≡ p = rw at top in
    let ne' : q ≢ null = rw same ne in
    let seen : Returns
        (λ addr n.
          (addr ≡ add64 q sizeof_storage)
          × ((n.headers q).word0 ≡ c)
          × ((n.headers q).word1 ≡ size))
        (do_malloc env size row m) =
      rw
        (
          do_malloc-take_block env release row size m booted small,
          take_block-popped env (counted m row size) (m.heap_manager) c ne',
          seal-sealed env (popped (counted m row size) c) size c q release ne',
        )
        (refl, simp update_self, simp update_self) in
    rw (← same, ← at) seen
