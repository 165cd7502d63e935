-- ===== src/Safety/Settle.antt =====
-- A small request of any heap, also when storage has to be asked of the system.
use llheap.Prelude.{
  ℕ, ◌+◌, ◌≤◌, ◌<◌, ◌≡◌, ◌≢◌, ◌⊎◌, inl, inr, refl, true, false, arith, ℕ_discrete, Bool-cases, ltb,
  ltb→lt, ltb→le, not, ◌==◌, ne→==, ==_iff, le→leb,
}
use llheap.Word.{add64, sub64}
use llheap.Bucket.{
  sizeof_storage, no_bucket_sizes, bucket_size, bucket_index, bucket_size_le, bucket_size_last,
}
use llheap.Stats.{Row}
use llheap.Machine.{
  null, Env, Machine, Run, ok, stop, and_then, Cmd, enomem, free_header_addr, when, ◌>>◌, ◌>>=◌,
  pure, on_free_header,
}
use llheap.Machine.Outcome.{and_then_assoc, Ends, Returns-Ends}
use llheap.Os.{negative}
use llheap.Extend.{manager_extend}
use llheap.Alloc.{do_malloc, take_block, bump_block, scrub_new, finish_block}
use llheap.Arena.{Layout, user_space}
use llheap.Safety.State.{IsReady, Served}
use llheap.Safety.Clear.{IsHonest, HasClear}
use llheap.Safety.Front.{Fronted, noted, front-Served}
use llheap.Safety.Renew.{Exhausted, Renews, Kept-IsReady, Kept-HasClear, manager_extend-Renews}
use llheap.Safety.Serve.{HasStorage, counted, seal, do_malloc-take_block}
use llheap.Safety.Choice.{bucket-IsBestFit, bucket_below, bucket_small, counted-start, counted-room}
use llheap.Safety.Sources.{seal-sealed}
use llheap.Safety.Malloc.{do_malloc-Served}

-- A request that was refused because the system has no memory: the heap is as ready as before.
pub record IsRefused (env : Env) (m : Machine) (l : Layout) (n : Machine) : Type 0 where
  pub ready : IsReady n l
  pub clear : HasClear env m l → HasClear env n l
  pub unlocked : n.master.ext_lock ≡ false
  pub said : n.errno ≡ enomem
  pub contents : n.bytes ≡ m.bytes
  pub headers : n.headers ≡ m.headers
  pub settings :
      (n.master.mmap_start ≡ m.master.mmap_start)
      × (n.master.max_buckets_used ≡ m.master.max_buckets_used)

abbrev pub Answered : Env → Machine → Layout → (size addr : ℕ) → Machine → Type 0
Answered env m l size addr n = ((addr ≡ null) × IsRefused env m l n) ⊎ Served env m l size addr n

-- The request is served, or refused with null; or the run stops because the system answered with
-- another error than `ENOMEM`.
abbrev pub Settles : Env → Machine → Layout → (size : ℕ) → Run ℕ → Type 0
Settles env m l size = Ends (Answered env m l size)

Renews-and_then :
    (env : Env) (m k : Machine) (l : Layout) (b size : ℕ) (r : Run ℕ) (next : ℕ → Cmd ℕ)
    → Renews env k l b r
    → ((a : ℕ) (n : Machine) → Renews env k l b (ok a n) → Settles env m l size (next a n))
    → Settles env m l size (and_then r next)
Renews-and_then env m k l b size (ok a n) next p f = f a n p
Renews-and_then env m k l b size (stop e) next p f = p

module _ (m : Machine) (l : Layout) (row : Row) (size : ℕ) where
  -- The counters change nothing that the heap's storage rests on.
  counted-IsReady : IsReady m l → IsReady (counted m row size) l
  counted-IsReady ready = record {
    booted = ready.booted;
    aligned = ready.aligned;
    heap_space = ready.heap_space;
    table = ready.table;
    limit = ready.limit;
    begun = rw (counted-start m row size, counted-room m row size) (ready.begun);
    laid = rw (counted-start m row size, counted-room m row size) (ready.laid);
  }

  counted-HasClear : (env : Env) → HasClear env m l → HasClear env (counted m row size) l
  counted-HasClear env clear = rw (counted-start m row size, counted-room m row size) clear

-- What `take_block` does with new storage, and with null.
unfoldable note : Env → (free_head tsize : ℕ) → ℕ → Cmd ℕ
note env free_head tsize new =
    (when (not (new == null)) (scrub_new env new tsize) >> pure new) >>= λ block.
    when (not (block == null))
      (on_free_header free_head (λ f. record f { allocations = add64 (f.allocations) 1 }))
    >> pure block

note-noted :
    (env : Env)
    → env.debug ≡ false
    → (m : Machine) (fh tsize a : ℕ) → a ≢ null
    → note env fh tsize a m ≡ ok a (noted m fh)
unfolding note scrub_new
note-noted env release m fh tsize a ne = rw (ne→== a null ne, release, ne→== a null ne) refl

take_block-extended :
    (env : Env) (m : Machine) (heap fh tsize : ℕ)
    → (m.free_headers fh).block_size ≡ tsize
    → (m.free_headers fh).free_list ≡ null
    → (m.free_headers fh).remote_list ≡ null
    → (m.heaps heap).buf_remaining < tsize
    → tsize < user_space
    → take_block env heap fh m ≡ and_then (manager_extend env tsize m) (note env fh tsize)
unfolding take_block bump_block note
take_block-extended env m heap fh tsize sz none_free none_back short bound =
    let low : negative (sub64 (m.heaps heap).buf_remaining tsize) ≡ true =
      le→leb _ _ (omega (arith, short, bound)) in
    let no_free : ((m.free_headers fh).free_list == null) ≡ true = (==_iff _ null).1 none_free in
    let no_back : ((m.free_headers fh).remote_list == null) ≡ true = (==_iff _ null).1 none_back in
    rw (no_free, no_back, sz, low) (and_then_assoc (manager_extend env tsize m) _ _)

module _ (env : Env) (honest : IsHonest env) (block : env.malloc_thread_block < user_space)
    (release : env.debug ≡ false) (m : Machine) (l : Layout) (ready : IsReady m l)
    (clear : HasClear env m l) (unlocked : m.master.ext_lock ≡ false) (row : Row) (size : ℕ)
    (small : size < m.master.mmap_start)
    (fits : size + sizeof_storage ≤ bucket_size (m.master.max_buckets_used)) where
  abbrev b : ℕ
  b = bucket_index (m.lookup) (m.master.max_buckets_used) (add64 size sizeof_storage)

  b_small : b < no_bucket_sizes
  b_small = bucket_small m l ready size fits

  b_below : b ≤ m.master.max_buckets_used
  b_below = bucket_below m l ready size fits

  abbrev heap : ℕ
  heap = m.heap_manager

  abbrev fh : ℕ
  fh = free_header_addr heap b

  abbrev counts : Machine
  counts = counted m row size

  uncounted : (a : ℕ) (n : Machine) → Fronted env counts l b a n → Fronted env m l b a n
  uncounted a n front = record {
    layout = front.layout;
    increase = front.increase;
    place = front.place;
    enough = front.enough;
    laid = front.laid;
    clear = λ far. front.clear (counted-HasClear m l row size env far);
    live = front.live;
    start = front.start;
    room = front.room;
    manager = front.manager;
    table = front.table;
    bytes = front.bytes;
    sizes = front.sizes;
    limit = front.limit;
    mmap_start = front.mmap_start;
    unlocked = front.unlocked;
  }

  refused : (n : Machine) → Exhausted counts n → IsRefused env m l n
  refused n e = record {
    ready = Kept-IsReady counts n l (e.kept) (counted-IsReady m l row size ready);
    clear = λ far. Kept-HasClear env counts n l (e.kept) (counted-HasClear m l row size env far);
    unlocked = e.unlocked;
    said = e.said;
    contents = e.kept.bytes;
    headers = e.kept.headers;
    settings = (e.kept.mmap_start, e.kept.limit);
  }

  sealing :
      (a : ℕ) (n : Machine)
      → Renews env counts l b (ok a n)
      → Settles env m l size (and_then (note env fh (bucket_size b) a n) (seal env size fh))
  unfolding note finish_block
  sealing a n (inl (none, e)) = rw none (inl (refl, refused n e))
  sealing a n (inr front) =
      let ne : a ≢ null = omega (arith, front.place) in
      rw
        (
          note-noted env release n fh (bucket_size b) a ne,
          seal-sealed env (noted n fh) size fh a release ne,
        )
        (inr (
          front-Served env m l ready size b a (bucket-IsBestFit m l ready size fits) b_small n
            (uncounted a n front)))

  from_system :
      (m.free_headers fh).free_list ≡ null
      → (m.free_headers fh).remote_list ≡ null
      → (m.heaps heap).buf_remaining < bucket_size b
      → Settles env m l size (do_malloc env size row m)
  from_system none_free none_back short =
      let room : (counts.heaps heap).buf_remaining < bucket_size b =
        rw (counted-room m row size) short in
      rw
        (
          do_malloc-take_block env release row size m (omega (arith, ready.booted)) small,
          take_block-extended env counts heap fh (bucket_size b) (ready.laid.sizes b b_small)
              none_free none_back room
              (omega (
                arith,
                bucket_size_le b 63 (omega (arith, b_small)) (omega arith),
                bucket_size_last,
              )),
          and_then_assoc (manager_extend env (bucket_size b) counts) (note env fh (bucket_size b))
              (seal env size fh),
        )
        (Renews-and_then env m counts l b size (manager_extend env (bucket_size b) counts) _
          (manager_extend-Renews env honest block counts l (counted-IsReady m l row size ready)
            (counted-HasClear m l row size env clear) unlocked b b_small b_below room)
          sealing)

  -- In the release build, with a thread block below 2 ^ 63 bytes, on a system that hands out memory
  -- of the process's address space and no byte twice: the heap is ready, the memory that the system
  -- hands out later lies apart from it, and the extension lock is open. A request below the mmap
  -- threshold that fits the last bucket in use with its header ends in one of three ways. It is
  -- served, from the free list, the remote list, the buffer or new storage of the system, by a block
  -- that was not in use and now is, in the smallest bucket that holds it, all other blocks being in
  -- use exactly as before. Or it is refused with null and `ENOMEM`. In both cases the heap is ready
  -- again, later memory of the system lies apart from it, and the lock is open. Or the program is
  -- aborted, for another error of `mmap` than `ENOMEM`.
  pub do_malloc-Settles : Settles env m l size (do_malloc env size row m)
  do_malloc-Settles =
      let at_hand = λ (storage : HasStorage m size).
        Returns-Ends (Answered env m l size) (do_malloc env size row m)
          (do_malloc-Served env m l row size release ready small fits storage)
          (λ addr n s. inr s) in
      elim (ℕ_discrete ((m.free_headers fh).free_list) null) [
        | no some_free ↦ at_hand (inl some_free)
        | yes none_free ↦ elim (ℕ_discrete ((m.free_headers fh).remote_list) null) [
          | no some_back ↦ at_hand (inr (inl some_back))
          | yes none_back ↦ elim (Bool-cases (ltb (m.heaps heap).buf_remaining (bucket_size b))) [
            | inl short ↦ from_system none_free none_back (ltb→lt _ _ short)
            | inr enough ↦ at_hand (inr (inr (rw (ready.laid.sizes b b_small) (ltb→le _ _ enough))))
          ]
        ]
      ]
