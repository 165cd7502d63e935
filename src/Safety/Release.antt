-- ===== src/Safety/Release.antt =====
-- `doFree` of a block in use of the running thread's heap, in the release build.
use llheap.Prelude.{
  ℕ, ◌+◌, ◌%◌, ◌<◌, ◌≡◌, refl, ℕ_discrete, true, false, ◌∷◌, arith, ◌==◌, update, update_self,
  ne→==, ==_refl,
}
use llheap.Bucket.{sizeof_storage, align, no_bucket_sizes}
use llheap.Header.{sticky_bits, clear_sticky_bits, alignment_bit, mmapped_bit, header_addr}
use llheap.Safety.Home.{home_bits}
use llheap.Stats.{count_free}
use llheap.Machine.{Env, Machine, ok, free_header_addr}
use llheap.Machine.Outcome.{Returns}
use llheap.Master.{boot_heap_manager}
use llheap.Free.{headers, locate_sticky, locate_bucket, fake_header, scrub_old, push_local, do_free}
use llheap.Arena.{Layout}
use llheap.Arena.Take.{Touches}
use llheap.Arena.Give.{give, push_free-IsLaidOut}
use llheap.Safety.State.{IsReady, IsLive}
use llheap.Safety.Clear.{HasClear}

-- The machine after block `p` went to the free list of `fh`.
abbrev pub freed : Machine → (p fh : ℕ) → Machine
freed m p fh =
    let heap = m.heap_manager in
    let size = (m.headers p).word1 in
    let bsize = (m.free_headers fh).block_size in
    record m {
      heaps =
          update (m.heaps) heap
            (record (m.heaps heap) { stats = count_free size bsize ((m.heaps heap).stats) });
      headers =
          update (m.headers) p (record (m.headers p) { word0 = (m.free_headers fh).free_list });
      free_headers = update (m.free_headers) fh (record (m.free_headers fh) { free_list = p });
    }

freed-Touches :
    (m : Machine) (p fh : ℕ)
    → Touches fh p (m.free_headers) (freed m p fh).free_headers (m.headers) (freed m p fh).headers
unfolding update
freed-Touches m p fh = record {
  block_sizes = λ c. ground arith;
  home_managers = λ c. ground arith;
  free_lists = λ c ne. ground arith;
  remote_lists = λ c ne. ground arith;
  links = λ c ne. ground arith;
}

-- The block at `a`, of bucket `b`, is found from its user address.
module _ (env : Env) (release : env.debug ≡ false) (m : Machine) (l : Layout) (ready : IsReady m l)
    (a b : ℕ) (live : IsLive l a b) where
  abbrev fh : ℕ
  fh = free_header_addr (m.heap_manager) b

  b_small : b < no_bucket_sizes
  b_small = (ready.laid.known a b (live.0)).0

  aligned : fh % 8 ≡ 0
  aligned = omega (arith, ready.aligned)

  bits :
      (clear_sticky_bits (m.headers a).word0 ≡ fh)
      × (alignment_bit (m.headers a) ≡ 0)
      × (mmapped_bit (m.headers a) ≡ 0)
      × (sticky_bits (m.headers a) ≡ 0 → (m.headers a).word0 ≡ fh)
  bits =
      home_bits (m.headers a) fh aligned (omega (arith, ready.heap_space, b_small))
        (ready.laid.used a b (live.0) (live.1))

  at_header : header_addr (a + sizeof_storage) ≡ a
  at_header = omega (arith, ready.laid.known a b (live.0))

  real : (alignment_bit (m.headers a) == 0) ≡ true
  real = rw (bits.1) refl

  not_mapped : (mmapped_bit (m.headers a) == 0) ≡ true
  not_mapped = rw (bits.2) refl

  pub headers-live :
      headers env (a + sizeof_storage) m
      ≡ ok
          (record {
            mapped = false;
            header = a;
            free_head = fh;
            size = (m.free_headers fh).block_size;
            alignment = align;
          })
          m
  unfolding headers locate_sticky locate_bucket fake_header
  headers-live = elim (ℕ_discrete (sticky_bits (m.headers a)) 0) [
    | yes none ↦ rw (at_header, none, bits.3 none, release) refl
    | no some_bit ↦
        let sticky = ne→== (sticky_bits (m.headers a)) 0 some_bit in
        rw (at_header, sticky, release, real, not_mapped, bits.0) refl
  ]

  pub do_free-freed : do_free env (a + sizeof_storage) m ≡ ok tt (freed m a fh)
  unfolding do_free boot_heap_manager scrub_old push_local
  do_free-freed =
      let booted : (m.heap_manager == 1) ≡ false =
        ne→== (m.heap_manager) 1 (omega (arith, ready.booted)) in
      let mine : (m.heap_manager == (m.free_headers fh).home_manager) ≡ true =
        rw (ready.laid.homes b b_small) (==_refl (m.heap_manager)) in
      elim (ℕ_discrete (sticky_bits (m.headers a)) 0) [
        | yes none ↦ rw (booted, release, at_header, none, bits.3 none, mine) refl
        | no some_bit ↦
            let sticky = ne→== (sticky_bits (m.headers a)) 0 some_bit in
            rw (booted, release, at_header, sticky, real, not_mapped, bits.0, mine) refl
      ]

  -- In the release build `doFree` of a block in use of the running thread's heap, zero filled or not,
  -- given the user address 16 bytes after the block, returns with the block not in use and on top of the free list
  -- of its bucket, all else in the layout as before, and the heap ready.
  pub do_free-IsReady :
      Returns
        (λ _ n. IsReady n (give l a b (a ∷ l.free b) (l.remote b)))
        (do_free env (a + sizeof_storage) m)
  do_free-IsReady = rw do_free-freed (record {
    booted = ready.booted;
    aligned = ready.aligned;
    heap_space = ready.heap_space;
    table = ready.table;
    limit = ready.limit;
    begun = simp update_self (ready.begun);
    laid = simp update_self (
        push_free-IsLaidOut (m.heap_manager) _ _ (m.free_headers) (freed m a fh).free_headers
          (m.headers) (freed m a fh).headers l a b (ready.laid) (live.0) (live.1)
          (freed-Touches m a fh) (simp update_self) (simp update_self) (simp update_self));
  })

  -- What the system maps later stays apart, and the lock is as before.
  pub do_free-HasClear :
      Returns
        (λ _ n.
          (HasClear env m l → HasClear env n (give l a b (a ∷ l.free b) (l.remote b)))
          × (m.master.ext_lock ≡ false → n.master.ext_lock ≡ false))
        (do_free env (a + sizeof_storage) m)
  do_free-HasClear = rw do_free-freed (
    λ clear. simp update_self (record { blocks = clear.blocks; buffer = clear.buffer }),
    λ free. free,
  )
