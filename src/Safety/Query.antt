-- ===== src/Safety/Query.antt =====
-- What a program learns of an allocation from the queries, for a block in use of the running
-- thread's heap.
use llheap.Prelude.{ℕ, ◌+◌, ◌-◌, ◌≡◌, true, false, arith, ◌==◌, ne→==, ==_refl}
use llheap.Bucket.{sizeof_storage, align, bucket_size}
use llheap.Header.{header_addr, alignment_bit, clear_sticky_bits}
use llheap.Safety.Home.{home_bits}
use llheap.Machine.{null, Env, Machine, ok, free_header_addr}
use llheap.Machine.Outcome.{Returns}
use llheap.Arena.{Layout}
use llheap.Arena.Cut.{bucket_size_pos}
use llheap.Api.Query.{malloc_request_size, malloc_alignment, malloc_remote, malloc_usable_size}
use llheap.Safety.State.{IsReady, IsLive}
use llheap.Safety.Release.{headers-live}

module _ (env : Env) (release : env.debug ≡ false) (m : Machine) (l : Layout) (ready : IsReady m l)
    (a b : ℕ) (live : IsLive l a b) where
  abbrev fh : ℕ
  fh = free_header_addr (m.heap_manager) b

  at_header : header_addr (a + sizeof_storage) ≡ a
  at_header = omega (arith, ready.laid.known a b (live.0))

  not_null : (a + sizeof_storage == null) ≡ false
  not_null = ne→== _ null (omega arith)

  bits : (clear_sticky_bits (m.headers a).word0 ≡ fh) × (alignment_bit (m.headers a) ≡ 0)
  bits =
      let small = (ready.laid.known a b (live.0)).0 in
      let all =
        home_bits (m.headers a) fh (omega (arith, ready.aligned))
          (omega (arith, ready.heap_space, small)) (ready.laid.used a b (live.0) (live.1)) in
      (all.0, all.1)

  -- Of a block in use of the running thread's own heap, zero filled or not, in the release build:
  -- `malloc_request_size` answers the size in its header, `malloc_alignment` the minimum alignment, `malloc_usable_size`
  -- the bucket's size less the header, and `malloc_remote` answers true.
  pub query_lem :
      (malloc_request_size (a + sizeof_storage) m ≡ ok (m.headers a).word1 m)
      × (malloc_alignment (a + sizeof_storage) m ≡ ok align m)
      × Returns
          (λ n _. n ≡ bucket_size b - sizeof_storage)
          (malloc_usable_size env (a + sizeof_storage) m)
      × (malloc_remote (a + sizeof_storage) m ≡ ok true m)
  unfolding malloc_request_size malloc_alignment malloc_usable_size malloc_remote
  query_lem = (
    rw (not_null, at_header, bits.1),
    rw (not_null, at_header, bits.1),
    rw
        (
          not_null,
          headers-live env release m l ready a b live,
          ready.laid.sizes b (ready.laid.known a b (live.0)).0,
        )
        (omega (
          arith,
          ready.laid.known a b (live.0),
          bucket_size_pos b (ready.laid.known a b (live.0)).0,
        )),
    rw (
      not_null,
      at_header,
      bits.1,
      bits.0,
      ready.laid.homes b (ready.laid.known a b (live.0)).0,
      ==_refl (m.heap_manager),
    ),
  )
