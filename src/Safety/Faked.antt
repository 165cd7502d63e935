-- ===== src/Safety/Faked.antt =====
-- `doFree` of an address behind a fake header, in the release build: the block that it leads to is
-- freed.
use llheap.Prelude.{ℕ, ◌<◌, ◌≡◌, refl, true, false, ◌==◌, arith, ne→==, ==_refl}
use llheap.Bucket.{no_bucket_sizes}
use llheap.Header.{
  header_addr, real_header, alignment_bit, sticky_bits, clear_sticky_bits, mmapped_bit,
}
use llheap.Safety.Home.{home_bits}
use llheap.Machine.{Env, Machine, ok, free_header_addr}
use llheap.Master.{boot_heap_manager}
use llheap.Free.{do_free, headers, locate_sticky, locate_bucket, fake_header, scrub_old, push_local}
use llheap.Arena.{Layout}
use llheap.Safety.State.{IsReady, IsLive}
use llheap.Safety.Release.{freed}

module _ (env : Env) (release : env.debug ≡ false) (n : Machine) (l : Layout) (ready : IsReady n l)
    (a b : ℕ) (live : IsLive l a b) (user : ℕ)
    (sticky : (sticky_bits (n.headers (header_addr user)) == 0) ≡ false)
    (fake : (alignment_bit (n.headers (header_addr user)) == 0) ≡ false)
    (leads : real_header (header_addr user) (n.headers (header_addr user)) ≡ a) where
  abbrev fh : ℕ
  fh = free_header_addr (n.heap_manager) b

  b_small : b < no_bucket_sizes
  b_small = (ready.laid.known a b (live.0)).0

  bits :
      (clear_sticky_bits (n.headers a).word0 ≡ fh)
      × (alignment_bit (n.headers a) ≡ 0)
      × (mmapped_bit (n.headers a) ≡ 0)
      × (sticky_bits (n.headers a) ≡ 0 → (n.headers a).word0 ≡ fh)
  bits =
      home_bits (n.headers a) fh (omega (arith, ready.aligned))
        (omega (arith, ready.heap_space, b_small)) (ready.laid.used a b (live.0) (live.1))

  pub do_free-faked : do_free env user n ≡ ok tt (freed n a fh)
  unfolding do_free boot_heap_manager headers locate_sticky locate_bucket fake_header scrub_old
      push_local
  do_free-faked =
      let booted : (n.heap_manager == 1) ≡ false =
        ne→== (n.heap_manager) 1 (omega (arith, ready.booted)) in
      let mine : (n.heap_manager == (n.free_headers fh).home_manager) ≡ true =
        rw (ready.laid.homes b b_small) (==_refl (n.heap_manager)) in
      rw (booted, release, sticky, fake, leads, bits.2, bits.0, mine) refl
