-- ===== src/Safety/Aligned.antt =====
-- An aligned address in a block of the running thread's heap, and its free, in the release build.
use llheap.Prelude.{
  ℕ, ◌+◌, ◌-◌, ◌*◌, ◌^◌, ◌%◌, ◌≤◌, ◌<◌, ◌≡◌, ◌≢◌, ◌∙◌, refl, ap, inl, inr, false, some, ◌∷◌, arith,
  ne→==, update, update_self, ℕ_discrete,
}
use llheap.Prelude.Bits.{two_pow_add}
use llheap.Word.{word, sub64}
use llheap.Bucket.{sizeof_storage, bucket_size}
use llheap.Header.{
  Header, header_addr, mark_alignment_bit, alignment_bit, clear_alignment_bit, real_header,
  sticky_bits,
}
use llheap.Header.Sticky.{mark_alignment_bit_lem}
use llheap.Machine.{Env, Machine, ok, free_header_addr}
use llheap.Machine.Outcome.{Returns}
use llheap.Free.{do_free}
use llheap.Aligned.{place_fake}
use llheap.Aligned.Placed.{placed, IsPlaced, found, user, back}
use llheap.Arena.{Layout}
use llheap.Arena.Give.{give}
use llheap.Arena.Cut.{bucket_size_pos}
use llheap.Safety.State.{IsReady, IsLive}
use llheap.Safety.Alike.{Alike, Alike-IsReady}
use llheap.Safety.Release.{freed, do_free-freed, do_free-IsReady}
use llheap.Safety.Faked.{do_free-faked}

module _ (env : Env) (release : env.debug ≡ false) (m : Machine) (l : Layout) (ready : IsReady m l)
    (a b : ℕ) (live : IsLive l a b) (k size : ℕ) (wide : 4 < k) (narrow : k < 64)
    (whole : a % 16 ≡ 0) (fits : size + 2 ^ k + sizeof_storage ≤ bucket_size b) where
  abbrev addr : ℕ
  addr = a + sizeof_storage

  space : addr + size + 2 ^ k + sizeof_storage ≤ word
  space = omega (arith, ready.laid.known a b (live.0), fits)

  abbrev area : ℕ
  area = user k addr size wide narrow (omega (arith, whole)) (omega arith) space

  abbrev behind : ℕ
  behind = header_addr area

  -- The machine with both headers.
  abbrev n : Machine
  n = record m { headers = placed (m.headers) (header_addr addr) behind (2 ^ k) size }

  n-IsPlaced : IsPlaced n addr (2 ^ k) size area
  n-IsPlaced =
      found k addr size wide narrow (omega (arith, whole)) (omega arith) space n (m.headers) refl

  at_header : header_addr addr ≡ a
  at_header = omega (arith, ready.laid.known a b (live.0))

  -- The fake header lies in the block, after its real header.
  inside : (a < behind) × (behind < a + bucket_size b)
  inside =
      let known = ready.laid.known a b (live.0) in
      (
        omega (arith, n-IsPlaced.after, n-IsPlaced.inside, fits, known),
        omega (arith, n-IsPlaced.after, n-IsPlaced.inside, fits, known),
      )

  no_block : (c d : ℕ) → l.blocks c ≡ some d → c ≢ behind
  no_block c d at e = elim (ℕ_discrete c a) [
    | yes same ↦ omega (arith, same, e, inside.0)
    | no ne ↦ elim (ready.laid.apart c d a b at (live.0) ne) [
      | inl before ↦ omega (arith, before, e, inside, bucket_size_pos d (ready.laid.known c d at).0)
      | inr after ↦ omega (arith, after, e, inside)
    ]
  ]

  n-Alike : Alike l m n
  unfolding update
  n-Alike = record {
    manager = refl;
    table = refl;
    master = refl;
    calls = omega arith;
    start = refl;
    room = refl;
    buckets = refl;
    links = λ c d at. let ne = no_block c d at in inl (ground arith);
  }

  n-IsReady : IsReady n l
  n-IsReady = Alike-IsReady m n l n-Alike ready

  fake_at :
      n.headers behind
      ≡ record { word0 = mark_alignment_bit (2 ^ k); word1 = sub64 behind (header_addr addr) }
  fake_at = simp update_self

  marked :
      let h : Header = record {
        word0 = mark_alignment_bit (2 ^ k);
        word1 = sub64 behind (header_addr addr);
      } in
      (alignment_bit h ≡ 1) × (sticky_bits h ≢ 0) × (clear_alignment_bit h ≡ 2 ^ k)
  marked =
      mark_alignment_bit_lem (2 ^ k) (sub64 behind (header_addr addr)) (omega (arith, space))
        (omega (arith, even))
    where
      even : 2 ^ k ≡ 2 ^ (k - 1) * 2
      even = ap (λ (t : ℕ). 2 ^ t) (omega arith) ∙ two_pow_add 1 (k - 1)

  leads : real_header behind (n.headers behind) ≡ a
  leads =
      rw fake_at
        (back k addr size wide narrow (omega (arith, whole)) (omega arith) space ∙ at_header)

  do_free-area : do_free env area n ≡ ok tt (freed n a (free_header_addr (m.heap_manager) b))
  do_free-area =
      do_free-faked env release n l n-IsReady a b live area (rw fake_at (ne→== _ 0 (marked.1)))
        (rw (fake_at, marked.0) refl) leads

  do_free-addr : do_free env addr n ≡ ok tt (freed n a (free_header_addr (m.heap_manager) b))
  do_free-addr = do_free-freed env release n l n-IsReady a b live

  place_fake-area : (offset : ℕ) → place_fake env (2 ^ k) size offset addr m ≡ ok area n
  unfolding place_fake
  place_fake-area offset = rw release refl

  -- In the release build, on a ready heap, `memalignNoStats` puts its two headers into a block in use,
  -- whose address is a multiple of 16, for an alignment 2 ^ k with k from 5 to 63, if the block has
  -- room for the size, the alignment and a header. The address it answers is a multiple of the
  -- alignment, behind a fake header that leads back to the block, with the size in the block's own
  -- header; the heap is ready, with the same blocks in use, and the user's bytes are as before. A
  -- free of this address frees that very block: the heap is ready again, with the block on top of
  -- the free list of its bucket, not in use, and all else in the layout as before.
  pub do_free-place_fake :
      (offset : ℕ)
      → Returns
          (λ u n.
            IsPlaced n addr (2 ^ k) size u
            × IsReady n l
            × (n.bytes ≡ m.bytes)
            × Returns (λ _ e. IsReady e (give l a b (a ∷ l.free b) (l.remote b))) (do_free env u n))
          (place_fake env (2 ^ k) size offset addr m)
  do_free-place_fake offset =
      rw (place_fake-area offset, do_free-area)
        (
          n-IsPlaced,
          n-IsReady,
          refl,
          (rw do_free-addr at (do_free-IsReady env release n l n-IsReady a b live)),
        )
