-- ===== src/Safety/Moved.antt =====
-- `realloc` to another block, in the release build: the contents move, and the old block is freed.
use llheap.Prelude.{
  ℕ, ◌+◌, ◌%◌, ℕ_discrete, ne→==, ◌==◌, ◌≤◌, ◌<◌, ◌≡◌, ◌≢◌, ◌⊎◌, ◌↔◌, ◌∙◌, sym, inl, inr, refl, ap,
  true, false, min, arith, update, update_self, update_ne, ◌∷◌,
}
use llheap.Word.{word}
use llheap.Bucket.{sizeof_storage}
use llheap.Header.{zero_fill_bit, mark_zero_filled_bit, alignment_bit, header_addr}
use llheap.Machine.{Env, Machine, ok, free_header_addr}
use llheap.Machine.Outcome.{Returns}
use llheap.Memory.{copy_inside, copy_outside}
use llheap.Free.{fake_header, do_free}
use llheap.Api.Realloc.{move_contents}
use llheap.Arena.{Layout}
use llheap.Arena.Give.{give}
use llheap.Safety.State.{IsReady, IsLive, Served}
use llheap.Safety.Clear.{HasClear}
use llheap.Safety.Alike.{Alike-IsReady, Alike-HasClear}
use llheap.Safety.Release.{freed, do_free-freed, do_free-IsReady, do_free-HasClear}
use llheap.Safety.Home.{home_bits, home_unmarked, home_marked, home_bit}
use llheap.Safety.Resized.{Carried, Resized, Carried-Adjusts}
use llheap.Safety.Grown.{grown, zero_added-grown, grown-Adjusts, grown_zeros, grown_headers}
use llheap.Safety.Moving.{moving, moving-Alike, copied, copied-Alike, mark-Adjusts}

module _ (env : Env) (release : env.debug ≡ false) (m : Machine) (l : Layout) (ready : IsReady m l)
    (a b : ℕ) (live : IsLive l a b) (size : ℕ) where
  -- The contents go to the block of a served request, and the old block is freed.
  module _ (k : Machine) (addr : ℕ) (s : Served env (moving m) l size addr k) where
    abbrev n : Machine
    n = copied k addr (a + sizeof_storage) (min (m.headers a).word1 size)

    n_ready : IsReady n (s.layout)
    n_ready = Alike-IsReady k n (s.layout) (copied-Alike (s.layout) k addr _ _) (s.ready)

    elsewhere : s.block ≢ a
    elsewhere e = s.was_idle b (rw e live)

    still_live : IsLive (s.layout) a b
    still_live = (s.others a b (λ e. elsewhere (sym e))).0 live

    abbrev pub end : Machine
    end = freed n a (free_header_addr (n.heap_manager) b)

    abbrev left : Layout
    left = give (s.layout) a b (a ∷ s.layout.free b) (s.layout.remote b)

    left-IsLive : (c d : ℕ) → c ≢ a → IsLive (s.layout) c d ↔ IsLive left c d
    left-IsLive c d ne = rw (update_ne (s.layout.live) a false c ne) (λ p. p, λ p. p)

    left_idle : (d : ℕ) → ¬ (IsLive left a d)
    left_idle d on =
        let off = update_self (s.layout.live) a false in
        let both : true ≡ false = sym (on.1) ∙ off in cc

    run : do_free env (a + sizeof_storage) n ≡ ok tt end
    run = do_free-freed env release n (s.layout) n_ready a b still_live

    end-IsReady : IsReady end left
    end-IsReady = rw run at (do_free-IsReady env release n (s.layout) n_ready a b still_live)

    end-HasClear :
        (HasClear env n (s.layout) → HasClear env end left)
        × (n.master.ext_lock ≡ false → end.master.ext_lock ≡ false)
    end-HasClear = rw run at (do_free-HasClear env release n (s.layout) n_ready a b still_live)

    moved-Carried : Carried env m l a size addr end
    moved-Carried = record {
      block = s.block;
      bucket = s.bucket;
      layout = left;
      ready = end-IsReady;
      address = s.address;
      now_live = (left-IsLive (s.block) (s.bucket) elsewhere).0 (s.now_live);
      room = s.best.fits;
      recorded = rw (update_ne (n.headers) a _ (s.block) elsewhere) (s.recorded);
      kept = λ i h.
          copy_inside addr (a + sizeof_storage) _ (k.bytes) i h
          ∙ ap (λ (f : ℕ → ℕ). f (a + sizeof_storage + i)) (s.contents);
      untouched = λ x out.
          copy_outside addr (a + sizeof_storage) _ (k.bytes) x (outside x out)
          ∙ ap (λ (f : ℕ → ℕ). f x) (s.contents);
      moved = λ ne d. (left_idle d, s.was_idle d);
      others = λ c d na nb.
          let (there, back) = s.others c d nb in
          let (on, off) = left-IsLive c d na in (λ p. on (there p), λ p. back (off p));
      sizes = λ c na nb. rw (update_ne (n.headers) a _ c na) (s.sizes c nb);
      clear = λ far. end-HasClear.0 (
          Alike-HasClear k n (s.layout) (copied-Alike (s.layout) k addr _ _) env
            (s.clear (Alike-HasClear m (moving m) l (moving-Alike l m) env far)));
      unlocked = λ free. end-HasClear.1 (s.unlocked free);
    }
      where
        outside :
            (x : ℕ)
            → (x < addr) ⊎ (addr + size ≤ x)
            → (x < addr) ⊎ (addr + min (m.headers a).word1 size ≤ x)
        outside x (inl before) = inl before
        outside x (inr after) = inr (omega arith)

    at_header : header_addr addr ≡ s.block
    at_header = omega (arith, s.address, s.ready.laid.known (s.block) (s.bucket) (s.now_live.0))

    space : addr + size < word
    space =
        omega
          (arith, s.address, s.best.fits, s.ready.laid.known (s.block) (s.bucket) (s.now_live.0))

    home : (end.headers (s.block)).word0 ≡ free_header_addr (k.heap_manager) (s.bucket)
    home = rw (update_ne (n.headers) a _ (s.block) elsewhere) (s.home)

    home_aligned : free_header_addr (k.heap_manager) (s.bucket) % 8 ≡ 0
    home_aligned = omega (arith, s.ready.aligned)

    -- The new block is marked zero filled.
    abbrev marked : Machine
    marked = record end {
      headers = update (end.headers) (s.block) (mark_zero_filled_bit (end.headers (s.block)));
    }

    marked-Carried : Carried env m l a size addr marked
    marked-Carried =
        let z = moved-Carried in
        let same : s.block ≡ z.block = omega (arith, z.address, s.address) in
        Carried-Adjusts env m l a size addr end marked z
          (mark-Adjusts (z.layout) end (s.block) _ _ (rw same (z.now_live.1)))

    abbrev filled : Machine
    filled = grown marked addr (m.headers a).word1 size

    filled-Resized : zero_fill_bit (m.headers a) ≡ 2 → Resized env m l a size addr filled
    filled-Resized bit = record {
      carried =
          Carried-Adjusts env m l a size addr marked filled marked-Carried
            (grown-Adjusts marked addr (m.headers a).word1 size space (marked-Carried.layout));
      zeroed = λ on i low high. grown_zeros marked addr (m.headers a).word1 size space i low high;
      marked =
          rw
            (
              grown_headers marked addr (m.headers a).word1 size space,
              at_header,
              update_self (end.headers) (s.block) _,
              bit,
            )
            (home_marked (end.headers (s.block)) _ home_aligned (inl home));
    }

    plain-Resized : zero_fill_bit (m.headers a) ≡ 0 → Resized env m l a size addr end
    plain-Resized none = record {
      carried = moved-Carried;
      zeroed = λ some_bit. absurd (some_bit none);
      marked = rw (at_header, none) (home_unmarked (end.headers (s.block)) _ home_aligned home);
    }

    old_bit : zero_fill_bit (m.headers a) ≢ 0 → zero_fill_bit (m.headers a) ≡ 2
    old_bit some_bit =
        home_bit (m.headers a) _ (omega (arith, ready.aligned)) some_bit
          (ready.laid.used a b (live.0) (live.1))

    real : (alignment_bit (k.headers (header_addr addr)) == 0) ≡ true
    real =
        let small = (s.ready.laid.known (s.block) (s.bucket) (s.now_live.0)).0 in
        let bits =
          home_bits (k.headers (s.block)) _ home_aligned (omega (arith, s.ready.heap_space, small))
            (inl (s.home)) in
        rw (at_header, bits.1) refl

    contents-end :
        zero_fill_bit (m.headers a) ≡ 0
        → move_contents env (a + sizeof_storage) addr (m.headers a) size k ≡ ok addr end
    unfolding move_contents
    contents-end none =
        let plain : (zero_fill_bit (m.headers a) == 0) ≡ true = rw none refl in rw (run, plain) refl

    contents-filled :
        zero_fill_bit (m.headers a) ≢ 0
        → move_contents env (a + sizeof_storage) addr (m.headers a) size k ≡ ok addr filled
    unfolding move_contents fake_header
    contents-filled some_bit =
        let zero_filled = ne→== (zero_fill_bit (m.headers a)) 0 some_bit in
        rw
          (run, zero_filled, real, at_header, zero_added-grown marked addr (m.headers a).word1 size)
          refl

    pub move_contents-Resized :
        Returns
          (Resized env m l a size)
          (move_contents env (a + sizeof_storage) addr (m.headers a) size k)
    move_contents-Resized = elim (ℕ_discrete (zero_fill_bit (m.headers a)) 0) [
      | yes none ↦ rw (contents-end none) (plain-Resized none)
      | no some_bit ↦ rw (contents-filled some_bit) (filled-Resized (old_bit some_bit))
    ]
