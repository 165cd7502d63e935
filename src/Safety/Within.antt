-- ===== src/Safety/Within.antt =====
-- `realloc` within the block, in the release build.
use llheap.Prelude.{
  ℕ, ◌+◌, ◌≤◌, ◌<◌, ◌≡◌, ◌≢◌, refl, true, false, inl, ◌==◌, ℕ_discrete, ne→==, arith, update,
  update_self, update_ne,
}
use llheap.Word.{word}
use llheap.Bucket.{sizeof_storage, bucket_size}
use llheap.Header.{zero_fill_bit, header_addr}
use llheap.Stats.{Row, count_calls, count_calls_0}
use llheap.Machine.{Env, Machine, ok}
use llheap.Machine.Outcome.{Returns}
use llheap.Api.Resize.{adjust_unfreed}
use llheap.Api.Realloc.{realloc_in_place}
use llheap.Arena.{Layout}
use llheap.Safety.State.{IsReady, IsLive}
use llheap.Safety.Alike.{Alike, Alike-IsReady, Alike-HasClear}
use llheap.Safety.Resized.{Carried, Resized, Carried-Adjusts}
use llheap.Safety.Grown.{
  noted-Adjusts, grown, zero_added-grown, grown-Adjusts, grown_zeros, grown_headers, tallied,
}

-- The machine after the new size went into the header at `a`.
abbrev sized : Machine → (a size : ℕ) → Machine
sized m a size = record m { headers = update (m.headers) a (record (m.headers a) { word1 = size }) }

sized-Alike : (l : Layout) (m : Machine) (a size : ℕ) → Alike l m (sized m a size)
unfolding update
sized-Alike l m a size = record {
  manager = refl;
  table = refl;
  master = refl;
  calls = omega arith;
  start = refl;
  room = refl;
  buckets = refl;
  links = λ c d at. inl (ground arith);
}

module _ (env : Env) (release : env.debug ≡ false) (m : Machine) (l : Layout) (ready : IsReady m l)
    (a b : ℕ) (live : IsLive l a b) (size : ℕ) (room : size + sizeof_storage ≤ bucket_size b) where
  abbrev addr : ℕ
  addr = a + sizeof_storage

  abbrev osize : ℕ
  osize = (m.headers a).word1

  space : addr + size < word
  space = omega (arith, ready.laid.known a b (live.0))

  sized-Carried : Carried env m l a size addr (sized m a size)
  sized-Carried =
      let alike = sized-Alike l m a size in
      record {
        block = a;
        bucket = b;
        layout = l;
        ready = Alike-IsReady m (sized m a size) l alike ready;
        address = refl;
        now_live = live;
        room = room;
        recorded = simp update_self;
        kept = λ i h. refl;
        untouched = λ x out. refl;
        moved = λ ne. absurd (ne refl);
        others = λ c d na nb. (λ p. p, λ p. p);
        sizes = λ c na nb. rw (update_ne (m.headers) a _ c na) refl;
        clear = Alike-HasClear m (sized m a size) l alike env;
        unlocked = λ free. free;
      }

  tallied-Carried :
      (n : Machine) (z : Carried env m l a size addr n) → Carried env m l a size addr (tallied n)
  tallied-Carried n z =
      let first =
        noted-Adjusts (z.layout) (addr + osize) (addr + size) n (count_calls Row.realloc) in
      let middle = Carried-Adjusts env m l a size addr n _ z first in
      Carried-Adjusts env m l a size addr _ _ middle
        (noted-Adjusts (middle.layout) (addr + osize) (addr + size) _ (count_calls_0 Row.reallocx))

  at_header : header_addr addr ≡ a
  at_header = omega (arith, ready.laid.known a b (live.0))

  same_bit :
      zero_fill_bit ((sized m a size).headers (header_addr addr)) ≡ zero_fill_bit (m.headers a)
  unfolding zero_fill_bit
  same_bit = rw (at_header, update_self (m.headers) a _) refl

  in_place_plain :
      zero_fill_bit (m.headers a) ≡ 0
      → realloc_in_place env addr a size m ≡ ok addr (tallied (sized m a size))
  unfolding realloc_in_place adjust_unfreed
  in_place_plain none =
      let plain : (zero_fill_bit (m.headers a) == 0) ≡ true = rw none refl in
      rw (release, plain) refl

  in_place_grown :
      zero_fill_bit (m.headers a) ≢ 0
      → realloc_in_place env addr a size m
        ≡ ok addr (tallied (grown (sized m a size) addr osize size))
  unfolding realloc_in_place adjust_unfreed
  in_place_grown some_bit =
      let zero_filled = ne→== (zero_fill_bit (m.headers a)) 0 some_bit in
      rw (release, zero_filled, zero_added-grown (sized m a size) addr osize size) refl

  pub realloc_in_place-Resized :
      Returns (Resized env m l a size) (realloc_in_place env addr a size m)
  realloc_in_place-Resized = elim (ℕ_discrete (zero_fill_bit (m.headers a)) 0) [
    | yes none ↦ rw (in_place_plain none) (record {
      carried = tallied-Carried (sized m a size) sized-Carried;
      zeroed = λ some_bit. absurd (some_bit none);
      marked = same_bit;
    })
    | no some_bit ↦ rw (in_place_grown some_bit) (record {
      carried = tallied-Carried (grown (sized m a size) addr osize size) (
          Carried-Adjusts env m l a size addr (sized m a size) _ sized-Carried
            (grown-Adjusts (sized m a size) addr osize size space (sized-Carried.layout)));
      zeroed = λ on i low high. grown_zeros (sized m a size) addr osize size space i low high;
      marked = rw (grown_headers (sized m a size) addr osize size space) same_bit;
    })
  ]
