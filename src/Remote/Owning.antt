-- ===== src/Remote/Owning.antt =====
-- The steps of the owner on its bucket.
use llheap.Prelude.{
  ℕ, ◌≡◌, ◌≢◌, ◌↔◌, inl, inr, refl, true, false, [], ◌∷◌, ◌==◌, Bool-cases, ==_iff, update,
  update_self, update_ne,
}
use llheap.Machine.{null}
use llheap.Arena.{In, IsDistinct, Chain, Chain-cons, Chain-nil}
use llheap.Remote.{
  away, seen, fetched, Shared, bucket, set_next, set_held, set_free, look, fetch, keep, pop, put,
}
use llheap.Remote.Placed.{
  Site, outside, in_use, freeing, returned, taken, free, IsPlaced, joins, leaves, stays,
  set_next-IsPlaced, placed_null,
}
use llheap.Remote.Sites.{
  fetch_site, fetch_site-same, fetch_site-taken, fetch_site-returned, keep_site, keep_site-same,
  keep_site-free, keep_site-taken, then_iff,
}

module _ (fh : ℕ) (s : Shared) (site : ℕ → Site) (inv : IsPlaced fh s site) where
  away_taken : s.owner ≡ away → inv.taken_blocks ≡ []
  away_taken at = rw at at (inv.owned)

  pub look-IsPlaced : s.owner ≡ away → (bucket fh s).free_list ≡ null → IsPlaced fh (look fh s) site
  unfolding look
  look-IsPlaced at empty = elim (Bool-cases ((bucket fh s).remote_list == null)) [
    | inl none ↦ rw none inv
    | inr some ↦ rw some (record {
      remote_blocks = inv.remote_blocks;
      taken_blocks = inv.taken_blocks;
      free_blocks = inv.free_blocks;
      remote = inv.remote;
      local = inv.local;
      owned = (
        away_taken at,
        Chain-nil (s.machine.headers) _ _ (inv.local) empty,
        λ e. let t = (==_iff _ _).1 e in cc,
      );
      remote_once = inv.remote_once;
      taken_once = inv.taken_once;
      free_once = inv.free_once;
      at_remote = inv.at_remote;
      at_taken = inv.at_taken;
      at_free = inv.at_free;
      at_pusher = inv.at_pusher;
      at_program = inv.at_program;
      real = inv.real;
    })
  ]

  -- The whole list is fetched, and it has a block.
  pub fetch-IsPlaced : s.owner ≡ seen → IsPlaced fh (fetch fh s) (λ a. fetch_site (site a))
  unfolding fetch
  fetch-IsPlaced at =
      let (none_taken, none_free, some) = rw at at (inv.owned) in
      let untaken = λ (a : ℕ) (e : site a ≡ taken).
        let i : In a [] = rw none_taken at ((inv.at_taken a).1 e) in i in
      record {
        remote_blocks = [];
        taken_blocks = inv.remote_blocks;
        free_blocks = inv.free_blocks;
        remote = simp update_self;
        local = simp update_self (inv.local);
        owned = (some, none_free, inv.remote);
        remote_once = tt;
        taken_once = inv.remote_once;
        free_once = inv.free_once;
        at_remote = λ a. (λ i. absurd i, λ e. absurd (fetch_site-returned (site a) e));
        at_taken = λ a. then_iff (inv.at_remote a) (fetch_site-taken (site a) (untaken a));
        at_free = λ a. then_iff (inv.at_free a) (fetch_site-same (site a) free (λ e. cc) (λ e. cc));
        at_pusher = λ t a.
            then_iff (inv.at_pusher t a) (fetch_site-same (site a) (freeing t) (λ e. cc) (λ e. cc));
        at_program =
            λ a. then_iff (inv.at_program a) (fetch_site-same (site a) in_use (λ e. cc) (λ e. cc));
        real = (fetch_site-same (site null) outside (λ e. cc) (λ e. cc)).0 (inv.real);
      }

  -- The first block of the fetched list goes to the program, the others are the free list.
  pub keep-IsPlaced :
      (b : ℕ)
      → s.owner ≡ fetched b
      → (site b ≡ taken) × IsPlaced fh (keep fh b s) (update (λ a. keep_site (site a)) b in_use)
  unfolding keep
  keep-IsPlaced b at =
      let (ne, none_free, chain) = rw at at (inv.owned) in
      let (rest, e) = Chain-cons (s.machine.headers) b (inv.taken_blocks) chain ne in
      let linked : Chain (s.machine.headers) b (b ∷ rest) = rw e at chain in
      let once : IsDistinct (b ∷ rest) = rw e at (inv.taken_once) in
      let in_taken : (a : ℕ) → In a (b ∷ rest) ↔ (site a ≡ taken) = λ a. rw e at (inv.at_taken a) in
      let here : site b ≡ taken = (in_taken b).0 (inl refl) in
      let unfree = λ (a : ℕ) (q : site a ≡ free).
        let i : In a [] = rw none_free at ((inv.at_free a).1 q) in i in
      let moved = λ (a : ℕ). keep_site (site a) in
      let now : moved b ≡ free = (keep_site-free (site b) (unfree b)).0 here in
      (
        here,
        record {
          remote_blocks = inv.remote_blocks;
          taken_blocks = [];
          free_blocks = rest;
          remote = simp update_self (inv.remote);
          local = simp update_self (linked.2);
          owned = refl;
          remote_once = inv.remote_once;
          taken_once = tt;
          free_once = once.1;
          at_remote =
              stays moved b returned in_use _
                (λ a.
                  then_iff (inv.at_remote a) (keep_site-same (site a) returned (λ e. cc) (λ e. cc)))
                (λ e. cc) (λ e. cc);
          at_taken =
              stays moved b taken in_use (λ a. In a [])
                (λ a. (λ i. absurd i, λ e. absurd (keep_site-taken (site a) e))) (λ e. cc)
                (λ e. cc);
          at_free =
              leaves moved b free (λ a. In a (b ∷ rest)) (λ a. In a rest)
                (λ a. then_iff (in_taken a) (keep_site-free (site a) (unfree a)))
                (λ a ne. (inr, λ i. elim i [ inl e ↦ absurd (ne e) | inr j ↦ j ])) in_use (λ e. cc)
                (once.0);
          at_pusher = λ t.
              stays moved b (freeing t) in_use _
                (λ a.
                  then_iff (inv.at_pusher t a)
                    (keep_site-same (site a) (freeing t) (λ e. cc) (λ e. cc)))
                (λ e. cc) (λ e. cc);
          at_program =
              joins moved b in_use (λ a. s.held a ≡ true) (λ a. update (s.held) b true a ≡ true)
                (λ a.
                  then_iff (inv.at_program a) (keep_site-same (site a) in_use (λ e. cc) (λ e. cc)))
                (λ a ne. rw (update_ne (s.held) b true a ne) (λ x. x, λ x. x))
                (update_self (s.held) b true);
          real =
              (placed_null moved b in_use
                ((keep_site-same (site null) outside (λ e. cc) (λ e. cc)).0 (inv.real))
                (λ e. cc)).1;
        },
      )

  -- The first block of the free list goes to the program.
  pub pop-IsPlaced :
      let b = (bucket fh s).free_list in
      s.owner ≡ away → b ≢ null → (site b ≡ free) × IsPlaced fh (pop fh s) (update site b in_use)
  unfolding pop
  pop-IsPlaced at ne =
      let b = (bucket fh s).free_list in
      let none_taken = away_taken at in
      let (rest, e) = Chain-cons (s.machine.headers) b (inv.free_blocks) (inv.local) ne in
      let linked : Chain (s.machine.headers) b (b ∷ rest) = rw e at (inv.local) in
      let once : IsDistinct (b ∷ rest) = rw e at (inv.free_once) in
      let in_free : (a : ℕ) → In a (b ∷ rest) ↔ (site a ≡ free) = λ a. rw e at (inv.at_free a) in
      let here : site b ≡ free = (in_free b).0 (inl refl) in
      (
        here,
        record {
          remote_blocks = inv.remote_blocks;
          taken_blocks = inv.taken_blocks;
          free_blocks = rest;
          remote = simp update_self (inv.remote);
          local = simp update_self (linked.2);
          owned = rw at none_taken;
          remote_once = inv.remote_once;
          taken_once = inv.taken_once;
          free_once = once.1;
          at_remote = stays site b returned in_use _ (inv.at_remote) (λ e. cc) (λ e. cc);
          at_taken = stays site b taken in_use _ (inv.at_taken) (λ e. cc) (λ e. cc);
          at_free =
              leaves site b free (λ a. In a (b ∷ rest)) (λ a. In a rest) in_free
                (λ a ne. (inr, λ i. elim i [ inl e ↦ absurd (ne e) | inr j ↦ j ])) in_use (λ e. cc)
                (once.0);
          at_pusher = λ t. stays site b (freeing t) in_use _ (inv.at_pusher t) (λ e. cc) (λ e. cc);
          at_program =
              joins site b in_use (λ a. s.held a ≡ true) (λ a. update (s.held) b true a ≡ true)
                (inv.at_program) (λ a ne. rw (update_ne (s.held) b true a ne) (λ x. x, λ x. x))
                (update_self (s.held) b true);
          real = (placed_null site b in_use (inv.real) (λ e. cc)).1;
        },
      )

  -- A block of the program, linked to the free list, becomes its top.
  top-IsPlaced :
      (b : ℕ)
      → s.owner ≡ away
      → s.held b ≡ true
      → (s.machine.headers b).word0 ≡ (bucket fh s).free_list
      → IsPlaced fh (set_held b false (set_free fh b s)) (update site b free)
  top-IsPlaced b at on linked =
      let here : site b ≡ in_use = (inv.at_program b).0 on in
      let (ne, real) = placed_null site b free (inv.real) (λ e. cc) in
      record {
        remote_blocks = inv.remote_blocks;
        taken_blocks = inv.taken_blocks;
        free_blocks = b ∷ inv.free_blocks;
        remote = simp update_self (inv.remote);
        local = simp update_self (refl, ne, rw linked (inv.local));
        owned = rw at (away_taken at);
        remote_once = inv.remote_once;
        taken_once = inv.taken_once;
        free_once = (λ i. let e = (inv.at_free b).0 i in cc, inv.free_once);
        at_remote = stays site b returned free _ (inv.at_remote) (λ e. cc) (λ e. cc);
        at_taken = stays site b taken free _ (inv.at_taken) (λ e. cc) (λ e. cc);
        at_free =
            joins site b free (λ a. In a (inv.free_blocks)) (λ a. In a (b ∷ inv.free_blocks))
              (inv.at_free) (λ a ne. (λ i. elim i [ inl e ↦ absurd (ne e) | inr j ↦ j ], inr))
              (inl refl);
        at_pusher = λ t. stays site b (freeing t) free _ (inv.at_pusher t) (λ e. cc) (λ e. cc);
        at_program =
            leaves site b in_use (λ a. s.held a ≡ true) (λ a. update (s.held) b false a ≡ true)
              (inv.at_program) (λ a ne. rw (update_ne (s.held) b false a ne) (λ x. x, λ x. x)) free
              (λ e. cc) (λ e. let q = update_self (s.held) b false in cc);
        real = real;
      }

module _ (fh : ℕ) (s : Shared) (site : ℕ → Site) (inv : IsPlaced fh s site) where
  -- A block of the program goes on top of the free list.
  pub put-IsPlaced :
      (b : ℕ)
      → s.owner ≡ away
      → s.held b ≡ true
      → (site b ≡ in_use) × IsPlaced fh (put fh b s) (update site b free)
  unfolding put
  put-IsPlaced b at on =
      let here : site b ≡ in_use = (inv.at_program b).0 on in
      (
        here,
        top-IsPlaced fh (set_next b (bucket fh s).free_list s) site
            (set_next-IsPlaced fh s site inv b (bucket fh s).free_list (λ e. cc) (λ e. cc)
              (λ e. cc))
            b at on (simp update_self),
      )
