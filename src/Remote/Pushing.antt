-- ===== src/Remote/Pushing.antt =====
-- The steps of a thread that frees a block of the bucket.
use llheap.Prelude.{
  ℕ, ◌≡◌, ◌≢◌, ◌↔◌, ◌⊎◌, inl, inr, refl, true, false, List, ◌∷◌, ◌==◌, Bool-cases, ==_iff,
  ℕ_discrete, update, update_self, update_ne,
}
use llheap.Header.{Header}
use llheap.Machine.{null}
use llheap.Arena.{In}
use llheap.Remote.{
  idle, linking, swapping, Owner, away, seen, fetched, Shared, bucket, set_next, set_remote,
  set_pusher, set_held, link, swap,
}
use llheap.Remote.Placed.{
  Site, in_use, freeing, returned, taken, free, Carries, Fetched, IsPlaced, joins, leaves, stays,
  others_carry, set_next-IsPlaced, placed_null,
}

module _ (fh : ℕ) (s : Shared) (site : ℕ → Site) (inv : IsPlaced fh s site) (t b : ℕ) where
  -- A thread takes over a block that the program gave up.
  pub begin-IsPlaced :
      s.pushers t ≡ idle
      → s.held b ≡ true
      → IsPlaced fh (set_held b false (set_pusher t (linking b) s)) (update site b (freeing t))
  begin-IsPlaced ready on =
      let at : site b ≡ in_use = (inv.at_program b).0 on in
      record {
        remote_blocks = inv.remote_blocks;
        taken_blocks = inv.taken_blocks;
        free_blocks = inv.free_blocks;
        remote = inv.remote;
        local = inv.local;
        owned = inv.owned;
        remote_once = inv.remote_once;
        taken_once = inv.taken_once;
        free_once = inv.free_once;
        at_remote = stays site b returned (freeing t) _ (inv.at_remote) (λ e. cc) (λ e. cc);
        at_taken = stays site b taken (freeing t) _ (inv.at_taken) (λ e. cc) (λ e. cc);
        at_free = stays site b free (freeing t) _ (inv.at_free) (λ e. cc) (λ e. cc);
        at_pusher =
            others_carry (s.pushers) site t b (linking b) (freeing t) (inv.at_pusher)
              (λ u ne. (λ e. cc, λ e. absurd (ne (cc))))
              (joins site b (freeing t) (Carries (s.pushers t)) (λ a. a ≡ b) (inv.at_pusher t)
                (λ a ne. rw ready (λ e. absurd (ne e), λ x. absurd x)) refl);
        at_program =
            leaves site b in_use (λ a. s.held a ≡ true) (λ a. update (s.held) b false a ≡ true)
              (inv.at_program) (λ a ne. rw (update_ne (s.held) b false a ne) (λ x. x, λ x. x))
              (freeing t) (λ e. cc) (λ e. let q = update_self (s.held) b false in cc);
        real = (placed_null site b (freeing t) (inv.real) (λ e. cc)).1;
      }

  -- A thread does the next thing with the block that it has.
  next_pusher : s.pushers t ≡ linking b → IsPlaced fh (set_pusher t (swapping b) s) site
  next_pusher at = record {
    remote_blocks = inv.remote_blocks;
    taken_blocks = inv.taken_blocks;
    free_blocks = inv.free_blocks;
    remote = inv.remote;
    local = inv.local;
    owned = inv.owned;
    remote_once = inv.remote_once;
    taken_once = inv.taken_once;
    free_once = inv.free_once;
    at_remote = inv.at_remote;
    at_taken = inv.at_taken;
    at_free = inv.at_free;
    at_pusher = λ u a. elim (ℕ_discrete u t) [
      | yes e ↦
          let old : Carries (linking b) a ↔ (site a ≡ freeing t) = rw at at (inv.at_pusher t a) in
          rw (e, update_self (s.pushers) t (swapping b)) old
      | no ne ↦ rw (update_ne (s.pushers) t (swapping b) u ne) (inv.at_pusher u a)
    ];
    at_program = inv.at_program;
    real = inv.real;
  }

  -- A list that is not empty after a push.
  pushed_owned :
      (o : Owner) (hd : ℕ → Header) (top : ℕ) (k f : List ℕ)
      → b ≢ null
      → Fetched o hd top k f
      → Fetched o hd b k f
  pushed_owned away hd top k f ne p = p
  pushed_owned seen hd top k f ne (p, q, _) = (p, q, ne)
  pushed_owned (fetched c) hd top k f ne p = p

  pushed-IsPlaced :
      s.pushers t ≡ swapping b
      → (bucket fh s).remote_list ≡ (s.machine.headers b).word0
      → IsPlaced fh (set_pusher t idle (set_remote fh b s)) (update site b returned)
  pushed-IsPlaced ready same =
      let carries : Carries (s.pushers t) b = rw ready refl in
      let at : site b ≡ freeing t = (inv.at_pusher t b).0 carries in
      let (ne, real) = placed_null site b returned (inv.real) (λ e. cc) in
      record {
        remote_blocks = b ∷ inv.remote_blocks;
        taken_blocks = inv.taken_blocks;
        free_blocks = inv.free_blocks;
        remote = simp update_self (refl, ne, rw (← same) (inv.remote));
        local = simp update_self (inv.local);
        owned = simp update_self (pushed_owned (s.owner) (s.machine.headers) _ _ _ ne (inv.owned));
        remote_once = (λ i. let e = (inv.at_remote b).0 i in cc, inv.remote_once);
        taken_once = inv.taken_once;
        free_once = inv.free_once;
        at_remote =
            joins site b returned (λ a. In a (inv.remote_blocks))
              (λ a. In a (b ∷ inv.remote_blocks)) (inv.at_remote)
              (λ a ne. (λ i. elim i [ inl e ↦ absurd (ne e) | inr j ↦ j ], inr)) (inl refl);
        at_taken = stays site b taken returned _ (inv.at_taken) (λ e. cc) (λ e. cc);
        at_free = stays site b free returned _ (inv.at_free) (λ e. cc) (λ e. cc);
        at_pusher =
            others_carry (s.pushers) site t b idle returned (inv.at_pusher)
              (λ u ne. (λ e. absurd (ne (cc)), λ e. cc))
              (leaves site b (freeing t) (Carries (s.pushers t)) (λ a. ⊥) (inv.at_pusher t)
                (λ a ne. rw ready (λ x. absurd x, λ e. absurd (ne e))) returned (λ e. cc) (λ x. x));
        at_program = stays site b in_use returned _ (inv.at_program) (λ e. cc) (λ e. cc);
        real = real;
      }

  linking-site : s.pushers t ≡ linking b → site b ≡ freeing t
  linking-site ready = (inv.at_pusher t b).0 (rw ready refl)

  swapping-site : s.pushers t ≡ swapping b → site b ≡ freeing t
  swapping-site ready = (inv.at_pusher t b).0 (rw ready refl)

module _ (fh : ℕ) (s : Shared) (site : ℕ → Site) (inv : IsPlaced fh s site) (t b : ℕ) where
  written : site b ≡ freeing t → IsPlaced fh (set_next b (bucket fh s).remote_list s) site
  written at =
      set_next-IsPlaced fh s site inv b (bucket fh s).remote_list (λ e. cc) (λ e. cc) (λ e. cc)

  pub link-IsPlaced : s.pushers t ≡ linking b → IsPlaced fh (link fh t b s) site
  unfolding link
  link-IsPlaced ready =
      next_pusher fh (set_next b (bucket fh s).remote_list s) site
        (written (linking-site fh s site inv t b ready)) t b ready

  -- The compare-and-swap publishes the block, or reads the top of the list again.
  pub swap-IsPlaced :
      s.pushers t ≡ swapping b
      → (((swap fh t b s).pushers t ≡ idle) × IsPlaced fh (swap fh t b s) (update site b returned))
        ⊎ IsPlaced fh (swap fh t b s) site
  unfolding swap
  swap-IsPlaced ready =
      elim (Bool-cases ((bucket fh s).remote_list == (s.machine.headers b).word0)) [
        | inl same ↦ rw same (
            inl (
              update_self (s.pushers) t idle,
              pushed-IsPlaced fh s site inv t b ready ((==_iff _ _).0 same),
            ))
        | inr other ↦ rw other (inr (written (swapping-site fh s site inv t b ready)))
      ]
