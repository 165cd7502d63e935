-- ===== src/Safety/Changed.antt =====
-- A thread that frees, resizes or writes to one of the allocations it holds.
use llheap.Prelude.{
  Drop, ℕ_discrete, ltb→lt, Bool-cases, ap, update, min, ltb, ℕ, ◌+◌, ◌<◌, ◌≡◌, ◌≢◌, refl, sym, ◌∙◌,
  inl, inr, false, List, ◌∷◌, arith, update_ne,
}
use llheap.Machine.Outcome.{Returns}
use llheap.Machine.{free_header_addr, Env, Machine}
use llheap.Free.{do_free}
use llheap.Arena.{Layout}
use llheap.Arena.Give.{give}
use llheap.Safety.Release.{do_free-IsReady, do_free-HasClear}
use llheap.Safety.Held.{
  Held, IsBacked, All, AllNew, All-map, kept-IsBacked, areas-Apart, blocks_differ, All-both,
  Drop-All, Drop-AllNew, IsBacked-Apart,
}
use llheap.Safety.Alike.{Alike-IsReady, Alike-HasClear}
use llheap.Safety.Moving.{written-Alike}
use llheap.Safety.Resized.{Carried}
use llheap.Safety.Release.{freed, do_free-freed}
use llheap.Safety.Thread.{Thread, IsSafe, carried}

freed_sizes : (m : Machine) (p fh c : ℕ) → ((freed m p fh).headers c).word1 ≡ (m.headers c).word1
unfolding update
freed_sizes m p fh c = ground arith

update_shifted :
    (f g : ℕ → ℕ) (a i v j : ℕ) → f (a + j) ≡ g j → update f (a + i) v (a + j) ≡ update g i v j
unfolding update
update_shifted f g a i v j same = ground arith

module _ (env : Env) (t : Thread) (safe : IsSafe env t) where
  abbrev m : Machine
  m = t.machine

  abbrev l : Layout
  l = safe.layout

  -- One of the allocations held is freed, resized or written to.
  module _ (x : Held) (rest : List Held) (drop : Drop x (t.held) rest) where
    both : IsBacked m l x × All (IsBacked m l) rest
    both = Drop-All (IsBacked m l) drop (safe.backed)

    pub own : IsBacked m l x
    own = both.0

    others : All (λ y. IsBacked m l y × (x.addr ≢ y.addr)) rest
    others = All-both _ _ rest (both.1) (Drop-AllNew drop (safe.separate)).0

    separate : AllNew rest
    separate = (Drop-AllNew drop (safe.separate)).1

    pub freed-IsSafe :
        env.debug ≡ false
        → Returns (λ _ n. IsSafe env (record { machine = n; held = rest })) (do_free env (x.addr) m)
    freed-IsSafe release =
        let fh = free_header_addr (m.heap_manager) (own.bucket) in
        let run = do_free-freed env release m l (safe.ready) (own.block) (own.bucket) (own.used) in
        let ready =
          rw run at
            (do_free-IsReady env release m l (safe.ready) (own.block) (own.bucket) (own.used)) in
        let after =
          rw run at
            (do_free-HasClear env release m l (safe.ready) (own.block) (own.bucket) (own.used)) in
        rw (own.address, run)
          (record {
            layout =
                give l (own.block) (own.bucket) (own.block ∷ l.free (own.bucket))
                  (l.remote (own.bucket));
            ready = ready;
            clear = after.0 (safe.clear);
            unlocked = after.1 (safe.unlocked);
            backed =
                All-map rest
                  (λ y at.
                    kept-IsBacked m (freed m (own.block) fh) l _ y (at.0)
                      (
                        at.0.used.0,
                        update_ne (l.live) (own.block) false (at.0.block)
                              (λ e. blocks_differ m l x y own (at.0) (at.1) (sym e))
                            ∙ at.0.used.1,
                      )
                      (freed_sizes m (own.block) fh (at.0.block)) (λ i h. refl))
                  others;
            separate = separate;
          })

    module _ (size addr : ℕ) (n : Machine) (z : Carried env m l (own.block) size addr n) where
      -- Another allocation is in a block that `realloc` did not touch.
      aside :
          (y : Held) (q : IsBacked m l y)
          → x.addr ≢ y.addr
          → (q.block ≢ own.block) × (q.block ≢ z.block)
      aside y q ne = (
        λ e. blocks_differ m l x y own q ne (sym e),
        λ e. elim (ℕ_discrete (z.block) (own.block)) [
          | yes same ↦ blocks_differ m l x y own q ne (sym (e ∙ same))
          | no new ↦ (z.moved new (q.bucket)).1 (rw (← e) (q.used))
        ],
      )

      aside-IsBacked : (y : Held) → IsBacked m l y → x.addr ≢ y.addr → IsBacked n (z.layout) y
      aside-IsBacked y q ne =
          let (not_old, not_new) = aside y q ne in
          let used = (z.others (q.block) (q.bucket) not_old not_new).0 (q.used) in
          let apart =
            areas-Apart n (z.layout) (z.block) (z.bucket) addr size (q.block) (q.bucket) (y.addr)
              (y.size) (z.ready) (z.now_live) used (λ e. not_new (sym e)) (z.address) (q.address)
              (z.room) (q.room) in
          kept-IsBacked m n l (z.layout) y q used (z.sizes (q.block) not_old not_new) (λ i h.
            z.untouched (y.addr + i)
              (elim apart [ inl before ↦ inr (omega arith) | inr after ↦ inl (omega arith) ]))

      carried_right : (i : ℕ) → n.bytes (addr + i) ≡ carried x size (λ j. n.bytes (addr + j)) i
      carried_right i = elim (Bool-cases (ltb i (min x.size size))) [
        | inr rest ↦ rw rest refl
        | inl old ↦
            let low = ltb→lt _ _ old in
            rw old (
              z.kept i (rw (own.recorded) low)
              ∙ ap (λ a. m.bytes (a + i)) (sym (own.address))
              ∙ own.stored i (omega arith))
      ]

    pub Carried-IsSafe :
        (size addr : ℕ) (n : Machine)
        → Carried env m l (own.block) size addr n
        → IsSafe env (record {
          machine = n;
          held =
              record {
                addr = addr;
                size = size;
                contents = carried x size (λ i. n.bytes (addr + i));
              }
              ∷ rest;
        })
    Carried-IsSafe size addr n z = record {
      layout = z.layout;
      ready = z.ready;
      clear = z.clear (safe.clear);
      unlocked = z.unlocked (safe.unlocked);
      backed = (
        record {
          block = z.block;
          bucket = z.bucket;
          address = z.address;
          used = z.now_live;
          room = z.room;
          recorded = z.recorded;
          stored = λ i h. carried_right size addr n z i;
        },
        All-map rest (λ y at. aside-IsBacked size addr n z y (at.0) (at.1)) others,
      );
      separate = (
        All-map rest
            (λ y at e.
              (aside size addr n z y (at.0) (at.1)).1 (omega (arith, e, z.address, at.0.address)))
            others,
        separate,
      );
    }

    pub written-IsSafe :
        (i v : ℕ)
        → i < x.size
        → IsSafe env (record {
          machine = record m { bytes = update (m.bytes) (x.addr + i) v };
          held = record x { contents = update (x.contents) i v } ∷ rest;
        })
    written-IsSafe i v inside =
        let n = record m { bytes = update (m.bytes) (x.addr + i) v } in
        let alike = written-Alike l m (update (m.bytes) (x.addr + i) v) in
        record {
          layout = l;
          ready = Alike-IsReady m n l alike (safe.ready);
          clear = Alike-HasClear m n l alike env (safe.clear);
          unlocked = safe.unlocked;
          backed = (
            record {
              block = own.block;
              bucket = own.bucket;
              address = own.address;
              used = own.used;
              room = own.room;
              recorded = own.recorded;
              stored = λ j h. update_shifted (m.bytes) (x.contents) (x.addr) i v j (own.stored j h);
            },
            All-map rest
                (λ y at. kept-IsBacked m n l l y (at.0) (at.0.used) refl (λ j h.
                  update_ne (m.bytes) (x.addr + i) v (y.addr + j) (λ e.
                    elim (IsBacked-Apart m l x y (safe.ready) own (at.0) (at.1)) [
                      | inl before ↦ omega arith
                      | inr after ↦ omega arith
                    ])))
                others,
          );
          separate = ((Drop-AllNew drop (safe.separate)).0, separate);
        }
