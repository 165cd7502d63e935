-- ===== src/Arena/Give.antt =====
-- A block in use goes to a list of its bucket.
use llheap.Prelude.{
  ℕ, ◌<◌, ◌≡◌, ◌≢◌, refl, sym, ◌∙◌, ◌⊎◌, inl, inr, true, false, some, List, ◌∷◌, ◌++◌, arith,
  ℕ_discrete, update, update_self, update_ne,
}
use llheap.Bucket.{no_bucket_sizes}
use llheap.Header.{Header}
use llheap.Machine.{FreeHeader, free_header_addr}
use llheap.Arena.Linked.{In, IsDistinct, Chain, Chain-frame, In-left, In-right}
use llheap.Arena.Blocks.{Layout, IsLaidOut}
use llheap.Arena.Take.{Touches}

-- The layout after block `a` of bucket `b` was given back, the lists of the bucket being `f` and `r`.
abbrev pub give : Layout → (a b : ℕ) (f r : List ℕ) → Layout
give l a b f r = record l {
  live = update (l.live) a false;
  free = update (l.free) b f;
  remote = update (l.remote) b r;
}

module _ (heap start room : ℕ) (fh fh' : ℕ → FreeHeader) (hd hd' : ℕ → Header) (l : Layout)
    (a b : ℕ) (f r : List ℕ) (inv : IsLaidOut heap start room fh hd l) (block : l.blocks a ≡ some b)
    (live : l.live a ≡ true)
    (within : (c : ℕ) → In c (f ++ r) → (c ≡ a) ⊎ In c (l.free b ++ l.remote b))
    (once : IsDistinct (f ++ r)) (touch : Touches (free_header_addr heap b) a fh fh' hd hd') where
  elsewhere : (c : ℕ) → c ≢ b → free_header_addr heap c ≢ free_header_addr heap b
  elsewhere c ne e = ne (omega (arith, e))

  -- A block in use stands on no list.
  unlisted : (c d : ℕ) → d < no_bucket_sizes → In c (l.free d ++ l.remote d) → c ≢ a
  unlisted c d h i e = let (_, off) = inv.idle c d h i in let on : l.live c ≡ true = rw e live in cc

  give-idle :
      (c d : ℕ)
      → d < no_bucket_sizes
      → In c (update (l.free) b f d ++ update (l.remote) b r d)
      → (l.blocks c ≡ some d) × (update (l.live) a false c ≡ false)
  give-idle c d h i = elim (ℕ_discrete d b) [
    | yes e ↦
        let j : In c (f ++ r) = rw (e, update_self (l.free) b f, update_self (l.remote) b r) at i in
        elim (within c j) [
          | inl new ↦ (rw (new, e) block, rw (new, update_self (l.live) a false) refl)
          | inr old ↦
              let hb : b < no_bucket_sizes = rw e at h in
              let (at, off) = inv.idle c b hb old in
              (rw e at, update_ne (l.live) a false c (unlisted c b hb old) ∙ off)
        ]
    | no ne ↦
        let j : In c (l.free d ++ l.remote d) =
          rw (update_ne (l.free) b f d ne, update_ne (l.remote) b r d ne) at i in
        let (at, off) = inv.idle c d h j in
        (at, update_ne (l.live) a false c (unlisted c d h j) ∙ off)
  ]

  give-chain :
      (lists : ℕ → List ℕ) (s : List ℕ) (p p' : ℕ → ℕ)
      → ((c : ℕ) → c < no_bucket_sizes → Chain hd (p c) (lists c))
      → ((c d : ℕ) → d < no_bucket_sizes → In c (lists d) → c ≢ a)
      → ((c : ℕ) → c ≢ b → p' c ≡ p c)
      → Chain hd' (p' b) s
      → (c : ℕ) → c < no_bucket_sizes
      → Chain hd' (p' c) (update lists b s c)
  give-chain lists s p p' old out same new c h = elim (ℕ_discrete c b) [
    | yes e ↦ rw (e, update_self lists b s) new
    | no ne ↦
        rw (update_ne lists b s c ne, same c ne)
          (Chain-frame hd hd' (p c) (lists c) (old c h) (λ x i. touch.links x (out x c h i)))
  ]

  pub give-IsLaidOut :
      Chain hd' (fh' (free_header_addr heap b)).free_list f
      → Chain hd' (fh' (free_header_addr heap b)).remote_list r
      → IsLaidOut heap start room fh' hd' (give l a b f r)
  give-IsLaidOut cf cr = record {
    sizes = λ c h. touch.block_sizes _ ∙ inv.sizes c h;
    homes = λ c h. touch.home_managers _ ∙ inv.homes c h;
    known = inv.known;
    space = inv.space;
    apart = inv.apart;
    outside = inv.outside;
    freed =
        give-chain (l.free) f (λ c. (fh (free_header_addr heap c)).free_list)
          (λ c. (fh' (free_header_addr heap c)).free_list) inv.freed
          (λ c d h i. unlisted c d h (In-left c (l.free d) (l.remote d) i))
          (λ c ne. touch.free_lists _ (elsewhere c ne)) cf;
    returned =
        give-chain (l.remote) r (λ c. (fh (free_header_addr heap c)).remote_list)
          (λ c. (fh' (free_header_addr heap c)).remote_list) inv.returned
          (λ c d h i. unlisted c d h (In-right c (l.free d) (l.remote d) i))
          (λ c ne. touch.remote_lists _ (elsewhere c ne)) cr;
    idle = give-idle;
    distinct = λ c h. elim (ℕ_discrete c b) [
      | yes e ↦ rw (e, update_self (l.free) b f, update_self (l.remote) b r) once
      | no ne ↦ rw (update_ne (l.free) b f c ne, update_ne (l.remote) b r c ne) (inv.distinct c h)
    ];
    used = λ c d at on. elim (ℕ_discrete c a) [
      | yes e ↦
          let off : update (l.live) a false c ≡ false = rw (e, update_self (l.live) a false) refl in
          cc
      | no ne ↦ rw (touch.links c ne) (inv.used c d at (sym (update_ne (l.live) a false c ne) ∙ on))
    ];
  }

-- On top of the free list.
module _ (heap start room : ℕ) (fh fh' : ℕ → FreeHeader) (hd hd' : ℕ → Header) (l : Layout)
    (a b : ℕ) (inv : IsLaidOut heap start room fh hd l) (block : l.blocks a ≡ some b)
    (live : l.live a ≡ true) (touch : Touches (free_header_addr heap b) a fh fh' hd hd') where
  not_listed : ¬ (In a (l.free b ++ l.remote b))
  not_listed i =
      unlisted heap start room fh fh' hd hd' l a b (l.free b) (l.remote b) inv block live
        (λ c i. inr i) (inv.distinct b (inv.known a b block).0) touch a b (inv.known a b block).0 i
        refl

  pub push_free-IsLaidOut :
      (fh' (free_header_addr heap b)).free_list ≡ a
      → (hd' a).word0 ≡ (fh (free_header_addr heap b)).free_list
      → (fh' (free_header_addr heap b)).remote_list ≡ (fh (free_header_addr heap b)).remote_list
      → IsLaidOut heap start room fh' hd' (give l a b (a ∷ l.free b) (l.remote b))
  push_free-IsLaidOut top link same =
      let (h, pos, _) = inv.known a b block in
      let spare =
        λ (c : ℕ) (i : In c (l.free b ++ l.remote b)) (e : c ≡ a). not_listed (rw e at i) in
      give-IsLaidOut heap start room fh fh' hd hd' l a b (a ∷ l.free b) (l.remote b) inv block live
        (λ c i. i) (not_listed, inv.distinct b h) touch
        (
          top,
          omega (arith, pos),
          rw link (
              Chain-frame hd hd' _ (l.free b) (inv.freed b h)
                (λ c i. touch.links c (spare c (In-left c (l.free b) (l.remote b) i)))),
        )
        (rw same (
          Chain-frame hd hd' _ (l.remote b) (inv.returned b h)
            (λ c i. touch.links c (spare c (In-right c (l.free b) (l.remote b) i)))))
