-- ===== src/Arena/Take.antt =====
-- A block leaves the lists of its bucket and comes into use.
use mathlib.Core.Path.{subst}
use llheap.Prelude.{
  ℕ, ◌<◌, ◌≡◌, ◌≢◌, refl, sym, ◌∙◌, inl, inr, true, false, some, List, ◌∷◌, ◌++◌, arith, ℕ_discrete,
  update, update_self, update_ne,
}
use llheap.Bucket.{no_bucket_sizes}
use llheap.Header.{Header}
use llheap.Machine.{FreeHeader, free_header_addr}
use llheap.Arena.Linked.{In, IsDistinct, Chain, Chain-frame, In-left, In-right}
use llheap.Arena.Blocks.{Layout, IsLaidOut}

-- The memory after a write to the link of block `a` and to the bucket header `q`.
pub record Touches (q a : ℕ) (fh fh' : ℕ → FreeHeader) (hd hd' : ℕ → Header) : Type 0 where
  pub block_sizes : (c : ℕ) → (fh' c).block_size ≡ (fh c).block_size
  pub home_managers : (c : ℕ) → (fh' c).home_manager ≡ (fh c).home_manager
  pub free_lists : (c : ℕ) → c ≢ q → (fh' c).free_list ≡ (fh c).free_list
  pub remote_lists : (c : ℕ) → c ≢ q → (fh' c).remote_list ≡ (fh c).remote_list
  pub links : (c : ℕ) → c ≢ a → (hd' c).word0 ≡ (hd c).word0

-- The layout after block `a` of bucket `b` came into use, the lists of the bucket being `f` and `r`.
abbrev pub take : Layout → (a b : ℕ) (f r : List ℕ) → Layout
take l a b f r = record l {
  live = update (l.live) a true;
  free = update (l.free) b f;
  remote = update (l.remote) b r;
}

module _ (heap start room : ℕ) (fh fh' : ℕ → FreeHeader) (hd hd' : ℕ → Header) (l : Layout)
    (a b : ℕ) (f r : List ℕ) (inv : IsLaidOut heap start room fh hd l) (small : b < no_bucket_sizes)
    (order : l.free b ++ l.remote b ≡ a ∷ (f ++ r))
    (touch : Touches (free_header_addr heap b) a fh fh' hd hd') where
  taken : (l.blocks a ≡ some b) × (l.live a ≡ false)
  taken = inv.idle a b small (rw order (inl refl))

  elsewhere : (c : ℕ) → c ≢ b → free_header_addr heap c ≢ free_header_addr heap b
  elsewhere c ne e = ne (omega (arith, e))

  others : (c d : ℕ) → d < no_bucket_sizes → d ≢ b → In c (l.free d ++ l.remote d) → c ≢ a
  others c d h ne i e = let (at, _) = inv.idle c d h i in ne (cc (taken.0))

  pub rest_idle : (c : ℕ) → In c (f ++ r) → (c ≢ a) × (l.blocks c ≡ some b) × (l.live c ≡ false)
  rest_idle c i =
      let d : IsDistinct (a ∷ (f ++ r)) = subst IsDistinct order (inv.distinct b small) in
      let (at, off) = inv.idle c b small (rw order (inr i)) in (λ e. d.0 (rw (← e) i), at, off)

  take-idle :
      (c d : ℕ)
      → d < no_bucket_sizes
      → In c (update (l.free) b f d ++ update (l.remote) b r d)
      → (l.blocks c ≡ some d) × (update (l.live) a true c ≡ false)
  take-idle c d h i = elim (ℕ_discrete d b) [
    | yes e ↦
        let j : In c (f ++ r) = rw (e, update_self (l.free) b f, update_self (l.remote) b r) at i in
        let (ne, at, off) = rest_idle c j in (rw e at, update_ne (l.live) a true c ne ∙ off)
    | no ne ↦
        let j : In c (l.free d ++ l.remote d) =
          rw (update_ne (l.free) b f d ne, update_ne (l.remote) b r d ne) at i in
        let (at, off) = inv.idle c d h j in
        (at, update_ne (l.live) a true c (others c d h ne j) ∙ off)
  ]

  take-freed :
      (lists : ℕ → List ℕ) (s : List ℕ) (p : ℕ → ℕ)
      → ((c : ℕ) → c < no_bucket_sizes → c ≢ b → Chain hd (p c) (lists c))
      → ((c d : ℕ) → d < no_bucket_sizes → d ≢ b → In c (lists d) → c ≢ a)
      → (p' : ℕ → ℕ) → ((c : ℕ) → c ≢ b → p' c ≡ p c)
      → Chain hd' (p' b) s
      → (c : ℕ) → c < no_bucket_sizes
      → Chain hd' (p' c) (update lists b s c)
  take-freed lists s p old out p' same new c h = elim (ℕ_discrete c b) [
    | yes e ↦ rw (e, update_self lists b s) new
    | no ne ↦
        rw (update_ne lists b s c ne, same c ne)
          (Chain-frame hd hd' (p c) (lists c) (old c h ne) (λ x i. touch.links x (out x c h ne i)))
  ]

  pub take-IsLaidOut :
      Chain hd' (fh' (free_header_addr heap b)).free_list f
      → Chain hd' (fh' (free_header_addr heap b)).remote_list r
      → (hd' a).word0 ≡ free_header_addr heap b
      → IsLaidOut heap start room fh' hd' (take l a b f r)
  take-IsLaidOut cf cr home = record {
    sizes = λ c h. touch.block_sizes _ ∙ inv.sizes c h;
    homes = λ c h. touch.home_managers _ ∙ inv.homes c h;
    known = inv.known;
    space = inv.space;
    apart = inv.apart;
    outside = inv.outside;
    freed =
        take-freed (l.free) f (λ c. (fh (free_header_addr heap c)).free_list)
          (λ c h ne. inv.freed c h)
          (λ c d h ne i. others c d h ne (In-left c (l.free d) (l.remote d) i))
          (λ c. (fh' (free_header_addr heap c)).free_list)
          (λ c ne. touch.free_lists _ (elsewhere c ne)) cf;
    returned =
        take-freed (l.remote) r (λ c. (fh (free_header_addr heap c)).remote_list)
          (λ c h ne. inv.returned c h)
          (λ c d h ne i. others c d h ne (In-right c (l.free d) (l.remote d) i))
          (λ c. (fh' (free_header_addr heap c)).remote_list)
          (λ c ne. touch.remote_lists _ (elsewhere c ne)) cr;
    idle = take-idle;
    distinct = λ c h. elim (ℕ_discrete c b) [
      | yes e ↦
          rw (e, update_self (l.free) b f, update_self (l.remote) b r)
            (subst IsDistinct order (inv.distinct b small)).1
      | no ne ↦ rw (update_ne (l.free) b f c ne, update_ne (l.remote) b r c ne) (inv.distinct c h)
    ];
    used = λ c d at on. elim (ℕ_discrete c a) [
      | yes e ↦ let same : d ≡ b = cc (taken.0) in rw (e, same) (inl home)
      | no ne ↦ rw (touch.links c ne) (inv.used c d at (sym (update_ne (l.live) a true c ne) ∙ on))
    ];
  }
