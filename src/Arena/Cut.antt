-- ===== src/Arena/Cut.antt =====
-- A new block is cut from the front of the buffer.
use llheap.Prelude.{
  ℕ, ◌+◌, ◌-◌, ◌≤◌, ◌<◌, ◌≡◌, ◌≢◌, sym, ◌∙◌, inl, inr, true, some, ◌++◌, arith, ℕ_discrete, update,
  update_self, update_ne,
}
use llheap.Bucket.{no_bucket_sizes, bucket_size, bucket_size_le, bucket_size_first}
use llheap.Header.{Header}
use llheap.Machine.{FreeHeader, free_header_addr}
use llheap.Arena.Linked.{In, Chain-frame, In-left, In-right}
use llheap.Arena.Blocks.{Apart, Layout, IsLaidOut}

-- The layout with a block of bucket `b` in use at address `a`.
abbrev pub cut : Layout → (a b : ℕ) → Layout
cut l a b = record l { blocks = update (l.blocks) a (some b); live = update (l.live) a true }

-- The memory after a write to the link of block `a`, the lists being as before.
pub record Links (a : ℕ) (fh fh' : ℕ → FreeHeader) (hd hd' : ℕ → Header) : Type 0 where
  pub block_sizes : (c : ℕ) → (fh' c).block_size ≡ (fh c).block_size
  pub home_managers : (c : ℕ) → (fh' c).home_manager ≡ (fh c).home_manager
  pub free_lists : (c : ℕ) → (fh' c).free_list ≡ (fh c).free_list
  pub remote_lists : (c : ℕ) → (fh' c).remote_list ≡ (fh c).remote_list
  pub links : (c : ℕ) → c ≢ a → (hd' c).word0 ≡ (hd c).word0

pub bucket_size_pos : (b : ℕ) → b < no_bucket_sizes → 32 ≤ bucket_size b
bucket_size_pos b h = omega (arith, bucket_size_le 0 b (omega arith) h, bucket_size_first)

module _ (heap start room : ℕ) (fh fh' : ℕ → FreeHeader) (hd hd' : ℕ → Header) (l : Layout) (b : ℕ)
    (inv : IsLaidOut heap start room fh hd l) (small : b < no_bucket_sizes) (place : 0 < start)
    (fits : bucket_size b ≤ room) (touch : Links start fh fh' hd hd')
    (home : (hd' start).word0 ≡ free_header_addr heap b) where
  -- No block begins where the buffer begins.
  pub fresh : (c d : ℕ) → l.blocks c ≡ some d → c ≢ start
  fresh c d at e = elim (inv.outside c d at) [
    | inl p ↦ absurd (omega (arith, bucket_size_pos d (inv.known c d at).0))
    | inr p ↦ absurd (omega (arith, bucket_size_pos b small))
  ]

  old : (c d : ℕ) → update (l.blocks) start (some b) c ≡ some d → c ≢ start → l.blocks c ≡ some d
  old c d at ne = sym (update_ne (l.blocks) start (some b) c ne) ∙ at

  new : (c d : ℕ) → update (l.blocks) start (some b) c ≡ some d → c ≡ start → b ≡ d
  new c d at e =
      let at' : some b ≡ some d = sym (update_self (l.blocks) start (some b)) ∙ (rw e at at) in cc

  listed : (c d : ℕ) → d < no_bucket_sizes → In c (l.free d ++ l.remote d) → c ≢ start
  listed c d h i = fresh c d (inv.idle c d h i).0

  cut-Apart :
      (a c d e : ℕ)
      → update (l.blocks) start (some b) a ≡ some c
      → update (l.blocks) start (some b) d ≡ some e
      → a ≢ d
      → Apart a (bucket_size c) d (bucket_size e)
  cut-Apart a c d e p q ne = elim (ℕ_discrete a start) [
    | yes at ↦
        let here : b ≡ c = new a c p at in
        elim (inv.outside d e (old d e q (λ k. ne (at ∙ sym k)))) [
          | inl before ↦ inr (omega (arith, at))
          | inr after ↦ inl (rw (at, ← here) (omega arith))
        ]
    | no other ↦ elim (ℕ_discrete d start) [
      | yes at ↦
          let here : b ≡ e = new d e q at in
          elim (inv.outside a c (old a c p other)) [
            | inl before ↦ inl (omega (arith, at))
            | inr after ↦ inr (rw (at, ← here) (omega arith))
          ]
      | no apart ↦ inv.apart a c d e (old a c p other) (old d e q apart) ne
    ]
  ]

  pub cut-IsLaidOut :
      IsLaidOut heap (start + bucket_size b) (room - bucket_size b) fh' hd' (cut l start b)
  cut-IsLaidOut = record {
    sizes = λ c h. touch.block_sizes _ ∙ inv.sizes c h;
    homes = λ c h. touch.home_managers _ ∙ inv.homes c h;
    known = λ c d at. elim (ℕ_discrete c start) [
      | yes e ↦
          (rw (← new c d at e) small, rw e place, rw (e, ← new c d at e) (omega (arith, inv.space)))
      | no ne ↦ inv.known c d (old c d at ne)
    ];
    space = omega (arith, inv.space);
    apart = cut-Apart;
    outside = λ c d at. elim (ℕ_discrete c start) [
      | yes e ↦ inl (rw (e, ← new c d at e) (omega arith))
      | no ne ↦ elim (inv.outside c d (old c d at ne)) [
        | inl before ↦ inl (omega arith)
        | inr after ↦ inr (omega arith)
      ]
    ];
    freed = λ c h. rw (touch.free_lists _) (
        Chain-frame hd hd' _ (l.free c) (inv.freed c h)
          (λ x i. touch.links x (listed x c h (In-left x (l.free c) (l.remote c) i))));
    returned = λ c h. rw (touch.remote_lists _) (
        Chain-frame hd hd' _ (l.remote c) (inv.returned c h)
          (λ x i. touch.links x (listed x c h (In-right x (l.free c) (l.remote c) i))));
    idle = λ c d h i.
        let ne = listed c d h i in
        let (at, off) = inv.idle c d h i in
        (update_ne (l.blocks) start (some b) c ne ∙ at, update_ne (l.live) start true c ne ∙ off);
    distinct = inv.distinct;
    used = λ c d at on. elim (ℕ_discrete c start) [
      | yes e ↦ rw (e, ← new c d at e) (inl home)
      | no ne ↦
          rw (touch.links c ne)
            (inv.used c d (old c d at ne) (sym (update_ne (l.live) start true c ne) ∙ on))
    ];
  }
