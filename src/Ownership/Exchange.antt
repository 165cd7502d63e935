-- ===== src/Ownership/Exchange.antt =====
-- The steps of a worker that change where batches are: the exchange with a slot, and the end.
use llheap.Prelude.{
  ℕ, ◌≡◌, ◌≢◌, ◌<◌, ◌∙◌, ◌⊎◌, sym, refl, inl, inr, true, Option, none, some, update, update_self,
  update_ne, ℕ_discrete,
}
use llheap.Ownership.{Worker, System}
use llheap.Ownership.Placed.{
  Place, in_hand, in_slot, dropped, holding, due, Where, Placed, in_hand_injective,
  in_slot_injective, hand-ne-slot,
}

-- The places after the batch, if there is one, went to `p`.
abbrev assign : Option ℕ → Place → (ℕ → Place) → ℕ → Place
assign none p f = f
assign (some b) p f = update f b p

assign_self : (o : Option ℕ) (p : Place) (f : ℕ → Place) (b : ℕ) → o ≡ some b → assign o p f b ≡ p
assign_self none p f b e = absurd (cc)
assign_self (some c) p f b e = let same : c ≡ b = some_injective e in rw same (update_self f b p)
  where
    some_injective : {c b : ℕ} → some c ≡ some b → c ≡ b
    some_injective e = cc

assign_ne : (o : Option ℕ) (p : Place) (f : ℕ → Place) (b : ℕ) → o ≢ some b → assign o p f b ≡ f b
assign_ne none p f b ne = refl
assign_ne (some c) p f b ne = update_ne f c p b (λ e. ne (rw e refl))

-- Whether it is this batch.
this : (o : Option ℕ) (b : ℕ) → (o ≡ some b) ⊎ (o ≢ some b)
this none b = inr (λ e. cc)
this (some c) b = elim (ℕ_discrete c b) [ yes e ↦ inl (rw e refl) | no ne ↦ inr (λ e. ne (cc)) ]

-- Worker `w`, whose batch is full, puts it into slot `a` and gets what was there.
module _ (threads size : ℕ) (s : System) (placed : Placed threads size s) (w a : ℕ) (next : Worker)
    (small : a < threads) (inside : next.a < threads)
    (got : holding (next.phase) ≡ s.shared.slots a)
    (full : (j : ℕ) → due (s.workers w).phase j ≡ true)
    (full' : (b j : ℕ) → holding (next.phase) ≡ some b → due (next.phase) j ≡ true) where
  abbrev col : Option ℕ
  col = holding (s.workers w).phase

  abbrev after : System
  after = record {
    workers = update (s.workers) w next;
    shared = record (s.shared) { slots = update (s.shared.slots) a col };
  }

  abbrev place' : ℕ → Place
  place' = assign col (in_slot a) (assign (s.shared.slots a) (in_hand w) (placed.place))

  put_there : (b : ℕ) → col ≡ some b → place' b ≡ in_slot a
  put_there b e = assign_self col (in_slot a) _ b e

  -- What comes from the slot is not what goes there.
  distinct : (b : ℕ) → s.shared.slots a ≡ some b → col ≢ some b
  distinct b e f = hand-ne-slot (sym (placed.held w b f) ∙ placed.slotted a b e)

  gotten : (b : ℕ) → s.shared.slots a ≡ some b → place' b ≡ in_hand w
  gotten b e =
      assign_ne col (in_slot a) _ b (distinct b e)
      ∙ assign_self (s.shared.slots a) (in_hand w) _ b e

  stays : (b : ℕ) → col ≢ some b → s.shared.slots a ≢ some b → place' b ≡ placed.place b
  stays b ne ne' =
      assign_ne col (in_slot a) _ b ne ∙ assign_ne (s.shared.slots a) (in_hand w) _ b ne'

  exchange_held : (v b : ℕ) → holding (after.workers v).phase ≡ some b → place' b ≡ in_hand v
  exchange_held v b h = elim (ℕ_discrete v w) [
    | yes e ↦ rw e (gotten b (sym got ∙ (rw (e, update_self (s.workers) w next) at h)))
    | no ne ↦
        let old = placed.held v b (rw (update_ne (s.workers) w next v ne) at h) in
        stays b (λ e. ne (in_hand_injective (sym old ∙ placed.held w b e)))
          (λ e. hand-ne-slot (sym old ∙ placed.slotted a b e))
        ∙ old
  ]

  exchange_slotted : (c b : ℕ) → after.shared.slots c ≡ some b → place' b ≡ in_slot c
  exchange_slotted c b h = elim (ℕ_discrete c a) [
    | yes e ↦ rw e (put_there b (rw (e, update_self (s.shared.slots) a col) at h))
    | no ne ↦
        let old = placed.slotted c b (rw (update_ne (s.shared.slots) a col c ne) at h) in
        stays b (λ e. hand-ne-slot (sym (placed.held w b e) ∙ old))
          (λ e. ne (in_slot_injective (sym old ∙ placed.slotted a b e)))
        ∙ old
  ]

  -- A batch that neither goes nor comes.
  aside_at :
      (b : ℕ) (p : Place)
      → placed.place b ≡ p
      → col ≢ some b
      → s.shared.slots a ≢ some b
      → Where threads size s b p
      → Where threads size after b p
  aside_at b (in_hand v) e ne ne' (h, l) = elim (ℕ_discrete v w) [
    | yes q ↦ absurd (ne (rw q at h))
    | no other ↦ rw (update_ne (s.workers) w next v other) (h, l)
  ]
  aside_at b (in_slot c) e ne ne' (h, below, l) = elim (ℕ_discrete c a) [
    | yes q ↦ absurd (ne' (rw q at h))
    | no other ↦ rw (update_ne (s.shared.slots) a col c other) (h, below, l)
  ]
  aside_at b dropped e ne ne' l = l

  was_full :
      (b : ℕ) (p : Place)
      → Where threads size s b p
      → (p ≡ in_hand w) ⊎ (p ≡ in_slot a)
      → (j : ℕ) → j < size
      → s.shared.live b j ≡ true
  was_full b (in_hand v) (h, l) (inl e) j k = l j k ∙ (rw (in_hand_injective e) (full j))
  was_full b (in_hand v) (h, l) (inr e) j k = absurd (hand-ne-slot e)
  was_full b (in_slot c) (h, below, l) e j k = l j k
  was_full b dropped l (inl e) j k = absurd (cc)
  was_full b dropped l (inr e) j k = absurd (cc)

  exchange_at : (b : ℕ) → Where threads size after b (place' b)
  exchange_at b = elim (this col b) [
    | inl mine ↦
        rw (put_there b mine, update_self (s.shared.slots) a col)
          (mine, small, was_full b (placed.place b) (placed.at b) (inl (placed.held w b mine)))
    | inr not_mine ↦ elim (this (s.shared.slots a) b) [
      | inl there ↦
          let l = was_full b (placed.place b) (placed.at b) (inr (placed.slotted a b there)) in
          rw (gotten b there, update_self (s.workers) w next)
            (got ∙ there, λ j k. l j k ∙ sym (full' b j (got ∙ there)))
      | inr not_there ↦
          rw (stays b not_mine not_there)
            (aside_at b (placed.place b) refl not_mine not_there (placed.at b))
    ]
  ]

  pub exchange-Placed : Placed threads size after
  exchange-Placed = record {
    place = place';
    held = exchange_held;
    slotted = exchange_slotted;
    at = exchange_at;
    bounded = λ v. elim (ℕ_discrete v w) [
      | yes e ↦ rw (e, update_self (s.workers) w next) inside
      | no ne ↦ rw (update_ne (s.workers) w next v ne) (placed.bounded v)
    ];
  }
