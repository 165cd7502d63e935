-- ===== src/Ownership/Clean.antt =====
-- What the workers and the clean-up of the main program do with the blocks: each is freed once.
use llheap.Prelude.{
  List, ℕ, zero, suc, ◌≡◌, ◌≢◌, ◌≤◌, ◌<◌, ◌∙◌, ◌⊎◌, sym, refl, ap, inl, inr, Bool, true, false,
  Option, none, some, arith, le→leb, lt→leb, ltb, ltb→lt, ltb→le, Bool-cases, update, update_ne,
  ℕ_discrete,
}
use llheap.Ownership.Arguments.{InRange, arguments-InRange}
use llheap.Ownership.{
  Argument, Settings, arguments, testing, filling, freeing, done, set_live, System, launched, Reach,
  start, runs, halts, free_batch, free_slot, clean_up,
}
use llheap.Ownership.Placed.{
  in_hand, in_slot, dropped, Place, holding, Where, Placed, in_hand_injective, in_slot_injective,
  hand-ne-slot,
}
use llheap.Ownership.Steps.{held-due, same_batch, run_worker-Placed}

launched-Placed : (threads size : ℕ) → 0 < threads → Placed threads size launched
launched-Placed threads size pos = record {
  place = in_hand;
  held = λ w b h. ap in_hand (sym (own w b h));
  slotted = λ a b h. absurd (cc);
  at = λ b. (refl, λ j k. refl);
  bounded = λ w. pos;
}
  where
    own : (w b : ℕ) → some w ≡ some b → w ≡ b
    own w b e = cc

module _ (threads size : ℕ) (pos : 0 < threads) (few : threads ≤ 256) where
  Reach-Placed : {s : System} → Reach threads size s → Placed threads size s
  Reach-Placed start = launched-Placed threads size pos
  Reach-Placed (runs {s} w below r) = run_worker-Placed threads size few s (Reach-Placed r) w
  Reach-Placed (halts r) =
      let p = Reach-Placed r in
      record { place = p.place; held = p.held; slotted = p.slotted; at = p.at; bounded = p.bounded }

  -- Workers from number `threads` on do not exist.
  Reach-outside :
      {s : System} → Reach threads size s → (w : ℕ) → threads ≤ w → (s.workers w).phase ≡ testing w
  Reach-outside start w h = refl
  Reach-outside (runs {s} v below r) w h =
      rw (update_ne (s.workers) v _ w (omega arith)) (Reach-outside r w h)
  Reach-outside (halts r) w h = Reach-outside r w h

set_live_freed :
    (b n : ℕ) (live : ℕ → ℕ → Bool) (c j : ℕ)
    → (live c j ≡ false) ⊎ ((c ≡ b) × (j ≡ n))
    → set_live b n false live c j ≡ false
unfolding update
set_live_freed b n live c j h = ground arith

-- The clean-up keeps what is freed, and frees what is in a slot.
free_batch-live :
    (b n : ℕ) (live : ℕ → ℕ → Bool) (c j : ℕ)
    → (live c j ≡ false) ⊎ ((c ≡ b) × (j < n))
    → free_batch b n live c j ≡ false
unfolding free_batch
free_batch-live b zero live c j (inl off) = off
free_batch-live b zero live c j (inr (same, k)) = absurd (omega (arith, k))
free_batch-live b (suc n) live c j (inl off) =
    set_live_freed b n (free_batch b n live) c j (inl (free_batch-live b n live c j (inl off)))
free_batch-live b (suc n) live c j (inr (same, k)) =
    set_live_freed b n (free_batch b n live) c j (elim (ℕ_discrete j n) [
      | yes last ↦ inr (same, last)
      | no ne ↦ inl (free_batch-live b n live c j (inr (same, omega (arith, k, ne))))
    ])

free_slot-live :
    (o : Option ℕ) (size : ℕ) (live : ℕ → ℕ → Bool) (b j : ℕ)
    → j < size
    → (live b j ≡ false) ⊎ (o ≡ some b)
    → free_slot o size live b j ≡ false
free_slot-live none size live b j k (inl off) = off
free_slot-live none size live b j k (inr e) = absurd (cc)
free_slot-live (some c) size live b j k (inl off) = free_batch-live c size live b j (inl off)
free_slot-live (some c) size live b j k (inr e) =
    free_batch-live c size live b j (inr (same_batch e, k))

clean_up-live :
    (n size : ℕ) (slots : ℕ → Option ℕ) (live : ℕ → ℕ → Bool) (b j : ℕ)
    → j < size
    → (live b j ≡ false) ⊎ ((a : ℕ) × (a < n) × (slots a ≡ some b))
    → clean_up n size slots live b j ≡ false
unfolding clean_up
clean_up-live zero size slots live b j k (inl off) = off
clean_up-live zero size slots live b j k (inr (a, h, _)) = absurd (omega (arith, h))
clean_up-live (suc i) size slots live b j k (inl off) =
    free_slot-live (slots i) size (clean_up i size slots live) b j k
      (inl (clean_up-live i size slots live b j k (inl off)))
clean_up-live (suc i) size slots live b j k (inr (a, h, at)) =
    free_slot-live (slots i) size (clean_up i size slots live) b j k (elim (ℕ_discrete a i) [
      | yes last ↦ inr (rw last at at)
      | no ne ↦ inl (clean_up-live i size slots live b j k (inr (a, omega (arith, h, ne), at)))
    ])

module _ (threads size : ℕ) (pos : 0 < threads) (few : threads ≤ 256) where
  remains :
      (s : System) (r : Reach threads size s)
      → ((w : ℕ) → w < threads → (s.workers w).phase ≡ done)
      → (b j : ℕ) → j < size
      → (p : Place) → Where threads size s b p
      → (s.shared.live b j ≡ false) ⊎ ((a : ℕ) × (a < threads) × (s.shared.slots a ≡ some b))
  remains s r finished b j k (in_slot a) (h, below, l) = inr (a, below, h)
  remains s r finished b j k dropped l = inl (l j k)
  remains s r finished b j k (in_hand w) (h, l) = elim (Bool-cases (ltb w threads)) [
    | inl one ↦
        absurd (let no : holding done ≡ some b = rw (finished w (ltb→lt _ _ one)) at h in cc)
    | inr none_such ↦
        let at : (s.workers w).phase ≡ testing w =
          Reach-outside threads size pos few r w (ltb→le _ _ none_such) in
        inl (l j k ∙ rw at refl)
  ]

module _ (args : List Argument) (c : Settings) (accepted : arguments args ≡ some c) where
  c-InRange : InRange c
  c-InRange = arguments-InRange args c accepted

  placed : (s : System) → Reach (c.threads) (c.batch) s → Placed (c.threads) (c.batch) s
  placed s r = Reach-Placed (c.threads) (c.batch) (c-InRange.0) (c-InRange.1) r

  -- With settings that `main` accepts, after any steps of its workers: no two workers hold the same batch, no two slots, and no
  -- worker holds a batch that is in a slot. All blocks of a batch in a slot are allocated. A worker
  -- that is about to allocate into a place of its batch has no allocated block there, and one that is
  -- about to free the block at a place has an allocated block there: no block is lost when its
  -- pointer is overwritten, and none is freed twice.
  pub Reach-Exclusive :
      (s : System)
      → Reach (c.threads) (c.batch) s
      → ((v w b : ℕ)
          → holding (s.workers v).phase ≡ some b
          → holding (s.workers w).phase ≡ some b
          → v ≡ w)
        × ((a d b : ℕ) → s.shared.slots a ≡ some b → s.shared.slots d ≡ some b → a ≡ d)
        × ((w a b : ℕ) → holding (s.workers w).phase ≡ some b → s.shared.slots a ≢ some b)
        × ((a b j : ℕ) → j < c.batch → s.shared.slots a ≡ some b → s.shared.live b j ≡ true)
        × ((w b i : ℕ)
            → i < c.batch
            → (s.workers w).phase ≡ filling b (suc i)
            → s.shared.live b i ≡ false)
        × ((w b i : ℕ) → i < c.batch → (s.workers w).phase ≡ freeing b i → s.shared.live b i ≡ true)
  Reach-Exclusive s r =
      let p = placed s r in
      (
        λ v w b h k. in_hand_injective (sym (p.held v b h) ∙ p.held w b k),
        λ a d b h k. in_slot_injective (sym (p.slotted a b h) ∙ p.slotted d b k),
        λ w a b h k. hand-ne-slot (sym (p.held w b h) ∙ p.slotted a b k),
        λ a b j k h.
            let here : Where (c.threads) (c.batch) s b (in_slot a) =
              rw (p.slotted a b h) at (p.at b) in
            here.2 j k,
        λ w b i k e.
            held-due (c.threads) (c.batch) s p w b i k (rw e refl)
            ∙ rw e (lt→leb (suc i) i (omega arith)),
        λ w b i k e.
            held-due (c.threads) (c.batch) s p w b i k (rw e refl)
            ∙ rw e (le→leb i i (omega arith)),
      )

  -- With settings that `main` accepts, when all workers are done: after the clean-up of the main program no block of any
  -- batch is allocated.
  pub clean_up-Reach :
      (s : System)
      → Reach (c.threads) (c.batch) s
      → ((w : ℕ) → w < c.threads → (s.workers w).phase ≡ done)
      → (b j : ℕ) → j < c.batch
      → clean_up (c.threads) (c.batch) (s.shared.slots) (s.shared.live) b j ≡ false
  clean_up-Reach s r finished b j k =
      let p = placed s r in
      clean_up-live (c.threads) (c.batch) (s.shared.slots) (s.shared.live) b j k (
        remains (c.threads) (c.batch) (c-InRange.0) (c-InRange.1) s r finished b j k (p.place b)
          (p.at b))
