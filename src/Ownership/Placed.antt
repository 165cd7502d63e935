-- ===== src/Ownership/Placed.antt =====
-- Each batch is at one place: in the hand of one worker, in one slot, or dropped by a worker that
-- is done.
use llheap.Prelude.{
  ℕ, ◌≡◌, ◌≢◌, ◌<◌, ◌∙◌, sym, refl, Bool, true, false, Option, none, some, leb, update, update_self,
  update_ne, ℕ_discrete,
}
use llheap.Ownership.{Phase, testing, filling, swapping, freeing, done, Worker, System}

pub data Place : Type 0 where
  in_hand : ℕ → Place
  in_slot : ℕ → Place
  dropped : Place

-- What a worker holds.
abbrev pub holding : Phase → Option ℕ
holding (testing b) = some b
holding (filling b left) = some b
holding (swapping obatch batch) = batch
holding (freeing b i) = some b
holding done = none

-- Which of the blocks it holds are allocated.
abbrev pub due : Phase → ℕ → Bool
due (testing b) j = false
due (filling b left) j = leb left j
due (swapping obatch batch) j = true
due (freeing b i) j = leb i j
due done j = false

-- Batch `b` is at this place, with the blocks allocated that should be.
abbrev pub Where : (threads size : ℕ) → System → (b : ℕ) → Place → Type 0
Where threads size s b (in_hand w) =
    (holding (s.workers w).phase ≡ some b)
    × ((j : ℕ) → j < size → s.shared.live b j ≡ due (s.workers w).phase j)
Where threads size s b (in_slot a) =
    (s.shared.slots a ≡ some b) × (a < threads) × ((j : ℕ) → j < size → s.shared.live b j ≡ true)
Where threads size s b dropped = (j : ℕ) → j < size → s.shared.live b j ≡ false

pub record Placed (threads size : ℕ) (s : System) : Type 0 where
  pub place : ℕ → Place
  pub held : (w b : ℕ) → holding (s.workers w).phase ≡ some b → place b ≡ in_hand w
  pub slotted : (a b : ℕ) → s.shared.slots a ≡ some b → place b ≡ in_slot a
  pub at : (b : ℕ) → Where threads size s b (place b)
  pub bounded : (w : ℕ) → (s.workers w).a < threads

pub in_hand_injective : {v w : ℕ} → in_hand v ≡ in_hand w → v ≡ w
in_hand_injective e = cc

pub in_slot_injective : {v w : ℕ} → in_slot v ≡ in_slot w → v ≡ w
in_slot_injective e = cc

pub hand-ne-slot : {v w : ℕ} → in_hand v ≢ in_slot w
hand-ne-slot e = cc

-- A step of worker `w` that keeps its batch in hand.
module _ (threads size : ℕ) (s : System) (placed : Placed threads size s) (w : ℕ) (next : Worker)
    (live : ℕ → ℕ → Bool) (same : holding (next.phase) ≡ holding (s.workers w).phase)
    (inside : next.a < threads)
    (mine : (b j : ℕ)
      → j < size
      → holding (s.workers w).phase ≡ some b
      → live b j ≡ due (next.phase) j)
    (others : (b j : ℕ) → holding (s.workers w).phase ≢ some b → live b j ≡ s.shared.live b j) where
  abbrev after : System
  after = record { workers = update (s.workers) w next; shared = record (s.shared) { live = live } }

  keep_held : (v b : ℕ) → holding (after.workers v).phase ≡ some b → placed.place b ≡ in_hand v
  keep_held v b h = elim (ℕ_discrete v w) [
    | yes e ↦
        let mine' : holding (s.workers w).phase ≡ some b =
          sym same ∙ (rw (e, update_self (s.workers) w next) at h) in
        rw e (placed.held w b mine')
    | no ne ↦ placed.held v b (rw (update_ne (s.workers) w next v ne) at h)
  ]

  keep_at :
      (b : ℕ) (p : Place)
      → placed.place b ≡ p
      → Where threads size s b p
      → Where threads size after b p
  keep_at b (in_hand v) e (h, l) = elim (ℕ_discrete v w) [
    | yes q ↦
        let h' : holding (s.workers w).phase ≡ some b = rw q at h in
        rw (q, update_self (s.workers) w next) (same ∙ h', λ j k. mine b j k h')
    | no ne ↦
        rw (update_ne (s.workers) w next v ne)
          (h, λ j k. others b j (λ m. ne (in_hand_injective (sym e ∙ placed.held w b m))) ∙ l j k)
  ]
  keep_at b (in_slot a) e (h, small, l) =
      (h, small, λ j k. others b j (λ m. hand-ne-slot (sym (placed.held w b m) ∙ e)) ∙ l j k)
  keep_at b dropped e l = λ j k.
      others b j (λ m. (let no : in_hand w ≡ dropped = sym (placed.held w b m) ∙ e in cc)) ∙ l j k

  pub keep-Placed : Placed threads size after
  keep-Placed = record {
    place = placed.place;
    held = keep_held;
    slotted = placed.slotted;
    at = λ b. keep_at b (placed.place b) refl (placed.at b);
    bounded = λ v. elim (ℕ_discrete v w) [
      | yes e ↦ rw (e, update_self (s.workers) w next) inside
      | no ne ↦ rw (update_ne (s.workers) w next v ne) (placed.bounded v)
    ];
  }
