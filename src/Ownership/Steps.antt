-- ===== src/Ownership/Steps.antt =====
-- Every step of a worker keeps each batch at one place.
use llheap.Prelude.{
  ℕ, zero, suc, ◌+◌, ◌≡◌, ◌≢◌, ◌≤◌, ◌<◌, ◌∙◌, sym, refl, ap, inl, inr, Bool, true, false, Option,
  none, some, arith, leb, ltb, ltb→le, le→leb, lt→leb, update, update_self, update_ne, ℕ_discrete,
  Bool-cases, if◌then◌else◌,
}
use llheap.Word.{add64}
use llheap.Ownership.{
  cycle_up, Phase, testing, filling, swapping, freeing, done, Worker, Globals, set_live, leave,
  goes_on, work, System, run_worker,
}
use llheap.Ownership.Placed.{
  Place, in_hand, in_slot, dropped, holding, due, Where, Placed, in_hand_injective, hand-ne-slot,
  keep-Placed,
}
use llheap.Ownership.Exchange.{exchange-Placed}

-- Worker `w`, whose batch is empty, drops it and is done.
module _ (threads size : ℕ) (s : System) (placed : Placed threads size s) (w b : ℕ) (next : Worker)
    (inside : next.a < threads) (mine : holding (s.workers w).phase ≡ some b)
    (none_left : holding (next.phase) ≡ none)
    (empty : (j : ℕ) → j < size → s.shared.live b j ≡ false) where
  abbrev after : System
  after = record { workers = update (s.workers) w next; shared = s.shared }

  drop_held :
      (v c : ℕ)
      → holding (after.workers v).phase ≡ some c
      → update (placed.place) b dropped c ≡ in_hand v
  drop_held v c h = elim (ℕ_discrete v w) [
    | yes e ↦ absurd (
        let some_c : holding (next.phase) ≡ some c = rw (e, update_self (s.workers) w next) at h in
        let no : none ≡ some c = sym none_left ∙ some_c in cc)
    | no ne ↦
        let old = placed.held v c (rw (update_ne (s.workers) w next v ne) at h) in
        update_ne (placed.place) b dropped c
          (λ e. ne (in_hand_injective (sym old ∙ rw e (placed.held w b mine))))
        ∙ old
  ]

  drop_slotted :
      (a c : ℕ) → s.shared.slots a ≡ some c → update (placed.place) b dropped c ≡ in_slot a
  drop_slotted a c h =
      update_ne (placed.place) b dropped c
        (λ e. hand-ne-slot (sym (placed.held w b mine) ∙ placed.slotted a b (rw e at h)))
      ∙ placed.slotted a c h

  drop_aside :
      (c : ℕ) (p : Place)
      → placed.place c ≡ p
      → c ≢ b
      → Where threads size s c p
      → Where threads size after c p
  drop_aside c (in_hand v) e ne (h, l) = elim (ℕ_discrete v w) [
    | yes q ↦ absurd (
        let mine' : holding (s.workers w).phase ≡ some c = rw q at h in
        let same : some b ≡ some c = sym mine ∙ mine' in ne (cc))
    | no other ↦ rw (update_ne (s.workers) w next v other) (h, l)
  ]
  drop_aside c (in_slot a) e ne l = l
  drop_aside c dropped e ne l = l

  pub drop-Placed : Placed threads size after
  drop-Placed = record {
    place = update (placed.place) b dropped;
    held = drop_held;
    slotted = drop_slotted;
    at = λ c. elim (ℕ_discrete c b) [
      | yes e ↦ rw (e, update_self (placed.place) b dropped) empty
      | no ne ↦
          rw (update_ne (placed.place) b dropped c ne)
            (drop_aside c (placed.place c) refl ne (placed.at c))
    ];
    bounded = λ v. elim (ℕ_discrete v w) [
      | yes e ↦ rw (e, update_self (s.workers) w next) inside
      | no ne ↦ rw (update_ne (s.workers) w next v ne) (placed.bounded v)
    ];
  }

-- The blocks of a batch in hand that are allocated are those that should be.
pub held-due :
    (threads size : ℕ) (s : System) (placed : Placed threads size s) (w b j : ℕ)
    → j < size
    → holding (s.workers w).phase ≡ some b
    → s.shared.live b j ≡ due (s.workers w).phase j
held-due threads size s placed w b j k h =
    let here : Where threads size s b (in_hand w) = rw (placed.held w b h) at (placed.at b) in
    here.1 j k

pub cycle_up-below : (v n : ℕ) → v < n → n ≤ 256 → cycle_up v n < n
unfolding cycle_up
cycle_up-below v n h small = ground arith

leave-holding : (o : Option ℕ) → holding (leave o) ≡ o
leave-holding none = refl
leave-holding (some b) = refl

leave-due : (o : Option ℕ) (b j : ℕ) → o ≡ some b → due (leave o) j ≡ true
leave-due none b j e = absurd (cc)
leave-due (some c) b j e = le→leb 0 j (omega arith)

set_live_next :
    (live : ℕ → ℕ → Bool) (b i j : ℕ)
    → live b j ≡ leb (suc i) j
    → set_live b i true live b j ≡ leb i j
unfolding update
set_live_next live b i j old = ground arith

set_live_gone :
    (live : ℕ → ℕ → Bool) (b i j : ℕ)
    → live b j ≡ leb i j
    → set_live b i false live b j ≡ leb (i + 1) j
unfolding update
set_live_gone live b i j old = ground arith

pub same_batch : {b c : ℕ} → some b ≡ some c → c ≡ b
same_batch e = cc

-- A step of worker `w` from phase `p`.
module _ (threads size : ℕ) (few : threads ≤ 256) (s : System) (placed : Placed threads size s)
    (w : ℕ) where
  abbrev a : ℕ
  a = (s.workers w).a

  abbrev cnt : ℕ
  cnt = (s.workers w).cnt

  inside : cycle_up a threads < threads
  inside = cycle_up-below a threads (placed.bounded w) few

  abbrev stepped : Phase → System
  stepped p =
      let (next, shared) = work threads size p a cnt (s.shared) in
      record { workers = update (s.workers) w next; shared = shared }

  owned :
      (p : Phase)
      → (s.workers w).phase ≡ p
      → (b j : ℕ) → j < size
      → holding p ≡ some b
      → s.shared.live b j ≡ due p j
  owned p e b j k h = rw (← e) (held-due threads size s placed w b j k (rw e h))

  -- The worker goes on with the same batch.
  onward :
      (p : Phase)
      → (s.workers w).phase ≡ p
      → (next : Worker) (live : ℕ → ℕ → Bool) → holding (next.phase) ≡ holding p
      → next.a < threads
      → ((b j : ℕ) → j < size → holding p ≡ some b → live b j ≡ due (next.phase) j)
      → ((b j : ℕ) → holding p ≢ some b → live b j ≡ s.shared.live b j)
      → Placed threads size (record {
        workers = update (s.workers) w next;
        shared = record (s.shared) { live = live };
      })
  onward p e next live same below mine others =
      keep-Placed threads size s placed w next live (rw e same) below (rw e mine) (rw e others)

  exchanged :
      (own : ℕ) (col : Option ℕ)
      → (s.workers w).phase ≡ swapping own col
      → (next : Worker) → next.a < threads
      → holding (next.phase) ≡ s.shared.slots a
      → ((b j : ℕ) → holding (next.phase) ≡ some b → due (next.phase) j ≡ true)
      → Placed threads size (record {
        workers = update (s.workers) w next;
        shared = record (s.shared) { slots = update (s.shared.slots) a col };
      })
  exchanged own col e next below got full =
      let same : holding (s.workers w).phase ≡ col = rw e refl in
      rw same at (
        exchange-Placed threads size s placed w a next (placed.bounded w) below got (λ j. rw e refl)
          full)

  tested :
      (b : ℕ)
      → (s.workers w).phase ≡ testing b
      → (stop : Bool)
      → Placed threads size (record {
        workers =
            update
              (s.workers)
              w
              (record { phase = if stop then done else filling b size; a = a; cnt = cnt });
        shared = s.shared;
      })
  tested b e true =
      drop-Placed threads size s placed w b _ (placed.bounded w) (rw e refl) refl
        (λ j k. owned (testing b) e b j k refl)
  tested b e false =
      onward (testing b) e (record { phase = filling b size; a = a; cnt = cnt }) (s.shared.live)
        refl (placed.bounded w) (λ c j k h. owned (testing b) e c j k h ∙ sym (lt→leb size j k))
        (λ c j ne. refl)

  -- The worker leaves the exchange loop, or exchanges its batch and leaves or goes on.
  swapped :
      (own : ℕ) (col : Option ℕ)
      → (s.workers w).phase ≡ swapping own col
      → (stop again : Bool)
      → let got = s.shared.slots a in
        let (next, shared) : Worker × Globals =
          if stop then (record { phase = leave col; a = a; cnt = cnt }, s.shared) else (
            (if again
                then record { phase = swapping own got; a = cycle_up a threads; cnt = cnt }
                else record { phase = leave got; a = a; cnt = cnt }),
            record (s.shared) { slots = update (s.shared.slots) a col },
          ) in
        Placed threads size (record { workers = update (s.workers) w next; shared = shared })
  swapped own col e true again =
      onward (swapping own col) e (record { phase = leave col; a = a; cnt = cnt }) (s.shared.live)
        (leave-holding col) (placed.bounded w)
        (λ b j k h. owned (swapping own col) e b j k h ∙ sym (leave-due col b j h)) (λ b j ne. refl)
  swapped own col e false true =
      exchanged own col e
        (record { phase = swapping own (s.shared.slots a); a = cycle_up a threads; cnt = cnt })
        inside refl (λ b j h. refl)
  swapped own col e false false =
      exchanged own col e (record { phase = leave (s.shared.slots a); a = a; cnt = cnt })
        (placed.bounded w) (leave-holding (s.shared.slots a))
        (λ b j h. leave-due (s.shared.slots a) b j (sym (leave-holding (s.shared.slots a)) ∙ h))

  stepped-Placed : (p : Phase) → (s.workers w).phase ≡ p → Placed threads size (stepped p)
  unfolding work
  stepped-Placed (testing b) e = tested b e (s.shared.stop)
  stepped-Placed (filling b zero) e =
      onward (filling b zero) e (record { phase = swapping b (some b); a = a; cnt = cnt })
        (s.shared.live) refl (placed.bounded w)
        (λ c j k h. owned (filling b zero) e c j k h ∙ le→leb 0 j (omega arith)) (λ c j ne. refl)
  stepped-Placed (filling b (suc i)) e =
      onward (filling b (suc i)) e (record { phase = filling b i; a = a; cnt = cnt })
        (set_live b i true (s.shared.live)) refl (placed.bounded w)
        (λ c j k h.
          let same : c ≡ b = same_batch h in
          rw same (set_live_next (s.shared.live) b i j (owned (filling b (suc i)) e b j k refl)))
        (λ c j ne.
          ap (λ (f : ℕ → Bool). f j) (update_ne (s.shared.live) b _ c (λ q. ne (rw q refl))))
  stepped-Placed (swapping own col) e =
      swapped own col e (s.shared.stop) (goes_on own (s.shared.slots a))
  stepped-Placed (freeing b i) e = elim (Bool-cases (ltb i size)) [
    | inl more ↦ rw more (
        onward (freeing b i) e (record { phase = freeing b (i + 1); a = a; cnt = cnt })
          (set_live b i false (s.shared.live)) refl (placed.bounded w)
          (λ c j k h.
            let same : c ≡ b = same_batch h in
            rw same (set_live_gone (s.shared.live) b i j (owned (freeing b i) e b j k refl)))
          (λ c j ne.
            ap (λ (f : ℕ → Bool). f j) (update_ne (s.shared.live) b _ c (λ q. ne (rw q refl)))))
    | inr over ↦ rw over (
        onward (freeing b i) e
          (record { phase = testing b; a = cycle_up a threads; cnt = add64 cnt size })
          (s.shared.live) refl inside
          (λ c j k h. owned (freeing b i) e c j k h ∙ lt→leb i j (omega (arith, ltb→le _ _ over)))
          (λ c j ne. refl))
  ]
  stepped-Placed done e =
      onward done e (record { phase = done; a = a; cnt = cnt }) (s.shared.live) refl
        (placed.bounded w) (λ c j k h. absurd (cc)) (λ c j ne. refl)

  pub run_worker-Placed : Placed threads size (run_worker threads size w s)
  run_worker-Placed = stepped-Placed (s.workers w).phase refl
