-- ===== src/Remote/Refines.antt =====
-- The bucket as its users see it: each block is with the program or with the allocator, and moves
-- between them at one moment.
use llheap.Prelude.{
  ℕ, ◌≡◌, ◌≢◌, ◌⊎◌, ◌∙◌, sym, inl, inr, refl, ap, true, List, [], update, update_self, update_ne,
  ℕ_discrete,
}
use llheap.Header.{Header}
use llheap.Arena.{In, Chain}
use llheap.Remote.{
  idle, away, Shared, bucket, Step, frees, links, swaps, looks, fetches, keeps, pops, puts, Steps,
  start, then_step,
}
use llheap.Remote.Placed.{Site, outside, in_use, freeing, returned, taken, free, IsPlaced}
use llheap.Remote.Sites.{fetch_site, keep_site}
use llheap.Remote.Pushing.{begin-IsPlaced, link-IsPlaced, swap-IsPlaced}
use llheap.Remote.Owning.{look-IsPlaced, fetch-IsPlaced, keep-IsPlaced, pop-IsPlaced, put-IsPlaced}

-- Who has a block.
pub data Hand : Type 0 where
  unknown : Hand
  program : Hand
  allocator : Hand

abbrev pub hand : Site → Hand
hand outside = unknown
hand in_use = program
hand (freeing t) = allocator
hand returned = allocator
hand taken = allocator
hand free = allocator

-- The specification: a block of the program is given back, a block of the allocator is handed out, or
-- nothing happens; all other blocks stay where they are.
pub data SpecStep (σ τ : ℕ → Hand) : Type 0 where
  gives : (b : ℕ) → σ b ≡ program → τ b ≡ allocator → ((a : ℕ) → a ≢ b → τ a ≡ σ a) → SpecStep σ τ
  takes : (b : ℕ) → σ b ≡ allocator → τ b ≡ program → ((a : ℕ) → a ≢ b → τ a ≡ σ a) → SpecStep σ τ
  rests : ((a : ℕ) → τ a ≡ σ a) → SpecStep σ τ

pub data SpecSteps (σ : ℕ → Hand) : (ℕ → Hand) → Type 0 where
  begin : SpecSteps σ σ
  and_step : {τ υ : ℕ → Hand} → SpecSteps σ τ → SpecStep τ υ → SpecSteps σ υ

abbrev pub hands : (ℕ → Site) → ℕ → Hand
hands site a = hand (site a)

-- One block changes its place.
module _ (site : ℕ → Site) (b : ℕ) (T : Site) where
  there : hands (update site b T) b ≡ hand T
  there = ap hand (update_self site b T)

  elsewhere : (a : ℕ) → a ≢ b → hands (update site b T) a ≡ hands site a
  elsewhere a ne = ap hand (update_ne site b T a ne)

  -- Within the allocator.
  inside :
      hands site b ≡ allocator
      → hand T ≡ allocator
      → SpecStep (hands site) (hands (update site b T))
  inside from to =
      rests
        λ a. elim (ℕ_discrete a b) [ yes e ↦ rw e (there ∙ to ∙ sym from) | no ne ↦ elsewhere a ne ]

fetch_site-hand : (x : Site) → hand (fetch_site x) ≡ hand x
fetch_site-hand outside = refl
fetch_site-hand in_use = refl
fetch_site-hand (freeing t) = refl
fetch_site-hand returned = refl
fetch_site-hand taken = refl
fetch_site-hand free = refl

keep_site-hand : (x : Site) → hand (keep_site x) ≡ hand x
keep_site-hand outside = refl
keep_site-hand in_use = refl
keep_site-hand (freeing t) = refl
keep_site-hand returned = refl
keep_site-hand taken = refl
keep_site-hand free = refl

-- What a step of the bucket does to the specification.
abbrev Simulates : (fh : ℕ) (u : Shared) (site : ℕ → Site) → Type 0
Simulates fh u site = (site' : ℕ → Site) × IsPlaced fh u site' × SpecStep (hands site) (hands site')

still : (fh : ℕ) (u : Shared) (site : ℕ → Site) → IsPlaced fh u site → Simulates fh u site
still fh u site inv = (site, inv, rests (λ a. refl))

Step-Simulates :
    (fh : ℕ) {s u : Shared} (site : ℕ → Site)
    → Step fh s u
    → IsPlaced fh s site
    → Simulates fh u site
Step-Simulates fh {s} site (frees t b ready on) inv =
    let at : site b ≡ in_use = (inv.at_program b).0 on in
    (
      update site b (freeing t),
      begin-IsPlaced fh s site inv t b ready on,
      gives b (ap hand at) (there site b (freeing t)) (elsewhere site b (freeing t)),
    )
Step-Simulates fh {s} site (links t b ready) inv =
    still fh _ site (link-IsPlaced fh s site inv t b ready)
Step-Simulates fh {s} site (swaps t b ready) inv =
    let at : site b ≡ freeing t = (inv.at_pusher t b).0 (rw ready refl) in
    elim (swap-IsPlaced fh s site inv t b ready) [
      | inl (_, done) ↦ (update site b returned, done, inside site b returned (ap hand at) refl)
      | inr again ↦ still fh _ site again
    ]
Step-Simulates fh {s} site (looks at empty) inv =
    still fh _ site (look-IsPlaced fh s site inv at empty)
Step-Simulates fh {s} site (fetches at) inv = (
  λ a. fetch_site (site a),
  fetch-IsPlaced fh s site inv at,
  rests (λ a. fetch_site-hand (site a)),
)
Step-Simulates fh {s} site (keeps b at) inv =
    let moved = λ (a : ℕ). keep_site (site a) in
    let (from, done) = keep-IsPlaced fh s site inv b at in
    (
      update moved b in_use,
      done,
      takes b (ap hand from) (there moved b in_use)
          (λ a ne. elsewhere moved b in_use a ne ∙ keep_site-hand (site a)),
    )
Step-Simulates fh {s} site (pops at some) inv =
    let b = (bucket fh s).free_list in
    let (from, done) = pop-IsPlaced fh s site inv at some in
    (
      update site b in_use,
      done,
      takes b (ap hand from) (there site b in_use) (elsewhere site b in_use),
    )
Step-Simulates fh {s} site (puts b at on) inv =
    let (from, done) = put-IsPlaced fh s site inv b at on in
    (update site b free, done, gives b (ap hand from) (there site b free) (elsewhere site b free))

-- However the steps of the owner and of any number of freeing threads interleave, the bucket does
-- what the specification allows: from a bucket whose blocks are where `site` says, it comes to one
-- whose blocks are where some `site'` says, and the specification steps from the first to the second.
-- So a block is handed out only when the allocator has it, and each block that is freed is had by
-- the allocator.
pub Steps-Refines :
    (fh : ℕ) {s u : Shared} (site : ℕ → Site)
    → Steps fh s u
    → IsPlaced fh s site
    → (site' : ℕ → Site) × IsPlaced fh u site' × SpecSteps (hands site) (hands site')
Steps-Refines fh site start inv = (site, inv, begin)
Steps-Refines fh site (then_step r step) inv =
    let (mid, placed, before) = Steps-Refines fh site r inv in
    let (last, done, now) = Step-Simulates fh mid step placed in (last, done, and_step before now)

-- A block of the bucket remains one.
SpecSteps-known : {σ τ : ℕ → Hand} → SpecSteps σ τ → (a : ℕ) → σ a ≢ unknown → τ a ≢ unknown
SpecSteps-known begin a known = known
SpecSteps-known (and_step r (gives b from to same)) a known = elim (ℕ_discrete a b) [
  | yes e ↦ λ q. let q' = rw e at q in cc
  | no ne ↦ λ q. SpecSteps-known r a known (sym (same a ne) ∙ q)
]
SpecSteps-known (and_step r (takes b from to same)) a known = elim (ℕ_discrete a b) [
  | yes e ↦ λ q. let q' = rw e at q in cc
  | no ne ↦ λ q. SpecSteps-known r a known (sym (same a ne) ∙ q)
]
SpecSteps-known (and_step r (rests same)) a known =
    λ q. SpecSteps-known r a known (sym (same a) ∙ q)

-- The list of linked blocks from `top` has block `a`.
abbrev pub IsLinkedFrom : (ℕ → Header) → (top a : ℕ) → Type 0
IsLinkedFrom hd top a = (xs : List ℕ) × Chain hd top xs × In a xs

-- Where a block is when nobody is in the middle of an operation.
module _ (fh : ℕ) (u : Shared) (site : ℕ → Site) (inv : IsPlaced fh u site) (a : ℕ)
    (calm : (t : ℕ) → u.pushers t ≡ idle) (at : u.owner ≡ away) where
  abbrev Found : Type 0
  Found =
      (u.held a ≡ true)
      ⊎ IsLinkedFrom (u.machine.headers) (bucket fh u).remote_list a
      ⊎ IsLinkedFrom (u.machine.headers) (bucket fh u).free_list a

  find : (x : Site) → site a ≡ x → hand x ≢ unknown → Found
  find outside e known = absurd (known refl)
  find in_use e known = inl ((inv.at_program a).1 e)
  find (freeing t) e known = absurd (rw (calm t) at ((inv.at_pusher t a).1 e))
  find returned e known = inr (inl (inv.remote_blocks, inv.remote, (inv.at_remote a).1 e))
  find taken e known =
      let none : inv.taken_blocks ≡ [] = rw at at (inv.owned) in
      let i : In a [] = rw none at ((inv.at_taken a).1 e) in absurd i
  find free e known = inr (inr (inv.free_blocks, inv.local, (inv.at_free a).1 e))

known_hand : (x : Site) → x ≢ outside → hand x ≢ unknown
known_hand outside ne e = absurd (ne refl)
known_hand in_use ne e = cc
known_hand (freeing t) ne e = cc
known_hand returned ne e = cc
known_hand taken ne e = cc
known_hand free ne e = cc

-- No block is lost: from a bucket whose blocks are where `site` says, whatever steps are made, once
-- no thread is in the middle of a free and the owner is not in the middle of an allocation, each
-- block of the bucket is with the program, or on the remote list, or on the free list.
pub Steps-IsLinkedFrom :
    (fh : ℕ) {s u : Shared} (site : ℕ → Site) (a : ℕ)
    → IsPlaced fh s site
    → Steps fh s u
    → ((t : ℕ) → u.pushers t ≡ idle)
    → u.owner ≡ away
    → site a ≢ outside
    → (u.held a ≡ true)
      ⊎ IsLinkedFrom (u.machine.headers) (bucket fh u).remote_list a
      ⊎ IsLinkedFrom (u.machine.headers) (bucket fh u).free_list a
Steps-IsLinkedFrom fh {s} {u} site a inv r calm at known =
    let (last, placed, spec) = Steps-Refines fh site r inv in
    find fh u last placed a calm at (last a) refl
      (SpecSteps-known spec a (known_hand (site a) known))
