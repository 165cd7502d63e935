-- ===== src/Remote/Progress.antt =====
-- A compare-and-swap fails only because another thread got on.
use llheap.Prelude.{
  ℕ, ◌+◌, ◌≤◌, ◌≡◌, ◌≢◌, sym, inl, inr, refl, arith, true, false, ◌==◌, if◌then◌else◌, Bool-cases,
  ==_iff, ==_refl, ne→==, ℕ_discrete, update, update_self, update_ne,
}
use llheap.Header.{Header}
use llheap.Machine.{null}
use llheap.Remote.{
  Pusher, idle, linking, swapping, Shared, bucket, set_next, link, swap, look, fetch, keep, pop,
  put, Step, frees, links, swaps, looks, fetches, keeps, pops, puts, Steps, start, then_step,
}
use llheap.Remote.Placed.{Site, in_use, freeing, IsPlaced, Carries}
use llheap.Remote.Refines.{Steps-Refines}

-- One if the next compare-and-swap of a thread is bound to fail.
abbrev doomed : (top : ℕ) (hd : ℕ → Header) → Pusher → ℕ
doomed top hd idle = 0
doomed top hd (linking b) = 0
doomed top hd (swapping b) = if top == (hd b).word0 then 0 else 1

abbrev pending : (fh t : ℕ) → Shared → ℕ
pending fh t s = doomed (bucket fh s).remote_list (s.machine.headers) (s.pushers t)

-- One if a compare-and-swap of thread `t` fails in the step.
abbrev pub failed : (fh t : ℕ) {s u : Shared} → Step fh s u → ℕ
failed fh t {s} (frees u b ready on) = 0
failed fh t {s} (links u b ready) = 0
failed fh t {s} (swaps u b ready) =
    if u == t
    then (if (bucket fh s).remote_list == (s.machine.headers b).word0 then 0 else 1)
    else 0
failed fh t {s} (looks at empty) = 0
failed fh t {s} (fetches at) = 0
failed fh t {s} (keeps b at) = 0
failed fh t {s} (pops at some) = 0
failed fh t {s} (puts b at on) = 0

-- One if the step publishes a block on the remote list or fetches the list.
abbrev pub succeeded : (fh : ℕ) {s u : Shared} → Step fh s u → ℕ
succeeded fh {s} (frees u b ready on) = 0
succeeded fh {s} (links u b ready) = 0
succeeded fh {s} (swaps u b ready) =
    if (bucket fh s).remote_list == (s.machine.headers b).word0 then 1 else 0
succeeded fh {s} (looks at empty) = 0
succeeded fh {s} (fetches at) = 1
succeeded fh {s} (keeps b at) = 0
succeeded fh {s} (pops at some) = 0
succeeded fh {s} (puts b at on) = 0

abbrev pub failures : (fh t : ℕ) {s u : Shared} → Steps fh s u → ℕ
failures fh t start = 0
failures fh t (then_step r step) = failures fh t r + failed fh t step

abbrev pub successes : (fh : ℕ) {s u : Shared} → Steps fh s u → ℕ
successes fh start = 0
successes fh (then_step r step) = successes fh r + succeeded fh step

doomed-le : (top : ℕ) (hd : ℕ → Header) (p : Pusher) → doomed top hd p ≤ 1
doomed-le top hd idle = omega arith
doomed-le top hd (linking b) = omega arith
doomed-le top hd (swapping b) = elim (Bool-cases (top == (hd b).word0)) [
  | inl same ↦ rw same (omega arith)
  | inr other ↦ rw other (omega arith)
]

-- A write to the link of a block that the thread does not have.
doomed-frame :
    (top : ℕ) (hd : ℕ → Header) (b : ℕ) (h : Header) (p : Pusher)
    → ¬ (Carries p b)
    → doomed top (update hd b h) p ≡ doomed top hd p
doomed-frame top hd b h idle out = refl
doomed-frame top hd b h (linking c) out = refl
doomed-frame top hd b h (swapping c) out = rw (update_ne hd b h c (λ e. out (sym e))) refl

-- Another thread does not have the block that a thread has, and nobody has one of the program.
module _ (fh : ℕ) (s : Shared) (site : ℕ → Site) (inv : IsPlaced fh s site) (t b : ℕ) where
  not_mine : (u : ℕ) → u ≢ t → site b ≡ freeing u → ¬ (Carries (s.pushers t) b)
  not_mine u ne at c = let here : site b ≡ freeing t = (inv.at_pusher t b).0 c in ne (cc)

  not_held : s.held b ≡ true → ¬ (Carries (s.pushers t) b)
  not_held on c =
      let here : site b ≡ freeing t = (inv.at_pusher t b).0 c in
      let there : site b ≡ in_use = (inv.at_program b).0 on in cc

  -- The write of another thread to the link of its block, whatever it does next.
  pending-other :
      (u next : ℕ) (p : Pusher)
      → u ≢ t
      → site b ≡ freeing u
      → doomed
          (bucket fh s).remote_list
          (set_next b next s).machine.headers
          (update (s.pushers) u p t)
        ≡ pending fh t s
  pending-other u next p ne at = rw (update_ne (s.pushers) u p t (λ e. ne (sym e))) (
      doomed-frame (bucket fh s).remote_list (s.machine.headers) b _ (s.pushers t)
        (not_mine u ne at))

-- Each step pays for its failure, or for one that it makes sure, with a success.
Step-pays :
    (fh t : ℕ) {s u : Shared} (site : ℕ → Site)
    → IsPlaced fh s site
    → (step : Step fh s u) → failed fh t step + pending fh t u ≤ succeeded fh step + pending fh t s
unfolding link swap look fetch keep pop put
Step-pays fh t {s} site inv (frees u b ready on) = elim (ℕ_discrete t u) [
  | yes e ↦ rw (e, update_self (s.pushers) u (linking b)) (omega arith)
  | no ne ↦ rw (update_ne (s.pushers) u (linking b) t ne) (omega arith)
]
Step-pays fh t {s} site inv (links u b ready) = elim (ℕ_discrete t u) [
  | yes e ↦
      rw (e, update_self (s.pushers) u (swapping b))
        (simp (update_self, ==_refl (bucket fh s).remote_list) (omega arith))
  | no ne ↦
      let at = (inv.at_pusher u b).0 (rw ready refl) in
      omega (
        arith,
        pending-other fh s site inv t b u (bucket fh s).remote_list (swapping b) (λ e. ne (sym e))
            at,
      )
]
Step-pays fh t {s} site inv (swaps u b ready) =
    elim (Bool-cases ((bucket fh s).remote_list == (s.machine.headers b).word0)) [
      | inl same ↦
          let one = doomed-le b (s.machine.headers) (update (s.pushers) u idle t) in
          elim (Bool-cases (u == t)) [
            | inl me ↦ rw (me, same) (simp update_self (omega (arith, one)))
            | inr you ↦ rw (you, same) (simp update_self (omega (arith, one)))
          ]
      | inr other ↦ elim (ℕ_discrete u t) [
        | yes e ↦
            let at : s.pushers t ≡ swapping b = rw e at ready in
            let me : (u == t) ≡ true = (==_iff u t).1 e in
            rw (me, other, at, other)
              (simp (update_self, ==_refl (bucket fh s).remote_list) (omega arith))
        | no ne ↦
            let at = (inv.at_pusher u b).0 (rw ready refl) in
            let you : (u == t) ≡ false = ne→== u t ne in
            rw (you, other)
              (omega (
                arith,
                doomed-frame (bucket fh s).remote_list (s.machine.headers) b _ (s.pushers t)
                    (not_mine fh s site inv t b u ne at),
              ))
      ]
    ]
Step-pays fh t {s} site inv (looks at empty) =
    elim (Bool-cases ((bucket fh s).remote_list == null)) [
      | inl none ↦ rw none (omega arith)
      | inr some ↦ rw some (omega arith)
    ]
Step-pays fh t {s} site inv (fetches at) =
    omega (arith, doomed-le _ (s.machine.headers) (s.pushers t))
Step-pays fh t {s} site inv (keeps b at) = simp update_self (omega arith)
Step-pays fh t {s} site inv (pops at some) = simp update_self (omega arith)
Step-pays fh t {s} site inv (puts b at on) = simp update_self (
    omega (
      arith,
      doomed-frame (bucket fh s).remote_list (s.machine.headers) b _ (s.pushers t)
          (not_held fh s site inv t b on),
    ))

Steps-pay :
    (fh t : ℕ) {s u : Shared} (site : ℕ → Site)
    → IsPlaced fh s site
    → (r : Steps fh s u) → failures fh t r + pending fh t u ≤ successes fh r + pending fh t s
Steps-pay fh t site inv start = omega arith
Steps-pay fh t site inv (then_step r step) =
    let (mid, placed, _) = Steps-Refines fh site r inv in
    omega (arith, Steps-pay fh t site inv r, Step-pays fh t mid placed step)

-- The loop of `doFree` that returns a block to its owner is lock free: in any interleaving of the
-- owner and the freeing threads that starts with thread `t` at rest and each block where `site` says,
-- the compare-and-swap of `t` fails at most as often as some thread publishes a block or the owner
-- fetches the list.
pub failures-successes :
    (fh t : ℕ) {s u : Shared} (site : ℕ → Site) (r : Steps fh s u)
    → IsPlaced fh s site
    → s.pushers t ≡ idle
    → failures fh t r ≤ successes fh r
failures-successes fh t {s} site r inv rest =
    let none : pending fh t s ≡ 0 = rw rest refl in omega (arith, none, Steps-pay fh t site inv r)
