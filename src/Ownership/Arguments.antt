-- ===== src/Ownership/Arguments.antt =====
-- What the settings are that the program accepts.
use llheap.Prelude.{
  Bool, refl, ℕ, ◌≤◌, ◌<◌, ◌≡◌, Option, none, some, List, [], ◌∷◌, arith, ltb, ◌||◌, if◌then◌else◌,
  true, false,
}
use llheap.Ownership.{
  Argument, default, number, Settings, defaults, max_thread, max_batch, below_one, set_batch,
  set_threads, set_duration, next_argument, arguments,
}

abbrev pub InRange : Settings → Type 0
InRange c = (0 < c.threads) × (c.threads ≤ max_thread) × (0 < c.batch) × (c.batch ≤ max_batch)

-- A step that may refuse keeps the range.
abbrev Keeps : (Settings → Option Settings) → Type 0
Keeps f = (c e : Settings) → InRange c → f c ≡ some e → InRange e

test-Keeps :
    (refused : Bool) (c e : Settings)
    → (refused ≡ false → InRange c)
    → (if refused then none else some c) ≡ some e
    → InRange e
test-Keeps true c e ok q = absurd (cc)
test-Keeps false c e ok q = let same : c ≡ e = cc in rw (← same) (ok refl)

below_one_lem : (w : ℕ) → below_one w ≡ false → 0 < w
below_one_lem w h = ground arith

range_lem : (w max : ℕ) → (below_one w || ltb max w) ≡ false → (0 < w) × (w ≤ max)
range_lem w max h = ground arith

set_batch-Keeps : (a : Argument) → Keeps (set_batch a)
unfolding set_batch
set_batch-Keeps default c e ok q = let same : c ≡ e = cc in rw (← same) ok
set_batch-Keeps (number w) c e ok q =
    test-Keeps _ (record c { batch = w }) e
      (λ h. let (low, high) = range_lem w max_batch h in (ok.0, ok.1, low, high)) q

set_threads-Keeps : (a : Argument) → Keeps (set_threads a)
unfolding set_threads
set_threads-Keeps default c e ok q = let same : c ≡ e = cc in rw (← same) ok
set_threads-Keeps (number w) c e ok q =
    test-Keeps _ (record c { threads = w }) e
      (λ h. let (low, high) = range_lem w max_thread h in (low, high, ok.2, ok.3)) q

set_duration-Keeps : (a : Argument) → Keeps (set_duration a)
unfolding set_duration
set_duration-Keeps default c e ok q = let same : c ≡ e = cc in rw (← same) ok
set_duration-Keeps (number w) c e ok q = test-Keeps _ (record c { duration = w }) e (λ h. ok) q

next_argument-InRange :
    (o : Option Settings) (f : Settings → Option Settings) (e : Settings)
    → ((c : Settings) → o ≡ some c → InRange c)
    → Keeps f
    → next_argument o f ≡ some e
    → InRange e
next_argument-InRange none f e ok keeps q = absurd (cc)
next_argument-InRange (some c) f e ok keeps q = keeps c e (ok c refl) q

defaults-InRange : InRange defaults
defaults-InRange = (omega arith, omega arith, omega arith, omega arith)

-- Settings that the program accepts are within the arrays that it has.
pub arguments-InRange : (args : List Argument) (c : Settings) → arguments args ≡ some c → InRange c
unfolding arguments
arguments-InRange [] c q = let same : defaults ≡ c = cc in rw (← same) defaults-InRange
arguments-InRange (d ∷ []) c q = set_duration-Keeps d defaults c defaults-InRange q
arguments-InRange (d ∷ t ∷ []) c q =
    next_argument-InRange (set_threads t defaults) (set_duration d) c
      (λ e. set_threads-Keeps t defaults e defaults-InRange) (set_duration-Keeps d) q
arguments-InRange (d ∷ t ∷ b ∷ []) c q =
    next_argument-InRange (next_argument (set_batch b defaults) (set_threads t)) (set_duration d) c
      (λ e.
        next_argument-InRange (set_batch b defaults) (set_threads t) e
          (λ k. set_batch-Keeps b defaults k defaults-InRange) (set_threads-Keeps t))
      (set_duration-Keeps d) q
arguments-InRange (d ∷ t ∷ b ∷ e ∷ rest) c q = absurd (cc)
