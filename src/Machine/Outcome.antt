-- ===== src/Machine/Outcome.antt =====
-- Total correctness of a run: it does not stop early, and what it returns satisfies a predicate.
use llheap.Prelude.{ℕ, ◌≡◌, ◌≢◌, refl}
use llheap.Machine.{Machine, map_error, enomem, Run, ok, stop, Cmd, and_then}

abbrev pub Returns : {A : Type 0} → (A → Machine → Type 0) → Run A → Type 0
Returns P (ok a m) = P a m
Returns P (stop e) = ⊥

-- Composition of commands is associative.
pub and_then_assoc :
    {A B C : Type 0} (r : Run A) (f : A → Cmd B) (g : B → Cmd C)
    → and_then (and_then r f) g ≡ and_then r (λ a m. and_then (f a m) g)
and_then_assoc (ok a m) f g = refl
and_then_assoc (stop e) f g = refl

-- A weaker predicate of what is returned.
pub Returns-map :
    {A : Type 0} {P Q : A → Machine → Type 0} (r : Run A)
    → Returns P r
    → ((a : A) (m : Machine) → P a m → Q a m)
    → Returns Q r
Returns-map (ok a m) p f = f a m p
Returns-map (stop e) p f = p

-- What a first command returns is what the next one starts from.
pub Returns-and_then :
    {A B : Type 0} {P : A → Machine → Type 0} (Q : B → Machine → Type 0) (r : Run A) (k : A → Cmd B)
    → Returns P r
    → ((a : A) (m : Machine) → P a m → Returns Q (k a m))
    → Returns Q (and_then r k)
Returns-and_then Q (ok a m) k p f = f a m p
Returns-and_then Q (stop e) k p f = absurd p

-- A run that returns what satisfies a predicate, or stops because the system answered a request for
-- memory with another error than `ENOMEM`.
abbrev pub Ends : {A : Type 0} → (A → Machine → Type 0) → Run A → Type 0
Ends P (ok a m) = P a m
Ends P (stop e) = (s : ℕ) × (errno : ℕ) × (e ≡ map_error s errno) × (errno ≢ enomem)

pub Returns-Ends :
    {A : Type 0} {P : A → Machine → Type 0} (Q : A → Machine → Type 0) (r : Run A)
    → Returns P r
    → ((a : A) (m : Machine) → P a m → Q a m)
    → Ends Q r
Returns-Ends Q (ok a m) p f = f a m p
Returns-Ends Q (stop e) p f = absurd p

pub Ends-and_then :
    {A B : Type 0} {P : A → Machine → Type 0} (Q : B → Machine → Type 0) (r : Run A) (k : A → Cmd B)
    → Ends P r
    → ((a : A) (m : Machine) → P a m → Ends Q (k a m))
    → Ends Q (and_then r k)
Ends-and_then Q (ok a m) k p f = f a m p
Ends-and_then Q (stop e) k p f = p
