-- ===== src/Tests/Workers.antt =====
-- Started with the arguments `d 1 1`: one worker with batches of one block, which puts its batch into the slot and is stopped.
use llheap.Prelude.{
  List, [], ◌∷◌, ℕ, ◌≡◌, ◌≢◌, ◌<◌, refl, zero, suc, false, true, some, arith, update,
}
use llheap.Ownership.{
  Argument, default, number, Settings, arguments, set_batch, set_threads, set_duration, System,
  filling, freeing, done, launched, run_worker, halt, work, cycle_up, Reach, start, runs, halts,
  clean_up,
}
use llheap.Ownership.Placed.{holding}
use llheap.Ownership.Clean.{Reach-Exclusive, clean_up-Reach}

abbrev args : List Argument
args = default ∷ number 1 ∷ number 1 ∷ []

abbrev settings : Settings
settings = record { duration = 30; threads = 1; batch = 1 }

accepted : arguments args ≡ some settings
unfolding arguments set_batch set_threads set_duration
accepted = refl

abbrev stages : ℕ → System
stages zero = launched
stages (suc n) = run_worker 1 1 0 (stages n)

abbrev last : System
last = run_worker 1 1 0 (halt (stages 4))

stages-Reach : (n : ℕ) → Reach 1 1 (stages n)
stages-Reach zero = start
stages-Reach (suc n) = runs 0 (omega arith) (stages-Reach n)

last-Reach : Reach 1 1 last
last-Reach = runs 0 (omega arith) (halts (stages-Reach 4))

last-done : (w : ℕ) → w < 1 → (last.workers w).phase ≡ done
unfolding work cycle_up update
last-done zero h = refl
last-done (suc w) h = absurd (omega (arith, h))

-- The block is allocated until the clean-up.
last-live : last.shared.live 0 0 ≡ true
unfolding work cycle_up update
last-live = refl

clean_up-Reach_example : clean_up 1 1 (last.shared.slots) (last.shared.live) 0 0 ≡ false
clean_up-Reach_example =
    clean_up-Reach args settings accepted last last-Reach last-done 0 0 (omega arith)

Reach-Exclusive_example :
    ((v w b : ℕ)
      → holding ((stages 4).workers v).phase ≡ some b
      → holding ((stages 4).workers w).phase ≡ some b
      → v ≡ w)
    × ((a c b : ℕ)
        → (stages 4).shared.slots a ≡ some b
        → (stages 4).shared.slots c ≡ some b
        → a ≡ c)
    × ((w a b : ℕ)
        → holding ((stages 4).workers w).phase ≡ some b
        → (stages 4).shared.slots a ≢ some b)
    × ((a b j : ℕ) → j < 1 → (stages 4).shared.slots a ≡ some b → (stages 4).shared.live b j ≡ true)
    × ((w b i : ℕ)
        → i < 1
        → ((stages 4).workers w).phase ≡ filling b (suc i)
        → (stages 4).shared.live b i ≡ false)
    × ((w b i : ℕ)
        → i < 1
        → ((stages 4).workers w).phase ≡ freeing b i
        → (stages 4).shared.live b i ≡ true)
Reach-Exclusive_example = Reach-Exclusive args settings accepted (stages 4) (stages-Reach 4)
