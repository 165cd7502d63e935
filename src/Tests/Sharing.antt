-- ===== src/Tests/Sharing.antt =====
-- Two threads free blocks of a third one's bucket at the same time.
use llheap.Prelude.{ℕ, ◌≡◌, ◌≢◌, ◌≤◌, ◌⊎◌, refl, true, false, arith, update, ◌==◌, ◌||◌, ◌^◌, ◌+◌}
use llheap.Remote.{
  Shared, idle, linking, away, bucket, set_held, set_pusher, link, swap, look, fetch, keep, Steps,
  start, then_step, frees, links, swaps, looks, fetches, keeps,
}
use llheap.Remote.Placed.{Site, outside, IsPlaced}
use llheap.Remote.Refines.{SpecSteps, hands, Steps-Refines, IsLinkedFrom, Steps-IsLinkedFrom}
use llheap.Remote.Progress.{failures, successes, failures-successes}
use llheap.Remote.Alone.{first_site, new-IsPlaced}
use llheap.Tests.World.{new_thread, no_free_header}

abbrev fh : ℕ
fh = 2 ^ 20

abbrev one : ℕ
one = 2 ^ 28

abbrev two : ℕ
two = 2 ^ 28 + 32

-- The program holds two blocks.
abbrev s0 : Shared
s0 = record {
  machine = record new_thread { free_headers = no_free_header };
  pushers = λ t. idle;
  owner = away;
  held = λ a. a == one || a == two;
}

s0-IsPlaced : IsPlaced fh s0 (first_site fh s0 refl refl (λ t. refl) refl refl)
s0-IsPlaced = new-IsPlaced fh s0 refl refl (λ t. refl) refl refl

-- Both threads link their blocks, the second one is first, and the first one has to try again.
abbrev s1 : Shared
s1 = set_held one false (set_pusher 1 (linking one) s0)

abbrev s2 : Shared
s2 = set_held two false (set_pusher 2 (linking two) s1)

abbrev s3 : Shared
s3 = link fh 1 one s2

abbrev s4 : Shared
s4 = link fh 2 two s3

abbrev s5 : Shared
s5 = swap fh 2 two s4

abbrev s6 : Shared
s6 = swap fh 1 one s5

abbrev s7 : Shared
s7 = swap fh 1 one s6

abbrev s8 : Shared
s8 = look fh s7

abbrev s9 : Shared
s9 = fetch fh s8

abbrev s10 : Shared
s10 = keep fh one s9

pushed : Steps fh s0 s7
unfolding link swap update
pushed =
    then_step
      (then_step
        (then_step
          (then_step
            (then_step (then_step (then_step start (frees 1 one refl refl)) (frees 2 two refl refl))
              (links 1 one refl))
            (links 2 two refl))
          (swaps 2 two refl))
        (swaps 1 one refl))
      (swaps 1 one refl)

fetched : Steps fh s0 s10
unfolding link swap update look fetch keep
fetched = then_step (then_step (then_step pushed (looks refl refl)) (fetches refl)) (keeps one refl)

-- Nobody is in the middle of an operation at the end.
s10-calm : (t : ℕ) → s10.pushers t ≡ idle
unfolding link swap update look fetch keep
s10-calm t = ground arith

Steps-Refines_example :
    (site' : ℕ → Site) × IsPlaced fh s10 site'
    × SpecSteps (hands (first_site fh s0 refl refl (λ t. refl) refl refl)) (hands site')
Steps-Refines_example =
    Steps-Refines fh (first_site fh s0 refl refl (λ t. refl) refl refl) fetched s0-IsPlaced

two-known : first_site fh s0 refl refl (λ t. refl) refl refl two ≢ outside
two-known e = cc

s10-away : s10.owner ≡ away
unfolding keep
s10-away = refl

Steps-IsLinkedFrom_example :
    (s10.held two ≡ true)
    ⊎ IsLinkedFrom (s10.machine.headers) (bucket fh s10).remote_list two
    ⊎ IsLinkedFrom (s10.machine.headers) (bucket fh s10).free_list two
Steps-IsLinkedFrom_example =
    Steps-IsLinkedFrom fh (first_site fh s0 refl refl (λ t. refl) refl refl) two s0-IsPlaced fetched
      s10-calm s10-away two-known

failures-successes_example : failures fh 1 pushed ≤ successes fh pushed
failures-successes_example =
    failures-successes fh 1 (first_site fh s0 refl refl (λ t. refl) refl refl) pushed s0-IsPlaced
      refl
