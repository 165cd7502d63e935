-- ===== src/Remote/Alone.antt =====
-- A bucket that is new, as the steps on it find it.
use llheap.Prelude.{ℕ, ◌≡◌, refl, ◌↔◌, false, [], if◌then◌else◌, Bool-cases, inl, inr}
use llheap.Machine.{null}
use llheap.Remote.{Shared, idle, away, bucket}
use llheap.Remote.Placed.{Site, outside, in_use, IsPlaced}

-- In a new bucket, of whose blocks the program has those that `held` tells, each block is where it is
-- said to be.
module _ (fh : ℕ) (s : Shared) (no_remote : (bucket fh s).remote_list ≡ null)
    (no_free : (bucket fh s).free_list ≡ null) (calm : (t : ℕ) → s.pushers t ≡ idle)
    (at : s.owner ≡ away) (real : s.held null ≡ false) where
  abbrev pub first_site : ℕ → Site
  first_site a = if s.held a then in_use else outside

  nowhere : (a : ℕ) (T : Site) → ¬ (in_use ≡ T) → ¬ (outside ≡ T) → ⊥ ↔ (first_site a ≡ T)
  nowhere a T used out = (
    λ x. absurd x,
    λ e. elim (Bool-cases (s.held a)) [ inl on ↦ used (rw on at e) | inr off ↦ out (rw off at e) ],
  )

  pub new-IsPlaced : IsPlaced fh s first_site
  new-IsPlaced = record {
    remote_blocks = [];
    taken_blocks = [];
    free_blocks = [];
    remote = no_remote;
    local = no_free;
    owned = rw at refl;
    remote_once = tt;
    taken_once = tt;
    free_once = tt;
    at_remote = λ a. nowhere a _ (λ e. cc) (λ e. cc);
    at_taken = λ a. nowhere a _ (λ e. cc) (λ e. cc);
    at_free = λ a. nowhere a _ (λ e. cc) (λ e. cc);
    at_pusher = λ t a. rw (calm t) (nowhere a _ (λ e. cc) (λ e. cc));
    at_program = λ a. (
      λ on. rw on refl,
      λ e. elim (Bool-cases (s.held a)) [
        | inl on ↦ on
        | inr off ↦ absurd (let q : outside ≡ in_use = rw off at e in cc)
      ],
    );
    real = rw real refl;
  }
