-- ===== src/Aligned/Placed.antt =====
-- An aligned allocation: where it lies, and what is found from its address.
use native.Mathlib.Nat.{one-le-pow, mul_assoc}
use llheap.Prelude.{
  ℕ, ◌+◌, ◌-◌, ◌*◌, ◌^◌, ◌%◌, ◌≤◌, ◌<◌, ◌≡◌, ◌≢◌, refl, sym, ◌∙◌, ap, inl, inr, Bool-cases, arith,
  update_self, update, update_ne,
}
use llheap.Prelude.Bits.{two_pow_add}
use llheap.Word.{word, ceiling, sub64, add64, ceiling_multiple}
use llheap.Bucket.{sizeof_storage}
use llheap.Header.{Header, header_addr, mark_alignment_bit}
use llheap.Header.Sticky.{mark_alignment_bit_lem}
use llheap.Machine.{Env, Machine}
use llheap.Machine.Outcome.{Returns}
use llheap.Free.{fake_header}
use llheap.Aligned.{place_fake}

-- The headers as `place_fake` leaves them: the real one at `real`, the fake one at `fake`.
abbrev pub placed : (ℕ → Header) → (real fake alignment size : ℕ) → ℕ → Header
placed hd real fake alignment size =
    let h1 = update hd real (record (hd real) { word1 = size }) in
    let h2 = update h1 fake (record (h1 fake) { word1 = sub64 fake real }) in
    update h2 fake (record (h2 fake) { word0 = mark_alignment_bit alignment })

-- What holds of an aligned address `user` inside the block at the plain address `addr`.
pub record IsPlaced (n : Machine) (addr alignment size user : ℕ) : Type 0 where
  pub multiple : (q : ℕ) × (user ≡ q * alignment)
  pub after : addr + sizeof_storage ≤ user
  pub inside : user + size ≤ addr + size + alignment
  pub found :
      fake_header n (header_addr user) ≡ record { header = header_addr addr; alignment = alignment }
  pub recorded : (n.headers (header_addr addr)).word1 ≡ size

module _ (k addr size : ℕ) (wide : 4 < k) (narrow : k < 64) (whole : addr % 16 ≡ 0)
    (low : 16 ≤ addr) (space : addr + size + 2 ^ k + sizeof_storage ≤ word) where
  abbrev pub user : ℕ
  user = ceiling (add64 addr sizeof_storage) (2 ^ k)

  one : 1 ≤ 2 ^ k
  one = one-le-pow k 2 (omega arith)

  plain : add64 addr sizeof_storage ≡ addr + sizeof_storage
  plain = omega (arith, one)

  at :
      (q : ℕ) × (user ≡ q * 2 ^ k)
      × (addr + sizeof_storage ≤ user)
      × (user < addr + sizeof_storage + 2 ^ k)
  at = rw plain (ceiling_multiple k (addr + sizeof_storage) narrow (omega arith))

  sixteens : 2 ^ k ≡ 2 ^ (k - 4) * 16
  sixteens = ap (λ t. 2 ^ t) (omega arith) ∙ two_pow_add 4 (k - 4)

  sixteen : (r : ℕ) × (user ≡ r * 16)
  sixteen =
      let (q, e, _, _) = at in
      (q * 2 ^ (k - 4), e ∙ ap (λ t. q * t) sixteens ∙ sym (mul_assoc q (2 ^ (k - 4)) 16))

  within : user ≤ addr + 2 ^ k
  within = let (q, e, lo, hi) = at in let (r, f) = sixteen in omega (arith, f, hi, sixteens)

  abbrev pub real : ℕ
  real = header_addr addr

  abbrev pub fake : ℕ
  fake = header_addr user

  pub apart : fake ≢ real
  apart = let (_, _, lo, _) = at in omega (arith, lo, within, one)

  pub back : sub64 fake (sub64 fake real) ≡ real
  back = let (_, _, lo, _) = at in omega (arith, lo, within, one)

  -- Both headers of an aligned block are found from its address, in any machine that has them.
  pub found :
      (n : Machine) (hd : ℕ → Header)
      → n.headers ≡ placed hd real fake (2 ^ k) size
      → IsPlaced n addr (2 ^ k) size user
  unfolding fake_header
  found n hd e =
      let (q, m, lo, hi) = at in
      let (set, _, clear) =
        mark_alignment_bit_lem (2 ^ k) (sub64 fake real) (omega (arith, one))
          (omega (arith, sixteens)) in
      record {
        multiple = (q, m);
        after = lo;
        inside = omega (arith, within);
        found = rw (e, update_self _ fake _, update_self _ fake _, set, clear, back) refl;
        recorded =
            rw
              (
                e,
                update_ne _ fake _ real (λ x. apart (sym x)),
                update_ne _ fake _ real (λ x. apart (sym x)),
                update_self _ real _,
              )
              refl;
      }

  -- For an alignment 2 ^ k with k from 5 to 63 and a plain allocation whose address is a positive
  -- multiple of 16, all below 2 ^ 64: what `memalignNoStats` answers is a multiple of the alignment,
  -- leaves 16 bytes for the fake header after the plain address, and ends within the size that was
  -- asked of `doMalloc`. From this address `fakeHeader` finds the real header, which has the
  -- request's size, and the alignment. This holds in both builds.
  pub place_fake-IsPlaced :
      (env : Env) (m : Machine) (offset : ℕ)
      → Returns
          (λ user n. IsPlaced n addr (2 ^ k) size user)
          (place_fake env (2 ^ k) size offset addr m)
  unfolding place_fake
  place_fake-IsPlaced env m offset = elim (Bool-cases (env.debug)) [
    | inl debug ↦ rw debug (found _ (m.headers) refl)
    | inr release ↦ rw release (found _ (m.headers) refl)
  ]
