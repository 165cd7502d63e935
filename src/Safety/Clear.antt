-- ===== src/Safety/Clear.antt =====
-- What the allocator relies on when the system maps memory, and what it then keeps: later mappings
-- lie apart from all that a heap has.
use llheap.Prelude.{
  ℕ, ◌+◌, ◌-◌, ◌≤◌, ◌<◌, ◌≡◌, ◌⊎◌, inl, inr, some, arith, ℕ_discrete, update, update_self,
  update_ne, sym, ◌∙◌,
}
use llheap.Bucket.{bucket_size}
use llheap.Machine.{Env, mapped, Machine}
use llheap.Arena.{Layout, Apart, user_space}

-- A system that answers with memory of the process's address space, and never twice with the same
-- byte, as `mmap` without `MAP_FIXED` does as long as nothing is unmapped.
pub record IsHonest (env : Env) : Type 0 where
  pub place :
      (k hint length a : ℕ)
      → env.mmap k hint length ≡ mapped a
      → (0 < a) × (a + length < user_space)
  pub apart :
      (j k hint length hint' length' a a' : ℕ)
      → j < k
      → env.mmap j hint length ≡ mapped a
      → env.mmap k hint' length' ≡ mapped a'
      → Apart a length a' length'

-- Mappings from call number `calls` on lie apart from the blocks of the layout and from the buffer.
pub record IsClear (env : Env) (calls : ℕ) (l : Layout) (start room : ℕ) : Type 0 where
  pub blocks :
      (k hint length p a b : ℕ)
      → calls ≤ k
      → env.mmap k hint length ≡ mapped p
      → l.blocks a ≡ some b
      → Apart a (bucket_size b) p length
  pub buffer :
      (k hint length p : ℕ)
      → calls ≤ k
      → env.mmap k hint length ≡ mapped p
      → Apart start room p length

-- So it is for the running thread's heap.
abbrev pub HasClear : Env → Machine → Layout → Type 0
HasClear env m l =
    IsClear env (m.os_calls) l ((m.heaps (m.heap_manager)).buf_start)
      ((m.heaps (m.heap_manager)).buf_remaining)

module _ (env : Env) (calls : ℕ) (l l' : Layout) (start room a b : ℕ)
    (clear : IsClear env calls l start room) (fits : bucket_size b ≤ room) where
  -- A block that comes from the front of the buffer is as clear as the buffer was.
  pub cut-IsClear :
      ((c d : ℕ) → l'.blocks c ≡ some d → (l.blocks c ≡ some d) ⊎ ((c ≡ start) × (d ≡ b)))
      → IsClear env calls l' (start + bucket_size b) (room - bucket_size b)
  cut-IsClear from = record {
    blocks = λ k hint length p c d h q at. elim (from c d at) [
      | inl old ↦ clear.blocks k hint length p c d h q old
      | inr (here, same) ↦
          rw (here, same)
            (elim (clear.buffer k hint length p h q) [
              | inl before ↦ inl (omega (arith, fits))
              | inr after ↦ inr after
            ])
    ];
    buffer = λ k hint length p h q. elim (clear.buffer k hint length p h q) [
      | inl before ↦ inl (omega (arith, fits))
      | inr after ↦ inr (omega arith)
    ];
  }

-- The blocks of a layout with one more.
pub update-blocks :
    (l : Layout) (start b c d : ℕ)
    → update (l.blocks) start (some b) c ≡ some d
    → (l.blocks c ≡ some d) ⊎ ((c ≡ start) × (d ≡ b))
update-blocks l start b c d at = elim (ℕ_discrete c start) [
  | yes e ↦
      let at' : some b ≡ some d = sym (update_self (l.blocks) start (some b)) ∙ (rw e at at) in
      inr (e, cc)
  | no ne ↦ inl (sym (update_ne (l.blocks) start (some b) c ne) ∙ at)
]
