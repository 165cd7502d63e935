-- ===== src/Safety/Resized.antt =====
-- `realloc` of a block in use, in the release build: what it promises.
use llheap.Prelude.{ℕ, ◌+◌, ◌≤◌, ◌<◌, ◌≡◌, ◌≢◌, ◌⊎◌, ◌↔◌, ◌∙◌, inl, inr, false, min, arith}
use llheap.Bucket.{sizeof_storage, bucket_size}
use llheap.Header.{zero_fill_bit, header_addr}
use llheap.Machine.{Env, Machine}
use llheap.Arena.{Layout}
use llheap.Safety.State.{IsReady, IsLive}
use llheap.Safety.Clear.{HasClear}
use llheap.Safety.Alike.{Alike, Alike-IsReady, Alike-HasClear}

-- The block at `a`, whose data area starts at `a + sizeof_storage`, has become an area of `size`
-- bytes at `addr`, in the same block or in another one: the bytes that both have are those from
-- before, no byte outside the area has changed, and all other blocks are in use exactly as before.
pub record Carried (env : Env) (m : Machine) (l : Layout) (a size addr : ℕ) (n : Machine)
    : Type 0 where
  pub block : ℕ
  pub bucket : ℕ
  pub layout : Layout
  pub ready : IsReady n layout
  pub address : addr ≡ block + sizeof_storage
  pub now_live : IsLive layout block bucket
  pub room : size + sizeof_storage ≤ bucket_size bucket
  pub recorded : (n.headers block).word1 ≡ size
  pub kept :
      (i : ℕ)
      → i < min (m.headers a).word1 size
      → n.bytes (addr + i) ≡ m.bytes (a + sizeof_storage + i)
  pub untouched : (x : ℕ) → (x < addr) ⊎ (addr + size ≤ x) → n.bytes x ≡ m.bytes x
  pub moved : block ≢ a → (d : ℕ) → ¬ (IsLive layout a d) × ¬ (IsLive l block d)
  pub others : (c d : ℕ) → c ≢ a → c ≢ block → IsLive l c d ↔ IsLive layout c d
  pub sizes : (c : ℕ) → c ≢ a → c ≢ block → (n.headers c).word1 ≡ (m.headers c).word1
  pub clear : HasClear env m l → HasClear env n layout
  pub unlocked : m.master.ext_lock ≡ false → n.master.ext_lock ≡ false

-- All of this, and the zero fill: the block is marked zero filled exactly when the old one was, and
-- then the bytes from the old size up to the new one are zero.
pub record Resized (env : Env) (m : Machine) (l : Layout) (a size addr : ℕ) (n : Machine)
    : Type 0 where
  pub carried : Carried env m l a size addr n
  pub zeroed :
      zero_fill_bit (m.headers a) ≢ 0
      → (i : ℕ) → (m.headers a).word1 ≤ i
      → i < size
      → n.bytes (addr + i) ≡ 0
  pub marked : zero_fill_bit (n.headers (header_addr addr)) ≡ zero_fill_bit (m.headers a)

-- From `n` to `k` no more has changed than counters, zero-fill marks, and the bytes from `from` up to
-- `to`.
pub record Adjusts (l : Layout) (from to : ℕ) (n k : Machine) : Type 0 where
  pub alike : Alike l n k
  pub sizes : (c : ℕ) → (k.headers c).word1 ≡ (n.headers c).word1
  pub outside : (x : ℕ) → (x < from) ⊎ (to ≤ x) → k.bytes x ≡ n.bytes x

-- Such a change of the bytes that the new size adds keeps what was carried over.
pub Carried-Adjusts :
    (env : Env) (m : Machine) (l : Layout) (a size addr : ℕ) (n k : Machine)
    (z : Carried env m l a size addr n)
    → Adjusts (z.layout) (addr + (m.headers a).word1) (addr + size) n k
    → Carried env m l a size addr k
Carried-Adjusts env m l a size addr n k z r = record {
  block = z.block;
  bucket = z.bucket;
  layout = z.layout;
  ready = Alike-IsReady n k (z.layout) (r.alike) (z.ready);
  address = z.address;
  now_live = z.now_live;
  room = z.room;
  recorded = r.sizes (z.block) ∙ z.recorded;
  kept = λ i h. r.outside (addr + i) (inl (omega arith)) ∙ z.kept i h;
  untouched = λ x out.
      r.outside x (elim out [ inl before ↦ inl (omega arith) | inr after ↦ inr after ])
      ∙ z.untouched x out;
  moved = z.moved;
  others = z.others;
  sizes = λ c na nb. r.sizes c ∙ z.sizes c na nb;
  clear = λ far. Alike-HasClear n k (z.layout) (r.alike) env (z.clear far);
  unlocked = λ free. rw (r.alike.master) (z.unlocked free);
}
