-- ===== src/Safety/Held.antt =====
-- Allocations that a thread holds: each in a block in use, and apart from one another.
use llheap.Prelude.{
  Drop, first, later, ℕ, ◌+◌, ◌≤◌, ◌<◌, ◌≡◌, ◌≢◌, refl, sym, ◌∙◌, inl, inr, List, [], ◌∷◌, arith,
}
use llheap.Bucket.{sizeof_storage, bucket_size}
use llheap.Machine.{Machine}
use llheap.Arena.{Layout, Apart}
use llheap.Safety.State.{IsReady, IsLive}

-- An allocation: its address, the size that was asked for, and what its bytes should be, by their
-- place in it.
pub record Held : Type 0 where
  pub addr : ℕ
  pub size : ℕ
  pub contents : ℕ → ℕ

-- The bytes of an allocation are what they should be.
abbrev pub Reads : Machine → Held → Type 0
Reads m x = (i : ℕ) → i < x.size → m.bytes (x.addr + i) ≡ x.contents i

-- An allocation is a block in use, with its size in the header and room for it after the header.
pub record IsBacked (m : Machine) (l : Layout) (x : Held) : Type 0 where
  pub block : ℕ
  pub bucket : ℕ
  pub address : x.addr ≡ block + sizeof_storage
  pub used : IsLive l block bucket
  pub room : x.size + sizeof_storage ≤ bucket_size bucket
  pub recorded : (m.headers block).word1 ≡ x.size
  pub stored : Reads m x

-- It stays so, when its block stays in use, and its size and its bytes do not change.
pub kept-IsBacked :
    (m n : Machine) (l l' : Layout) (x : Held) (p : IsBacked m l x)
    → IsLive l' (p.block) (p.bucket)
    → (n.headers (p.block)).word1 ≡ (m.headers (p.block)).word1
    → ((i : ℕ) → i < x.size → n.bytes (x.addr + i) ≡ m.bytes (x.addr + i))
    → IsBacked n l' x
kept-IsBacked m n l l' x p used same bytes = record {
  block = p.block;
  bucket = p.bucket;
  address = p.address;
  used = used;
  room = p.room;
  recorded = same ∙ p.recorded;
  stored = λ i h. bytes i h ∙ p.stored i h;
}

abbrev pub All : (Held → Type 0) → List Held → Type 0
All P [] = Unit {0}
All P (x ∷ xs) = P x × All P xs

-- No two of the allocations share a byte.
abbrev pub AllApart : List Held → Type 0
AllApart [] = Unit {0}
AllApart (x ∷ xs) = All (λ y. Apart (x.addr) (x.size) (y.addr) (y.size)) xs × AllApart xs

abbrev pub AllNew : List Held → Type 0
AllNew [] = Unit {0}
AllNew (x ∷ xs) = All (λ y. x.addr ≢ y.addr) xs × AllNew xs

pub All-map :
    {P Q : Held → Type 0} (xs : List Held) → ((x : Held) → P x → Q x) → All P xs → All Q xs
All-map [] f all = tt
All-map (x ∷ xs) f (p, all) = (f x p, All-map xs f all)

pub All-both :
    (P Q : Held → Type 0) (xs : List Held) → All P xs → All Q xs → All (λ x. P x × Q x) xs
All-both P Q [] p q = tt
All-both P Q (x ∷ xs) (p, ps) (q, qs) = ((p, q), All-both P Q xs ps qs)

pub Drop-All :
    (P : Held → Type 0) {x : Held} {xs ys : List Held} → Drop x xs ys → All P xs → P x × All P ys
Drop-All P (first xs) all = all
Drop-All P (later y d) (p, all) = let (px, rest) = Drop-All P d all in (px, (p, rest))

-- The others stay apart, and differ from the one taken out.
pub Drop-AllNew :
    {x : Held} {xs ys : List Held}
    → Drop x xs ys
    → AllNew xs
    → All (λ y. x.addr ≢ y.addr) ys × AllNew ys
Drop-AllNew (first xs) all = all
Drop-AllNew {x} (later y d) (p, all) =
    let (here, rest) = Drop-All _ d p in
    let (apart, news) = Drop-AllNew d all in ((λ e. here (sym e), apart), (rest, news))

-- Blocks in use lie apart, and so do the areas in them.
pub areas-Apart :
    (m : Machine) (l : Layout) (a b x n c d y k : ℕ)
    → IsReady m l
    → IsLive l a b
    → IsLive l c d
    → a ≢ c
    → x ≡ a + sizeof_storage
    → y ≡ c + sizeof_storage
    → n + sizeof_storage ≤ bucket_size b
    → k + sizeof_storage ≤ bucket_size d
    → Apart x n y k
areas-Apart m l a b x n c d y k ready on on' ne at at' room room' =
    elim (ready.laid.apart a b c d (on.0) (on'.0) ne) [
      | inl before ↦ inl (omega arith)
      | inr after ↦ inr (omega arith)
    ]

pub blocks_differ :
    (m : Machine) (l : Layout) (x y : Held) (p : IsBacked m l x) (q : IsBacked m l y)
    → x.addr ≢ y.addr
    → p.block ≢ q.block
blocks_differ m l x y p q ne e = ne (p.address ∙ rw e refl ∙ sym (q.address))

pub IsBacked-Apart :
    (m : Machine) (l : Layout) (x y : Held)
    → IsReady m l
    → IsBacked m l x
    → IsBacked m l y
    → x.addr ≢ y.addr
    → Apart (x.addr) (x.size) (y.addr) (y.size)
IsBacked-Apart m l x y ready p q ne =
    areas-Apart m l (p.block) (p.bucket) (x.addr) (x.size) (q.block) (q.bucket) (y.addr) (y.size)
      ready (p.used) (q.used) (blocks_differ m l x y p q ne) (p.address) (q.address) (p.room)
      (q.room)
