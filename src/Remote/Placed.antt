-- ===== src/Remote/Placed.antt =====
-- Where each block of the bucket is, at every moment.
use llheap.Prelude.{
  ℕ, ◌≡◌, ◌≢◌, ◌↔◌, sym, ◌∙◌, ap, true, List, [], ℕ_discrete, update, update_self, update_ne,
}
use llheap.Header.{Header}
use llheap.Machine.{null}
use llheap.Arena.{In, IsDistinct, Chain, Chain-frame}
use llheap.Remote.{
  Pusher, idle, linking, swapping, Owner, away, seen, fetched, Shared, bucket, set_next,
}

-- The place of a block: with the program, with a thread that frees it, on the remote list, in the
-- list that the owner fetched, on the free list; or it is no block of the bucket.
pub data Site : Type 0 where
  outside : Site
  in_use : Site
  freeing : ℕ → Site
  returned : Site
  taken : Site
  free : Site

abbrev pub Carries : Pusher → ℕ → Type 0
Carries idle a = ⊥
Carries (linking b) a = a ≡ b
Carries (swapping b) a = a ≡ b

-- The fetched list is linked from the block that the owner has, who fetches only when its free list
-- is empty and after it saw that there is something to fetch.
abbrev pub Fetched : Owner → (ℕ → Header) → (top : ℕ) (k f : List ℕ) → Type 0
Fetched away hd top k f = k ≡ []
Fetched seen hd top k f = (k ≡ []) × (f ≡ []) × (top ≢ null)
Fetched (fetched b) hd top k f = (b ≢ null) × (f ≡ []) × Chain hd b k

-- `site` says where each block is: each list of the bucket is linked through exactly the blocks that
-- are there, each once, and each thread has exactly the block that it frees.
pub record IsPlaced (fh : ℕ) (s : Shared) (site : ℕ → Site) : Type 0 where
  pub remote_blocks : List ℕ
  pub taken_blocks : List ℕ
  pub free_blocks : List ℕ
  pub remote : Chain (s.machine.headers) (bucket fh s).remote_list remote_blocks
  pub local : Chain (s.machine.headers) (bucket fh s).free_list free_blocks
  pub owned :
      Fetched (s.owner) (s.machine.headers) (bucket fh s).remote_list taken_blocks free_blocks
  pub remote_once : IsDistinct remote_blocks
  pub taken_once : IsDistinct taken_blocks
  pub free_once : IsDistinct free_blocks
  pub at_remote : (a : ℕ) → In a remote_blocks ↔ (site a ≡ returned)
  pub at_taken : (a : ℕ) → In a taken_blocks ↔ (site a ≡ taken)
  pub at_free : (a : ℕ) → In a free_blocks ↔ (site a ≡ free)
  pub at_pusher : (t a : ℕ) → Carries (s.pushers t) a ↔ (site a ≡ freeing t)
  pub at_program : (a : ℕ) → (s.held a ≡ true) ↔ (site a ≡ in_use)
  pub real : site null ≡ outside

-- A place after one block moved: to this place, or away from it.
module _ (site : ℕ → Site) (b : ℕ) (S : Site) (Q Q' : ℕ → Type 0)
    (old : (a : ℕ) → Q a ↔ (site a ≡ S)) (same : (a : ℕ) → a ≢ b → Q' a ↔ Q a) where
  pub joins : Q' b → (a : ℕ) → Q' a ↔ (update site b S a ≡ S)
  joins here a = elim (ℕ_discrete a b) [
    | yes e ↦ (λ _. rw e (update_self site b S), λ _. rw e here)
    | no ne ↦
        rw (update_ne site b S a ne)
          (λ q. (old a).0 ((same a ne).0 q), λ q. (same a ne).1 ((old a).1 q))
  ]

  pub leaves : (T : Site) → T ≢ S → ¬ (Q' b) → (a : ℕ) → Q' a ↔ (update site b T a ≡ S)
  leaves T other gone a = elim (ℕ_discrete a b) [
    | yes e ↦ (
      λ q. absurd (gone (rw (← e) q)),
      λ q. absurd (other (sym (update_self site b T) ∙ (rw e at q))),
    )
    | no ne ↦
        rw (update_ne site b T a ne)
          (λ q. (old a).0 ((same a ne).0 q), λ q. (same a ne).1 ((old a).1 q))
  ]

-- A block that moves between two other places.
pub stays :
    (site : ℕ → Site) (b : ℕ) (S T : Site) (Q : ℕ → Type 0)
    → ((a : ℕ) → Q a ↔ (site a ≡ S))
    → T ≢ S
    → site b ≢ S
    → (a : ℕ) → Q a ↔ (update site b T a ≡ S)
stays site b S T Q old other was =
    leaves site b S Q Q old (λ a ne. (λ x. x, λ x. x)) T other (λ q. was ((old b).0 q))

-- Thread `t` changes what it does; block `b` moves, from or to it, or between two other places.
pub others_carry :
    (pushers : ℕ → Pusher) (site : ℕ → Site) (t b : ℕ) (p : Pusher) (T : Site)
    → ((u a : ℕ) → Carries (pushers u) a ↔ (site a ≡ freeing u))
    → ((u : ℕ) → u ≢ t → (site b ≢ freeing u) × (T ≢ freeing u))
    → ((a : ℕ) → Carries p a ↔ (update site b T a ≡ freeing t))
    → (u a : ℕ) → Carries (update pushers t p u) a ↔ (update site b T a ≡ freeing u)
others_carry pushers site t b p T old apart new u a = elim (ℕ_discrete u t) [
  | yes e ↦ rw (e, update_self pushers t p) (new a)
  | no ne ↦
      rw (update_ne pushers t p u ne) (
        stays site b (freeing u) T (Carries (pushers u)) (old u) ((apart u ne).1) ((apart u ne).0)
          a)
]

-- A write to the link of a block that stands on no list.
module _ (fh : ℕ) (s : Shared) (site : ℕ → Site) (inv : IsPlaced fh s site) (b next : ℕ) where
  abbrev hd' : ℕ → Header
  hd' = (set_next b next s).machine.headers

  kept_chain : (p : ℕ) (xs : List ℕ) → ¬ (In b xs) → Chain (s.machine.headers) p xs → Chain hd' p xs
  kept_chain p xs out c = Chain-frame (s.machine.headers) hd' p xs c (λ a i.
      ap (λ (h : Header). h.word0) (update_ne (s.machine.headers) b _ a (λ e. out (rw (← e) i))))

  kept_owned :
      (o : Owner) (top : ℕ) (k f : List ℕ)
      → ¬ (In b k)
      → Fetched o (s.machine.headers) top k f
      → Fetched o hd' top k f
  kept_owned away top k f out p = p
  kept_owned seen top k f out p = p
  kept_owned (fetched q) top k f out (ne, none, c) = (ne, none, kept_chain q k out c)

  module _ (off_remote : site b ≢ returned) (off_taken : site b ≢ taken)
      (off_free : site b ≢ free) where
    pub set_next-IsPlaced : IsPlaced fh (set_next b next s) site
    set_next-IsPlaced = record {
      remote_blocks = inv.remote_blocks;
      taken_blocks = inv.taken_blocks;
      free_blocks = inv.free_blocks;
      remote = kept_chain _ _ (λ i. off_remote ((inv.at_remote b).0 i)) (inv.remote);
      local = kept_chain _ _ (λ i. off_free ((inv.at_free b).0 i)) (inv.local);
      owned = kept_owned (s.owner) _ _ _ (λ i. off_taken ((inv.at_taken b).0 i)) (inv.owned);
      remote_once = inv.remote_once;
      taken_once = inv.taken_once;
      free_once = inv.free_once;
      at_remote = inv.at_remote;
      at_taken = inv.at_taken;
      at_free = inv.at_free;
      at_pusher = inv.at_pusher;
      at_program = inv.at_program;
      real = inv.real;
    }

-- No block of the bucket is at null.
pub placed_null :
    (site : ℕ → Site) (b : ℕ) (T : Site)
    → site null ≡ outside
    → site b ≢ outside
    → (b ≢ null) × (update site b T null ≡ outside)
placed_null site b T real known =
    let ne = λ (e : b ≡ null). known (rw e real) in
    (ne, update_ne site b T null (λ e. ne (sym e)) ∙ real)
