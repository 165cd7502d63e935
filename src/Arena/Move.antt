-- ===== src/Arena/Move.antt =====
-- A heap changes its buffer: what is left of the old one becomes a block of a free list.
use llheap.Prelude.{
  ℕ, ◌+◌, ◌-◌, ◌≤◌, ◌<◌, ◌≡◌, ◌≢◌, sym, ◌∙◌, refl, true, some, ◌∷◌, ap, update, update_self,
  update_ne,
}
use llheap.Bucket.{no_bucket_sizes, bucket_size}
use llheap.Header.{Header}
use llheap.Machine.{FreeHeader, free_header_addr}
use llheap.Arena.Blocks.{user_space, Apart, Layout, IsLaidOut}
use llheap.Arena.Take.{Touches}
use llheap.Arena.Give.{give, push_free-IsLaidOut}
use llheap.Arena.Cut.{cut, cut-IsLaidOut}

-- Any stretch that lies apart from all blocks can be the buffer.
pub refill-IsLaidOut :
    (heap start room start' room' : ℕ) (fh : ℕ → FreeHeader) (hd : ℕ → Header) (l : Layout)
    → IsLaidOut heap start room fh hd l
    → start' + room' < user_space
    → ((a b : ℕ) → l.blocks a ≡ some b → Apart a (bucket_size b) start' room')
    → IsLaidOut heap start' room' fh hd l
refill-IsLaidOut heap start room start' room' fh hd l inv space outside = record {
  sizes = inv.sizes;
  homes = inv.homes;
  known = inv.known;
  space = space;
  apart = inv.apart;
  outside = outside;
  freed = inv.freed;
  returned = inv.returned;
  idle = inv.idle;
  distinct = inv.distinct;
  used = inv.used;
}

-- The layout after the front of the buffer became a free block of bucket `c`.
abbrev pub retire : Layout → (start c : ℕ) → Layout
retire l start c = give (cut l start c) start c (start ∷ l.free c) (l.remote c)

module _ (heap start room : ℕ) (fh fh' : ℕ → FreeHeader) (hd hd' : ℕ → Header) (l : Layout) (c : ℕ)
    (inv : IsLaidOut heap start room fh hd l) (small : c < no_bucket_sizes) (place : 0 < start)
    (fits : bucket_size c ≤ room) where
  -- The headers as they would be if the block had come into use first.
  abbrev between : ℕ → Header
  between = update hd start (record (hd start) { word0 = free_header_addr heap c })

  between-word0 : (a : ℕ) → a ≢ start → (between a).word0 ≡ (hd a).word0
  between-word0 a ne = ap (λ (h : Header). h.word0) (update_ne hd start _ a ne)

  between_laid :
      IsLaidOut heap (start + bucket_size c) (room - bucket_size c) fh between (cut l start c)
  between_laid =
      cut-IsLaidOut heap start room fh fh hd between l c inv small place fits
        (record {
          block_sizes = λ a. refl;
          home_managers = λ a. refl;
          free_lists = λ a. refl;
          remote_lists = λ a. refl;
          links = between-word0;
        })
        (ap (λ (h : Header). h.word0) (update_self hd start _))

  pub retire-IsLaidOut :
      (touch : Touches (free_header_addr heap c) start fh fh' hd hd')
      → (fh' (free_header_addr heap c)).free_list ≡ start
      → (hd' start).word0 ≡ (fh (free_header_addr heap c)).free_list
      → (fh' (free_header_addr heap c)).remote_list ≡ (fh (free_header_addr heap c)).remote_list
      → IsLaidOut heap (start + bucket_size c) (room - bucket_size c) fh' hd' (retire l start c)
  retire-IsLaidOut touch top link same =
      push_free-IsLaidOut heap _ _ fh fh' between hd' (cut l start c) start c between_laid
        (update_self (l.blocks) start (some c)) (update_self (l.live) start true)
        (record {
          block_sizes = touch.block_sizes;
          home_managers = touch.home_managers;
          free_lists = touch.free_lists;
          remote_lists = touch.remote_lists;
          links = λ a ne. touch.links a ne ∙ sym (between-word0 a ne);
        })
        top link same
