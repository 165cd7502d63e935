-- ===== src/Arena/Blocks.antt =====
-- The blocks of a heap and what is true of them at all times.
use llheap.Prelude.{ℕ, ◌+◌, ◌≤◌, ◌<◌, ◌≡◌, ◌≢◌, ◌⊎◌, Bool, true, false, Option, some, List, ◌++◌}
use llheap.Bucket.{no_bucket_sizes, bucket_size}
use llheap.Header.{Header}
use llheap.Machine.{FreeHeader, free_header_addr}
use llheap.Arena.Linked.{In, IsDistinct, Chain}

-- Addresses of a process lie below this bound.
abbrev pub user_space : ℕ
user_space = 0x8000_0000_0000_0000

-- Two stretches of memory share no byte.
abbrev pub Apart : (a n b k : ℕ) → Type 0
Apart a n b k = (a + n ≤ b) ⊎ (b + k ≤ a)

-- The abstract view of a heap. `blocks a` is the bucket of the block at address `a`, `live` says
-- which blocks are in use, and the lists are those of each bucket.
pub record Layout : Type 0 where
  pub blocks : ℕ → Option ℕ
  pub live : ℕ → Bool
  pub free : ℕ → List ℕ
  pub remote : ℕ → List ℕ

-- The first word of the header of a block in use, whose bucket header is at `fh`: its address, with
-- the zero-fill bit set or not.
abbrev pub IsHome : (fh word0 : ℕ) → Type 0
IsHome fh word0 = (word0 ≡ fh) ⊎ (word0 ≡ fh + 2)

-- The heap at address `heap`, whose buffer is the `room` bytes from `start`, is as the layout says:
-- its bucket headers are in order, blocks lie apart from one another and from the buffer, each list
-- holds blocks of its bucket that are not in use, each once, and the header of a block in use leads
-- to its bucket.
pub record IsLaidOut (heap start room : ℕ) (fh : ℕ → FreeHeader) (hd : ℕ → Header) (l : Layout)
    : Type 0 where
  pub sizes :
      (b : ℕ) → b < no_bucket_sizes → (fh (free_header_addr heap b)).block_size ≡ bucket_size b
  pub homes : (b : ℕ) → b < no_bucket_sizes → (fh (free_header_addr heap b)).home_manager ≡ heap
  pub known :
      (a b : ℕ)
      → l.blocks a ≡ some b
      → (b < no_bucket_sizes) × (0 < a) × (a + bucket_size b < user_space)
  pub space : start + room < user_space
  pub apart :
      (a b c d : ℕ)
      → l.blocks a ≡ some b
      → l.blocks c ≡ some d
      → a ≢ c
      → Apart a (bucket_size b) c (bucket_size d)
  pub outside : (a b : ℕ) → l.blocks a ≡ some b → Apart a (bucket_size b) start room
  pub freed :
      (b : ℕ) → b < no_bucket_sizes → Chain hd (fh (free_header_addr heap b)).free_list (l.free b)
  pub returned :
      (b : ℕ)
      → b < no_bucket_sizes
      → Chain hd (fh (free_header_addr heap b)).remote_list (l.remote b)
  pub idle :
      (a b : ℕ)
      → b < no_bucket_sizes
      → In a (l.free b ++ l.remote b)
      → (l.blocks a ≡ some b) × (l.live a ≡ false)
  pub distinct : (b : ℕ) → b < no_bucket_sizes → IsDistinct (l.free b ++ l.remote b)
  pub used :
      (a b : ℕ)
      → l.blocks a ≡ some b
      → l.live a ≡ true
      → IsHome (free_header_addr heap b) (hd a).word0
