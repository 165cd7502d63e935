-- ===== src/Remote.antt =====
-- llheap.cc: one bucket of a heap as its owner and the threads that free its blocks share it.
-- Every access to `remoteList` is a step of its own, and the steps of the threads interleave in
-- any order: a freeing thread reads the top of the list into the link of its block and swaps the top
-- with a compare-and-swap, which on failure reads the top again; the owner looks whether the list is
-- empty and fetches all of it at once.
pub mod Placed
mod Pushing
mod Sites
mod Owning
pub mod Refines
pub mod Progress
pub mod Alone
use llheap.Prelude.{ℕ, ◌≡◌, ◌≢◌, Bool, true, false, ◌==◌, if◌then◌else◌, update}
use llheap.Header.{Header}
use llheap.Machine.{null, FreeHeader, Machine}

-- A thread that frees blocks of the bucket, which is not its own: at rest, before `link new node to
-- top node`, or before the compare-and-swap.
pub data Pusher : Type 0 where
  idle : Pusher
  linking : ℕ → Pusher
  swapping : ℕ → Pusher

-- The owner: elsewhere in the program, after it saw that the remote list is not empty, or with the
-- list that it fetched.
pub data Owner : Type 0 where
  away : Owner
  seen : Owner
  fetched : ℕ → Owner

-- `held` is what the program was given and has not freed.
pub record Shared : Type 0 where
  pub machine : Machine
  pub pushers : ℕ → Pusher
  pub owner : Owner
  pub held : ℕ → Bool

abbrev pub bucket : ℕ → Shared → FreeHeader
bucket fh s = s.machine.free_headers fh

-- The link of the block at `b`.
abbrev pub set_next : (b next : ℕ) → Shared → Shared
set_next b next s = record s {
  machine = record (s.machine) {
    headers = update (s.machine.headers) b (record (s.machine.headers b) { word0 = next });
  };
}

abbrev pub set_remote : (fh top : ℕ) → Shared → Shared
set_remote fh top s = record s {
  machine = record (s.machine) {
    free_headers = update (s.machine.free_headers) fh (record (bucket fh s) { remote_list = top });
  };
}

abbrev pub set_free : (fh top : ℕ) → Shared → Shared
set_free fh top s = record s {
  machine = record (s.machine) {
    free_headers = update (s.machine.free_headers) fh (record (bucket fh s) { free_list = top });
  };
}

abbrev pub set_pusher : (t : ℕ) → Pusher → Shared → Shared
set_pusher t p s = record s { pushers = update (s.pushers) t p }

abbrev pub set_held : (b : ℕ) → Bool → Shared → Shared
set_held b on s = record s { held = update (s.held) b on }

-- `header->kind.real.next = freeHead->remoteList`
unfoldable pub link : (fh t b : ℕ) → Shared → Shared
link fh t b s = set_pusher t (swapping b) (set_next b (bucket fh s).remote_list s)

-- `Casv( freeHead->remoteList, header->kind.real.next, header )`
unfoldable pub swap : (fh t b : ℕ) → Shared → Shared
swap fh t b s =
    if (bucket fh s).remote_list == (s.machine.headers b).word0
    then set_pusher t idle (set_remote fh b s)
    else set_next b (bucket fh s).remote_list s

-- `if ( freeHead->remoteList )`
unfoldable pub look : (fh : ℕ) → Shared → Shared
look fh s = if (bucket fh s).remote_list == null then s else record s { owner = seen }

-- `block = Fas( freeHead->remoteList, nullptr )`
unfoldable pub fetch : (fh : ℕ) → Shared → Shared
fetch fh s = set_remote fh null (record s { owner = fetched (bucket fh s).remote_list })

-- `freeHead->freeList = block->header.kind.real.next`, and `block` is allocated.
unfoldable pub keep : (fh b : ℕ) → Shared → Shared
keep fh b s = set_held b true (set_free fh (s.machine.headers b).word0 (record s { owner = away }))

-- The owner allocates from its free list.
unfoldable pub pop : (fh : ℕ) → Shared → Shared
pop fh s =
    let b = (bucket fh s).free_list in set_held b true (set_free fh (s.machine.headers b).word0 s)

-- The owner frees a block.
unfoldable pub put : (fh b : ℕ) → Shared → Shared
put fh b s = set_held b false (set_free fh b (set_next b (bucket fh s).free_list s))

-- One step of one thread on the bucket at `fh`.
pub data Step (fh : ℕ) (s : Shared) : Shared → Type 0 where
  frees :
      (t b : ℕ)
      → s.pushers t ≡ idle
      → s.held b ≡ true
      → Step fh s (set_held b false (set_pusher t (linking b) s))
  links : (t b : ℕ) → s.pushers t ≡ linking b → Step fh s (link fh t b s)
  swaps : (t b : ℕ) → s.pushers t ≡ swapping b → Step fh s (swap fh t b s)
  looks : s.owner ≡ away → (bucket fh s).free_list ≡ null → Step fh s (look fh s)
  fetches : s.owner ≡ seen → Step fh s (fetch fh s)
  keeps : (b : ℕ) → s.owner ≡ fetched b → Step fh s (keep fh b s)
  pops : s.owner ≡ away → (bucket fh s).free_list ≢ null → Step fh s (pop fh s)
  puts : (b : ℕ) → s.owner ≡ away → s.held b ≡ true → Step fh s (put fh b s)

-- Any number of steps, of any threads in any order.
pub data Steps (fh : ℕ) (s : Shared) : Shared → Type 0 where
  start : Steps fh s s
  then_step : {u v : Shared} → Steps fh s u → Step fh u v → Steps fh s v
