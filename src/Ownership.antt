-- ===== src/Ownership.antt =====
-- ownership.cc: the arguments of the program, workers that allocate batches of blocks, exchange them
-- and free what they get, and the clean-up of the main program. Each access to what the workers share is one step; the steps
-- interleave as the scheduler wants, and the main program sets `stop` at any time.
pub mod Arguments
pub mod Placed
pub mod Exchange
pub mod Steps
pub mod Clean
use llheap.Prelude.{
  List, [], ◌∷◌, ◌||◌, ◌^◌, ℕ, zero, suc, ◌+◌, ◌≡◌, ◌<◌, Bool, true, false, Option, none, some, leb,
  ltb, ◌==◌, if◌then◌else◌, update,
}
use llheap.Word.{add64, sub64}

-- An argument of the program: the text `d`, or what `atoi` makes of it, as a 64-bit pattern.
pub data Argument : Type 0 where
  default : Argument
  number : ℕ → Argument

-- `Duration`, `Threads` and `Batch`.
pub record Settings : Type 0 where
  pub duration : ℕ
  pub threads : ℕ
  pub batch : ℕ

-- `Dduration`, `Dthreads` and `Dbatch`
abbrev pub defaults : Settings
defaults = record { duration = 30; threads = 8; batch = 100 }

-- `MaxThread`
abbrev pub max_thread : ℕ
max_thread = 256

-- `MaxBatch`
abbrev pub max_batch : ℕ
max_batch = 500

-- A number is refused when it is below 1 as a `ssize_t`.
abbrev pub below_one : ℕ → Bool
below_one w = leb (2 ^ 63) w || (w == 0)

unfoldable pub set_batch : Argument → Settings → Option Settings
set_batch default c = some c
set_batch (number w) c =
    if below_one w || ltb max_batch w then none else some (record c { batch = w })

unfoldable pub set_threads : Argument → Settings → Option Settings
set_threads default c = some c
set_threads (number w) c =
    if below_one w || ltb max_thread w then none else some (record c { threads = w })

unfoldable pub set_duration : Argument → Settings → Option Settings
set_duration default c = some c
set_duration (number w) c = if below_one w then none else some (record c { duration = w })

abbrev pub next_argument : Option Settings → (Settings → Option Settings) → Option Settings
next_argument none f = none
next_argument (some c) f = f c

-- The switch on `argc` in `main`, from the last argument to the first; none is the usage message.
unfoldable pub arguments : List Argument → Option Settings
arguments [] = some defaults
arguments (d ∷ []) = set_duration d defaults
arguments (d ∷ t ∷ []) = next_argument (set_threads t defaults) (set_duration d)
arguments (d ∷ t ∷ b ∷ []) =
    next_argument (next_argument (set_batch b defaults) (set_threads t)) (set_duration d)
arguments (d ∷ t ∷ b ∷ e ∷ rest) = none

-- `cycleUp`
unfoldable pub cycle_up : (v n : ℕ) → ℕ
cycle_up v n = if leb (sub64 n 1) v then 0 else add64 v 1

-- Where a worker is, with what its variable `batch.col` points to. Batch `b` is `batches[b]`.
pub data Phase : Type 0 where
  -- at the test of the outer loop
  testing : (batch : ℕ) → Phase
  -- the allocations, `left` of them to do
  filling : (batch left : ℕ) → Phase
  -- at the test of the exchange loop
  swapping : (obatch : ℕ) (batch : Option ℕ) → Phase
  -- the deallocations, from place `i`
  freeing : (batch i : ℕ) → Phase
  done : Phase

pub record Worker : Type 0 where
  pub phase : Phase
  pub a : ℕ
  pub cnt : ℕ

-- What the workers share: the slots `allocations`, the flag `stop`, and of each place of each batch
-- whether the block there is allocated.
pub record Globals : Type 0 where
  pub slots : ℕ → Option ℕ
  pub stop : Bool
  pub live : ℕ → ℕ → Bool

-- The block at place `i` of batch `b` is allocated or freed.
abbrev pub set_live : (b i : ℕ) → Bool → (ℕ → ℕ → Bool) → ℕ → ℕ → Bool
set_live b i on live = update live b (update (live b) i on)

-- After the exchange loop.
abbrev pub leave : Option ℕ → Phase
leave none = done
leave (some b) = freeing b 0

-- What the exchange loop goes on with: the worker's own batch, or none.
abbrev pub goes_on : (obatch : ℕ) → Option ℕ → Bool
goes_on obatch none = true
goes_on obatch (some b) = b == obatch

-- `malloc` is taken to succeed, as the code does not ask, and the bytes of a block to stay as written.
-- `worker`, one step of it, for `threads` workers and batches of `size` blocks.
unfoldable pub work : (threads size : ℕ) → Phase → (a cnt : ℕ) → Globals → Worker × Globals
work threads size (testing b) a cnt s =
    (record { phase = if s.stop then done else filling b size; a = a; cnt = cnt }, s)
work threads size (filling b zero) a cnt s =
    (record { phase = swapping b (some b); a = a; cnt = cnt }, s)
work threads size (filling b (suc i)) a cnt s = (
  record { phase = filling b i; a = a; cnt = cnt },
  record s { live = set_live b i true (s.live) },
)
work threads size (swapping obatch batch) a cnt s =
    if s.stop
    then (record { phase = leave batch; a = a; cnt = cnt }, s)
    else (let got = s.slots a in
        (
          (if goes_on obatch got
              then record { phase = swapping obatch got; a = cycle_up a threads; cnt = cnt }
              else record { phase = leave got; a = a; cnt = cnt }),
          record s { slots = update (s.slots) a batch },
        ))
work threads size (freeing b i) a cnt s =
    if ltb i size
    then (
      record { phase = freeing b (i + 1); a = a; cnt = cnt },
      record s { live = set_live b i false (s.live) },
    )
    else (record { phase = testing b; a = cycle_up a threads; cnt = add64 cnt size }, s)
work threads size done a cnt s = (record { phase = done; a = a; cnt = cnt }, s)

pub record System : Type 0 where
  pub workers : ℕ → Worker
  pub shared : Globals

-- The workers before their first step.
abbrev pub launched : System
launched = record {
  workers = λ id. record { phase = testing id; a = 0; cnt = 0 };
  shared = record { slots = λ a. none; stop = false; live = λ b i. false };
}

-- Worker `w` makes a step, or the main program sets `stop`.
abbrev pub run_worker : (threads size w : ℕ) → System → System
run_worker threads size w s =
    let me = s.workers w in
    let (next, shared) = work threads size (me.phase) (me.a) (me.cnt) (s.shared) in
    record { workers = update (s.workers) w next; shared = shared }

abbrev pub halt : System → System
halt s = record s { shared = record (s.shared) { stop = true } }

pub data Reach (threads size : ℕ) : System → Type 0 where
  start : Reach threads size launched
  runs :
      {s : System} (w : ℕ)
      → w < threads
      → Reach threads size s
      → Reach threads size (run_worker threads size w s)
  halts : {s : System} → Reach threads size s → Reach threads size (halt s)

-- The clean-up of the main program: one batch, one slot, and all slots, from the first on.
unfoldable pub free_batch : (b size : ℕ) → (ℕ → ℕ → Bool) → ℕ → ℕ → Bool
free_batch b zero live = live
free_batch b (suc j) live = set_live b j false (free_batch b j live)

abbrev pub free_slot : Option ℕ → (size : ℕ) → (ℕ → ℕ → Bool) → ℕ → ℕ → Bool
free_slot none size live = live
free_slot (some b) size live = free_batch b size live

unfoldable pub clean_up : (threads size : ℕ) (slots : ℕ → Option ℕ) → (ℕ → ℕ → Bool) → ℕ → ℕ → Bool
clean_up zero size slots live = live
clean_up (suc i) size slots live = free_slot (slots i) size (clean_up i size slots live)
