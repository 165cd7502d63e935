-- ===== src/BoundedBuffer.antt =====
-- ownershipPT.cc: `BoundedBuffer`, the circular buffer between producers and consumers, as a monitor.
-- The bodies of `insert` and `remove` run under its mutex, so each round of their waiting loops, up
-- to the wait or to the end, is one step; these steps of any number of threads interleave.
pub mod Slots
pub mod Fifo
pub mod Wakes
use llheap.Prelude.{
  ℕ, ◌+◌, ◌-◌, ◌%◌, ◌^◌, ◌==◌, ◌≡◌, if◌then◌else◌, Option, none, some, List, [], ◌∷◌, ◌++◌, update,
  Drop,
}

-- The members of `BoundedBuffer` but for the mutex and the condition variables.
pub record Buffer (T : Type 0) : Type 0 where
  pub size : ℕ
  pub front : ℕ
  pub back : ℕ
  pub count : ℕ
  pub buffer : ℕ → T

-- `( i + 1 ) % size` on `unsigned int`.
abbrev pub next_slot : (i size : ℕ) → ℕ
next_slot i size = (i + 1) % 2 ^ 32 % size

-- The buffer with its threads: those about to test the loop of `insert` or of `remove`, and those
-- that wait at the condition variables `prod` and `cons`. A thread in `insert` is known by its
-- element. What was inserted and what was removed is kept, in order.
pub record Monitor (T : Type 0) : Type 0 where
  pub buffer : Buffer T
  pub inserting : List T
  pub prod : List T
  pub removing : ℕ
  pub cons : ℕ
  pub given : List T
  pub taken : List T

module _ {T : Type 0} where
  -- The constructor; the elements of the new array have any value.
  unfoldable pub bounded_buffer : (size : ℕ) (buffer : ℕ → T) → Buffer T
  bounded_buffer size buffer = record {
    size = size;
    front = 0;
    back = 0;
    count = 0;
    buffer = buffer;
  }

  -- One round of `insert`: none when the buffer is full and the thread has to wait.
  unfoldable pub insert : T → Buffer T → Option (Buffer T)
  insert elem b =
      if b.count == b.size
      then none
      else some (record b {
        buffer = update (b.buffer) (b.back) elem;
        count = (b.count + 1) % 2 ^ 32;
        back = next_slot (b.back) (b.size);
      })

  -- One round of `remove`: none when the buffer is empty and the thread has to wait.
  unfoldable pub remove : Buffer T → Option (T × Buffer T)
  remove b =
      if b.count == 0
      then none
      else some (
        b.buffer (b.front),
        record b { count = b.count - 1; front = next_slot (b.front) (b.size) },
      )

  -- `pthread_cond_signal( &prod )` wakes one of the waiting threads, if there is any.
  pub data Signal (inserting : List T) : List T → List T → List T → Type 0 where
    nobody : Signal inserting [] inserting []
    wakes_one :
        (x : T) {prod rest : List T} → Drop x prod rest → Signal inserting prod (x ∷ inserting) rest

  -- A step of one thread: a call, a round of a loop, or a wake-up without a signal, as POSIX allows.
  pub data Step (s : Monitor T) : Monitor T → Type 0 where
    calls_insert : (x : T) → Step s (record s { inserting = x ∷ s.inserting })
    inserts :
        (x : T) (rest : List T) (b : Buffer T)
        → Drop x (s.inserting) rest
        → insert x (s.buffer) ≡ some b
        → Step s (record s {
          buffer = b;
          inserting = rest;
          removing = if s.cons == 0 then s.removing else s.removing + 1;
          cons = s.cons - 1;
          given = s.given ++ (x ∷ []);
        })
    insert_waits :
        (x : T) (rest : List T)
        → Drop x (s.inserting) rest
        → insert x (s.buffer) ≡ none
        → Step s (record s { inserting = rest; prod = x ∷ s.prod })
    insert_wakes :
        (x : T) (rest : List T)
        → Drop x (s.prod) rest
        → Step s (record s { inserting = x ∷ s.inserting; prod = rest })
    calls_remove : Step s (record s { removing = s.removing + 1 })
    removes :
        (k : ℕ) (x : T) (b : Buffer T) (inserting prod : List T)
        → s.removing ≡ k + 1
        → remove (s.buffer) ≡ some (x, b)
        → Signal (s.inserting) (s.prod) inserting prod
        → Step s (record s {
          buffer = b;
          inserting = inserting;
          prod = prod;
          removing = k;
          taken = s.taken ++ (x ∷ []);
        })
    remove_waits :
        (k : ℕ)
        → s.removing ≡ k + 1
        → remove (s.buffer) ≡ none
        → Step s (record s { removing = k; cons = s.cons + 1 })
    remove_wakes :
        (k : ℕ) → s.cons ≡ k + 1 → Step s (record s { removing = s.removing + 1; cons = k })

  -- The buffer of `size` slots before any thread calls it.
  abbrev pub fresh : (size : ℕ) (buffer : ℕ → T) → Monitor T
  fresh size buffer = record {
    buffer = bounded_buffer size buffer;
    inserting = [];
    prod = [];
    removing = 0;
    cons = 0;
    given = [];
    taken = [];
  }

  pub data Reach (s : Monitor T) : Monitor T → Type 0 where
    start : Reach s s
    then_step : {t u : Monitor T} → Reach s t → Step t u → Reach s u
