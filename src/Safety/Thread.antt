-- ===== src/Safety/Thread.antt =====
-- A thread with the allocations that it holds, and that each operation on them keeps all apart and
-- with their bytes.
use llheap.Prelude.{
  if◌then◌else◌, ap, min, ltb, ℕ, ◌+◌, ◌≡◌, ◌≢◌, refl, false, List, [], ◌∷◌, arith,
}
use llheap.Header.{Header}
use llheap.Machine.{Env, Machine}
use llheap.Arena.{Layout}
use llheap.Safety.State.{IsReady, Served}
use llheap.Safety.Clear.{HasClear}
use llheap.Safety.Settle.{IsRefused}
use llheap.Safety.Held.{
  Held, IsBacked, All, AllApart, AllNew, All-map, Reads, kept-IsBacked, All-both, IsBacked-Apart,
}

pub record Thread : Type 0 where
  pub machine : Machine
  pub held : List Held

-- What the bytes of `x` are in a new area of `size` bytes, if the others there are `d`.
abbrev pub carried : Held → (size : ℕ) → (ℕ → ℕ) → ℕ → ℕ
carried x size d i = if ltb i (min x.size size) then x.contents i else d i

pub record IsSafe (env : Env) (t : Thread) : Type 0 where
  pub layout : Layout
  pub ready : IsReady (t.machine) layout
  pub clear : HasClear env (t.machine) layout
  pub unlocked : t.machine.master.ext_lock ≡ false
  pub backed : All (IsBacked (t.machine) layout) (t.held)
  pub separate : AllNew (t.held)

pub IsSafe-AllApart : (env : Env) (t : Thread) → IsSafe env t → AllApart (t.held)
IsSafe-AllApart env t safe = go (t.held) (safe.backed) (safe.separate)
  where
    go : (xs : List Held) → All (IsBacked (t.machine) (safe.layout)) xs → AllNew xs → AllApart xs
    go [] p q = tt
    go (x ∷ xs) (p, ps) (q, qs) = (
      All-map xs
          (λ y both. IsBacked-Apart (t.machine) (safe.layout) x y (safe.ready) p (both.0) (both.1))
          (All-both _ _ xs ps q),
      go xs ps qs,
    )

pub IsSafe-Reads : (env : Env) (t : Thread) → IsSafe env t → All (Reads (t.machine)) (t.held)
IsSafe-Reads env t safe = All-map (t.held) (λ x p. p.stored) (safe.backed)

module _ (env : Env) (t : Thread) (safe : IsSafe env t) where
  abbrev m : Machine
  m = t.machine

  abbrev l : Layout
  l = safe.layout

  pub refused-IsSafe :
      (n : Machine) → IsRefused env m l n → IsSafe env (record { machine = n; held = t.held })
  refused-IsSafe n r = record {
    layout = l;
    ready = r.ready;
    clear = r.clear (safe.clear);
    unlocked = r.unlocked;
    backed =
        All-map (t.held)
          (λ x p.
            kept-IsBacked m n l l x p (p.used)
              (ap (λ (h : ℕ → Header). (h (p.block)).word1) (r.headers))
              (λ i h. ap (λ (f : ℕ → ℕ). f (x.addr + i)) (r.contents)))
          (safe.backed);
    separate = safe.separate;
  }

  module _ (size addr : ℕ) (n : Machine) (s : Served env m l size addr n) where
    spare : (x : Held) (p : IsBacked m l x) → p.block ≢ s.block
    spare x p e = s.was_idle (p.bucket) (rw (← e) (p.used))

    pub served-IsSafe : IsSafe env (record {
      machine = n;
      held = record { addr = addr; size = size; contents = λ i. n.bytes (addr + i) } ∷ t.held;
    })
    served-IsSafe = record {
      layout = s.layout;
      ready = s.ready;
      clear = s.clear (safe.clear);
      unlocked = s.unlocked (safe.unlocked);
      backed = (
        record {
          block = s.block;
          bucket = s.bucket;
          address = s.address;
          used = s.now_live;
          room = s.best.fits;
          recorded = s.recorded;
          stored = λ i h. refl;
        },
        All-map (t.held)
            (λ x p.
              kept-IsBacked m n l (s.layout) x p
                ((s.others (p.block) (p.bucket) (spare x p)).0 (p.used))
                (s.sizes (p.block) (spare x p))
                (λ i h. ap (λ (f : ℕ → ℕ). f (x.addr + i)) (s.contents)))
            (safe.backed),
      );
      separate = (
        All-map (t.held) (λ x p e. spare x p (omega (arith, e, p.address, s.address)))
            (safe.backed),
        safe.separate,
      );
    }
