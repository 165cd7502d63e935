-- ===== src/Safety/Renew.antt =====
-- `manager_extend`: a new buffer for the running thread's heap, from which a block is cut at once.
use llheap.Prelude.{
  ℕ, ◌+◌, ◌≤◌, ◌<◌, ◌≡◌, ◌≢◌, ◌∙◌, ◌⊎◌, inl, inr, refl, ap, false, some, arith, Bool-cases, ◌==◌,
  ne→==, update, update_self, max,
}
use llheap.Word.{add64, sub64, ceiling, ceiling_multiple}
use llheap.Bucket.{align, no_bucket_sizes, bucket_size, bucket_size_le, bucket_size_last}
use llheap.Header.{Header}
use llheap.Machine.{null, Env, Machine, map_error, Run, ok, stop, and_then, Cmd, enomem}
use llheap.Machine.Outcome.{Returns, Returns-and_then}
use llheap.Extend.{master_extend, manager_extend, chain_remainder}
use llheap.Extend.Outcome.{Kept, Fresh, Extends, master_extend-Extends}
use llheap.Arena.{Layout, Apart, user_space}
use llheap.Arena.Move.{refill-IsLaidOut}
use llheap.Safety.State.{IsReady}
use llheap.Safety.Clear.{IsHonest, IsClear, HasClear}
use llheap.Safety.Front.{Fronted}
use llheap.Safety.Rest.{Rested, counted-Rested, chain_remainder-Rested}

pub Kept-IsReady : (m n : Machine) (l : Layout) → Kept m n → IsReady m l → IsReady n l
Kept-IsReady m n l kept ready = record {
  booted = rw (kept.manager) (ready.booted);
  aligned = rw (kept.manager) (ready.aligned);
  heap_space = rw (kept.manager) (ready.heap_space);
  table = rw (kept.table) (ready.table);
  limit = rw (kept.limit) (ready.limit);
  begun = rw (kept.manager, kept.heaps) (ready.begun);
  laid = rw (kept.manager, kept.heaps, kept.free_headers, kept.headers) (ready.laid);
}

pub Kept-HasClear :
    (env : Env) (m n : Machine) (l : Layout) → Kept m n → HasClear env m l → HasClear env n l
Kept-HasClear env m n l kept clear = record {
  blocks = λ k hint length p a b h q at.
      clear.blocks k hint length p a b (omega (arith, h, kept.calls)) q at;
  buffer = λ k hint length p h q.
      rw (kept.manager, kept.heaps) (clear.buffer k hint length p (omega (arith, h, kept.calls)) q);
}

-- The buffer's increase holds a block, and does not wrap.
increase_enough :
    (size block : ℕ)
    → size < user_space
    → block < user_space
    → size ≤ ceiling (max size block) align
increase_enough size block small bound =
    let (_, _, least, _) = ceiling_multiple 4 (max size block) (omega arith) (omega arith) in
    omega (arith, least)

-- Null and all as before, because the system has no memory.
pub record Exhausted (m n : Machine) : Type 0 where
  pub kept : Kept m n
  pub unlocked : n.master.ext_lock ≡ false
  pub said : n.errno ≡ enomem

abbrev pub Renews : Env → Machine → Layout → (b : ℕ) → Run ℕ → Type 0
Renews env m l b (ok a n) = ((a ≡ null) × Exhausted m n) ⊎ Fronted env m l b a n
Renews env m l b (stop e) = (s : ℕ) × (errno : ℕ) × (e ≡ map_error s errno) × (errno ≢ enomem)

Returns-Renews :
    (env : Env) (m : Machine) (l : Layout) (b : ℕ) (r : Run ℕ)
    → Returns (Fronted env m l b) r
    → Renews env m l b r
Returns-Renews env m l b (ok a n) p = inr p
Returns-Renews env m l b (stop e) p = absurd p

Extends-and_then :
    (env : Env) (m : Machine) (l : Layout) (b size : ℕ) (r : Run ℕ) (next : ℕ → Cmd ℕ)
    → Extends env m size r
    → ((a : ℕ) (n : Machine) → Extends env m size (ok a n) → Renews env m l b (next a n))
    → Renews env m l b (and_then r next)
Extends-and_then env m l b size (ok a n) next p f = f a n p
Extends-and_then env m l b size (stop e) next p f = p

module _ (env : Env) (honest : IsHonest env) (block : env.malloc_thread_block < user_space)
    (m : Machine) (l : Layout) (ready : IsReady m l) (clear : HasClear env m l)
    (unlocked : m.master.ext_lock ≡ false) (b : ℕ) (small : b < no_bucket_sizes)
    (below : b ≤ m.master.max_buckets_used)
    (short : (m.heaps (m.heap_manager)).buf_remaining < bucket_size b) where
  abbrev size : ℕ
  size = bucket_size b

  abbrev increase : ℕ
  increase = ceiling (max size (env.malloc_thread_block)) align

  size_small : size < user_space
  size_small =
      omega (arith, bucket_size_le b 63 (omega (arith, small)) (omega arith), bucket_size_last)

  size-increase : size ≤ increase
  size-increase = increase_enough size (env.malloc_thread_block) size_small block

  most :
      (k : Machine)
      → Kept m k
      → (k.heaps (k.heap_manager)).buf_remaining ≤ bucket_size (k.master.max_buckets_used)
  most k kept =
      rw (kept.manager, kept.heaps, kept.limit)
        (omega (
          arith,
          short,
          bucket_size_le b (m.master.max_buckets_used) below (omega (arith, ready.limit)),
        ))

  module _ (a : ℕ) (k : Machine) (kept : Kept m k) (free : k.master.ext_lock ≡ false)
      (fresh : Fresh env m increase a k) where
    ready' : IsReady k l
    ready' = Kept-IsReady m k l kept ready

    far :
        IsClear env
          (m.os_calls)
          l
          ((k.heaps (k.heap_manager)).buf_start)
          ((k.heaps (k.heap_manager)).buf_remaining)
    far = rw (kept.manager, kept.heaps) clear

    place : (0 < a) × (a + fresh.length < user_space)
    place = honest.place (fresh.call) (fresh.hint) (fresh.length) a (fresh.answer)

    abbrev moved : Machine → Machine
    moved n = record n {
      heaps = update (n.heaps) (k.heap_manager) (record (n.heaps (k.heap_manager)) {
        buf_remaining = sub64 increase size;
        buf_start = add64 a size;
      });
    }

    moved-Fronted :
        (n : Machine) → Rested env k l ready' (m.os_calls) far n → Fronted env m l b a (moved n)
    moved-Fronted n rest =
        let outside = λ (c d : ℕ) (at : rest.layout.blocks c ≡ some d).
          elim (rest.clear.blocks (fresh.call) (fresh.hint) (fresh.length) a c d (fresh.since)
              (fresh.answer) at)
            as (λ _. Apart c (bucket_size d) a increase) [
              | inl before ↦ inl before
              | inr after ↦ inr (omega (arith, after, fresh.enough))
            ] in
        record {
          layout = rest.layout;
          increase = increase;
          place = place.0;
          enough = size-increase;
          laid =
              refill-IsLaidOut (m.heap_manager) (rest.start') (rest.room') a increase
                (n.free_headers) (n.headers) (rest.layout) (rw (← kept.manager) (rest.laid))
                (omega (arith, place.1, fresh.enough)) outside;
          clear = λ _. record {
            blocks = λ j hint length p c d h q at.
                rest.clear.blocks j hint length p c d
                  (omega (arith, h, rest.made, fresh.since, fresh.until)) q at;
            buffer = λ j hint length p h q.
                elim (honest.apart (fresh.call) j (fresh.hint) (fresh.length) hint length a p
                  (omega (arith, h, rest.made, fresh.until)) (fresh.answer) q) [
                    | inl before ↦ inl (omega (arith, before, fresh.enough))
                    | inr after ↦ inr after
                  ];
          };
          live = rest.live;
          start =
              rw (← kept.manager)
                (simp update_self (omega (arith, place.1, fresh.enough, size-increase)));
          room =
              rw (← kept.manager)
                (simp update_self (omega (arith, place.1, fresh.enough, size-increase)));
          manager = rest.manager ∙ kept.manager;
          table = rest.table ∙ kept.table;
          bytes = rest.bytes ∙ kept.bytes;
          sizes = λ c. rest.sizes c ∙ ap (λ (f : ℕ → Header). (f c).word1) (kept.headers);
          limit = rest.limit ∙ kept.limit;
          mmap_start = rest.mmap_start ∙ kept.mmap_start;
          unlocked = λ _. rest.unlocked ∙ free;
        }

  pub manager_extend-Renews : Renews env m l b (manager_extend env size m)
  unfolding manager_extend
  manager_extend-Renews =
      Extends-and_then env m l b increase (master_extend env increase m) _
        (master_extend-Extends env increase m unlocked)
        (λ a k p. elim (p.2) [
          | inl (none, full) ↦
              rw none (inl (refl, record { kept = p.0; unlocked = p.1; said = full }))
          | inr fresh ↦
              let pos = (place a k (p.0) (p.1) fresh).0 in
              rw (ne→== a null (omega (arith, pos))) (
                Returns-Renews env m l b _
                  (elim (Bool-cases (
                    a
                    == add64 ((k.heaps (k.heap_manager)).buf_start)
                        ((k.heaps (k.heap_manager)).buf_remaining))) [
                          | inl next ↦ rw next (
                              moved-Fronted a k (p.0) (p.1) fresh _ (
                                counted-Rested env k l (ready' a k (p.0) (p.1) fresh) (m.os_calls)
                                  (far a k (p.0) (p.1) fresh) _ refl refl refl))
                          | inr elsewhere ↦ rw elsewhere (
                              Returns-and_then (Fronted env m l b)
                                (chain_remainder (k.heap_manager) k) _
                                (chain_remainder-Rested env k l (ready' a k (p.0) (p.1) fresh)
                                  (m.os_calls) (far a k (p.0) (p.1) fresh) (most k (p.0)))
                                (λ _ n rest. moved-Fronted a k (p.0) (p.1) fresh n rest))
                        ]))
        ])
