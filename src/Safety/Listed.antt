-- ===== src/Safety/Listed.antt =====
-- A request that is served by a block from a list of its bucket.
use llheap.Prelude.{
  ℕ, ◌+◌, ◌≤◌, ◌<◌, ◌≡◌, ◌≢◌, inl, refl, ap, ◌∙◌, true, false, some, List, ◌∷◌, ◌++◌, arith,
  update_self, update_ne,
}
use llheap.Word.{add64}
use llheap.Bucket.{sizeof_storage, no_bucket_sizes, bucket_size, bucket_index, IsBestFit}
use llheap.Machine.{Env, Machine, free_header_addr}
use llheap.Arena.{Layout, IsLaidOut, Chain, Chain-frame, In, In-left, In-right}
use llheap.Arena.Take.{take, Touches, take-IsLaidOut, rest_idle}
use llheap.Safety.State.{IsReady, Served}
use llheap.Safety.Choice.{bucket-IsBestFit, bucket_small}
use llheap.Safety.Sources.{sealed, sealed_elsewhere}
use llheap.Header.{Header}

module _ (env : Env) (m : Machine) (l : Layout) (ready : IsReady m l) (size : ℕ)
    (fits : size + sizeof_storage ≤ bucket_size (m.master.max_buckets_used)) where
  abbrev b : ℕ
  b = bucket_index (m.lookup) (m.master.max_buckets_used) (add64 size sizeof_storage)

  best : IsBestFit (size + sizeof_storage) b
  best = bucket-IsBestFit m l ready size fits

  b_small : b < no_bucket_sizes
  b_small = bucket_small m l ready size fits

  abbrev heap : ℕ
  heap = m.heap_manager

  abbrev fh : ℕ
  fh = free_header_addr heap b

  -- The machine keeps what readiness rests on.
  pub record Keeps (m2 : Machine) : Type 0 where
    pub manager : m2.heap_manager ≡ heap
    pub table : m2.lookup ≡ m.lookup
    pub master : m2.master ≡ m.master
    pub start : (m2.heaps heap).buf_start ≡ (m.heaps heap).buf_start
    pub room : (m2.heaps heap).buf_remaining ≡ (m.heaps heap).buf_remaining
    pub calls : m2.os_calls ≡ m.os_calls
    pub bytes : m2.bytes ≡ m.bytes
    pub headers : m2.headers ≡ m.headers

  -- A block from one of the lists of the bucket.
  module _ (p : ℕ) (f r : List ℕ) (m2 : Machine) (keeps : Keeps m2)
      (order : l.free b ++ l.remote b ≡ p ∷ (f ++ r))
      (touch : Touches fh p
        (m.free_headers)
        (m2.free_headers)
        (m.headers)
        (sealed m2 size fh p).headers)
      (cf : Chain (m.headers) (m2.free_headers fh).free_list f)
      (cr : Chain (m.headers) (m2.free_headers fh).remote_list r) where
    p_idle : (l.blocks p ≡ some b) × (l.live p ≡ false)
    p_idle = ready.laid.idle p b b_small (rw order (inl refl))

    spare : (c : ℕ) → In c (f ++ r) → c ≢ p
    spare c i =
        (rest_idle heap _ _ (m.free_headers) (m2.free_headers) (m.headers)
          (sealed m2 size fh p).headers l p b f r (ready.laid) b_small order touch c i).0

    served_laid :
        IsLaidOut heap
          ((m.heaps heap).buf_start)
          ((m.heaps heap).buf_remaining)
          (m2.free_headers)
          (sealed m2 size fh p).headers
          (take l p b f r)
    served_laid =
        take-IsLaidOut heap _ _ (m.free_headers) (m2.free_headers) (m.headers)
          (sealed m2 size fh p).headers l p b f r (ready.laid) b_small order touch
          (Chain-frame (m.headers) (sealed m2 size fh p).headers _ f cf
            (λ c i. touch.links c (spare c (In-left c f r i))))
          (Chain-frame (m.headers) (sealed m2 size fh p).headers _ r cr
            (λ c i. touch.links c (spare c (In-right c f r i))))
          (simp update_self)

    pub served : Served env m l size (add64 p sizeof_storage) (sealed m2 size fh p)
    served = record {
      block = p;
      bucket = b;
      layout = take l p b f r;
      ready = record {
        booted = rw (keeps.manager) (ready.booted);
        aligned = rw (keeps.manager) (ready.aligned);
        heap_space = rw (keeps.manager) (ready.heap_space);
        table = rw (keeps.table) (ready.table);
        limit = rw (keeps.master) (ready.limit);
        begun = rw (keeps.manager, keeps.start, keeps.room) (ready.begun);
        laid = rw (keeps.manager, keeps.start, keeps.room) served_laid;
      };
      address = omega (arith, (ready.laid.known p b p_idle.0).2);
      was_idle = λ c on. let off = p_idle.1 in let on = on.1 in cc;
      now_live = (p_idle.0, update_self (l.live) p true);
      others = λ a c ne. rw (update_ne (l.live) p true a ne) (λ x. x, λ x. x);
      best = best;
      recorded = simp update_self;
      home = rw (keeps.manager) (simp update_self);
      clear = λ far.
          rw (keeps.manager, keeps.start, keeps.room, keeps.calls)
            (record { blocks = far.blocks; buffer = far.buffer });
      unlocked = λ free. rw (keeps.master) free;
      contents = keeps.bytes;
      sizes = λ c ne.
          sealed_elsewhere m2 size fh p c ne ∙ ap (λ (h : ℕ → Header). (h c).word1) (keeps.headers);
      settings = rw (keeps.master) (refl, refl);
    }
