-- ===== src/Master/FreeLists.antt =====
-- The bucket headers of a new heap.
use llheap.Prelude.{
  ℕ, zero, suc, ◌+◌, ◌≤◌, ◌<◌, ◌≡◌, ◌≢◌, refl, ◌∙◌, arith, update_self, update_ne, ℕ_discrete,
}
use llheap.Bucket.{no_bucket_sizes, bucket_size}
use llheap.Machine.{null, FreeHeader, free_header_addr}
use llheap.Master.{init_free_lists}

abbrev initial : (heap b : ℕ) → FreeHeader
initial heap b = record {
  free_list = null;
  home_manager = heap;
  block_size = bucket_size b;
  allocations = 0;
  reuses = 0;
  remote_list = null;
}

below :
    (n b heap : ℕ) (mem : ℕ → FreeHeader) (p : ℕ)
    → ((c : ℕ) → b ≤ c → c < b + n → p ≢ free_header_addr heap c)
    → init_free_lists n b heap mem p ≡ mem p
unfolding init_free_lists
below zero b heap mem p out = refl
below (suc n) b heap mem p out =
    below n (b + 1) heap _ p (λ c lo hi. out c (omega arith) (omega arith))
    ∙ update_ne mem (free_header_addr heap b) _ p (out b (omega arith) (omega arith))

inside :
    (n b heap : ℕ) (mem : ℕ → FreeHeader) (c : ℕ)
    → b ≤ c
    → c < b + n
    → init_free_lists n b heap mem (free_header_addr heap c) ≡ initial heap c
unfolding init_free_lists
inside zero b heap mem c lo hi = absurd (omega arith)
inside (suc n) b heap mem c lo hi = elim (ℕ_discrete c b) [
  | yes here ↦ rw here (
      below n (b + 1) heap _ (free_header_addr heap b) (λ d low high e. omega (arith, e))
      ∙ update_self mem (free_header_addr heap b) _)
  | no later ↦ inside n (b + 1) heap _ c (omega (arith, later)) (omega arith)
]

-- The loop of `getHeap` gives each of the buckets its size, its home and two empty lists, and
-- writes nothing but these bucket headers.
pub init_free_lists_lem :
    (heap : ℕ) (mem : ℕ → FreeHeader)
    → ((b : ℕ)
        → b < no_bucket_sizes
        → init_free_lists no_bucket_sizes 0 heap mem (free_header_addr heap b) ≡ record {
          free_list = null;
          home_manager = heap;
          block_size = bucket_size b;
          allocations = 0;
          reuses = 0;
          remote_list = null;
        })
      × ((p : ℕ)
          → ((b : ℕ) → b < no_bucket_sizes → p ≢ free_header_addr heap b)
          → init_free_lists no_bucket_sizes 0 heap mem p ≡ mem p)
init_free_lists_lem heap mem = (
  λ b h. inside no_bucket_sizes 0 heap mem b (omega arith) (omega arith),
  λ p out. below no_bucket_sizes 0 heap mem p (λ b lo hi. out b (omega arith)),
)
