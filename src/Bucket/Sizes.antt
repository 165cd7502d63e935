-- ===== src/Bucket/Sizes.antt =====
-- The array `bucketSizes` of llheap.cc and its constants, for a 64-bit machine.
use llheap.Prelude.{
  ℕ, zero, suc, ◌+◌, ◌%◌, ◌≤◌, ◌<◌, ◌≡◌, refl, Bool, true, ◌&&◌, List, [], ◌∷◌, arith, ltb,
  Bool-cases, inl, inr, ◌==◌, get_or, length,
}

-- `sizeof( Heap::Storage )`: the 16-byte header; `pad` and `data` are empty.
abbrev pub sizeof_storage : ℕ
sizeof_storage = 16

-- `__ALIGN__`, the minimum alignment.
abbrev pub align : ℕ
align = 16

-- `Heap::NoBucketSizes`.
abbrev pub no_bucket_sizes : ℕ
no_bucket_sizes = 64

-- `LookupSizes`.
abbrev pub lookup_sizes : ℕ
lookup_sizes = 65_536 + sizeof_storage

unfoldable pub bucket_sizes : List ℕ
bucket_sizes =
    (16 + 16)
    ∷ (32 + 16)
    ∷ (48 + 16)
    ∷ (64 + 16)
    ∷ (96 + 16)
    ∷ (128 + 16)
    ∷ 160
    ∷ 192
    ∷ 224
    ∷ (256 + 16)
    ∷ 320
    ∷ 384
    ∷ 448
    ∷ (512 + 16)
    ∷ 640
    ∷ 768
    ∷ 896
    ∷ (1_024 + 16)
    ∷ 1_536
    ∷ (2_048 + 16)
    ∷ 2_560
    ∷ 3_072
    ∷ 3_584
    ∷ (4_096 + 16)
    ∷ 6_144
    ∷ (8_192 + 16)
    ∷ 10_240
    ∷ 12_288
    ∷ 14_336
    ∷ (16_384 + 16)
    ∷ 20_480
    ∷ 24_576
    ∷ 28_672
    ∷ (32_768 + 16)
    ∷ 40_960
    ∷ 49_152
    ∷ 57_344
    ∷ (65_536 + 16)
    ∷ 81_920
    ∷ 98_304
    ∷ 114_688
    ∷ (131_072 + 16)
    ∷ 163_840
    ∷ 196_608
    ∷ 229_376
    ∷ (262_144 + 16)
    ∷ 327_680
    ∷ 393_216
    ∷ 458_752
    ∷ (524_288 + 16)
    ∷ 786_432
    ∷ (1_048_576 + 16)
    ∷ 1_572_864
    ∷ (2_097_152 + 16)
    ∷ 3_145_728
    ∷ (4_194_304 + 16)
    ∷ 6_291_456
    ∷ (8_388_608 + 16)
    ∷ 12_582_912
    ∷ (16_777_216 + 16)
    ∷ (25_165_824 + 16)
    ∷ (33_554_432 + 16)
    ∷ (50_331_648 + 16)
    ∷ (67_108_864 + 16)
    ∷ []

-- `bucketSizes[ b ]`.
unfoldable pub bucket_size : ℕ → ℕ
bucket_size b = get_or bucket_sizes b 0

ascending : List ℕ → Bool
ascending (x ∷ y ∷ rest) = ltb x y && ascending (y ∷ rest)
ascending _ = true

ascending_head :
    (x : ℕ) (xs : List ℕ) (j : ℕ) → ascending (x ∷ xs) ≡ true → j < length xs → x < get_or xs j 0
unfolding ascending get_or
ascending_head x [] j h b = absurd (omega arith)
ascending_head x (y ∷ xs) zero h b = ground arith
ascending_head x (y ∷ xs) (suc j) h b = ground (arith, ascending_head y xs j)

ascending_tail : (x : ℕ) (xs : List ℕ) → ascending (x ∷ xs) ≡ true → ascending xs ≡ true
unfolding ascending
ascending_tail x [] h = refl
ascending_tail x (y ∷ xs) h = ground arith

ascending_lt :
    (xs : List ℕ) (i j : ℕ)
    → ascending xs ≡ true
    → i < j
    → j < length xs
    → get_or xs i 0 < get_or xs j 0
unfolding get_or
ascending_lt [] i j h p q = absurd (omega arith)
ascending_lt (x ∷ xs) i zero h p q = absurd (omega arith)
ascending_lt (x ∷ xs) zero (suc j) h p q = ascending_head x xs j h (omega arith)
ascending_lt (x ∷ xs) (suc i) (suc j) h p q =
    ascending_lt xs i j (ascending_tail x xs h) (omega arith) (omega arith)

bucket_sizes-ascending : ascending bucket_sizes ≡ true
unfolding ascending bucket_sizes
bucket_sizes-ascending = refl

length-bucket_sizes : length bucket_sizes ≡ no_bucket_sizes
unfolding bucket_sizes
length-bucket_sizes = refl

-- The sizes grow strictly with the bucket number.
pub bucket_size_lt : (i j : ℕ) → i < j → j < no_bucket_sizes → bucket_size i < bucket_size j
unfolding bucket_size
bucket_size_lt i j p q =
    ascending_lt bucket_sizes i j bucket_sizes-ascending p (omega (arith, length-bucket_sizes))

pub bucket_size_le : (i j : ℕ) → i ≤ j → j < no_bucket_sizes → bucket_size i ≤ bucket_size j
bucket_size_le i j p q = elim (Bool-cases (i == j)) [
  | inl same ↦ ground arith
  | inr below ↦ ground (arith, bucket_size_lt i j)
]

multiples_of_16 : List ℕ → Bool
multiples_of_16 [] = true
multiples_of_16 (x ∷ xs) = (x % 16 == 0) && multiples_of_16 xs

multiples_of_16_lem : (xs : List ℕ) (i : ℕ) → multiples_of_16 xs ≡ true → get_or xs i 0 % 16 ≡ 0
unfolding get_or multiples_of_16
multiples_of_16_lem [] i h = refl
multiples_of_16_lem (x ∷ xs) zero h = ground arith
multiples_of_16_lem (x ∷ xs) (suc i) h = ground (arith, multiples_of_16_lem xs i)

-- "individual bucket sizes must be multiple of 16".
pub bucket_size_multiple : (b : ℕ) → bucket_size b % 16 ≡ 0
unfolding bucket_size multiples_of_16 bucket_sizes
bucket_size_multiple b = multiples_of_16_lem bucket_sizes b refl

-- The values that the constants of the allocator depend on.
pub bucket_size_first : bucket_size 0 ≡ 32
unfolding bucket_size bucket_sizes get_or
bucket_size_first = refl

pub bucket_size_lookup : bucket_size 37 ≡ lookup_sizes
unfolding bucket_size bucket_sizes get_or
bucket_size_lookup = refl

pub bucket_size_mmap : bucket_size 61 ≡ 33_554_448
unfolding bucket_size bucket_sizes get_or
bucket_size_mmap = refl

pub bucket_size_last : bucket_size 63 ≡ 67_108_880
unfolding bucket_size bucket_sizes get_or
bucket_size_last = refl
