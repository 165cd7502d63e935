-- ===== src/Safety/Home.antt =====
-- The first word of the header of a block in use: the address of its bucket header, and maybe the
-- zero-fill bit.
use llheap.Prelude.{ℕ, ◌+◌, ◌%◌, ◌<◌, ◌≡◌, bit_or, inl, inr, arith}
use llheap.Word.{word}
use llheap.Header.{
  Header, sticky_bits, clear_sticky_bits, alignment_bit, mmapped_bit, zero_fill_bit,
  mark_zero_filled_bit,
}
use llheap.Header.Bits.{and_one, and_two, and_four, and_seven, and_not_seven, or_two}
use llheap.Arena.{IsHome}

module _ (h : Header) (fh : ℕ) (aligned : fh % 8 ≡ 0) where
  -- What `headers` and `doFree` read of it.
  pub home_bits :
      fh + 2 < word
      → IsHome fh (h.word0)
      → (clear_sticky_bits (h.word0) ≡ fh)
        × (alignment_bit h ≡ 0)
        × (mmapped_bit h ≡ 0)
        × (sticky_bits h ≡ 0 → h.word0 ≡ fh)
  unfolding clear_sticky_bits alignment_bit mmapped_bit sticky_bits
  home_bits small (inl e) = (
    omega (arith, e, and_not_seven (h.word0) (omega arith)),
    omega (arith, e, and_one (h.word0)),
    omega (arith, e, and_four (h.word0)),
    λ none. e,
  )
  home_bits small (inr e) = (
    omega (arith, e, and_not_seven (h.word0) (omega arith)),
    omega (arith, e, and_one (h.word0)),
    omega (arith, e, and_four (h.word0)),
    λ none. absurd (omega (arith, e, none, and_seven (h.word0))),
  )

  pub home_unmarked : h.word0 ≡ fh → zero_fill_bit h ≡ 0
  unfolding zero_fill_bit
  home_unmarked e = omega (arith, e, and_two (h.word0))

  -- It stays such a word, when the block is marked zero filled.
  pub mark-IsHome : IsHome fh (h.word0) → IsHome fh (mark_zero_filled_bit h).word0
  unfolding mark_zero_filled_bit
  mark-IsHome (inl e) = inr (omega (arith, e, or_two (h.word0)))
  mark-IsHome (inr e) = inr (omega (arith, e, or_two (h.word0)))

  pub home_marked : IsHome fh (h.word0) → zero_fill_bit (mark_zero_filled_bit h) ≡ 2
  unfolding mark_zero_filled_bit zero_fill_bit
  home_marked (inl e) = omega (arith, e, or_two (h.word0), and_two (bit_or (h.word0) 2))
  home_marked (inr e) = omega (arith, e, or_two (h.word0), and_two (bit_or (h.word0) 2))

  pub home_bit : ¬ (zero_fill_bit h ≡ 0) → IsHome fh (h.word0) → zero_fill_bit h ≡ 2
  unfolding zero_fill_bit
  home_bit some_bit (inl e) = absurd (some_bit (omega (arith, e, and_two (h.word0))))
  home_bit some_bit (inr e) = omega (arith, e, and_two (h.word0))
