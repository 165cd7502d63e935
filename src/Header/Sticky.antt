-- ===== src/Header/Sticky.antt =====
-- What the sticky bits promise: each is set, cleared and read without disturbing the others or
-- the address that shares their word.
use llheap.Prelude.{ℕ, ◌%◌, ◌<◌, bit_and, bit_or, ◌-◌, ◌≡◌, refl, ◌≢◌, arith}
use llheap.Word.{word}
use llheap.Header.{
  Header, sticky_bits, clear_sticky_bits, mark_alignment_bit, alignment_bit, clear_alignment_bit,
  zero_fill_bit, clear_zero_fill_bit, mark_zero_filled_bit, mmapped_bit, mark_mmapped_bit,
}
use llheap.Header.Bits.{
  and_one, and_two, and_four, and_seven, or_one, or_two, or_four, and_not_one, and_not_two,
  and_not_seven,
}

-- Marking a real header zero filled sets that bit and leaves the mmapped bit, the alignment bit,
-- the size and the address under the bits.
pub mark_zero_filled_bit_lem :
    (h : Header)
    → h.word0 < word
    → (zero_fill_bit (mark_zero_filled_bit h) ≡ 2)
      × (mmapped_bit (mark_zero_filled_bit h) ≡ mmapped_bit h)
      × (alignment_bit (mark_zero_filled_bit h) ≡ alignment_bit h)
      × (clear_sticky_bits (mark_zero_filled_bit h).word0 ≡ clear_sticky_bits (h.word0))
      × ((mark_zero_filled_bit h).word1 ≡ h.word1)
unfolding mark_zero_filled_bit zero_fill_bit mmapped_bit alignment_bit clear_sticky_bits
mark_zero_filled_bit_lem h b = (
  omega (arith, or_two (h.word0), and_two (bit_or (h.word0) 2)),
  omega (arith, or_two (h.word0), and_four (bit_or (h.word0) 2), and_four (h.word0)),
  omega (arith, or_two (h.word0), and_one (bit_or (h.word0) 2), and_one (h.word0)),
  omega (
    arith,
    or_two (h.word0),
    and_not_seven (bit_or (h.word0) 2) (omega (arith, or_two (h.word0))),
    and_not_seven (h.word0),
  ),
  refl,
)

-- Clearing the zero-fill bit is the other way round.
pub clear_zero_fill_bit_lem :
    (h : Header)
    → h.word0 < word
    → (zero_fill_bit (clear_zero_fill_bit h) ≡ 0)
      × (mmapped_bit (clear_zero_fill_bit h) ≡ mmapped_bit h)
      × (alignment_bit (clear_zero_fill_bit h) ≡ alignment_bit h)
      × (clear_sticky_bits (clear_zero_fill_bit h).word0 ≡ clear_sticky_bits (h.word0))
unfolding clear_zero_fill_bit zero_fill_bit mmapped_bit alignment_bit clear_sticky_bits
clear_zero_fill_bit_lem h b =
    let w = bit_and (h.word0) (word - 3) in
    (
      omega (arith, and_not_two (h.word0) b, and_two w),
      omega (arith, and_not_two (h.word0) b, and_four w, and_four (h.word0)),
      omega (arith, and_not_two (h.word0) b, and_one w, and_one (h.word0)),
      omega (
        arith,
        and_not_two (h.word0) b,
        and_not_seven w (omega (arith, and_not_two (h.word0) b)),
        and_not_seven (h.word0),
      ),
    )

-- A mapped size that is a multiple of 8 comes back from its word, which is known as mapped and as
-- neither a fake header nor zero filled.
pub mark_mmapped_bit_lem :
    (size word1 : ℕ)
    → size < word
    → size % 8 ≡ 0
    → let h : Header = record { word0 = mark_mmapped_bit size; word1 = word1 } in
      (mmapped_bit h ≡ 4)
      × (alignment_bit h ≡ 0)
      × (zero_fill_bit h ≡ 0)
      × (clear_sticky_bits (mark_mmapped_bit size) ≡ size)
unfolding mark_mmapped_bit zero_fill_bit mmapped_bit alignment_bit clear_sticky_bits
mark_mmapped_bit_lem size word1 b m =
    let w = bit_or size 4 in
    (
      omega (arith, or_four size, and_four w, m),
      omega (arith, or_four size, and_one w, m),
      omega (arith, or_four size, and_two w, m),
      omega (arith, or_four size, and_not_seven w (omega (arith, or_four size, m)), m),
    )

-- An even alignment comes back from a fake header, which is known as such.
pub mark_alignment_bit_lem :
    (alignment offset : ℕ)
    → alignment < word
    → alignment % 2 ≡ 0
    → let h : Header = record { word0 = mark_alignment_bit alignment; word1 = offset } in
      (alignment_bit h ≡ 1) × (sticky_bits h ≢ 0) × (clear_alignment_bit h ≡ alignment)
unfolding mark_alignment_bit alignment_bit sticky_bits clear_alignment_bit
mark_alignment_bit_lem alignment offset b even =
    let w = bit_or alignment 1 in
    (
      omega (arith, or_one alignment, and_one w, even),
      omega (arith, or_one alignment, and_seven w, even),
      omega (arith, or_one alignment, and_not_one w (omega (arith, or_one alignment, even)), even),
    )

-- A word that is a multiple of 8, such as the address of a free-list header, has no sticky bits
-- and is what it is cleared to.
pub clear_sticky_bits_aligned :
    (h : Header)
    → h.word0 < word
    → h.word0 % 8 ≡ 0
    → (sticky_bits h ≡ 0) × (clear_sticky_bits (h.word0) ≡ h.word0) × (alignment_bit h ≡ 0)
unfolding sticky_bits clear_sticky_bits alignment_bit
clear_sticky_bits_aligned h b m = (
  omega (arith, and_seven (h.word0), m),
  omega (arith, and_not_seven (h.word0) b, m),
  omega (arith, and_one (h.word0), m),
)
