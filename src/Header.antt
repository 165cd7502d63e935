-- ===== src/Header.antt =====
-- llheap.cc, `Heap::Storage::Header`: the two words before an allocation, the sticky bits in
-- the three low bits of the first word, and the address arithmetic between the two headers.
pub mod Bits
pub mod Sticky
use llheap.Prelude.{ℕ, ◌+◌, ◌-◌, bit_and, bit_or}
use llheap.Word.{word, sub64}
use llheap.Bucket.{sizeof_storage}

-- The union `Kind`. `word0` is `home`, `blockSize`, `next` of a real header and `alignment` of a
-- fake one; `word1` is `size` of a real header and `offset` of a fake one.
pub record Header : Type 0 where
  pub word0 : ℕ
  pub word1 : ℕ

-- `StickyBits`
unfoldable pub sticky_bits : Header → ℕ
sticky_bits header = bit_and header.word0 0x7

-- `ClearStickyBits`: the mask is `~7`.
unfoldable pub clear_sticky_bits : ℕ → ℕ
clear_sticky_bits addr = bit_and addr (word - 8)

-- `MarkAlignmentBit`
unfoldable pub mark_alignment_bit : ℕ → ℕ
mark_alignment_bit alignment = bit_or alignment 1

-- `AlignmentBit`
unfoldable pub alignment_bit : Header → ℕ
alignment_bit header = bit_and header.word0 1

-- `ClearAlignmentBit`: the mask is `~1`.
unfoldable pub clear_alignment_bit : Header → ℕ
clear_alignment_bit header = bit_and header.word0 (word - 2)

-- `ZeroFillBit`
unfoldable pub zero_fill_bit : Header → ℕ
zero_fill_bit header = bit_and header.word0 2

-- `ClearZeroFillBit`: the mask is `~2`.
unfoldable pub clear_zero_fill_bit : Header → Header
clear_zero_fill_bit header = record header { word0 = bit_and (header.word0) (word - 3) }

-- `MarkZeroFilledBit`
unfoldable pub mark_zero_filled_bit : Header → Header
mark_zero_filled_bit header = record header { word0 = bit_or (header.word0) 2 }

-- `MmappedBit`
unfoldable pub mmapped_bit : Header → ℕ
mmapped_bit header = bit_and header.word0 4

-- `MarkMmappedBit`
unfoldable pub mark_mmapped_bit : ℕ → ℕ
mark_mmapped_bit size = bit_or size 4

-- `HeaderAddr`
abbrev pub header_addr : ℕ → ℕ
header_addr addr = sub64 addr sizeof_storage

-- `RealHeader`: back from a fake header, at its own address, by its offset.
abbrev pub real_header : ℕ → Header → ℕ
real_header at header = sub64 at header.word1

-- `DataSize`
abbrev pub data_size : ℕ → ℕ → ℕ → ℕ
data_size bsize addr header = sub64 bsize (sub64 addr header)
