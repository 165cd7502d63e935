-- ===== src/Tests/Zeroed.antt =====
-- A concrete thread that holds a zero-filled block.
use llheap.Prelude.{update}
use llheap.Header.{mark_zero_filled_bit}
use llheap.Machine.{Machine}
use llheap.Safety.{IsReady, HasClear}
use llheap.Safety.Moving.{mark-Adjusts}
use llheap.Safety.Alike.{Alike, Alike-IsReady, Alike-HasClear}
use llheap.Tests.World.{
  linux, one_header, one_block, start, holding, one_block-IsReady, one_block-IsLive,
  one_block-HasClear,
}

-- The same thread, when its block is zero filled, as `calloc` leaves it.
abbrev pub zero_block_held : Machine
zero_block_held = record one_block {
  headers = update one_header start (mark_zero_filled_bit (one_header start));
}

zero_block_held-Alike : Alike holding one_block zero_block_held
zero_block_held-Alike = (mark-Adjusts holding one_block start 0 0 (one_block-IsLive.1)).alike

pub zero_block_held-IsReady : IsReady zero_block_held holding
zero_block_held-IsReady =
    Alike-IsReady one_block zero_block_held holding zero_block_held-Alike one_block-IsReady

pub zero_block_held-HasClear : HasClear linux zero_block_held holding
zero_block_held-HasClear =
    Alike-HasClear one_block zero_block_held holding zero_block_held-Alike linux one_block-HasClear
