-- ===== src/Arena.antt =====
-- The storage of one heap as a whole: which blocks were cut from its buffers, which of them are in
-- use, and which stand on the free list or the remote list of their bucket.
mod Linked
mod Blocks
pub mod Take
pub mod Give
pub mod Cut
pub mod Move
pub use Linked.*
pub use Blocks.*
