-- ===== src/Safety.antt =====
-- The safety of allocation from a heap: the operations of llheap.cc keep the heap laid out, so that
-- no two blocks in use share a byte.
mod State
mod Clear
mod Front
pub mod Rest
pub mod Renew
pub mod Serve
mod Sources
mod Choice
mod Listed
mod Bumped
pub mod Malloc
pub mod Settle
pub mod Release
pub mod Held
pub mod Thread
mod Changed
pub mod Client
mod Pop
pub mod Reuse
pub mod Query
pub mod Overrun
pub mod Startup
pub mod Boot
pub mod Calloc
pub mod Stale
mod Home
pub mod Alike
pub mod Mapped
mod Faked
pub mod Aligned
mod Resized
mod Grown
mod Within
pub mod Moving
mod Moved
pub mod Realloc
pub use State.*
pub use Clear.*
