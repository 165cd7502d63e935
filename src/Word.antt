-- ===== src/Word.antt =====
-- llheap.cc, "Helpers": `unsigned long int` arithmetic and rounding to a power of two.
-- A 64-bit word is a native number below 2 ^ 64; every operation wraps.
mod Rounding
mod Power
unfoldable pub use Rounding.*
unfoldable pub use Power.*
