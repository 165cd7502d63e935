-- ===== src/Bucket.antt =====
-- llheap.cc: the array `bucketSizes`, the binary search `Bsearchl`, and the array `lookup`
-- that `heapMasterCtor` fills for the small sizes.
mod Sizes
mod Search
mod Fit
mod Lookup
unfoldable pub use Sizes.*
unfoldable pub use Search.*
unfoldable pub use Fit.*
unfoldable pub use Lookup.*
