-- ===== src/Api.antt =====
-- llheap.cc, "Memory Allocation Routines": the functions that programs call, in child modules.
pub mod Basic
pub mod Resize
pub mod Realloc
pub mod AlignedResize
pub mod Query
pub mod Threshold
