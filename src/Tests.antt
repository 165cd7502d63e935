-- ===== src/Tests.antt =====
-- Concrete runs of the definitions, and concrete instances of the theorems.
mod World
mod Zeroed
mod Heaps
mod Threads
mod Sharing
mod Reports
mod Setup
mod Words
mod Buffers
mod Workers
mod Aligned
