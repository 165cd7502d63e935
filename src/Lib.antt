-- ===== src/Lib.antt =====
-- llheap: a model of the memory allocator in llheap.cc, with theorems on what it promises.
--
-- The program is one file, llheap.cc; tests and benchmarks stand beside it. A process has one
-- `heapMaster`; each thread has a `Heap` with 64 free lists, one for each bucket size, and a buffer
-- to allocate from. `doMalloc` serves a small size from the free list of its bucket, from what other
-- threads returned to this bucket, or from the front of the buffer; `manager_extend` gets a new
-- buffer from `master_extend`, which asks the system for it. Large sizes are mapped one by one.
-- `doFree` finds the header of a block, and through it the free list that the block goes to. All
-- other functions are built on these two.
--
-- The files, and what of llheap.cc each models:
--   Prelude      Boolean tests, lists, binary digits; no code of the program
--   Word         Pow2, Floor, Ceiling and 64-bit arithmetic, which wraps
--   Bucket       bucketSizes, Bsearchl, lookup, and the choice of a bucket in doMalloc
--   Stats        HeapStatistics, its constructor and operator+=, and the counts of each operation
--   Header       Heap::Storage::Header, the sticky bits, HeaderAddr, RealHeader, DataSize
--   Machine      Heap, HeapMaster, the thread's variables, memory; commands on this state
--   Os           the system calls and the two locks
--   Master       heapMasterCtor, getHeap, heapManagerCtor, heapManagerDtor, startup
--   Extend       master_extend, manager_extend
--   Memory       memset and memcpy
--   Alloc        doMalloc
--   Free         fakeHeader, headers, doFree
--   Aligned      checkAlign, memalignNoStats
--   Api          malloc, calloc, resize, realloc, memalign, ..., the queries, mallopt
--   Report       collectStats, clearStats, printStats, printStatsXML, malloc_info, and the unfreed
--                bytes that shutdown reports
--   Arena        the abstract view of a heap: which blocks there are, which are in use, and where
--   Remote       one bucket shared by its owner and the threads that free its blocks, step by step
--   Safety       that doMalloc, doFree and realloc keep this view, and what follows from it
--   Affinity     affinity.h, the processor that a benchmark binds a thread to
--   Larson       larson.cc, its random numbers and the permutation of its chunks
--   BoundedBuffer  ownershipPT.cc, the circular buffer between producers and consumers
--   Ownership    ownership.cc, its arguments, its workers that exchange batches, its clean-up
--   Tests        runs on a concrete process
--
-- State and operations. A function of llheap.cc is a command: from a `Machine` it runs to a value
-- and a new `Machine`, or it stops, for an assertion, an abort or a lock that is already held.
-- Field and function names are those of the code, in snake_case. An address is a number. Memory is
-- typed: free-list headers, heaps, allocation headers and the user's bytes are four functions of
-- the address. A `ptrdiff_t` is its 64-bit pattern. `Env` has what lies outside the code: the
-- answers of mmap and munmap to each call, the page size, the functions that an application may
-- replace, the results of the pthread functions, MALLOC_SCRUB, and whether the build is a debug
-- build. Both builds have statistics, ownership and the lookup table, on a 64-bit machine.
--
-- Bounds and fuel. The binary search has the table's length as fuel, and the loops over the buckets
-- and the lookup table have their number of rounds. The loops over the list of heaps have fuel as an
-- argument; the number of heaps is enough.
--
-- Not modelled: the text of the statistics and of their XML form; messages, backtraces and signal
-- handlers; the public header llheap.h; the test programs, and the benchmarks but for affinity.h, two
-- parts of larson.cc, the workers of ownership.cc and the buffer of ownershipPT.cc; the assertions
-- inside Floor and Ceiling. In all files but Remote, BoundedBuffer and Ownership one thread runs at a
-- time; Remote has the steps of several threads on one bucket, on sequentially consistent memory,
-- BoundedBuffer the rounds of its two loops under their mutex, and Ownership the steps of its workers,
-- for which a block is allocated or free.
-- The layout theorems are about the release build and one heap, whose blocks in use may be zero filled;
-- a mapping of a large size is seen to
-- leave the heap alone, and one at a time is followed. Where storage is asked of the system they
-- suppose that mmap hands out memory of the process's address space and no byte twice, as it does
-- while nothing is unmapped.
pub mod Prelude
pub mod Word
pub mod Bucket
pub mod Stats
pub mod Header
pub mod Machine
pub mod Os
pub mod Master
pub mod Extend
pub mod Memory
pub mod Alloc
pub mod Free
pub mod Aligned
pub mod Api
pub mod Report
pub mod Arena
pub mod Remote
pub mod Affinity
pub mod BoundedBuffer
pub mod Larson
pub mod Ownership
pub mod Safety
pub mod Tests
