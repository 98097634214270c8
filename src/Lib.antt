-- ===== src/Lib.antt =====
-- ferrum-alloc: a model of the allocator (src/*.rs) and what has been proved of it.
--
-- The program is a `malloc` replacement. A size up to 1024 bytes is rounded to a size class and
-- served from the slab allocator of the thread's cache, whose pages come from an arena; larger sizes
-- come from a TLSF allocator whose pool is a region of the arena; from 256 KB on each block is a
-- mapping of its own. A block freed by a thread that does not own it is pushed on a lock-free stack
-- of its owner, which drains the stack later.
--
--   Memory, Page      words of memory at addresses; `PageMeta` of src/slab.rs; the heap
--   Platform          src/platform.rs on Linux, and its `Windows` variant; the system calls are
--                     the parameters `Os` and `Windows`
--   SizeClass         src/size_class.rs: the classes, the lookup table and its conversions
--   Arena             src/arena.rs: `Arena::new`, `alloc_page`, `alloc`, `reset` and the addresses
--   Slab              src/slab.rs: `SlabAllocator`, its pages, free lists and partial lists; `State`
--                     the pages of an arena together, `Take`, `Give` and `Grow` what the operations
--                     do to them, and `Run` the sequences of calls of a client
--   Tlsf              src/tlsf.rs: `Mapping` the bins, `Block` the header, `Allocator` the operations,
--                     `Pool` the pool as the list of its blocks, what each operation does to that
--                     list, and the sequences of calls of a client
--   Huge              src/huge.rs: `huge_alloc`, `huge_free`, `huge_usable_size`
--   ThreadCache       src/thread_cache.rs: the caches, and `Treiber` their stack under interleaving
--   Api               src/api.rs: `Global` the state and `ensure_init`, `Malloc`, `Free`, `Realloc`,
--                     and `Routes` and `Small` what the calls do; `Medium` the requests that the
--                     TLSF pool or the arena behind it serves, from the first call on; `Lock` the
--                     spin lock, its failed rounds included, and `ensure_init` under interleaving
--   Hooks             src/dllmain.rs: the hooks over src/api.rs, `Routing` and `Blocks` what they do
--                     with a block, `Attach` `DllMain`; the hooked functions, the loader and MinHook are parameters
--   Base              numbers, words, bit masks and lists that the others share
--
-- Functions keep the names of the source and take the state that a method changes as an argument and
-- return it. A pointer is a number and null is 0; memory is a function from addresses to 64-bit
-- words. A `usize` is a number below 2 ^ 64, and sums and differences that could leave that range
-- wrap (`add_size`, `sub_size`); a `u32` bitmap is a number below 2 ^ 32. Of the globals, the counters
-- are arguments. The loops over slots and pages have their number of rounds; the drain of the remote
-- frees runs on fuel, and one more unit than there are nodes is enough.
--
-- The pool of src/tlsf.rs is a list of blocks, free or used, in the order of their addresses; a client
-- is any sequence of `alloc`, of `free` of what it holds, and of writes where it holds something. The
-- pool has at most 4 MB, which is what the table of bins reaches (src/api.rs gives it 512 KB), and the
-- requests are below 2 ^ 59, where rounding a size up does not wrap.
--
-- The calls of src/api.rs run one at a time in `Global` to `Medium`, where the spin lock is always free
-- and left out; `Lock` has any number of threads, and what one does under the lock is one function of
-- the guarded state. A call's result `none` stands for a null pointer that is read. A client of
-- `Medium` asks for more than 1024 bytes and less than 256 KB; a client of `Slab` has one arena, which
-- gives pages to this slab only from the start on, and frees there what it took there.
--
-- Not modelled: `debug_assert!` and what else a debug build adds, the platform under Miri and on other
-- systems, memory orderings weaker than sequential consistency, src/lib.rs, and the benchmarks and
-- tests.
pub mod Base
pub mod Memory
pub mod Platform
pub mod Huge
pub mod SizeClass
pub mod Page
pub mod Arena
pub mod Slab
pub mod ThreadCache
pub mod Tlsf
pub mod Api
pub mod Hooks
