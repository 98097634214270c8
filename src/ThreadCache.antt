-- ===== src/ThreadCache.antt =====
-- src/thread_cache.rs: the per-thread caches, their registry, and frees from other threads. The
-- operations here run without interference; `Treiber` interleaves the pushes of many threads.
pub mod Drain
pub mod Ids
pub mod Treiber
mod Tests
use ferrum_alloc.Base.{
  ℕ, zero, suc, ◌+◌, ◌-◌, ◌%◌, ◌^◌, Option, none, some, leb, ◌==◌, if◌then◌else◌,
}
use ferrum_alloc.Memory.{Ptr, null, Mem, update}
use ferrum_alloc.Page.{Heap, set_mem}
use ferrum_alloc.Platform.{Os, page_size, os_alloc, tls_create, tls_get, tls_set}
use ferrum_alloc.Arena.{Arena}
use ferrum_alloc.Slab
use ferrum_alloc.Slab.{Slab}

abbrev pub max_threads : ℕ
max_threads = 128

abbrev pub no_key : ℕ
no_key = 2 ^ 64 - 1

-- `remote_frees` is the top of a stack whose nodes hold the address of the next one.
pub record ThreadCache : Type 0 where
  pub id : ℕ
  pub slab : Slab
  pub remote_frees : Ptr

-- The globals, and the caches at their addresses.
pub record Threads : Type 0 where
  pub next_thread_id : ℕ
  pub tls_key : ℕ
  pub registry : ℕ → Ptr
  pub caches : Ptr → ThreadCache

abbrev pub set_cache : Threads → Ptr → ThreadCache → Threads
set_cache ts p c = record ts { caches = update ts.caches p c }

abbrev pub new_cache : ℕ → ThreadCache
new_cache id = record { id = id; slab = Slab.new; remote_frees = null }

module _ (os : Os) where
  -- The cache of the current thread, by address.
  unfoldable pub get_or_create : os.State → Threads → Option Ptr × os.State × Threads
  get_or_create s ts =
      let tls_ptr = tls_get os s (ts.tls_key % 2 ^ 32) in
      let id = ts.next_thread_id in
      let ts1 = record ts { next_thread_id = (id + 1) % 2 ^ 16 } in
      let (cache_ptr, s1) = os_alloc os s page_size in
      let ts2 = record (set_cache ts1 cache_ptr (new_cache id)) {
        registry = update ts.registry id cache_ptr;
      } in
      if ts.tls_key == no_key
      then (none, s, ts)
      else if tls_ptr == null
      then (if leb max_threads id
          then (none, s, ts1)
          else if cache_ptr == null
          then (none, s1, ts1)
          else (some cache_ptr, tls_set os s1 (ts.tls_key % 2 ^ 32) cache_ptr, ts2))
      else (some tls_ptr, s, ts)

  unfoldable pub init_tls : os.State → Threads → os.State × Threads
  init_tls s ts = let (key, s1) = tls_create os s in (s1, record ts { tls_key = key })

-- The loop of `drain_remote_frees`; `none` when the fuel runs out.
unfoldable pub drain_loop : ℕ → Slab → Heap → Arena → (head : Ptr) → Option (Slab × Heap)
drain_loop zero s h a head = none
drain_loop (suc fuel) s h a head =
    let next = h.mem head in
    let (s1, h1) = Slab.free s h a head in
    let rest = drain_loop fuel s1 h1 a next in if head == null then some (s, h) else rest

unfoldable pub drain_remote_frees : ℕ → ThreadCache → Heap → Arena → Option (ThreadCache × Heap)
drain_remote_frees fuel c h a = elim (drain_loop fuel c.slab h a c.remote_frees) [
  | none ↦ none
  | some (s1, h1) ↦ some (record c { remote_frees = null; slab = s1 }, h1)
]

-- A push whose `compare_exchange` succeeds at once.
unfoldable pub remote_free_push : Threads → Heap → (target_id p : ℕ) → Threads × Heap
remote_free_push ts h target_id p =
    let cache_ptr = ts.registry target_id in
    let c = ts.caches cache_ptr in
    if leb max_threads target_id then (ts, h) else if cache_ptr == null then (ts, h) else (
      set_cache ts cache_ptr (record c { remote_frees = p }),
      set_mem h (update h.mem p c.remote_frees),
    )
