-- ===== src/Hooks/Routing.antt =====
-- Where the hooks of src/dllmain.rs send a block.
use ferrum_alloc.Base.{ℕ, ◌+◌, ◌*◌, ◌^◌, ◌≤◌, ◌≡◌, ◌≢◌, ◌⊎◌, some, ltb, ◌==◌, true, false, arith}
use ferrum_alloc.Memory.{null}
use ferrum_alloc.Platform.{Os, map_failed}
use ferrum_alloc.Arena.{Arena}
use ferrum_alloc.Huge.{huge_alloc, huge_alloc_threshold, huge_usable_size}
use ferrum_alloc.Huge.Laws.{total}
use ferrum_alloc.ThreadCache.{get_or_create}
use ferrum_alloc.Api.Global.{Global, global_mem}
use ferrum_alloc.Api.Routes.{ready, ferrum_malloc-huge}
use ferrum_alloc.Hooks.{
  Originals, Code, ferrum, hooked_heap_alloc, hooked_heap_free, hooked_heap_size,
}

module _ (os : Os) (fuel : ℕ) (s : os.State) (g : Global) (code : Code (os.State × Global))
    (o : Originals) where
  -- A `HeapAlloc` of 256 KB or more and at most 2 ^ 64 - 8192 bytes in an initialised allocator, whatever
  -- its heap and flags, is a mapping of its own, if the system maps the pages, outside the arena:
  -- `HeapSize` gives at least the size asked for, and `HeapFree` unmaps it. No hooked function is called.
  pub heap_alloc-heap_free :
      (a : Arena) (size hheap dwflags : ℕ)
      → huge_alloc_threshold ≤ size
      → size + 2 * 4096 ≤ 2 ^ 64
      → (os.mmap s (total size)).0 ≢ map_failed
      → (os.mmap s (total size)).0 ≢ null
      → ((os.mmap s (total size)).0 + total size ≤ a.base)
        ⊎ (a.base + a.total_size ≤ (os.mmap s (total size)).0)
      → let base = (os.mmap s (total size)).0 in
        let (p, s1, m) = huge_alloc os s g.heap.mem size in
        let g1 = global_mem (ready g a) m in
        let (found, s2, ts) = get_or_create os s1 g.threads in
        let usable = huge_usable_size m p in
        (hooked_heap_alloc (ferrum os fuel) code o hheap dwflags size (s, ready g a)
          ≡ some (p, (s1, g1)))
        × (hooked_heap_size (ferrum os fuel) code o hheap dwflags p (s1, g1)
            ≡ some (usable, (s1, g1)))
        × (size ≤ usable)
        × (hooked_heap_free (ferrum os fuel) code o hheap dwflags p (s1, g1)
            ≡ some (1, (os.munmap s2 base (total size), record g1 { threads = ts })))
  unfolding hooked_heap_alloc hooked_heap_size hooked_heap_free
  heap_alloc-heap_free a size hheap dwflags large fits ok real apart =
      let (allocated, place, sized, low, high, freed) =
        ferrum_malloc-huge os fuel s g a size large fits ok real apart in
      let given : ((huge_alloc os s g.heap.mem size).0 == null) ≡ false = ground (arith, place) in
      let some_bytes : ltb 0 (
            huge_usable_size (huge_alloc os s g.heap.mem size).2
              (huge_alloc os s g.heap.mem size).0)
          ≡ true =
        ground (arith, low) in
      (
        rw (hooked_heap_alloc, allocated, given),
        rw (hooked_heap_size, given, sized, some_bytes),
        low,
        rw (hooked_heap_free, given, sized, some_bytes, freed),
      )
