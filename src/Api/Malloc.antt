-- ===== src/Api/Malloc.antt =====
-- `ferrum_malloc` of src/api.rs. `none` stands for a null pointer that is read, or for a drain that
-- runs out of fuel.
use ferrum_alloc.Base.{ℕ, Option, none, some, leb, ◌==◌, if◌then◌else◌}
use ferrum_alloc.Memory.{Ptr, null}
use ferrum_alloc.Platform.{Os}
use ferrum_alloc.SizeClass.{slab_max_size, size_to_class}
use ferrum_alloc.Arena
use ferrum_alloc.Slab
use ferrum_alloc.Slab.{alloc_needs_page, alloc_no_arena}
use ferrum_alloc.Huge.{huge_alloc_threshold, huge_alloc}
use ferrum_alloc.ThreadCache.{ThreadCache, set_cache, get_or_create, drain_remote_frees}
use ferrum_alloc.Tlsf.Allocator
use ferrum_alloc.Tlsf.Allocator.{with_mem}
use ferrum_alloc.Api.Global.{Global, global_mem, put_tlsf, ensure_init}

abbrev pub put_cache : Global → Ptr → ThreadCache → Global
put_cache g tc c = record g { threads = set_cache g.threads tc c }

unfoldable pub tlsf_alloc : Global → ℕ → Ptr × Global
tlsf_alloc g size = elim g.tlsf [
  | none ↦ (null, g)
  | some t ↦ let (p, t1) = Allocator.alloc (with_mem t g.heap.mem) size in (p, put_tlsf g t1)
]

-- The slow path: TLSF, then the arena.
unfoldable pub malloc_slow : Global → ℕ → Option (Ptr × Global)
malloc_slow g size = elim g.arena [
  | none ↦ none
  | some a ↦
      let (p, g1) = tlsf_alloc g size in
      let (q, a1, h1) = Arena.alloc a g1.heap size in
      if p == null then some (q, record g1 { arena = some a1; heap = h1 }) else some (p, g1)
]

-- The remote frees of the cache at `tc`, if there are any.
unfoldable pub drain_pending : ℕ → Global → Ptr → Option Global
drain_pending fuel g tc =
    let c = g.threads.caches tc in
    if c.remote_frees == null then some g else elim g.arena [
      | none ↦ none
      | some a ↦ elim (drain_remote_frees fuel c g.heap a) [
        | none ↦ none
        | some (c1, h1) ↦ some (put_cache (record g { heap = h1 }) tc c1)
      ]
    ]

unfoldable pub slab_alloc : Global → (tc class : ℕ) → Option (Ptr × Global)
slab_alloc g tc class =
    let c = g.threads.caches tc in
    if alloc_needs_page c.slab class
    then elim g.arena [
      | none ↦ none
      | some a ↦
          let (p, s1, h1, a1) = Slab.alloc c.slab g.heap a class c.id in
          some (p, put_cache (record g { heap = h1; arena = some a1 }) tc (record c { slab = s1 }))
    ]
    else elim (alloc_no_arena c.slab g.heap class) [
      | none ↦ none
      | some (q, s2, h2) ↦ some (q, put_cache (record g { heap = h2 }) tc (record c { slab = s2 }))
    ]

unfoldable pub cache_malloc : ℕ → Global → (tc class : ℕ) → Option (Ptr × Global)
cache_malloc fuel g tc class = elim (drain_pending fuel g tc) [
  | none ↦ none
  | some g1 ↦ slab_alloc g1 tc class
]

module _ (os : Os) where
  abbrev pub with_state : os.State → Option (Ptr × Global) → Option (Ptr × os.State × Global)
  with_state s r = elim r [ none ↦ none | some (p, g) ↦ some (p, s, g) ]

  -- What the cache gave, or the slow path when it gave null.
  unfoldable pub or_slow : os.State → Option (Ptr × Global) → ℕ → Option (Ptr × os.State × Global)
  or_slow s none size = none
  or_slow s (some (p, g)) size =
      if p == null then with_state s (malloc_slow g size) else some (p, s, g)

  unfoldable pub malloc_with :
      ℕ → Option Ptr → os.State → Global → (size class : ℕ) → Option (Ptr × os.State × Global)
  malloc_with fuel none s g size class = with_state s (malloc_slow g size)
  malloc_with fuel (some tc) s g size class = or_slow s (cache_malloc fuel g tc class) size

  -- After `ensure_init`, for a size with a class.
  unfoldable pub small_malloc :
      ℕ → os.State → Global → (size class : ℕ) → Option (Ptr × os.State × Global)
  small_malloc fuel s g size class =
      let (found, s1, ts) = get_or_create os s g.threads in
      malloc_with fuel found s1 (record g { threads = ts }) size class

  unfoldable pub ferrum_malloc : ℕ → os.State → Global → ℕ → Option (Ptr × os.State × Global)
  ferrum_malloc fuel s g size =
      let (s1, g1) = ensure_init os s g in
      let (p, s2, m) = huge_alloc os s1 g1.heap.mem size in
      if size == 0
      then some (null, s, g)
      else if leb huge_alloc_threshold size
      then some (p, s2, global_mem g1 m)
      else if leb size slab_max_size
      then elim (size_to_class size) [
        | none ↦ with_state s1 (malloc_slow g1 size)
        | some class ↦ small_malloc fuel s1 g1 size class
      ]
      else with_state s1 (malloc_slow g1 size)
