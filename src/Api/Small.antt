-- ===== src/Api/Small.antt =====
-- The fast path of `ferrum_malloc` (src/api.rs): a small request of a thread with a cache.
use ferrum_alloc.Base.{
  ℕ, ◌+◌, ◌*◌, ◌%◌, ◌^◌, ◌≤◌, ◌<◌, ◌≡◌, ◌≢◌, ap, ◌∙◌, true, false, some, Option, List, ◌∷◌, inl,
  inr, arith, ◌==◌, leb, ltb,
}
use ferrum_alloc.Memory.{Ptr, null}
use ferrum_alloc.Platform.{Os, page_size, default_arena_size}
use ferrum_alloc.SizeClass.{slab_max_size, size_to_class, class_to_size}
use ferrum_alloc.SizeClass.Bounds.{size_to_class-IsTightest}
use ferrum_alloc.Arena
use ferrum_alloc.Arena.{Arena, meta_pages, pages_per_arena, meta_ptr, page_addr, ptr_to_page_index}
use ferrum_alloc.Slab.{take_first, alloc_no_arena}
use ferrum_alloc.Slab.Slots.{IsPage, take_first-IsPage}
use ferrum_alloc.Huge.{huge_alloc_threshold}
use ferrum_alloc.ThreadCache.{ThreadCache, Threads, no_key, get_or_create}
use ferrum_alloc.Api.Global.{Global, ensure_init}
use ferrum_alloc.Api.Malloc.{
  ferrum_malloc, small_malloc, malloc_with, or_slow, cache_malloc, slab_alloc, drain_pending,
  put_cache,
}
use ferrum_alloc.Api.Free.{ferrum_usable_size, locked_size}
use ferrum_alloc.Api.Routes.{ready}

-- The cache of the current thread, when it has one.
abbrev pub own_cache : (os : Os) → os.State → Global → Ptr
own_cache os s g = os.getspecific s (g.threads.tls_key % 2 ^ 32)

-- The cache at `tc` has no remote frees, and its first page of `class` is page `i` of the arena, with
-- the free slots `ks`.
pub record IsServing (g : Global) (a : Arena) (tc class i : ℕ) (ks : List ℕ) : Type 0 where
  pub idle : (g.threads.caches tc).remote_frees ≡ null
  pub sized : a.total_size ≡ default_arena_size
  pub above : meta_pages ≤ i
  pub below : i < pages_per_arena
  pub entry : (g.threads.caches tc).slab.partial_pages class ≡ meta_ptr a i
  pub place :
      (g.heap.metas ((g.threads.caches tc).slab.partial_pages class)).page_addr ≡ page_addr a i
  pub page : IsPage g.heap ((g.threads.caches tc).slab.partial_pages class) class ks

module _ (os : Os) (fuel : ℕ) (s : os.State) (g : Global) (a : Arena) (class i k : ℕ) (ks : List ℕ)
    (keyed : g.threads.tls_key ≢ no_key) (known : own_cache os s g ≢ null)
    (v : IsServing g a (own_cache os s g) class i (k ∷ ks)) where
  abbrev tc : Ptr
  tc = own_cache os s g

  abbrev c : ThreadCache
  c = g.threads.caches tc

  abbrev slot : Ptr
  slot = (take_first c.slab g.heap class).0

  -- The state after the allocation.
  abbrev pub served : Global
  served =
      let (p, s1, h1) = take_first c.slab g.heap class in
      put_cache (record (ready g a) { heap = h1 }) tc (record c { slab = s1 })

  taken :
      (slot ≡ page_addr a i + k * class_to_size class)
      × (slot + class_to_size class ≤ page_addr a i + page_size)
      × IsPage served.heap (meta_ptr a i) class ks
  taken = rw (v.place, v.entry) at (take_first-IsPage c.slab g.heap class k ks v.page)

  slab_alloc-served : slab_alloc (ready g a) tc class ≡ some (slot, served)
  unfolding slab_alloc alloc_no_arena meta_ptr
  slab_alloc-served =
      let full : (c.slab.partial_pages class == null) ≡ false = ground (arith, v.entry) in rw full

  cache_malloc-served : cache_malloc fuel (ready g a) tc class ≡ some (slot, served)
  unfolding cache_malloc drain_pending
  cache_malloc-served =
      let none_pending : (c.remote_frees == null) ≡ true = ground (arith, v.idle) in
      rw (cache_malloc, none_pending) slab_alloc-served

  slot-real : (slot == null) ≡ false
  unfolding page_addr
  slot-real = ground (arith, taken.0, v.above)

  found : get_or_create os s g.threads ≡ (some tc, s, g.threads)
  unfolding get_or_create
  found =
      let has_key : (g.threads.tls_key == no_key) ≡ false = ground arith in
      let has_cache : (own_cache os s g == null) ≡ false = ground arith in rw (has_key, has_cache)

  small_malloc-served :
      (size : ℕ) → small_malloc os fuel s (ready g a) size class ≡ some (slot, s, served)
  unfolding small_malloc malloc_with or_slow
  small_malloc-served size =
      ap
        (λ (r : Option Ptr × os.State × Threads).
          malloc_with os fuel r.0 r.1 (record (ready g a) { threads = r.2 }) size class)
        found
      ∙ ap (λ (r : Option (Ptr × Global)). or_slow os s r size) cache_malloc-served
      ∙ rw slot-real

  slot-contains : 0 < class_to_size class → Arena.contains a slot ≡ true
  unfolding Arena.contains page_addr
  slot-contains pos = ground (arith, taken.0, taken.1, v.sized, v.below)

  slot-page_index : 0 < class_to_size class → ptr_to_page_index a slot ≡ i
  unfolding ptr_to_page_index page_addr
  slot-page_index pos = ground (arith, taken.0, taken.1, v.sized, v.above, v.below)

  usable_size-served :
      0 < class_to_size class
      → ferrum_usable_size os s served slot ≡ some (class_to_size class, s, served)
  unfolding ferrum_usable_size locked_size ensure_init
  usable_size-served pos =
      let past_meta : ltb 0 i ≡ true = ground (arith, v.above) in
      let classed : (served.heap.metas (meta_ptr a i)).size_class ≡ class = taken.2.classed in
      let slab_page : (class == 0xFF) ≡ false = ground (arith, v.page.known) in
      rw (slot-real, slot-contains pos, slot-page_index pos, past_meta, classed, slab_page)

  -- A small request of a thread whose cache has a page of the class with a free slot, in an
  -- initialised allocator and with no remote frees pending: it gets the page's first free slot, which
  -- lies in the page and is as large as asked for, and `ferrum_usable_size` gives the slot's size.
  pub ferrum_malloc-small :
      (size : ℕ)
      → 0 < size
      → size_to_class size ≡ some class
      → (ferrum_malloc os fuel s (ready g a) size ≡ some (slot, s, served))
        × (slot ≡ page_addr a i + k * class_to_size class)
        × (slot + class_to_size class ≤ page_addr a i + page_size)
        × (size ≤ class_to_size class)
        × (ferrum_usable_size os s served slot ≡ some (class_to_size class, s, served))
        × IsPage served.heap (meta_ptr a i) class ks
  unfolding ferrum_malloc ensure_init
  ferrum_malloc-small size pos sized =
      let (at, inside, page) = taken in
      elim (size_to_class-IsTightest size) [
        | inr (large, e) ↦ absurd (ground arith)
        | inl (small, d, e, tight) ↦
            let some_size : (size == 0) ≡ false = ground arith in
            let not_huge : leb huge_alloc_threshold size ≡ false = ground arith in
            let fits : leb size slab_max_size ≡ true = ground arith in
            let same : d ≡ class = ground arith in
            let holds : size ≤ class_to_size class = ground (arith, tight.fits) in
            (
              rw (some_size, not_huge, fits, sized) (small_malloc-served size),
              at,
              inside,
              holds,
              usable_size-served (omega arith),
              page,
            )
      ]
