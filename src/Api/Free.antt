-- ===== src/Api/Free.antt =====
-- `ferrum_free` and `ferrum_usable_size` of src/api.rs. `none` stands for a null pointer that is read.
use ferrum_alloc.Base.{ℕ, Bool, not, ◌&&◌, false, Option, none, some, ltb, ◌==◌, if◌then◌else◌}
use ferrum_alloc.Memory.{Ptr, null}
use ferrum_alloc.Platform.{Os}
use ferrum_alloc.SizeClass.{class_to_size}
use ferrum_alloc.Arena
use ferrum_alloc.Arena.{Arena, ptr_to_page_index, meta_ptr}
use ferrum_alloc.Slab
use ferrum_alloc.Slab.{free_no_arena}
use ferrum_alloc.Huge.{huge_free, huge_usable_size}
use ferrum_alloc.ThreadCache.{get_or_create, remote_free_push}
use ferrum_alloc.Tlsf.Allocator
use ferrum_alloc.Tlsf.Allocator.{with_mem}
use ferrum_alloc.Api.Global.{Global, put_tlsf, ensure_init}
use ferrum_alloc.Api.Malloc.{put_cache}

-- `!GLOBAL_TLSF.is_null() && (&*GLOBAL_TLSF).contains(ptr)`
unfoldable pub in_tlsf : Global → Ptr → Bool
in_tlsf g p = elim g.tlsf [ none ↦ false | some t ↦ Allocator.contains t p ]

unfoldable pub tlsf_free : Global → Ptr → Global
tlsf_free g p = elim g.tlsf [
  | none ↦ g
  | some t ↦ put_tlsf g (Allocator.free (with_mem t g.heap.mem) p)
]

-- The slot's page is a slab page of the arena.
unfoldable pub is_small : Arena → Global → Ptr → Bool
is_small a g p =
    let index = ptr_to_page_index a p in
    Arena.contains a p && ltb 0 index && not ((g.heap.metas (meta_ptr a index)).size_class == 0xFF)

-- The slow path for an address inside the arena.
unfoldable pub free_inside : Arena → Global → Ptr → Global
free_inside a g p =
    let index = ptr_to_page_index a p in
    let (s1, h1) = Slab.free g.slab g.heap a p in
    if ltb 0 index
    then (if not ((g.heap.metas (meta_ptr a index)).size_class == 0xFF)
        then record g { slab = s1; heap = h1 }
        else if in_tlsf g p
        then tlsf_free g p
        else g)
    else g

module _ (os : Os) where
  unfoldable pub free_slow : os.State → Global → Ptr → Option (os.State × Global)
  free_slow s g p = elim g.arena [
    | none ↦ none
    | some a ↦
        some
          (if Arena.contains a p then (s, free_inside a g p) else (huge_free os s g.heap.mem p, g))
  ]

  -- With the cache at `tc`: a slot of its own, a slot of another cache, or the slow path.
  unfoldable pub cache_free : os.State → Global → (tc p : Ptr) → Option (os.State × Global)
  cache_free s g tc p = elim g.arena [
    | none ↦ none
    | some a ↦
        let c = g.threads.caches tc in
        let meta = meta_ptr a (ptr_to_page_index a p) in
        let owner_id = (g.heap.metas meta).owner_id in
        let (s1, h1) = free_no_arena c.slab g.heap p meta in
        let (ts, h2) = remote_free_push g.threads g.heap owner_id p in
        let slow = free_slow s g p in
        if is_small a g p
        then (if owner_id == c.id
            then some (s, put_cache (record g { heap = h1 }) tc (record c { slab = s1 }))
            else if owner_id == 0xFFFF
            then slow
            else some (s, record g { threads = ts; heap = h2 }))
        else slow
  ]

  unfoldable pub free_with : Option Ptr → os.State → Global → Ptr → Option (os.State × Global)
  free_with none s g p = free_slow s g p
  free_with (some tc) s g p = cache_free s g tc p

  unfoldable pub ferrum_free : os.State → Global → Ptr → Option (os.State × Global)
  ferrum_free s g p =
      let (s1, g1) = ensure_init os s g in
      let (found, s2, ts) = get_or_create os s1 g1.threads in
      if p == null then some (s, g) else free_with found s2 (record g1 { threads = ts }) p

  -- The part between `spin_lock` and `spin_unlock`.
  unfoldable pub locked_size : Arena → Global → Ptr → ℕ
  locked_size a g p =
      let index = ptr_to_page_index a p in
      let class = (g.heap.metas (meta_ptr a index)).size_class in
      if Arena.contains a p
      then (if ltb 0 index
          then (if not (class == 0xFF)
              then class_to_size class
              else if in_tlsf g p
              then Allocator.usable_size g.heap.mem p
              else 0)
          else 0)
      else huge_usable_size g.heap.mem p

  unfoldable pub ferrum_usable_size : os.State → Global → Ptr → Option (ℕ × os.State × Global)
  ferrum_usable_size s g p =
      let (s1, g1) = ensure_init os s g in
      if p == null
      then some (0, s, g)
      else elim g1.arena [ none ↦ none | some a ↦ some (locked_size a g1 p, s1, g1) ]
