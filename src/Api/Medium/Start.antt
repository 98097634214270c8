-- ===== src/Api/Medium/Start.antt =====
-- What `ensure_init` of src/api.rs makes of an arena that the system maps.
use ferrum_alloc.Base.{
  ℕ, ◌+◌, ◌/◌, ◌%◌, ◌^◌, ◌≤◌, ◌<◌, ◌≡◌, ◌≢◌, refl, ap, ◌∙◌, sym, subst, false, [], ◌∷◌, arith, ◌==◌,
  leb, some,
}
use ferrum_alloc.Memory.{Ptr, null}
use ferrum_alloc.Page.{Heap}
use ferrum_alloc.Platform.{Os, page_size, default_arena_size, os_alloc}
use ferrum_alloc.Arena
use ferrum_alloc.Arena.{
  Arena, fresh, pages_per_arena, meta_pages, page_addr, init_metas, mark_large,
}
use ferrum_alloc.Arena.Pages.{IsArena}
use ferrum_alloc.Arena.Marks.{mark_large-marks}
use ferrum_alloc.SizeClass.{slab_max_size}
use ferrum_alloc.Huge.{huge_alloc_threshold}
use ferrum_alloc.Slab
use ferrum_alloc.ThreadCache.{Threads, init_tls, get_or_create}
use ferrum_alloc.Tlsf.Allocator
use ferrum_alloc.Tlsf.Allocator.{Tlsf, add_pool}
use ferrum_alloc.Tlsf.Pool.{free_part}
use ferrum_alloc.Tlsf.Pool.State.{IsPool}
use ferrum_alloc.Tlsf.Pool.Alloc.{alloc-served, align_up_size_lem}
use ferrum_alloc.Tlsf.Pool.Start.{pool_payload, add_pool-IsPool}
use ferrum_alloc.Tlsf.Pool.Place.{place, add_pool-place}
use ferrum_alloc.Api.Global.{Global, tlsf_pool_size, put_tlsf, init_tlsf, init_with, ensure_init}
use ferrum_alloc.Api.Malloc.{ferrum_malloc}
use ferrum_alloc.Api.Free.{ferrum_free}
use ferrum_alloc.Api.Routes.{untouched}
use ferrum_alloc.Api.Medium.{serving, HasPool}
use ferrum_alloc.Api.Medium.Served.{ferrum_malloc-ferrum_free}

-- The state that the first call leaves.
module _ (os : Os) (s : os.State) (g : Global) where
  abbrev pub mapped : Ptr
  mapped = (os_alloc os s default_arena_size).0

  abbrev pub new_arena : Arena
  new_arena = fresh mapped g.arena_ids

  abbrev pub new_heap : Heap
  new_heap =
      mark_large new_arena (tlsf_pool_size / page_size) meta_pages
        (init_metas new_arena pages_per_arena g.heap)

  abbrev pub first_arena : Arena
  first_arena = record new_arena {
    next_free_page = meta_pages + tlsf_pool_size / page_size;
    alloc_count = 1;
  }

  abbrev pub first_tlsf : Tlsf
  first_tlsf = add_pool (Allocator.new new_heap.mem) (page_addr new_arena meta_pages) tlsf_pool_size

  abbrev pub first_state : os.State × Threads
  first_state = init_tls os (os_alloc os s default_arena_size).1 g.threads

  abbrev pub first_global : Global
  first_global =
      put_tlsf
        (serving
          (record g {
            slab = Slab.new;
            threads = first_state.1;
            heap = new_heap;
            arena_ids = (g.arena_ids + 1) % 2 ^ 32;
          })
          first_arena first_tlsf)
        first_tlsf

  ensure_init-first : mapped ≢ null → ensure_init os s (untouched g) ≡ (first_state.0, first_global)
  unfolding ensure_init init_with init_tlsf Arena.new Arena.alloc page_addr
  ensure_init-first real =
      let made : (mapped == null) ≡ false = ground arith in
      let pool : (page_addr new_arena meta_pages == null) ≡ false = ground arith in rw (made, pool)

  first_place :
      place first_tlsf
      ≡ (page_addr new_arena meta_pages, page_addr new_arena meta_pages + tlsf_pool_size)
  first_place =
      add_pool-place (Allocator.new new_heap.mem) (page_addr new_arena meta_pages) tlsf_pool_size
        (omega arith)

  -- The first call on an allocator whose arena the system maps, at a page that is not null, leaves
  -- the arena with the pool of the TLSF allocator on its first pages: one free block.
  pub ensure_init-HasPool :
      mapped ≢ null
      → mapped % page_size ≡ 0
      → (ensure_init os s (untouched g) ≡ (first_state.0, first_global))
        × IsArena first_arena
        × HasPool first_global.heap first_arena first_tlsf
            (free_part (pool_payload tlsf_pool_size) ∷ [])
  unfolding page_addr Arena.meta_ptr
  ensure_init-HasPool real paged =
      let base : Ptr = page_addr new_arena meta_pages in
      let start : first_tlsf.pool_start ≡ base = ap (λ (r : Ptr × Ptr). r.0) first_place in
      let end : first_tlsf.pool_end ≡ base + tlsf_pool_size =
        ap (λ (r : Ptr × Ptr). r.1) first_place in
      let pool =
        add_pool-IsPool new_heap.mem base tlsf_pool_size (λ e. omega arith) (omega arith)
          (omega arith) (omega arith) in
      (
        ensure_init-first real,
        record { sized = refl; above = omega arith; below = omega arith },
        record {
          placed = record {
            sized = refl;
            start = start;
            end = end;
            large = λ i low high.
                mark_large-marks new_arena (tlsf_pool_size / page_size) meta_pages i
                  (init_metas new_arena pages_per_arena g.heap) low high;
          };
          pool =
              subst
                (λ (b : Ptr). IsPool first_tlsf b (free_part (pool_payload tlsf_pool_size) ∷ []))
                (sym start) pool;
          ends = omega (arith, start, end);
        },
      )

  ensure_init-again : ensure_init os first_state.0 first_global ≡ (first_state.0, first_global)
  unfolding ensure_init
  ensure_init-again = refl

  -- Such a request on an allocator without its arena is one on the state that the first call leaves.
  pub ferrum_malloc-first :
      (fuel size : ℕ)
      → mapped ≢ null
      → slab_max_size < size
      → size < huge_alloc_threshold
      → ferrum_malloc os fuel s (untouched g) size
        ≡ ferrum_malloc os fuel first_state.0 first_global size
  unfolding ferrum_malloc
  ferrum_malloc-first fuel size real above below =
      let some_size : (size == 0) ≡ false = ground arith in
      let not_huge : leb huge_alloc_threshold size ≡ false = ground arith in
      let not_small : leb size slab_max_size ≡ false = ground arith in
      rw (some_size, not_huge, not_small, ensure_init-first real, ensure_init-again)

  -- In an allocator without its arena, and when the system maps it at a page that is not null, the
  -- first request above the slab sizes and below the huge ones gets a block, which the pool then
  -- lacks, and `ferrum_free` of it leaves the pool as one free block again.
  pub ferrum_malloc-first_served :
      (fuel size : ℕ)
      → mapped ≢ null
      → mapped % page_size ≡ 0
      → slab_max_size < size
      → size < huge_alloc_threshold
      → let (p, t1) = Allocator.alloc first_tlsf size in
        let g1 = put_tlsf first_global t1 in
        let (found, s2, ts) = get_or_create os first_state.0 first_state.1 in
        let t2 = Allocator.free t1 p in
        let g2 = put_tlsf (record g1 { threads = ts }) t2 in
        (p ≢ null)
        × (ferrum_malloc os fuel s (untouched g) size ≡ some (p, first_state.0, g1))
        × (size ≤ Allocator.usable_size t1.mem p)
        × (ferrum_free os first_state.0 g1 p ≡ some (s2, g2))
        × HasPool g2.heap first_arena t2 (free_part (pool_payload tlsf_pool_size) ∷ [])
  ferrum_malloc-first_served fuel size real paged above below =
      let (made, arena, v) = ensure_init-HasPool real paged in
      let w =
        alloc-served first_tlsf first_tlsf.pool_start (free_part (pool_payload tlsf_pool_size) ∷ [])
          v.pool size first_tlsf.pool_start (λ e. omega arith) (omega arith)
          (ground (arith, align_up_size_lem size (omega arith))) in
      let served : (Allocator.alloc first_tlsf size).0 ≢ null = λ e. omega (arith, w.address) in
      let (given, usable, enough, back, after) =
        ferrum_malloc-ferrum_free os fuel first_state.0 first_global first_arena first_tlsf
          (free_part (pool_payload tlsf_pool_size) ∷ []) v size above below served in
      (served, ferrum_malloc-first fuel size real above below ∙ given, enough, back, after)
