-- ===== src/Api/Medium.antt =====
-- Requests above the slab sizes and below the huge ones in src/api.rs: the TLSF allocator, and the
-- arena behind it.
pub mod Served
pub mod Start
pub mod Blocks
pub mod Steps
pub mod Calls
pub mod Reached
pub mod Usable
pub mod Tests
use ferrum_alloc.Base.{
  ℕ, ◌+◌, ◌/◌, ◌≤◌, ◌<◌, ◌≡◌, ◌≢◌, ap, ◌∙◌, true, false, ◌&&◌, some, none, Option, List, arith, leb,
  ltb, ◌==◌, if◌then◌else◌,
}
use ferrum_alloc.Memory.{Ptr, null}
use ferrum_alloc.Page.{Heap}
use ferrum_alloc.Platform.{Os, page_size, default_arena_size}
use ferrum_alloc.SizeClass.{slab_max_size}
use ferrum_alloc.Arena
use ferrum_alloc.Arena.{
  Arena, data_start_offset, meta_pages, meta_ptr, page_addr, ptr_to_page_index,
}
use ferrum_alloc.Arena.Pages.{ptr_to_page_index_lem}
use ferrum_alloc.Huge.{huge_alloc_threshold}
use ferrum_alloc.ThreadCache.{get_or_create}
use ferrum_alloc.Tlsf.Allocator
use ferrum_alloc.Tlsf.Allocator.{Tlsf, with_mem}
use ferrum_alloc.Tlsf.Mapping.{header_size}
use ferrum_alloc.Tlsf.Pool.{Part, stop}
use ferrum_alloc.Tlsf.Pool.State.{IsPool}
use ferrum_alloc.Api.Global.{Global, tlsf_pool_size, put_tlsf, ensure_init}
use ferrum_alloc.Api.Malloc.{ferrum_malloc, malloc_slow, tlsf_alloc}
use ferrum_alloc.Api.Free.{
  ferrum_free, ferrum_usable_size, free_with, free_slow, free_inside, cache_free, is_small,
  locked_size, in_tlsf, tlsf_free,
}

-- The state once the arena `a` and the TLSF allocator `t` are in place.
abbrev pub serving : Global → Arena → Tlsf → Global
serving g a t = record g { arena_init = true; arena = some a; tlsf = some t }

-- The TLSF allocator with the memory.
abbrev pub tlsf_of : Heap → Tlsf → Tlsf
tlsf_of h t = with_mem t h.mem

-- Where `init_tlsf` has put the pool of `t`: on the first data pages of the arena, which no slab has.
pub record IsPlaced (h : Heap) (a : Arena) (t : Tlsf) : Type 0 where
  pub sized : a.total_size ≡ default_arena_size
  pub start : t.pool_start ≡ page_addr a meta_pages
  pub end : t.pool_end ≡ page_addr a meta_pages + tlsf_pool_size
  pub large :
      (i : ℕ)
      → meta_pages ≤ i
      → i < meta_pages + tlsf_pool_size / page_size
      → (h.metas (meta_ptr a i)).size_class ≡ 0xFF

-- The pool in the arena `a` consists of the blocks `ps`.
pub record HasPool (h : Heap) (a : Arena) (t : Tlsf) (ps : List Part) : Type 0 where
  pub placed : IsPlaced h a t
  pub pool : IsPool (tlsf_of h t) t.pool_start ps
  pub ends : stop t.pool_start ps + header_size ≤ t.pool_end

-- The address lies on a data page of the arena that no slab has.
pub record IsLarge (h : Heap) (a : Arena) (p : Ptr) : Type 0 where
  pub sized : a.total_size ≡ default_arena_size
  pub above : a.base + data_start_offset ≤ p
  pub below : p < a.base + default_arena_size
  pub large : (h.metas (meta_ptr a (ptr_to_page_index a p))).size_class ≡ 0xFF

-- An address in the pool.
pub IsPlaced-IsLarge :
    (h : Heap) (a : Arena) (t : Tlsf) (p : Ptr)
    → IsPlaced h a t
    → t.pool_start ≤ p
    → p < t.pool_end
    → IsLarge h a p × (Allocator.contains t p ≡ true)
unfolding page_addr Allocator.contains
IsPlaced-IsLarge h a t p v low high =
    let high' : p < a.base + default_arena_size = omega (arith, v.end) in
    let (above, below, lower, upper) : (meta_pages ≤ ptr_to_page_index a p)
        × (ptr_to_page_index a p < 512)
        × (page_addr a (ptr_to_page_index a p) ≤ p)
        × (p < page_addr a (ptr_to_page_index a p) + page_size) =
      ground (arith, ptr_to_page_index_lem a p v.sized, v.start, v.end) in
    (
      record {
        sized = v.sized;
        above = omega (arith, v.start);
        below = high';
        large = v.large (ptr_to_page_index a p) above (omega (arith, v.end, lower, upper));
      },
      ground arith,
    )

module _ (os : Os) (fuel : ℕ) (s : os.State) (g : Global) (a : Arena) (t : Tlsf) (size : ℕ)
    (above : slab_max_size < size) (below : size < huge_alloc_threshold) where
  -- A request goes to the TLSF allocator first.
  ferrum_malloc_slow :
      ferrum_malloc os fuel s (serving g a t) size
      ≡ elim (malloc_slow (serving g a t) size) [ none ↦ none | some (p, g1) ↦ some (p, s, g1) ]
  unfolding ferrum_malloc ensure_init
  ferrum_malloc_slow =
      let some_size : (size == 0) ≡ false = ground arith in
      let not_huge : leb huge_alloc_threshold size ≡ false = ground arith in
      let not_small : leb size slab_max_size ≡ false = ground arith in
      rw (some_size, not_huge, not_small)

  pub ferrum_malloc-tlsf :
      let (p, t1) = Allocator.alloc (tlsf_of g.heap t) size in
      p ≢ null
      → ferrum_malloc os fuel s (serving g a t) size ≡ some (p, s, put_tlsf (serving g a t) t1)
  unfolding malloc_slow tlsf_alloc
  ferrum_malloc-tlsf served =
      let real : ((Allocator.alloc (tlsf_of g.heap t) size).0 == null) ≡ false = ground arith in
      ferrum_malloc_slow ∙ rw real

  pub ferrum_malloc-arena :
      Allocator.alloc (tlsf_of g.heap t) size ≡ (null, tlsf_of g.heap t)
      → let (q, a1, h1) = Arena.alloc a g.heap size in
        ferrum_malloc os fuel s (serving g a t) size
        ≡ some (q, s, record (serving g a1 (tlsf_of g.heap t)) { heap = h1 })
  unfolding malloc_slow tlsf_alloc
  ferrum_malloc-arena refused = ferrum_malloc_slow ∙ rw refused

module _ (os : Os) (s : os.State) (g : Global) (a : Arena) (t : Tlsf) (p : Ptr)
    (v : IsLarge g.heap a p) where
  large-contains : Arena.contains a p ≡ true
  unfolding Arena.contains
  large-contains = ground (arith, v.sized, v.above, v.below)

  large-index : ltb 0 (ptr_to_page_index a p) ≡ true
  unfolding ptr_to_page_index
  large-index = ground (arith, v.sized, v.above, v.below)

  real : (p == null) ≡ false
  real = ground (arith, v.above)

  -- What `ferrum_free` leaves of the state.
  abbrev pub given_back : Global
  given_back =
      if Allocator.contains t p
      then put_tlsf (serving g a t) (Allocator.free (tlsf_of g.heap t) p)
      else serving g a t

  free_slow-large : free_slow os s (serving g a t) p ≡ some (s, given_back)
  unfolding free_slow free_inside in_tlsf tlsf_free
  free_slow-large = rw (large-contains, large-index, v.large)

  free_with-large :
      (found : Option Ptr) → free_with os found s (serving g a t) p ≡ some (s, given_back)
  unfolding free_with cache_free is_small
  free_with-large none = free_slow-large
  free_with-large (some tc) = rw (large-contains, large-index, v.large) free_slow-large

  pub usable_size-large :
      ferrum_usable_size os s (serving g a t) p
      ≡ some (
        if Allocator.contains t p then Allocator.usable_size g.heap.mem p else 0,
        s,
        serving g a t,
      )
  unfolding ferrum_usable_size locked_size in_tlsf ensure_init
  usable_size-large = rw (real, large-contains, large-index, v.large)

-- The caches may change, since each call looks for the thread's own.
pub ferrum_free-large :
    (os : Os) (s : os.State) (g : Global) (a : Arena) (t : Tlsf) (p : Ptr)
    → IsLarge g.heap a p
    → let (found, s1, ts) = get_or_create os s g.threads in
      ferrum_free os s (serving g a t) p
      ≡ some (
        s1,
        if Allocator.contains t p
            then put_tlsf
                (serving (record g { threads = ts }) a t)
                (Allocator.free (tlsf_of g.heap t) p)
            else serving (record g { threads = ts }) a t,
      )
unfolding ferrum_free ensure_init
ferrum_free-large os s g a t p v =
    let (found, s1, ts) = get_or_create os s g.threads in
    let g1 : Global = record g { threads = ts } in
    let block : (p == null) ≡ false = ground (arith, v.above) in
    rw block (free_with-large os s1 g1 a t p v found)
