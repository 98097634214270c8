-- ===== src/Api/Medium/Blocks.antt =====
-- The blocks above the slab sizes and below the huge ones that a program holds from src/api.rs: in the
-- pool of the TLSF allocator, and behind it in the arena.
use ferrum_alloc.Base.{
  ℕ, ◌+◌, ◌-◌, ◌/◌, ◌%◌, ◌≤◌, ◌<◌, ◌≡◌, ◌≢◌, ◌∙◌, sym, true, false, arith, ltb, if◌then◌else◌,
  Bool-cases, inl, inr,
}
use ferrum_alloc.Memory.{Ptr}
use ferrum_alloc.Page.{Heap}
use ferrum_alloc.Platform.{page_size, default_arena_size}
use ferrum_alloc.Arena.{
  Arena, data_start_offset, meta_pages, meta_ptr, page_addr, ptr_to_page_index,
}
use ferrum_alloc.Arena.Pages.{IsArena, ptr_to_page_index_lem}
use ferrum_alloc.Tlsf.Allocator
use ferrum_alloc.Tlsf.Allocator.{Tlsf}
use ferrum_alloc.Tlsf.Mapping.{header_size}
use ferrum_alloc.Tlsf.Pool.Owned.{Owned}
use ferrum_alloc.Tlsf.Pool.Run.{IsServed}
use ferrum_alloc.Tlsf.Pool.Served.{served-inside, served-apart}
use ferrum_alloc.Api.Global.{tlsf_pool_size}
use ferrum_alloc.Api.Medium.{tlsf_of, IsPlaced, IsLarge}

-- What is held in the pool.
abbrev pub in_pool : Tlsf → (Ptr → ℕ) → Ptr → ℕ
in_pool t held p = if ltb p t.pool_end then held p else 0

-- The pool serves what is held there, and what is held behind it is on pages that are handed out.
pub record IsHeap (h : Heap) (a : Arena) (t : Tlsf) (held : Ptr → ℕ) : Type 0 where
  pub sound : IsArena a
  pub past : meta_pages + tlsf_pool_size / page_size ≤ a.next_free_page
  pub placed : IsPlaced h a t
  pub marked :
      (i : ℕ) → meta_pages ≤ i → i < a.next_free_page → (h.metas (meta_ptr a i)).size_class ≡ 0xFF
  pub served : IsServed t.pool_start tlsf_pool_size (tlsf_of h t) (in_pool t held)
  pub behind :
      (p : Ptr)
      → t.pool_end ≤ p
      → held p ≢ 0
      → (p % 16 ≡ 0) × (p + held p ≤ page_addr a a.next_free_page)
  pub apart : (p q : Ptr) → t.pool_end ≤ p → p < q → held p ≢ 0 → held q ≢ 0 → p + held p ≤ q

module _ (h : Heap) (a : Arena) (t : Tlsf) (held : Ptr → ℕ) (v : IsHeap h a t held) where
  -- Where a block of the pool lies.
  pub pool-inside :
      (p : Ptr)
      → p < t.pool_end
      → held p ≢ 0
      → (t.pool_start + 16 ≤ p) × (p + held p + 16 ≤ t.pool_end) × (p % 16 ≡ 0)
  pool-inside p low has_p =
      let there : in_pool t held p ≡ held p = ground arith in
      let (x, y, z) =
        served-inside t.pool_start tlsf_pool_size (tlsf_of h t) (in_pool t held) v.served
          (omega arith) p (λ e. has_p (sym there ∙ e)) in
      (x, omega (arith, y, there, v.placed.start, v.placed.end), z)

  -- What the program holds lies in the data pages, 16-byte aligned.
  pub heap-inside :
      (p : Ptr)
      → held p ≢ 0
      → (a.base + data_start_offset ≤ p)
        × (p + held p ≤ page_addr a a.next_free_page)
        × (p % 16 ≡ 0)
  unfolding page_addr
  heap-inside p has_p = elim (Bool-cases (ltb p t.pool_end)) [
    | inl low ↦
        let (x, y, z) = pool-inside p (ground arith) has_p in
        (omega (arith, v.placed.start), omega (arith, v.placed.end, v.past), z)
    | inr high ↦
        let (z, y) = v.behind p (ground arith) has_p in (ground (arith, v.placed.end), y, z)
  ]

  -- Two blocks do not overlap.
  pub heap-apart : (p q : Ptr) → held p ≢ 0 → held q ≢ 0 → p < q → p + held p ≤ q
  heap-apart p q has_p has_q lt = elim (Bool-cases (ltb p t.pool_end)) [
    | inl low ↦ elim (Bool-cases (ltb q t.pool_end)) [
      | inl low' ↦
          let e : in_pool t held p ≡ held p = ground arith in
          let e' : in_pool t held q ≡ held q = ground arith in
          omega (
            arith,
            served-apart t.pool_start tlsf_pool_size (tlsf_of h t) (in_pool t held) v.served p q
                (λ z. has_p (sym e ∙ z)) (λ z. has_q (sym e' ∙ z)) lt,
          )
      | inr high' ↦ ground (arith, pool-inside p (ground arith) has_p)
    ]
    | inr high ↦ v.apart p q (ground arith) lt has_p has_q
  ]

  -- Its pages belong to no slab.
  pub heap-IsLarge : (p : Ptr) → held p ≢ 0 → IsLarge h a p
  unfolding page_addr
  heap-IsLarge p has_p =
      let (above, below, even) = heap-inside p has_p in
      let high : p < a.base + default_arena_size = omega (arith, v.sound.below) in
      let (first, last, lower, upper) : (meta_pages ≤ ptr_to_page_index a p)
          × (ptr_to_page_index a p < 512)
          × (page_addr a (ptr_to_page_index a p) ≤ p)
          × (p < page_addr a (ptr_to_page_index a p) + page_size) =
        ground (arith, ptr_to_page_index_lem a p v.sound.sized) in
      record {
        sized = v.sound.sized;
        above = above;
        below = high;
        large = v.marked (ptr_to_page_index a p) first (omega arith);
      }

  pub heap-contains : (p : Ptr) → p < t.pool_end → held p ≢ 0 → Allocator.contains t p ≡ true
  unfolding Allocator.contains
  heap-contains p low has_p = ground (arith, pool-inside p low has_p)

  -- A word of a block in the pool.
  pub heap-Owned :
      (p x : Ptr)
      → Allocator.contains t p ≡ true
      → held p ≢ 0
      → p ≤ x
      → x < p + held p
      → Owned t.pool_start v.served.blocks (p - header_size) x
  unfolding Allocator.contains
  heap-Owned p x own has_p above below =
      let low : p < t.pool_end = ground arith in
      let there : in_pool t held p ≡ held p = ground arith in
      let (room, fits) = v.served.granted p (λ e. has_p (sym there ∙ e)) in
      record {
        used = λ e. has_p (omega (arith, fits, there));
        low = omega arith;
        high = omega (arith, fits, there, room);
      }

  pub pool-address :
      (p q : Ptr)
      → Allocator.contains t p ≡ true
      → held p ≢ 0
      → p - header_size + header_size ≡ q
      → p ≡ q
  unfolding Allocator.contains
  pool-address p q own has_p e = ground (arith, pool-inside p (ground arith) has_p)

pub outside-contains : (t : Tlsf) (p : Ptr) → t.pool_end ≤ p → Allocator.contains t p ≡ false
unfolding Allocator.contains
outside-contains t p high = ground arith
