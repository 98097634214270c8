-- ===== src/Arena/Pages.antt =====
-- The pages of src/arena.rs: inside the arena, never handed out twice, and found again by address.
use ferrum_alloc.Base.{ℕ, ◌+◌, ◌^◌, ◌≤◌, ◌<◌, ◌≡◌, refl, arith, some, none, ◌⊎◌}
use ferrum_alloc.Memory.{Ptr, null}
use ferrum_alloc.Page.{Heap}
use ferrum_alloc.Platform.{page_size, default_arena_size}
use ferrum_alloc.Arena.{
  Arena, pages_per_arena, meta_pages, data_start_offset, page_meta_size, meta_ptr, meta_index,
  page_addr, alloc_page, alloc, reset, ptr_to_page_index, bytes_used, bytes_remaining, capacity,
}

-- The bump index stays between the metadata and the end.
pub record IsArena (a : Arena) : Type 0 where
  pub sized : a.total_size ≡ default_arena_size
  pub above : meta_pages ≤ a.next_free_page
  pub below : a.next_free_page ≤ pages_per_arena

-- A well-formed arena that is reset stays so and has all of its data pages free.
pub reset-IsArena :
    (a : Arena) → IsArena a → IsArena (reset a) × (bytes_remaining (reset a) ≡ capacity a)
unfolding reset bytes_remaining
reset-IsArena a v = (record { sized = v.sized; above = omega arith; below = omega arith }, refl)

-- On a well-formed arena `alloc_page` hands out the next data page and its entry while there is
-- one, moves on by one page, and otherwise changes nothing.
pub alloc_page-IsArena :
    (a : Arena)
    → IsArena a
    → let (page, a1) = alloc_page a in
      IsArena a1
      × ((page ≡ none) × (a1 ≡ a) × (bytes_remaining a ≡ 0)
          ⊎ (page ≡ some (meta_ptr a a.next_free_page, page_addr a a.next_free_page))
            × (a.base + data_start_offset ≤ page_addr a a.next_free_page)
            × (page_addr a a.next_free_page + page_size ≡ page_addr a a1.next_free_page)
            × (page_addr a a1.next_free_page ≤ a.base + a.total_size))
unfolding alloc_page page_addr bytes_remaining
alloc_page-IsArena a v = (ground arith, ground arith)

-- On a well-formed arena and for a size whose rounding does not wrap, `alloc` of a size that fits
-- hands out whole pages from the bump index up to the new one, as many as the size needs; else it
-- returns null and changes nothing.
pub alloc-IsArena :
    (a : Arena) (h : Heap) (size : ℕ)
    → IsArena a
    → size + page_size ≤ 2 ^ 64
    → let (p, a1, h1) = alloc a h size in
      IsArena a1
      × ((p ≡ null) × (a1 ≡ a) × (h1 ≡ h) × ((size ≡ 0) ⊎ (bytes_remaining a < size))
          ⊎ (p ≡ page_addr a a.next_free_page)
            × (0 < size)
            × (p + size ≤ page_addr a a1.next_free_page)
            × (page_addr a a1.next_free_page < p + size + page_size)
            × (page_addr a a1.next_free_page ≤ a.base + a.total_size))
unfolding alloc page_addr bytes_remaining
alloc-IsArena a h size v fits = (ground arith, ground arith)

-- In an arena of the default size, an address outside the data pages gives 0, and every other one
-- gives the index of the data page that it lies in.
pub ptr_to_page_index_lem :
    (a : Arena) (p : Ptr)
    → a.total_size ≡ default_arena_size
    → ((p < a.base + data_start_offset) ⊎ (a.base + default_arena_size ≤ p))
        × (ptr_to_page_index a p ≡ 0)
      ⊎ (meta_pages ≤ ptr_to_page_index a p)
        × (ptr_to_page_index a p < pages_per_arena)
        × (page_addr a (ptr_to_page_index a p) ≤ p)
        × (p < page_addr a (ptr_to_page_index a p) + page_size)
unfolding ptr_to_page_index page_addr
ptr_to_page_index_lem a p e = ground arith

-- The entries of an arena's pages lie between the first page and the data, and the address of an
-- entry gives back its index.
pub meta_index-meta_ptr :
    (a : Arena) (i : ℕ)
    → i < pages_per_arena
    → (meta_index a (meta_ptr a i) ≡ i)
      × (a.base + page_size ≤ meta_ptr a i)
      × (meta_ptr a i + page_meta_size ≤ a.base + data_start_offset)
unfolding meta_index meta_ptr
meta_index-meta_ptr a i h = omega arith

-- In a well-formed arena the bytes handed out and the bytes left make up the capacity.
pub bytes_used-add-remaining :
    (a : Arena) → IsArena a → bytes_used a + bytes_remaining a ≡ capacity a
unfolding bytes_used bytes_remaining
bytes_used-add-remaining a v = omega arith
