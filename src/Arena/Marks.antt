-- ===== src/Arena/Marks.antt =====
-- The entries that `new` and `alloc` of src/arena.rs write for the pages.
use ferrum_alloc.Base.{
  ℕ, zero, suc, ◌+◌, ◌-◌, ◌/◌, ◌%◌, ◌^◌, ltb, ◌≤◌, ◌<◌, ◌≡◌, refl, arith, ◌==◌, Bool-cases, inl,
  inr,
}
use ferrum_alloc.Memory.{Ptr, update}
use ferrum_alloc.Page.{Heap, empty, set_meta}
use ferrum_alloc.Arena.{Arena, pages_per_arena, meta_ptr, init_metas, mark_large, alloc}
use ferrum_alloc.Platform.{page_size}

-- No data word changes.
pub init_metas-mem : (a : Arena) (n : ℕ) (h : Heap) → (init_metas a n h).mem ≡ h.mem
unfolding init_metas
init_metas-mem a zero h = refl
init_metas-mem a (suc n) h = init_metas-mem a n h

pub mark_large-mem : (a : Arena) (n i : ℕ) (h : Heap) → (mark_large a n i h).mem ≡ h.mem
unfolding mark_large
mark_large-mem a zero i h = refl
mark_large-mem a (suc n) i h =
    mark_large-mem a n (i + 1)
      (set_meta h (meta_ptr a i) (record (h.metas (meta_ptr a i)) { size_class = 0xFF }))

-- Each of the first `n` entries is empty.
pub init_metas-empty :
    (a : Arena) (n i : ℕ) (h : Heap) → i < n → (init_metas a n h).metas (meta_ptr a i) ≡ empty
unfolding meta_ptr update init_metas
init_metas-empty a zero i h lt = absurd (omega arith)
init_metas-empty a (suc n) i h lt = elim (Bool-cases (meta_ptr a i == meta_ptr a n)) [
  | inl same ↦ rw same
  | inr other ↦ rw other (init_metas-empty a n i h (ground arith))
]

-- A page that no slab has stays one.
pub mark_large-keeps :
    (a : Arena) (n i : ℕ) (h : Heap) (x : Ptr)
    → (h.metas x).size_class ≡ 0xFF
    → ((mark_large a n i h).metas x).size_class ≡ 0xFF
unfolding update mark_large
mark_large-keeps a zero i h x e = e
mark_large-keeps a (suc n) i h x e =
    mark_large-keeps a n (i + 1)
      (set_meta h (meta_ptr a i) (record (h.metas (meta_ptr a i)) { size_class = 0xFF })) x
      (ground arith)

-- Each of the pages from `i` on becomes one.
pub mark_large-marks :
    (a : Arena) (n i j : ℕ) (h : Heap)
    → i ≤ j
    → j < i + n
    → ((mark_large a n i h).metas (meta_ptr a j)).size_class ≡ 0xFF
unfolding update meta_ptr mark_large
mark_large-marks a zero i j h low high = absurd (omega arith)
mark_large-marks a (suc n) i j h low high =
    let h1 : Heap =
      set_meta h (meta_ptr a i) (record (h.metas (meta_ptr a i)) { size_class = 0xFF }) in
    elim (Bool-cases (j == i)) [
      | inl same ↦ mark_large-keeps a n (i + 1) h1 (meta_ptr a j) (ground arith)
      | inr other ↦ mark_large-marks a n (i + 1) j h1 (ground arith) (omega arith)
    ]

-- `alloc` changes no data word, and hands out pages that no slab has.
pub alloc-mem : (a : Arena) (h : Heap) (size : ℕ) → (alloc a h size).2.mem ≡ h.mem
unfolding alloc
alloc-mem a h size =
    let n : ℕ = (size + 4096 - 1) % 2 ^ 64 / page_size in
    elim (Bool-cases (size == 0)) [
      | inl nothing ↦ rw nothing
      | inr some_bytes ↦ elim (Bool-cases (ltb pages_per_arena (a.next_free_page + n))) [
        | inl full ↦ rw (some_bytes, full)
        | inr fits ↦ rw (some_bytes, fits) (mark_large-mem a n a.next_free_page h)
      ]
    ]

pub alloc-marks :
    (a : Arena) (h : Heap) (size low : ℕ)
    → ((i : ℕ) → low ≤ i → i < a.next_free_page → (h.metas (meta_ptr a i)).size_class ≡ 0xFF)
    → (i : ℕ) → low ≤ i
    → i < (alloc a h size).1.next_free_page
    → ((alloc a h size).2.metas (meta_ptr a i)).size_class ≡ 0xFF
unfolding alloc
alloc-marks a h size low marked i above below =
    let n : ℕ = (size + 4096 - 1) % 2 ^ 64 / page_size in
    elim (Bool-cases (size == 0)) [
      | inl nothing ↦ rw nothing (marked i above (rw nothing at below))
      | inr some_bytes ↦ elim (Bool-cases (ltb pages_per_arena (a.next_free_page + n))) [
        | inl full ↦ rw (some_bytes, full) (marked i above (rw (some_bytes, full) at below))
        | inr fits ↦
            let below' : i < (a.next_free_page + n) % 2 ^ 16 = rw (some_bytes, fits) at below in
            rw (some_bytes, fits)
              (elim (Bool-cases (ltb i a.next_free_page)) [
                | inl old ↦
                    mark_large-keeps a n a.next_free_page h (meta_ptr a i)
                      (marked i above (ground arith))
                | inr new ↦ mark_large-marks a n a.next_free_page i h (ground arith) (omega arith)
              ])
      ]
    ]

pub alloc-base : (a : Arena) (h : Heap) (size : ℕ) → (alloc a h size).1.base ≡ a.base
unfolding alloc
alloc-base a h size = ground arith
