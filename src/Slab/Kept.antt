-- ===== src/Slab/Kept.antt =====
-- The words that the operations of src/slab.rs leave as they are.
use ferrum_alloc.Base.{
  ℕ, ◌<◌, ◌≡◌, some, some-same, ◌≢◌, refl, arith, ◌==◌, leb, Bool-cases, inl, inr,
}
use ferrum_alloc.Memory.{Ptr, null, update, write_u16}
use ferrum_alloc.Page.{Heap}
use ferrum_alloc.Platform.{page_size}
use ferrum_alloc.SizeClass.{num_size_classes, class_to_size, slots_per_page}
use ferrum_alloc.Arena.{Arena, pages_per_arena, meta_ptr, page_addr, alloc_page}
use ferrum_alloc.Slab.{
  Slab, alloc, alloc_from, take_first, alloc_no_arena, free_no_arena, pop_slot, push_slot,
  init_page, retire_if_full, revive_if_full, push_partial_page, remove_partial_page,
}
use ferrum_alloc.Slab.FreeList.{init_slots-outside}
use ferrum_alloc.Slab.Slots.{slot_facts}

-- `alloc_no_arena` returns where the class has a page.
pub alloc_no_arena-some :
    (s : Slab) (h : Heap) (c : ℕ) (r : Ptr × Slab × Heap)
    → alloc_no_arena s h c ≡ some r
    → (s.partial_pages c ≢ null) × (take_first s h c ≡ r)
unfolding alloc_no_arena
alloc_no_arena-some s h c r e = elim (Bool-cases (s.partial_pages c == null)) [
  | inl none_listed ↦ absurd (ground (arith, rw none_listed at e))
  | inr listed ↦ (λ z. ground arith, some-same (take_first s h c) r (rw listed at e))
]

pub take_first-mem : (s : Slab) (h : Heap) (c : ℕ) → (take_first s h c).2.mem ≡ h.mem
unfolding take_first pop_slot retire_if_full remove_partial_page
take_first-mem s h c = ground arith

alloc_from-mem : (s : Slab) (h : Heap) (a : Arena) (c x : ℕ) → (alloc_from s h a c x).2.mem ≡ h.mem
unfolding alloc_from pop_slot retire_if_full remove_partial_page
alloc_from-mem s h a c x = ground arith

push_partial_page-mem : (s : Slab) (h : Heap) (c x : ℕ) → (push_partial_page s h c x).1.mem ≡ h.mem
unfolding push_partial_page
push_partial_page-mem s h c x = ground arith

-- An allocation changes nothing below the pages that are left.
pub alloc-mem :
    (s : Slab) (h : Heap) (a : Arena) (c owner y : ℕ)
    → c < num_size_classes
    → y < page_addr a a.next_free_page
    → (alloc s h a c owner).2.mem y ≡ h.mem y
unfolding alloc alloc_page
alloc-mem s h a c owner y known below =
    let x : Ptr = meta_ptr a a.next_free_page in
    let addr : Ptr = page_addr a a.next_free_page in
    let h1 : Heap = init_page h x addr c owner in
    let (pos, slots, few) = slot_facts c known in
    let made : h1.mem y ≡ h.mem y =
      unfold init_page in
      init_slots-outside addr (class_to_size c) pos (slots_per_page c page_size) h.mem y slots
        (λ j lt. omega arith) in
    let (s2, h2) = push_partial_page s h1 c x in
    elim (Bool-cases (s.partial_pages c == null)) [
      | inr listed ↦ rw (listed, alloc_from-mem s h a c (s.partial_pages c)) refl
      | inl none_listed ↦ elim (Bool-cases (leb pages_per_arena a.next_free_page)) [
        | inl full ↦ rw (none_listed, full) refl
        | inr room ↦
            rw
              (
                none_listed,
                room,
                alloc_from-mem s2 h2 (alloc_page a).1 c x,
                push_partial_page-mem s h1 c x,
              )
              made
      ]
    ]

-- A free writes at its slot's address alone.
pub free_no_arena-mem :
    (s : Slab) (h : Heap) (q x y : ℕ) → y ≢ q → (free_no_arena s h q x).1.mem y ≡ h.mem y
unfolding free_no_arena push_slot revive_if_full push_partial_page write_u16 update
free_no_arena-mem s h q x y ne = ground arith
