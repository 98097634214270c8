-- ===== src/Slab.antt =====
-- src/slab.rs: pages of equal slots, with the free slots of a page chained through the slots
-- themselves and the pages of a class that have free slots in a doubly linked list.
pub mod FreeList
pub mod Slots
pub mod PageList
pub mod State
pub mod Take
pub mod Distinct
pub mod Give
pub mod Grow
pub mod Held
pub mod Serve
pub mod Steps
pub mod Return
pub mod Kept
pub mod Run
mod Tests
use ferrum_alloc.Base.{
  ℕ, zero, suc, ◌+◌, ◌-◌, ◌*◌, ◌/◌, ◌%◌, ◌^◌, Bool, Option, none, some, ◌==◌, ◌||◌, if◌then◌else◌,
}
use ferrum_alloc.Memory.{Ptr, null, Mem, update, read_u16, write_u16}
use ferrum_alloc.Page.{null_slot, PageMeta, Heap, set_meta, set_mem}
use ferrum_alloc.Platform.{page_size}
use ferrum_alloc.SizeClass.{class_to_size, slots_per_page}
use ferrum_alloc.Arena.{Arena, alloc_page, meta_index, page_addr, ptr_to_page_index, meta_ptr}

pub record Slab : Type 0 where
  pub partial_pages : ℕ → Ptr

abbrev pub new : Slab
new = record { partial_pages = λ _. null }

abbrev pub alloc_needs_page : Slab → ℕ → Bool
alloc_needs_page s class = s.partial_pages class == null

-- The writes of the free list of a new page, with the rounds of the loop that are left.
pub link_slots : (rounds i page_base slot_size : ℕ) → Mem → Mem
link_slots zero i page_base slot_size m = m
link_slots (suc rounds) i page_base slot_size m =
    link_slots rounds (i + 1) page_base slot_size (write_u16 m (page_base + i * slot_size) (i + 1))

unfoldable pub init_slots : (page_base slot_size slots : ℕ) → Mem → Mem
unfolding link_slots
init_slots page_base slot_size slots m =
    write_u16 (link_slots (slots - 1) 0 page_base slot_size m) (page_base + (slots - 1) * slot_size)
      null_slot

unfoldable pub init_page : Heap → (meta page_base class owner : ℕ) → Heap
init_page h meta page_base class owner = record {
  metas = update h.metas meta (record {
    size_class = class;
    owner_id = owner;
    used_slots = 0;
    free_list_head = 0;
    next_page = null;
    prev_page = null;
    page_addr = page_base;
  });
  mem = init_slots page_base (class_to_size class) (slots_per_page class page_size) h.mem;
}

abbrev pub set_next : Heap → Ptr → Ptr → Heap
set_next h p q = set_meta h p (record (h.metas p) { next_page = q })

abbrev pub set_prev : Heap → Ptr → Ptr → Heap
set_prev h p q = set_meta h p (record (h.metas p) { prev_page = q })

unfoldable pub push_partial_page : Slab → Heap → (class meta : ℕ) → Slab × Heap
push_partial_page s h class meta =
    let head = s.partial_pages class in
    let h1 = set_next (set_prev h meta null) meta head in
    (
      record s { partial_pages = update s.partial_pages class meta },
      if head == null then h1 else set_prev h1 head meta,
    )

unfoldable pub remove_partial_page : Slab → Heap → (class meta : ℕ) → Slab × Heap
remove_partial_page s h class meta =
    let prev = (h.metas meta).prev_page in
    let next = (h.metas meta).next_page in
    let s1 =
      if prev == null then record s { partial_pages = update s.partial_pages class next } else s in
    let h1 = if prev == null then h else set_next h prev next in
    let h2 = if next == null then h1 else set_prev h1 next prev in
    (s1, set_next (set_prev h2 meta null) meta null)

-- The pop from a page's free list, with the page at `page_base`: the slot's address and the heap.
unfoldable pub pop_slot : Heap → (meta page_base slot_size : ℕ) → Ptr × Heap
pop_slot h meta page_base slot_size =
    let slot_addr = page_base + (h.metas meta).free_list_head * slot_size in
    (
      slot_addr,
      set_meta h meta (record (h.metas meta) {
        free_list_head = read_u16 h.mem slot_addr;
        used_slots = ((h.metas meta).used_slots + 1) % 2 ^ 16;
      }),
    )

-- A page that has become full leaves the list of its class.
unfoldable pub retire_if_full : Slab → Heap → (class meta : ℕ) → Slab × Heap
retire_if_full s h class meta =
    if (h.metas meta).free_list_head == null_slot
    then remove_partial_page s h class meta
    else (s, h)

-- `alloc_no_arena` from the read of the first partial page's entry on.
unfoldable pub take_first : Slab → Heap → (class : ℕ) → Ptr × Slab × Heap
take_first s h class =
    let meta = s.partial_pages class in
    let (slot, h1) = pop_slot h meta (h.metas meta).page_addr (class_to_size class) in
    let (s1, h2) = retire_if_full s h1 class meta in (slot, s1, h2)

-- `none` is the read through a null pointer where no page of the class has a free slot.
unfoldable pub alloc_no_arena : Slab → Heap → (class : ℕ) → Option (Ptr × Slab × Heap)
alloc_no_arena s h class = if alloc_needs_page s class then none else some (take_first s h class)

-- The pop and the list of partial pages, with the page's address found through the arena.
unfoldable pub alloc_from : Slab → Heap → Arena → (class meta : ℕ) → Ptr × Slab × Heap
alloc_from s h a class meta =
    let (slot, h1) = pop_slot h meta (page_addr a (meta_index a meta)) (class_to_size class) in
    let (s1, h2) = retire_if_full s h1 class meta in (slot, s1, h2)

unfoldable pub alloc : Slab → Heap → Arena → (class owner : ℕ) → Ptr × Slab × Heap × Arena
alloc s h a class owner =
    let meta = s.partial_pages class in
    if meta == null
    then (let (page, a1) = alloc_page a in
        elim page [
          | none ↦ (null, s, h, a1)
          | some (meta1, addr) ↦
              let (s1, h1) = push_partial_page s (init_page h meta1 addr class owner) class meta1 in
              let (slot, s2, h2) = alloc_from s1 h1 a1 class meta1 in (slot, s2, h2, a1)
        ])
    else (let (slot, s1, h1) = alloc_from s h a class meta in (slot, s1, h1, a))

-- The push onto a page's free list, with the page at `page_base`.
unfoldable pub push_slot : Heap → (p meta page_base slot_size : ℕ) → Heap
push_slot h p meta page_base slot_size =
    let slot_idx = (p - page_base) / slot_size % 2 ^ 16 in
    set_meta (set_mem h (write_u16 h.mem p (h.metas meta).free_list_head)) meta
      (record (h.metas meta) {
        free_list_head = slot_idx;
        used_slots = ((h.metas meta).used_slots + 2 ^ 16 - 1) % 2 ^ 16;
      })

-- A page that was full comes back to the list of its class.
unfoldable pub revive_if_full : Bool → Slab → Heap → (class meta : ℕ) → Slab × Heap
revive_if_full was_full s h class meta =
    if was_full then push_partial_page s h class meta else (s, h)

unfoldable pub free_no_arena : Slab → Heap → (p meta : ℕ) → Slab × Heap
free_no_arena s h p meta =
    let m = h.metas meta in
    revive_if_full (m.free_list_head == null_slot) s
      (push_slot h p meta m.page_addr (class_to_size m.size_class)) m.size_class meta

unfoldable pub free : Slab → Heap → Arena → (p : ℕ) → Slab × Heap
free s h a p =
    let page_index = ptr_to_page_index a p in
    let meta = meta_ptr a page_index in
    let m = h.metas meta in
    if page_index == 0
    then (s, h)
    else if m.size_class == 0xFF
    then (s, h)
    else revive_if_full (m.free_list_head == null_slot) s
        (push_slot h p meta (page_addr a page_index) (class_to_size m.size_class)) m.size_class meta
