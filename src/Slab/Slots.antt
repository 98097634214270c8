-- ===== src/Slab/Slots.antt =====
-- The operations of src/slab.rs on one page: an allocation hands out a free slot inside the page, a
-- free gives it back, and the count of used slots stays right.
use native.Mathlib.Nat.{mul-div_right}
use ferrum_alloc.Base.{
  ℕ, ◌+◌, ◌-◌, ◌*◌, ◌/◌, ◌%◌, ◌^◌, ◌≤◌, ◌<◌, ◌≡◌, ◌∙◌, Bool, true, false, List, [], ◌∷◌, arith,
  ◌==◌, length, ap,
}
use ferrum_alloc.Memory.{Mem, update, write_u16}
use ferrum_alloc.Memory.Access.{update_self}
use ferrum_alloc.Page.{PageMeta, Heap, set_meta, null_slot}
use ferrum_alloc.Platform.{page_size}
use ferrum_alloc.SizeClass.{num_size_classes, class_to_size, slots_per_page}
use ferrum_alloc.SizeClass.Bounds.{slots_per_page-fill}
use ferrum_alloc.Slab.{
  Slab, init_page, pop_slot, push_slot, retire_if_full, revive_if_full, remove_partial_page,
  push_partial_page, take_first, free_no_arena,
}
use ferrum_alloc.Slab.FreeList.{
  has, range, length-range, FreeList, FreeList-push, init_slots-FreeList,
}

-- The page of `m` belongs to `class`, chains the free slots `fs`, and counts the others as used.
pub record PageOf (mem : Mem) (m : PageMeta) (class : ℕ) (fs : List ℕ) : Type 0 where
  pub known : class < num_size_classes
  pub classed : m.size_class ≡ class
  pub chain :
      FreeList m.page_addr
        (class_to_size class)
        (slots_per_page class page_size)
        mem
        m.free_list_head
        fs
  pub counted : m.used_slots + length fs ≡ slots_per_page class page_size

abbrev pub IsPage : Heap → (meta class : ℕ) → List ℕ → Type 0
IsPage h meta class fs = PageOf h.mem (h.metas meta) class fs

-- The fields of a page that the lists of partial pages leave alone.
pub record SamePage (m g : PageMeta) : Type 0 where
  pub same_class : g.size_class ≡ m.size_class
  pub same_used : g.used_slots ≡ m.used_slots
  pub same_head : g.free_list_head ≡ m.free_list_head
  pub same_addr : g.page_addr ≡ m.page_addr

pub PageOf-SamePage :
    (mem mem' : Mem) (m g : PageMeta) (class : ℕ) (fs : List ℕ)
    → mem' ≡ mem
    → SamePage m g
    → PageOf mem m class fs
    → PageOf mem' g class fs
PageOf-SamePage mem mem' m g class fs em same v = record {
  known = v.known;
  classed = same.same_class ∙ v.classed;
  chain = rw (em, same.same_addr, same.same_head) v.chain;
  counted = rw same.same_used v.counted;
}

retire-IsPage :
    (s : Slab) (h : Heap) (c meta x class : ℕ) (fs : List ℕ)
    → IsPage h x class fs
    → IsPage (retire_if_full s h c meta).1 x class fs
unfolding retire_if_full remove_partial_page update
retire-IsPage s h c meta x class fs =
    PageOf-SamePage h.mem (retire_if_full s h c meta).1.mem (h.metas x)
      ((retire_if_full s h c meta).1.metas x) class fs (ground arith) (ground arith)

revive-IsPage :
    (b : Bool) (s : Slab) (h : Heap) (c meta x class : ℕ) (fs : List ℕ)
    → IsPage h x class fs
    → IsPage (revive_if_full b s h c meta).1 x class fs
unfolding revive_if_full push_partial_page update
revive-IsPage b s h c meta x class fs =
    PageOf-SamePage h.mem (revive_if_full b s h c meta).1.mem (h.metas x)
      ((revive_if_full b s h c meta).1.metas x) class fs (ground arith) (ground arith)

-- A class has slots, of at least a byte, and so few that an index fits a `u16`.
pub slot_facts :
    (c : ℕ)
    → c < num_size_classes
    → (0 < class_to_size c) × (0 < slots_per_page c page_size) × (slots_per_page c page_size ≤ 512)
slot_facts c h =
    let (some, few, fits, full) = slots_per_page-fill c h in (grind arith, omega arith, few)

-- The record of a page just written.
written : (h : Heap) (meta : ℕ) (m : PageMeta) → (set_meta h meta m).metas meta ≡ m
written h meta m = update_self h.metas meta m

-- For a known class, the page that `init_page` makes is well formed and has all of its slots free,
-- in order.
pub init_page-IsPage :
    (h : Heap) (meta base class owner : ℕ)
    → class < num_size_classes
    → IsPage
        (init_page h meta base class owner)
        meta
        class
        (range 0 (slots_per_page class page_size))
unfolding init_page update
init_page-IsPage h meta base class owner known =
    let (pos, some, few) = slot_facts class known in
    let at : (meta == meta) ≡ true = ground arith in
    record {
      known = known;
      classed = rw at;
      chain = rw at (
          init_slots-FreeList base (class_to_size class) pos (slots_per_page class page_size) h.mem
            some (omega arith));
      counted = rw at (omega (arith, length-range 0 (slots_per_page class page_size)));
    }

pub pop-IsPage :
    (h : Heap) (meta class i : ℕ) (is : List ℕ)
    → IsPage h meta class (i ∷ is)
    → IsPage (pop_slot h meta (h.metas meta).page_addr (class_to_size class)).1 meta class is
unfolding pop_slot update
pop-IsPage h meta class i is v =
    let (pos, some, few) = slot_facts class v.known in
    let at : (meta == meta) ≡ true = ground arith in
    record {
      known = v.known;
      classed = rw at v.classed;
      chain = rw (at, v.chain.0) v.chain.3;
      counted = rw at (omega (arith, v.counted));
    }

-- When the first partial page of a class is well formed and has a free slot, an allocation without
-- the arena hands out its first free slot, which lies inside the page, and leaves the page well
-- formed with the rest of its slots free.
pub take_first-IsPage :
    (s : Slab) (h : Heap) (class i : ℕ) (is : List ℕ)
    → IsPage h (s.partial_pages class) class (i ∷ is)
    → let (p, s1, h1) = take_first s h class in
      let base = (h.metas (s.partial_pages class)).page_addr in
      (p ≡ base + i * class_to_size class)
      × (p + class_to_size class ≤ base + page_size)
      × IsPage h1 (s.partial_pages class) class is
unfolding take_first
take_first-IsPage s h class i is v =
    let meta : ℕ = s.partial_pages class in
    let (some, few, fits, full) = slots_per_page-fill class v.known in
    let (e, small, new, rest) = v.chain in
    let place : (pop_slot h meta (h.metas meta).page_addr (class_to_size class)).0
        ≡ (h.metas meta).page_addr + i * class_to_size class =
      unfold pop_slot in ap (λ (k : ℕ). (h.metas meta).page_addr + k * class_to_size class) e in
    let inside : (i + 1) * class_to_size class
        ≤ slots_per_page class page_size * class_to_size class =
      grind arith in
    (
      place,
      omega (arith, place),
      retire-IsPage s (pop_slot h meta (h.metas meta).page_addr (class_to_size class)).1 class meta
          meta class is (pop-IsPage h meta class i is v),
    )

head-word :
    (base sz n : ℕ) (m : Mem) (head : ℕ) (fs : List ℕ)
    → n ≤ 512
    → FreeList base sz n m head fs
    → head < 65536
head-word base sz n m head [] few c = omega arith
head-word base sz n m head (i ∷ is) few (e, small, new, rest) = omega arith

slot_index : (base i sz : ℕ) → 0 < sz → i < 512 → (base + i * sz - base) / sz % 2 ^ 16 ≡ i
slot_index base i sz pos small =
    let off : base + i * sz - base ≡ sz * i = grind arith in
    rw (off, mul-div_right i pos) (omega arith)

pub push-IsPage :
    (h : Heap) (meta class i : ℕ) (fs : List ℕ)
    → IsPage h meta class fs
    → i < slots_per_page class page_size
    → has i fs ≡ false
    → 0 < (h.metas meta).used_slots
    → let base = (h.metas meta).page_addr in
      IsPage
        (push_slot h (base + i * class_to_size class) meta base (class_to_size class))
        meta
        class
        (i ∷ fs)
unfolding push_slot
push-IsPage h meta class i fs v small new used =
    let (pos, some, few) = slot_facts class v.known in
    let base : ℕ = (h.metas meta).page_addr in
    let sz : ℕ = class_to_size class in
    let mem = write_u16 h.mem (base + i * sz) (h.metas meta).free_list_head in
    rw (written, slot_index base i sz pos (omega arith))
      (record {
        known = v.known;
        classed = v.classed;
        chain =
            FreeList-push base sz (slots_per_page class page_size) h.mem fs
              (h.metas meta).free_list_head i pos
              (head-word base sz (slots_per_page class page_size) h.mem
                (h.metas meta).free_list_head fs few v.chain)
              small new v.chain;
        counted = omega (arith, v.counted);
      })

-- On a well-formed page with used slots, a free without the arena of a slot that is not free puts
-- it in front of the page's free slots and keeps the page well formed.
pub free_no_arena-IsPage :
    (s : Slab) (h : Heap) (meta class i : ℕ) (fs : List ℕ)
    → IsPage h meta class fs
    → i < slots_per_page class page_size
    → has i fs ≡ false
    → 0 < (h.metas meta).used_slots
    → let p = (h.metas meta).page_addr + i * class_to_size class in
      IsPage (free_no_arena s h p meta).1 meta class (i ∷ fs)
unfolding free_no_arena
free_no_arena-IsPage s h meta class i fs v small new used = rw v.classed (
    revive-IsPage ((h.metas meta).free_list_head == null_slot) s
      (push_slot h ((h.metas meta).page_addr + i * class_to_size class) meta
        (h.metas meta).page_addr (class_to_size class))
      class meta meta class (i ∷ fs) (push-IsPage h meta class i fs v small new used))
