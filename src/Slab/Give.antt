-- ===== src/Slab/Give.antt =====
-- A free of src/slab.rs with all pages in view.
use ferrum_alloc.Base.{
  ℕ, ◌+◌, ◌*◌, ◌<◌, ◌≡◌, ◌≢◌, refl, sym, ap, ◌∙◌, Bool, true, false, List, ◌∷◌, arith, ◌==◌,
  if◌then◌else◌, Bool-cases, inl, inr,
}
use ferrum_alloc.Memory.{Ptr, Mem, null, update, read_u16, write_u16}
use ferrum_alloc.Memory.Access.{read_u16-write_u16_ne}
use ferrum_alloc.Page.{Heap, null_slot}
use ferrum_alloc.Platform.{page_size}
use ferrum_alloc.SizeClass.{class_to_size, slots_per_page}
use ferrum_alloc.Arena.{Arena, meta_ptr}
use ferrum_alloc.Slab.{Slab, push_slot, revive_if_full, push_partial_page, free_no_arena}
use ferrum_alloc.Slab.FreeList.{has}
use ferrum_alloc.Slab.Slots.{IsPage, SamePage, PageOf-SamePage, push-IsPage, slot_facts}
use ferrum_alloc.Slab.PageList.{
  chain-first, IsChain, IsChain-frame, push-next, push-prev, push-IsChain,
}
use ferrum_alloc.Slab.State.{
  has_free, class_of, IsSlab, head-none, slot-inside, pages-apart, step-IsSlab,
}
use ferrum_alloc.Slab.Distinct.{used-pos, PageOf-frame}

-- The result of a free, which writes one half-word.
pub record IsGive (a : Arena) (h : Heap) (ours : Ptr → Bool) (frees : Ptr → List ℕ) (p value : ℕ)
    (result : Slab × Heap) : Type 0 where
  pub lists : ℕ → List Ptr
  pub slab : IsSlab a result.0 result.1 ours frees lists
  pub mem : result.1.mem ≡ write_u16 h.mem p value
  pub places : (y : Ptr) → (result.1.metas y).page_addr ≡ (h.metas y).page_addr
  pub classes : (y : Ptr) → class_of result.1 y ≡ class_of h y

-- Slot `i` of the page at `x` is in use and is given back.
module _ (a : Arena) (s : Slab) (h : Heap) (ours : Ptr → Bool) (frees : Ptr → List ℕ)
    (lists : ℕ → List Ptr) (v : IsSlab a s h ours frees lists) (x : Ptr) (i : ℕ)
    (own : ours x ≡ true) (small : i < slots_per_page (class_of h x) page_size)
    (used : has i (frees x) ≡ false) where
  abbrev c : ℕ
  c = class_of h x

  abbrev p : Ptr
  p = (h.metas x).page_addr + i * class_to_size c

  -- The heap after the push.
  abbrev pushed : Heap
  pushed = push_slot h p x (h.metas x).page_addr (class_to_size c)

  pushed-keeps :
      (y : Ptr)
      → ((pushed.metas y).page_addr ≡ (h.metas y).page_addr)
        × (class_of pushed y ≡ class_of h y)
        × ((pushed.metas y).next_page ≡ (h.metas y).next_page)
        × ((pushed.metas y).prev_page ≡ (h.metas y).prev_page)
  unfolding push_slot update
  pushed-keeps y = ground arith

  pushed-others : (y : Ptr) → y ≢ x → SamePage (h.metas y) (pushed.metas y)
  unfolding push_slot update
  pushed-others y ne = ground arith

  pushed-mem : pushed.mem ≡ write_u16 h.mem p (h.metas x).free_list_head
  unfolding push_slot
  pushed-mem = refl

  pushed-own : IsPage pushed x c (i ∷ frees x)
  pushed-own =
      push-IsPage h x c i (frees x) (v.page x own) small used
        (used-pos h x c i (frees x) (v.page x own) small used)

  -- Slots of different pages start at different addresses.
  slots-apart :
      (y k : ℕ)
      → ours y ≡ true
      → y ≢ x
      → k < slots_per_page (class_of h y) page_size
      → (h.metas y).page_addr + k * class_to_size (class_of h y) ≢ p
  slots-apart y k j ne lt e =
      let inside = slot-inside a h x i (frees x) (v.at x own) (v.page x own) small in
      let inside' = slot-inside a h y k (frees y) (v.at y j) (v.page y j) lt in
      let (pos, _, _) = slot_facts c (v.page x own).known in
      let (pos', _, _) = slot_facts (class_of h y) (v.page y j).known in
      elim (pages-apart a h x y (v.at x own) (v.at y j) (λ z. ne (sym z))) [
        | inl before ↦ omega (arith, inside, inside')
        | inr behind ↦ omega (arith, inside, inside')
      ]

  pushed-page : (y : Ptr) → ours y ≡ true → y ≢ x → IsPage pushed y (class_of h y) (frees y)
  pushed-page y j ne =
      PageOf-SamePage pushed.mem pushed.mem (h.metas y) (pushed.metas y) (class_of h y) (frees y)
        refl (pushed-others y ne)
        (PageOf-frame h.mem pushed.mem (h.metas y) (class_of h y) (frees y)
          (λ k free lt.
            ap (λ (m : Mem). read_u16 m ((h.metas y).page_addr + k * class_to_size (class_of h y)))
              pushed-mem
            ∙ read_u16-write_u16_ne h.mem p
                ((h.metas y).page_addr + k * class_to_size (class_of h y))
                (h.metas x).free_list_head (slots-apart y k j ne lt))
          (v.page y j))

  pushed-IsChain :
      (prev head : Ptr) (ys : List Ptr)
      → IsChain h.metas prev head ys
      → IsChain pushed.metas prev head ys
  pushed-IsChain prev head ys =
      IsChain-frame h.metas pushed.metas prev head ys
        (λ y j. ((pushed-keeps y).2, (pushed-keeps y).3))

  was_full :
      ((h.metas x).free_list_head == null_slot) ≡ (if has_free (frees x) then false else true)
  was_full = head-none h x c (frees x) (v.page x own)

  -- The page was in its list.
  in_list :
      has_free (frees x) ≡ true
      → (free_no_arena s h p x ≡ (s, pushed))
        × IsSlab a s pushed ours (update frees x (i ∷ frees x)) lists
  unfolding free_no_arena revive_if_full
  in_list some_free =
      let keeps : ((h.metas x).free_list_head == null_slot) ≡ false = rw some_free at was_full in
      (
        rw keeps,
        step-IsSlab a s h ours frees lists v x own s pushed (i ∷ frees x) lists
            (λ y. (pushed-keeps y).0) (λ y. (pushed-keeps y).1) pushed-own pushed-page
            (λ d. pushed-IsChain null (s.partial_pages d) (lists d) (v.chain d))
            (λ d y. ground (arith, v.listed d x, v.complete x own some_free)),
      )

  -- It was full, and comes back.
  abbrev revived : Slab × Heap
  revived = push_partial_page s pushed c x

  revived-keeps :
      (y : Ptr)
      → ((revived.1.metas y).page_addr ≡ (h.metas y).page_addr)
        × (class_of revived.1 y ≡ class_of h y)
  unfolding push_slot push_partial_page update
  revived-keeps y = ground arith

  revived-same : (y : Ptr) → SamePage (pushed.metas y) (revived.1.metas y)
  unfolding push_partial_page update
  revived-same y = ground arith

  revived-mem : revived.1.mem ≡ pushed.mem
  unfolding push_partial_page
  revived-mem = ground arith

  revived-page : (y d : ℕ) (fs : List ℕ) → IsPage pushed y d fs → IsPage revived.1 y d fs
  revived-page y d fs =
      PageOf-SamePage pushed.mem revived.1.mem (pushed.metas y) (revived.1.metas y) d fs revived-mem
        (revived-same y)

  x-real : x ≢ null
  unfolding meta_ptr
  x-real = λ e. ground (arith, (v.at x own).entry)

  module _ (none_free : has_free (frees x) ≡ false) where
    -- A full page is in no list.
    unlisted : (d : ℕ) → has x (lists d) ≡ false
    unlisted d = ground (arith, v.listed d x)

    first-listed : s.partial_pages c ≢ null → has (s.partial_pages c) (lists c) ≡ true
    first-listed = chain-first h.metas null (s.partial_pages c) (lists c) (v.chain c)

    not_first : s.partial_pages c ≢ x
    not_first e = ground (arith, first-listed, unlisted c, x-real)

    revived-IsChain :
        (d : ℕ)
        → IsChain revived.1.metas null (revived.0.partial_pages d) (update lists c (x ∷ lists c) d)
    unfolding update
    revived-IsChain d = elim (Bool-cases (d == c)) [
      | inl e ↦
          let first : revived.0.partial_pages d ≡ x = unfold push_partial_page in ground arith in
          rw (e, first)
            (push-IsChain s pushed c x not_first (lists c) x-real (unlisted c)
              (pushed-IsChain null (s.partial_pages c) (lists c) (v.chain c)))
      | inr ne ↦
          let first : revived.0.partial_pages d ≡ s.partial_pages d =
            unfold push_partial_page in ground arith in
          rw (ne, first)
            (IsChain-frame pushed.metas revived.1.metas null (s.partial_pages d) (lists d)
              (λ y j.
                let y_x : y ≢ x = λ z. ground (arith, unlisted d) in
                let y_first : y ≡ s.partial_pages c → s.partial_pages c ≡ null =
                  λ z. ground (arith, first-listed, v.listed c y, v.listed d y j) in
                (
                  ground (arith, push-next s pushed c x not_first y),
                  ground (arith, push-prev s pushed c x not_first y, y_first),
                ))
              (pushed-IsChain null (s.partial_pages d) (lists d) (v.chain d)))
    ]

    came_back :
        (free_no_arena s h p x ≡ revived)
        × IsSlab a revived.0 revived.1 ours
            (update frees x (i ∷ frees x))
            (update lists c (x ∷ lists c))
    unfolding free_no_arena revive_if_full update
    came_back =
        let full : ((h.metas x).free_list_head == null_slot) ≡ true = rw none_free at was_full in
        (
          rw full,
          step-IsSlab a s h ours frees lists v x own revived.0 revived.1 (i ∷ frees x)
              (update lists c (x ∷ lists c)) (λ y. (revived-keeps y).0) (λ y. (revived-keeps y).1)
              (revived-page x c (i ∷ frees x) pushed-own)
              (λ y j ne. revived-page y (class_of h y) (frees y) (pushed-page y j ne))
              revived-IsChain (λ d y. ground (arith, v.listed d x)),
        )

  -- A free puts the slot in front of the page's free slots and keeps the pages and lists in order.
  pub free_no_arena-IsGive :
      IsGive a h ours
        (update frees x (i ∷ frees x))
        p
        (h.metas x).free_list_head
        (free_no_arena s h p x)
  free_no_arena-IsGive = elim (Bool-cases (has_free (frees x))) [
    | inl some_free ↦
        let (e, w) = in_list some_free in
        rw e record {
          lists = lists;
          slab = w;
          mem = pushed-mem;
          places = λ y. (pushed-keeps y).0;
          classes = λ y. (pushed-keeps y).1;
        }
    | inr none_free ↦
        let (e, w) = came_back none_free in
        rw e record {
          lists = update lists c (x ∷ lists c);
          slab = w;
          mem = revived-mem ∙ pushed-mem;
          places = λ y. (revived-keeps y).0;
          classes = λ y. (revived-keeps y).1;
        }
  ]
