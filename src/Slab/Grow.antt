-- ===== src/Slab/Grow.antt =====
-- A new page of src/slab.rs joins the pages.
use ferrum_alloc.Base.{
  ℕ, zero, suc, ◌+◌, ◌*◌, ◌%◌, ◌≤◌, ◌<◌, ◌≡◌, ◌≢◌, refl, sym, ap, ◌∙◌, subst, Bool, true, false,
  List, [], ◌∷◌, arith, ◌==◌, if◌then◌else◌, Bool-cases, inl, inr,
}
use ferrum_alloc.Memory.{Ptr, null, update, read_u16}
use ferrum_alloc.Page.{PageMeta, Heap}
use ferrum_alloc.Platform.{page_size}
use ferrum_alloc.SizeClass.{num_size_classes, class_to_size, slots_per_page}
use ferrum_alloc.Arena.{Arena, pages_per_arena, meta_pages, meta_ptr, meta_index, page_addr}
use ferrum_alloc.Arena.Pages.{meta_index-meta_ptr}
use ferrum_alloc.Slab.{Slab, init_page, push_partial_page}
use ferrum_alloc.Slab.FreeList.{has, range, init_slots-outside}
use ferrum_alloc.Slab.Slots.{
  IsPage, PageOf, SamePage, PageOf-SamePage, init_page-IsPage, slot_facts,
}
use ferrum_alloc.Slab.PageList.{
  chain-none, IsChain, IsChain-frame, push-next, push-prev, push-IsChain,
}
use ferrum_alloc.Slab.State.{has_free, class_of, IsAt, IsSlab, slot-inside}
use ferrum_alloc.Slab.Distinct.{PageOf-frame}

pub range-has_free : (i k : ℕ) → 0 < k → has_free (range i k) ≡ true
range-has_free i zero some = absurd (omega arith)
range-has_free i (suc k) some = refl

-- The arena hands out the page of its bump index, and moves on to `a1`.
module _ (a a1 : Arena) (s : Slab) (h : Heap) (ours : Ptr → Bool) (frees : Ptr → List ℕ)
    (lists : ℕ → List Ptr) (v : IsSlab a s h ours frees lists) (c owner : ℕ)
    (known : c < num_size_classes) (base : a1.base ≡ a.base)
    (moved : a1.next_free_page ≡ a.next_free_page + 1) (low : meta_pages ≤ a.next_free_page)
    (room : a.next_free_page < pages_per_arena) (empty : s.partial_pages c ≡ null) where
  abbrev x : Ptr
  x = meta_ptr a a.next_free_page

  abbrev addr : Ptr
  addr = page_addr a a.next_free_page

  abbrev n : ℕ
  n = slots_per_page c page_size

  abbrev made : Heap
  made = init_page h x addr c owner

  abbrev pub grown : Slab × Heap
  grown = push_partial_page s made c x

  x-index : meta_index a x ≡ a.next_free_page
  x-index = (meta_index-meta_ptr a a.next_free_page room).0

  x-real : x ≢ null
  unfolding meta_ptr
  x-real e = omega arith

  -- It is none of the pages so far.
  pub new : (y : Ptr) → ours y ≡ true → y ≢ x
  new y j e = let u = v.at y j in omega (arith, u.below, ap (meta_index a) e, x-index)

  new-listed : (d : ℕ) → has x (lists d) ≡ false
  new-listed d = ground (arith, v.listed d x, new x)

  none_listed : lists c ≡ []
  none_listed = chain-none h.metas null (s.partial_pages c) (lists c) (v.chain c) empty

  made-keeps : (y : Ptr) → y ≢ x → made.metas y ≡ h.metas y
  unfolding init_page update
  made-keeps y ne = ground arith

  grown-at : (grown.1.metas x).page_addr ≡ addr
  unfolding init_page push_partial_page update
  grown-at = ground arith

  pub grown-class : (y : Ptr) → class_of grown.1 y ≡ (if y == x then c else class_of h y)
  unfolding init_page push_partial_page update
  grown-class y = ground arith

  pub grown-place :
      (y : Ptr) → (grown.1.metas y).page_addr ≡ (if y == x then addr else (h.metas y).page_addr)
  unfolding init_page push_partial_page update
  grown-place y = ground arith

  grown-same : (y : Ptr) → SamePage (made.metas y) (grown.1.metas y)
  unfolding push_partial_page update
  grown-same y = ground arith

  pub grown-mem : grown.1.mem ≡ made.mem
  unfolding push_partial_page
  grown-mem = ground arith

  grown-page : (y d : ℕ) (fs : List ℕ) → IsPage made y d fs → IsPage grown.1 y d fs
  grown-page y d fs =
      PageOf-SamePage made.mem grown.1.mem (made.metas y) (grown.1.metas y) d fs grown-mem
        (grown-same y)

  -- A slot of another page is outside the new one.
  old-outside :
      (y j k : ℕ)
      → ours y ≡ true
      → k < slots_per_page (class_of h y) page_size
      → (h.metas y).page_addr + k * class_to_size (class_of h y) ≢ addr + j * class_to_size c
  unfolding page_addr
  old-outside y j k i lt e =
      let u = v.at y i in
      let inside = slot-inside a h y k (frees y) u (v.page y i) lt in
      let (pos, _, _) = slot_facts (class_of h y) (v.page y i).known in
      omega (arith, inside, u.place, u.below)

  old-page : (y : Ptr) → ours y ≡ true → IsPage grown.1 y (class_of h y) (frees y)
  old-page y i = grown-page y (class_of h y) (frees y) (
      subst (λ m. PageOf made.mem m (class_of h y) (frees y)) (sym (made-keeps y (new y i)))
        (PageOf-frame h.mem made.mem (h.metas y) (class_of h y) (frees y)
          (λ k free lt.
            let (pos, some, few) = slot_facts c known in
            unfold init_page read_u16 in
            ap (λ k. k % 65536)
              (init_slots-outside addr (class_to_size c) pos n h.mem
                ((h.metas y).page_addr + k * class_to_size (class_of h y)) some
                (λ j lt'. old-outside y j k i lt)))
          (v.page y i)))

  first-ne : s.partial_pages c ≢ x
  first-ne e = x-real (sym e ∙ empty)

  grown-first : (d : ℕ) → grown.0.partial_pages d ≡ (if d == c then x else s.partial_pages d)
  unfolding push_partial_page update
  grown-first d = ground arith

  pub grown_front : grown.0.partial_pages c ≡ x
  grown_front = ground (arith, grown-first c)

  grown-IsChain :
      (d : ℕ) → IsChain grown.1.metas null (grown.0.partial_pages d) (update lists c (x ∷ []) d)
  unfolding update
  grown-IsChain d = elim (Bool-cases (d == c)) [
    | inl e ↦
        let first : grown.0.partial_pages d ≡ x = ground (arith, grown-first d) in
        rw (e, first) (push-IsChain s made c x first-ne [] x-real refl empty)
    | inr ne ↦
        let first : grown.0.partial_pages d ≡ s.partial_pages d = ground (arith, grown-first d) in
        rw (ne, first)
          (IsChain-frame h.metas grown.1.metas null (s.partial_pages d) (lists d)
            (λ y j.
              let y_x : y ≢ x = new y (v.listed d y j).0 in
              (
                ground (arith, push-next s made c x first-ne y)
                    ∙ ap (λ (m : PageMeta). m.next_page) (made-keeps y y_x),
                ground (arith, push-prev s made c x first-ne y, empty)
                    ∙ ap (λ (m : PageMeta). m.prev_page) (made-keeps y y_x),
              ))
            (v.chain d))
  ]

  pub new-page : IsPage grown.1 x c (range 0 n)
  new-page = grown-page x c (range 0 n) (init_page-IsPage h x addr c owner known)

  has_free-range : has_free (range 0 n) ≡ true
  has_free-range = let (pos, some, few) = slot_facts c known in range-has_free 0 n some

  grown-IsAt : (y : Ptr) → update ours x true y ≡ true → IsAt a1 grown.1 y
  unfolding update meta_ptr meta_index page_addr
  grown-IsAt y i = elim (Bool-cases (y == x)) [
    | inl e ↦ record {
      entry = ground arith;
      above = ground arith;
      below = ground arith;
      place = ground (arith, grown-place y);
    }
    | inr d ↦
        let u = v.at y (ground arith) in
        record {
          entry = ground (arith, u.entry);
          above = ground (arith, u.above);
          below = ground (arith, u.below);
          place = ground (arith, grown-place y, u.place);
        }
  ]

  -- The new page is its class's list, and has all of its slots free.
  pub grown-IsSlab :
      IsSlab a1 grown.0 grown.1
        (update ours x true)
        (update frees x (range 0 n))
        (update lists c (x ∷ []))
  unfolding update
  grown-IsSlab = record {
    at = grown-IsAt;
    page = λ y i.
        subst (λ k. IsPage grown.1 y k (if y == x then range 0 n else frees y))
          (sym (grown-class y))
          (elim (Bool-cases (y == x)) [
            | inl e ↦
                let here : y ≡ x = ground arith in
                rw e (subst (λ z. IsPage grown.1 z c (range 0 n)) (sym here) new-page)
            | inr d ↦ rw d (old-page y (ground arith))
          ]);
    chain = grown-IsChain;
    listed = λ d y i.
        ground (arith, v.listed d y, grown-class y, none_listed, has_free-range, new-listed d);
    complete = λ y i f. ground (arith, v.complete y, grown-class y, none_listed, new y);
  }
