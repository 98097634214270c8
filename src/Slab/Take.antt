-- ===== src/Slab/Take.antt =====
-- An allocation of src/slab.rs from the first page of its class's list, with all pages in view.
use ferrum_alloc.Base.{
  ℕ, ◌+◌, ◌*◌, ◌≡◌, ◌≢◌, refl, sym, ap, ◌∙◌, subst, Bool, true, false, List, ◌∷◌, arith, ◌==◌,
  if◌then◌else◌, Bool-cases, inl, inr,
}
use ferrum_alloc.Memory.{Ptr, null, update}
use ferrum_alloc.Page.{Heap, null_slot}
use ferrum_alloc.SizeClass.{class_to_size}
use ferrum_alloc.Arena.{Arena}
use ferrum_alloc.Slab.{Slab, pop_slot, retire_if_full, remove_partial_page, take_first}
use ferrum_alloc.Slab.FreeList.{has}
use ferrum_alloc.Slab.Slots.{IsPage, SamePage, PageOf-SamePage, pop-IsPage}
use ferrum_alloc.Slab.PageList.{
  IsChain, IsChain-frame, chain-first, remove-first, remove-next, remove-prev, remove-rest,
}
use ferrum_alloc.Slab.State.{has_free, class_of, IsSlab, head-none, step-IsSlab}

-- The result of an allocation.
pub record IsTake (a : Arena) (h : Heap) (ours : Ptr → Bool) (frees : Ptr → List ℕ) (p : Ptr)
    (result : Ptr × Slab × Heap) : Type 0 where
  pub lists : ℕ → List Ptr
  pub slot : result.0 ≡ p
  pub slab : IsSlab a result.1 result.2 ours frees lists
  pub mem : result.2.mem ≡ h.mem
  pub places : (y : Ptr) → (result.2.metas y).page_addr ≡ (h.metas y).page_addr
  pub classes : (y : Ptr) → class_of result.2 y ≡ class_of h y

-- The list of `c` starts with a page, whose first free slot is `i`.
module _ (a : Arena) (s : Slab) (h : Heap) (ours : Ptr → Bool) (frees : Ptr → List ℕ)
    (lists : ℕ → List Ptr) (v : IsSlab a s h ours frees lists) (c i : ℕ) (is : List ℕ)
    (xs : List Ptr) (front : lists c ≡ s.partial_pages c ∷ xs)
    (free_slots : frees (s.partial_pages c) ≡ i ∷ is) where
  abbrev x : Ptr
  x = s.partial_pages c

  -- The heap after the pop.
  abbrev popped : Heap
  popped = (pop_slot h x (h.metas x).page_addr (class_to_size c)).1

  pub in_front : (ours x ≡ true) × (class_of h x ≡ c) × IsPage h x c (i ∷ is)
  in_front =
      let first : has x (lists c) ≡ true = rw front (ground arith) in
      let (own, same, some_free) = v.listed c x first in
      (
        own,
        same,
        subst (λ k. IsPage h x k (i ∷ is)) same
            (subst (λ fs. IsPage h x (class_of h x) fs) free_slots (v.page x own)),
      )

  abbrev popped_slot : Ptr
  popped_slot = (pop_slot h x (h.metas x).page_addr (class_to_size c)).0

  popped-keeps :
      (y : Ptr)
      → ((popped.metas y).page_addr ≡ (h.metas y).page_addr)
        × (class_of popped y ≡ class_of h y)
        × ((popped.metas y).next_page ≡ (h.metas y).next_page)
        × ((popped.metas y).prev_page ≡ (h.metas y).prev_page)
  unfolding pop_slot update
  popped-keeps y = ground arith

  popped-others : (y : Ptr) → y ≢ x → SamePage (h.metas y) (popped.metas y)
  unfolding pop_slot update
  popped-others y ne = ground arith

  popped-own : IsPage popped x c is
  popped-own = pop-IsPage h x c i is in_front.2

  popped-IsChain :
      (d : ℕ) (prev head : Ptr) (ys : List Ptr)
      → IsChain h.metas prev head ys
      → IsChain popped.metas prev head ys
  popped-IsChain d prev head ys =
      IsChain-frame h.metas popped.metas prev head ys
        (λ y j. ((popped-keeps y).2, (popped-keeps y).3))

  member-front : (d y : ℕ) → has y (lists d) ≡ (if y == x then d == c else has y (lists d))
  member-front d y = ground (arith, v.listed d x, in_front, front)

  popped-full :
      ((popped.metas x).free_list_head == null_slot) ≡ (if has_free is then false else true)
  popped-full = head-none popped x c is popped-own

  -- Free slots are left.
  some_left :
      has_free is ≡ true
      → (take_first s h c ≡ (popped_slot, s, popped))
        × IsSlab a s popped ours (update frees x is) lists
  unfolding take_first retire_if_full
  some_left left =
      let (own, same, page) = in_front in
      let keeps : ((popped.metas x).free_list_head == null_slot) ≡ false = rw left at popped-full in
      (
        rw keeps,
        step-IsSlab a s h ours frees lists v x own s popped is lists (λ y. (popped-keeps y).0)
            (λ y. (popped-keeps y).1) (subst (λ k. IsPage popped x k is) (sym same) popped-own)
            (λ y j ne.
              PageOf-SamePage h.mem popped.mem (h.metas y) (popped.metas y) (class_of h y) (frees y)
                (unfold pop_slot in refl) (popped-others y ne) (v.page y j))
            (λ d. popped-IsChain d null (s.partial_pages d) (lists d) (v.chain d))
            (λ d y. ground (arith, member-front d y, same, left)),
      )

  -- The page leaves the list.
  abbrev retired : Slab × Heap
  retired = remove_partial_page s popped c x

  x-IsChain :
      (x ≢ null)
      × (has x xs ≡ false)
      × ((h.metas x).prev_page ≡ null)
      × IsChain h.metas x (h.metas x).next_page xs
  x-IsChain =
      let (e, real, new, back, rest) = subst (λ ys. IsChain h.metas null x ys) front (v.chain c) in
      (real, new, back, rest)

  x-back : (popped.metas x).prev_page ≡ null
  x-back = (popped-keeps x).3 ∙ x-IsChain.2

  x-rest : IsChain popped.metas x (popped.metas x).next_page xs
  x-rest = rw ((popped-keeps x).2) (popped-IsChain c x (h.metas x).next_page xs x-IsChain.3)

  x-next : (popped.metas x).next_page ≢ x
  x-next e = ground (
    arith,
    chain-first popped.metas x (popped.metas x).next_page xs x-rest,
    x-IsChain.0,
    x-IsChain.1,
  )

  next-class : (popped.metas x).next_page ≢ null → class_of h (popped.metas x).next_page ≡ c
  next-class real =
      let first = chain-first popped.metas x (popped.metas x).next_page xs x-rest real in
      (v.listed c (popped.metas x).next_page (rw front (ground arith))).1

  retired-others : (y : Ptr) → y ≢ x → SamePage (h.metas y) (retired.1.metas y)
  unfolding pop_slot remove_partial_page update
  retired-others y ne = ground arith

  retired-keeps :
      (y : Ptr)
      → ((retired.1.metas y).page_addr ≡ (h.metas y).page_addr)
        × (class_of retired.1 y ≡ class_of h y)
  unfolding pop_slot remove_partial_page update
  retired-keeps y = ground arith

  retired-mem : retired.1.mem ≡ h.mem
  unfolding pop_slot remove_partial_page
  retired-mem = ground arith

  retired-own : IsPage retired.1 x c is
  unfolding remove_partial_page update
  retired-own =
      PageOf-SamePage popped.mem retired.1.mem (popped.metas x) (retired.1.metas x) c is
        (ground arith) (ground arith) popped-own

  retired-IsChain :
      (d : ℕ) → IsChain retired.1.metas null (retired.0.partial_pages d) (update lists c xs d)
  unfolding update
  retired-IsChain d = elim (Bool-cases (d == c)) [
    | inl e ↦
        let first : retired.0.partial_pages d ≡ (popped.metas x).next_page =
          ground (arith, remove-first s popped c x x-back x-next d) in
        rw (e, first) (remove-rest s popped c x x-back x-next xs x-IsChain.1 x-rest)
    | inr ne ↦
        let first : retired.0.partial_pages d ≡ s.partial_pages d =
          ground (arith, remove-first s popped c x x-back x-next d) in
        rw (ne, first)
          (IsChain-frame popped.metas retired.1.metas null (s.partial_pages d) (lists d)
            (λ y j.
              let y_x : y ≢ x = λ z. ground (arith, v.listed d y j, in_front) in
              let y_next : y ≡ (popped.metas x).next_page → (popped.metas x).next_page ≡ null = λ z.
                elim (Bool-cases ((popped.metas x).next_page == null)) [
                  | inl none ↦ ground arith
                  | inr some ↦
                      let same : class_of h y ≡ c =
                        ap (class_of h) z ∙ next-class (λ e. ground arith) in
                      absurd (ground (arith, v.listed d y j))
                ] in
              (
                ground (arith, remove-next s popped c x x-back x-next y),
                ground (arith, remove-prev s popped c x x-back x-next y, y_next),
              ))
            (popped-IsChain d null (s.partial_pages d) (lists d) (v.chain d)))
  ]

  none_left :
      has_free is ≡ false
      → (take_first s h c ≡ (popped_slot, retired.0, retired.1))
        × IsSlab a retired.0 retired.1 ours (update frees x is) (update lists c xs)
  unfolding take_first retire_if_full update
  none_left left =
      let (own, same, page) = in_front in
      let full : ((popped.metas x).free_list_head == null_slot) ≡ true = rw left at popped-full in
      (
        rw full,
        step-IsSlab a s h ours frees lists v x own retired.0 retired.1 is (update lists c xs)
            (λ y. (retired-keeps y).0) (λ y. (retired-keeps y).1)
            (subst (λ k. IsPage retired.1 x k is) (sym same) retired-own)
            (λ y j ne.
              PageOf-SamePage h.mem retired.1.mem (h.metas y) (retired.1.metas y) (class_of h y)
                (frees y) retired-mem (retired-others y ne) (v.page y j))
            retired-IsChain
            (λ d y. ground (arith, member-front d y, same, left, front, x-IsChain.1)),
      )

  -- An allocation hands out the first free slot of the page and keeps the pages and lists in order.
  pub take_first-IsTake :
      IsTake a h ours
        (update frees x is)
        ((h.metas x).page_addr + i * class_to_size c)
        (take_first s h c)
  take_first-IsTake =
      let slot : popped_slot ≡ (h.metas x).page_addr + i * class_to_size c =
        unfold pop_slot in
        ap (λ (k : ℕ). (h.metas x).page_addr + k * class_to_size c) in_front.2.chain.0 in
      elim (Bool-cases (has_free is)) [
        | inl left ↦
            let (e, w) = some_left left in
            rw e record {
              lists = lists;
              slot = slot;
              slab = w;
              mem = unfold pop_slot in refl;
              places = λ y. (popped-keeps y).0;
              classes = λ y. (popped-keeps y).1;
            }
        | inr none ↦
            let (e, w) = none_left none in
            rw e record {
              lists = update lists c xs;
              slot = slot;
              slab = w;
              mem = retired-mem;
              places = λ y. (retired-keeps y).0;
              classes = λ y. (retired-keeps y).1;
            }
      ]
