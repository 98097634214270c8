-- ===== src/Slab/Serve.antt =====
-- `alloc` and `free` of src/slab.rs with all pages in view, and the slots that are held.
use ferrum_alloc.Base.{
  ℕ, ◌+◌, ◌*◌, ◌≤◌, ◌<◌, ◌≡◌, ◌≢◌, ◌&&◌, ltb, leb, refl, sym, ap, ◌∙◌, subst, Bool, true, false,
  List, [], ◌∷◌, arith, ◌==◌, Bool-cases, inl, inr,
}
use ferrum_alloc.Memory.{Ptr, null, update}
use ferrum_alloc.Page.{Heap}
use ferrum_alloc.Platform.{page_size}
use ferrum_alloc.SizeClass.{class_to_size, slots_per_page}
use ferrum_alloc.Arena.{Arena, page_addr, meta_ptr, meta_index}
use ferrum_alloc.Slab.{Slab, alloc_from, take_first}
use ferrum_alloc.Slab.Slots.{slot_facts}
use ferrum_alloc.Slab.FreeList.{has}
use ferrum_alloc.Slab.PageList.{IsChain}
use ferrum_alloc.Slab.State.{has_free, class_of, IsAt, IsSlab}
use ferrum_alloc.Slab.Take.{IsTake, in_front, take_first-IsTake}
use ferrum_alloc.Slab.Held.{IsSlot}

-- The entry at `x` is that of a page that the arena has handed out from page `first` on.
abbrev pub is_taken : Arena → (first : ℕ) → Ptr → Bool
is_taken a first x =
    (x == meta_ptr a (meta_index a x))
    && (leb first (meta_index a x) && ltb (meta_index a x) a.next_free_page)

-- The pages are those that the arena has handed out from page `first` on, and what is held are their
-- slots that are not free.
pub record IsHeld (first : ℕ) (a : Arena) (s : Slab) (h : Heap) (held : Ptr → ℕ) : Type 0 where
  pub ours : Ptr → Bool
  pub frees : Ptr → List ℕ
  pub lists : ℕ → List Ptr
  pub from : first ≤ a.next_free_page
  pub exact : (x : Ptr) → ours x ≡ is_taken a first x
  pub slab : IsSlab a s h ours frees lists
  pub slots : (p : Ptr) → held p ≢ 0 → IsSlot h ours frees p (held p)
  pub used :
      (x i : ℕ)
      → ours x ≡ true
      → i < slots_per_page (class_of h x) page_size
      → has i (frees x) ≡ false
      → held ((h.metas x).page_addr + i * class_to_size (class_of h x)) ≢ 0

-- The slot in another state.
pub IsSlot-move :
    (h h1 : Heap) (ours ours' : Ptr → Bool) (frees frees' : Ptr → List ℕ) (p n : ℕ)
    → (u : IsSlot h ours frees p n) → ours' u.page ≡ true
    → (h1.metas u.page).page_addr ≡ (h.metas u.page).page_addr
    → class_of h1 u.page ≡ class_of h u.page
    → has u.index (frees' u.page) ≡ false
    → IsSlot h1 ours' frees' p n
IsSlot-move h h1 ours ours' frees frees' p n u own place class used = record {
  page = u.page;
  index = u.index;
  own = own;
  small = subst (λ k. u.index < slots_per_page k page_size) (sym class) u.small;
  used = used;
  address =
      u.address
      ∙ ap (λ b. b + u.index * class_to_size (class_of h u.page)) (sym place)
      ∙ ap (λ k. (h1.metas u.page).page_addr + u.index * class_to_size k) (sym class);
  fits = subst (λ k. n ≤ class_to_size k) (sym class) u.fits;
}

-- A list that is not empty, taken apart.
pub record IsCons (ns : List ℕ) : Type 0 where
  pub head : ℕ
  pub tail : List ℕ
  pub same : ns ≡ head ∷ tail

pub cons : (ns : List ℕ) → has_free ns ≡ true → IsCons ns
cons [] h = absurd (ground arith)
cons (n ∷ ns) h = record { head = n; tail = ns; same = refl }

pub chain-cons :
    (h : Heap) (head : Ptr) (xs : List Ptr)
    → IsChain h.metas null head xs
    → head ≢ null
    → (ys : List Ptr) × (xs ≡ head ∷ ys)
chain-cons h head [] c real = absurd (real c)
chain-cons h head (x ∷ xs) (e, _, _, _, _) real = (xs, ap (λ y. y ∷ xs) (sym e))

-- With the page's address from the arena or from its entry.
pub alloc_from-take_first :
    (a : Arena) (s : Slab) (h : Heap) (c : ℕ)
    → IsAt a h (s.partial_pages c)
    → alloc_from s h a c (s.partial_pages c) ≡ take_first s h c
unfolding alloc_from take_first
alloc_from-take_first a s h c at = rw at.place

-- An allocation from the first page of the class, and what is held then.
module _ (a : Arena) (s : Slab) (h : Heap) (ours : Ptr → Bool) (frees : Ptr → List ℕ)
    (lists : ℕ → List Ptr) (v : IsSlab a s h ours frees lists) (c i : ℕ) (is : List ℕ)
    (xs : List Ptr) (front : lists c ≡ s.partial_pages c ∷ xs)
    (free_slots : frees (s.partial_pages c) ≡ i ∷ is) (held : Ptr → ℕ) (first : ℕ)
    (from : first ≤ a.next_free_page) (exact : (y : Ptr) → ours y ≡ is_taken a first y)
    (slots : (p : Ptr) → held p ≢ 0 → IsSlot h ours frees p (held p))
    (all_used : (y j : ℕ)
      → ours y ≡ true
      → j < slots_per_page (class_of h y) page_size
      → has j (frees y) ≡ false
      → held ((h.metas y).page_addr + j * class_to_size (class_of h y)) ≢ 0) where
  abbrev x : Ptr
  x = s.partial_pages c

  abbrev p : Ptr
  p = (take_first s h c).0

  abbrev h1 : Heap
  h1 = (take_first s h c).2

  t :
      IsTake a h ours
        (update frees x is)
        ((h.metas x).page_addr + i * class_to_size c)
        (take_first s h c)
  t = take_first-IsTake a s h ours frees lists v c i is xs front free_slots

  given-class : class_of h1 x ≡ c
  given-class = t.classes x ∙ (in_front a s h ours frees lists v c i is xs front free_slots).1

  given-IsSlot : IsSlot h1 ours (update frees x is) p (class_to_size c)
  unfolding update
  given-IsSlot =
      let (own, same, page) = in_front a s h ours frees lists v c i is xs front free_slots in
      let (e, small, new, rest) = page.chain in
      record {
        page = x;
        index = i;
        own = own;
        small = subst (λ k. i < slots_per_page k page_size) (sym given-class) small;
        used = ground (arith, new);
        address =
            t.slot
            ∙ ap (λ b. b + i * class_to_size c) (sym (t.places x))
            ∙ ap (λ k. (h1.metas x).page_addr + i * class_to_size k) (sym given-class);
        fits = subst (λ k. class_to_size c ≤ class_to_size k) (sym given-class) (omega arith);
      }

  still-IsSlot : (q : Ptr) → held q ≢ 0 → IsSlot h1 ours (update frees x is) q (held q)
  unfolding update
  still-IsSlot q has_q =
      let u = slots q has_q in
      IsSlot-move h h1 ours ours frees (update frees x is) q (held q) u u.own (t.places u.page)
        (t.classes u.page)
        (elim (Bool-cases (u.page == x)) [
          | inl e ↦
              let here : u.page ≡ x = ground arith in
              let at_x : has u.index (i ∷ is) ≡ false =
                ap (has u.index) (sym (ap frees here ∙ free_slots)) ∙ u.used in
              rw e (ground arith)
          | inr d ↦ rw d u.used
        ])

  -- A slot that is in use is held.
  still_used :
      (y j : ℕ)
      → ours y ≡ true
      → j < slots_per_page (class_of h y) page_size
      → has j (update frees x is y) ≡ false
      → update held p (class_to_size c) ((h.metas y).page_addr + j * class_to_size (class_of h y))
        ≢ 0
  unfolding update
  still_used y j own small used =
      let (own_x, same, page) = in_front a s h ours frees lists v c i is xs front free_slots in
      let (pos, _, _) = slot_facts c page.known in
      let old : has j (frees y) ≡ false
          → held ((h.metas y).page_addr + j * class_to_size (class_of h y)) ≢ 0 =
        all_used y j own small in
      elim (Bool-cases (y == x)) [
        | inr d ↦ let still : has j (frees y) ≡ false = rw d at used in ground (arith, old still)
        | inl e ↦
            let here : y ≡ x = ground arith in
            let rest : has j is ≡ false = rw e at used in
            let all : frees y ≡ i ∷ is = ap frees here ∙ free_slots in
            elim (Bool-cases (j == i)) [
              | inl at_i ↦
                  let there : (h.metas y).page_addr + j * class_to_size (class_of h y) ≡ p =
                    ap (λ z. (h.metas z).page_addr + j * class_to_size (class_of h z)) here
                    ∙ ap (λ k. (h.metas x).page_addr + j * class_to_size k) same
                    ∙ ap (λ k. (h.metas x).page_addr + k * class_to_size c) (ground arith)
                    ∙ sym t.slot in
                  ground arith
              | inr other ↦
                  let still : has j (frees y) ≡ false = rw all (ground arith) in
                  ground (arith, old still)
            ]
      ]

  pub taken-IsHeld :
      (p ≢ null)
      × IsHeld first a (take_first s h c).1 (take_first s h c).2 (update held p (class_to_size c))
  unfolding update
  taken-IsHeld =
      let own = (in_front a s h ours frees lists v c i is xs front free_slots).0 in
      let at = v.at x own in
      (
        (unfold page_addr in λ e. omega (arith, t.slot, at.place, at.above)),
        record {
          ours = ours;
          frees = update frees x is;
          lists = t.lists;
          from = from;
          exact = exact;
          slab = t.slab;
          used = λ y j own small used.
              let class = t.classes y in
              subst (λ q. update held p (class_to_size c) q ≢ 0)
                (ap (λ b. b + j * class_to_size (class_of h y)) (sym (t.places y))
                  ∙ ap (λ k. (h1.metas y).page_addr + j * class_to_size k) (sym class))
                (still_used y j own (subst (λ k. j < slots_per_page k page_size) class small) used);
          slots = λ q has_q. elim (Bool-cases (q == p)) [
            | inl e ↦
                let here : q ≡ p = ground arith in
                rw e (
                  subst (λ y. IsSlot h1 ours (update frees x is) y (class_to_size c)) (sym here)
                    given-IsSlot)
            | inr d ↦ rw d (still-IsSlot q (ground arith))
          ];
        },
      )
