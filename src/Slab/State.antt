-- ===== src/Slab/State.antt =====
-- The allocator of src/slab.rs with all of its pages: the list of each class holds the pages of the
-- class that have a free slot.
use ferrum_alloc.Base.{
  ℕ, ◌+◌, ◌*◌, ◌≤◌, ◌<◌, ◌⊎◌, ◌≡◌, ◌≢◌, sym, ap, subst, ◌&&◌, ltb, ◌∙◌, Bool, true, false, List, [],
  ◌∷◌, arith, ◌==◌, if◌then◌else◌, Bool-cases, inl, inr,
}
use ferrum_alloc.Memory.{Ptr, null, update}
use ferrum_alloc.Page.{Heap, null_slot}
use ferrum_alloc.Platform.{page_size}
use ferrum_alloc.SizeClass.{class_to_size, slots_per_page}
use ferrum_alloc.SizeClass.Bounds.{slots_per_page-fill}
use ferrum_alloc.Arena.{Arena, meta_pages, meta_ptr, meta_index, page_addr}
use ferrum_alloc.Slab.{Slab}
use ferrum_alloc.Slab.FreeList.{has}
use ferrum_alloc.Slab.Slots.{IsPage}
use ferrum_alloc.Slab.PageList.{IsChain}

abbrev pub has_free : List ℕ → Bool
has_free [] = false
has_free (_ ∷ _) = true

abbrev pub class_of : Heap → Ptr → ℕ
class_of h x = (h.metas x).size_class

-- The entry at `x` is that of a page that the arena has handed out.
pub record IsAt (a : Arena) (h : Heap) (x : Ptr) : Type 0 where
  pub entry : x ≡ meta_ptr a (meta_index a x)
  pub above : meta_pages ≤ meta_index a x
  pub below : meta_index a x < a.next_free_page
  pub place : (h.metas x).page_addr ≡ page_addr a (meta_index a x)

-- The pages whose entries are in `ours` have the free slots `frees`.
pub record IsSlab (a : Arena) (s : Slab) (h : Heap) (ours : Ptr → Bool) (frees : Ptr → List ℕ)
    (lists : ℕ → List Ptr) : Type 0 where
  pub at : (x : Ptr) → ours x ≡ true → IsAt a h x
  pub page : (x : Ptr) → ours x ≡ true → IsPage h x (class_of h x) (frees x)
  pub chain : (c : ℕ) → IsChain h.metas null (s.partial_pages c) (lists c)
  pub listed :
      (c x : ℕ)
      → has x (lists c) ≡ true
      → (ours x ≡ true) × (class_of h x ≡ c) × (has_free (frees x) ≡ true)
  pub complete :
      (x : Ptr) → ours x ≡ true → has_free (frees x) ≡ true → has x (lists (class_of h x)) ≡ true

-- A slot lies in its page.
pub slot-inside :
    (a : Arena) (h : Heap) (x i : ℕ) (fs : List ℕ)
    → IsAt a h x
    → IsPage h x (class_of h x) fs
    → i < slots_per_page (class_of h x) page_size
    → (h.metas x).page_addr + i * class_to_size (class_of h x) + class_to_size (class_of h x)
      ≤ (h.metas x).page_addr + page_size
slot-inside a h x i fs at v small =
    let (some, few, fits, full) = slots_per_page-fill (class_of h x) v.known in
    let inside : (i + 1) * class_to_size (class_of h x)
        ≤ slots_per_page (class_of h x) page_size * class_to_size (class_of h x) =
      grind arith in
    omega (arith, inside)

-- Different entries are those of different pages, which do not overlap.
pub pages-apart :
    (a : Arena) (h : Heap) (x y : Ptr)
    → IsAt a h x
    → IsAt a h y
    → x ≢ y
    → ((h.metas x).page_addr + page_size ≤ (h.metas y).page_addr)
      ⊎ ((h.metas y).page_addr + page_size ≤ (h.metas x).page_addr)
unfolding page_addr
pages-apart a h x y u v ne =
    let differ : meta_index a x ≢ meta_index a y =
      λ e. ne (u.entry ∙ ap (meta_ptr a) e ∙ sym v.entry) in
    elim (Bool-cases (ltb (meta_index a x) (meta_index a y))) [
      | inl lt ↦ inl (ground (arith, u.place, v.place))
      | inr ge ↦ inr (ground (arith, u.place, v.place, differ))
    ]

-- A page without a free slot has the index that stands for none.
pub head-none :
    (h : Heap) (x c : ℕ) (fs : List ℕ)
    → IsPage h x c fs
    → ((h.metas x).free_list_head == null_slot) ≡ (if has_free fs then false else true)
head-none h x c [] v = ground (arith, v.chain)
head-none h x c (f ∷ fs) v =
    let (some, few, fits, full) = slots_per_page-fill c v.known in
    let (e, small, new, rest) = v.chain in ground arith

-- One page has other free slots, and its class's list follows.
module _ (a : Arena) (s : Slab) (h : Heap) (ours : Ptr → Bool) (frees : Ptr → List ℕ)
    (lists : ℕ → List Ptr) (v : IsSlab a s h ours frees lists) (x : Ptr) (own : ours x ≡ true) where
  pub step-IsSlab :
      (s1 : Slab) (h1 : Heap) (fs : List ℕ) (lists' : ℕ → List Ptr)
      → ((y : Ptr) → (h1.metas y).page_addr ≡ (h.metas y).page_addr)
      → ((y : Ptr) → class_of h1 y ≡ class_of h y)
      → IsPage h1 x (class_of h x) fs
      → ((y : Ptr) → ours y ≡ true → y ≢ x → IsPage h1 y (class_of h y) (frees y))
      → ((c : ℕ) → IsChain h1.metas null (s1.partial_pages c) (lists' c))
      → ((c y : ℕ)
          → has y (lists' c)
            ≡ (if y == x then (c == class_of h x) && has_free fs else has y (lists c)))
      → IsSlab a s1 h1 ours (update frees x fs) lists'
  unfolding update
  step-IsSlab s1 h1 fs lists' place same page others chain member = record {
    at = λ y i.
        let u = v.at y i in
        record { entry = u.entry; above = u.above; below = u.below; place = place y ∙ u.place };
    page = λ y i.
        subst (λ k. IsPage h1 y k (if y == x then fs else frees y)) (sym (same y))
          (elim (Bool-cases (y == x)) [
            | inl e ↦
                let here : y ≡ x = ground arith in
                rw e (subst (λ z. IsPage h1 z (class_of h z) fs) (sym here) page)
            | inr d ↦ rw d (others y i (λ e. ground arith))
          ]);
    chain = chain;
    listed = λ c y i. ground (arith, v.listed c y, member c y, same y);
    complete = λ y i f. ground (arith, v.complete y i, member (class_of h1 y) y, same y);
  }
