-- ===== src/Slab/Held.antt =====
-- The slots of src/slab.rs that are in use, by address.
use ferrum_alloc.Base.{
  ℕ, ◌+◌, ◌*◌, ◌≤◌, ◌<◌, ◌≡◌, ◌≢◌, refl, sym, ap, ◌∙◌, subst, Bool, true, false, List, [], arith,
  ◌==◌, dec_lt, Bool-cases, inl, inr,
}
use ferrum_alloc.Memory.{Ptr}
use ferrum_alloc.Page.{Heap}
use ferrum_alloc.Platform.{page_size}
use ferrum_alloc.SizeClass.{class_to_size, slots_per_page}
use ferrum_alloc.Arena.{Arena, meta_ptr, meta_index, page_addr, ptr_to_page_index}
use ferrum_alloc.Arena.Pages.{IsArena}
use ferrum_alloc.Slab.{Slab}
use ferrum_alloc.Slab.FreeList.{has, slot-ne}
use ferrum_alloc.Slab.Slots.{slot_facts}
use ferrum_alloc.Slab.State.{class_of, IsSlab, slot-inside, pages-apart}

-- At `p` is a slot of at least `size` bytes that is not free.
pub record IsSlot (h : Heap) (ours : Ptr → Bool) (frees : Ptr → List ℕ) (p size : ℕ) : Type 0 where
  pub page : Ptr
  pub index : ℕ
  pub own : ours page ≡ true
  pub small : index < slots_per_page (class_of h page) page_size
  pub used : has index (frees page) ≡ false
  pub address : p ≡ (h.metas page).page_addr + index * class_to_size (class_of h page)
  pub fits : size ≤ class_to_size (class_of h page)

module _ (a : Arena) (s : Slab) (h : Heap) (ours : Ptr → Bool) (frees : Ptr → List ℕ)
    (lists : ℕ → List Ptr) (v : IsSlab a s h ours frees lists) where
  -- Two slots do not overlap.
  pub slots-apart :
      (some : Ptr → List ℕ) (p q m n : ℕ)
      → IsSlot h ours some p m
      → IsSlot h ours some q n
      → p < q
      → p + m ≤ q
  slots-apart some p q m n u w lt = elim (Bool-cases (u.page == w.page)) [
    | inl e ↦
        let same : u.page ≡ w.page = ground arith in
        let there : q ≡ (h.metas u.page).page_addr + w.index * class_to_size (class_of h u.page) =
          w.address
          ∙ ap (λ y. (h.metas y).page_addr + w.index * class_to_size (class_of h y)) (sym same) in
        let sz : ℕ = class_to_size (class_of h u.page) in
        elim (dec_lt u.index w.index) [
          | yes less ↦
              let step : (u.index + 1) * sz ≤ w.index * sz = grind arith in
              omega (arith, u.address, u.fits, there, step)
          | no not_less ↦
              let step : w.index * sz ≤ u.index * sz = grind arith in
              omega (arith, u.address, there, step)
        ]
    | inr d ↦
        let inside =
          slot-inside a h u.page u.index (frees u.page) (v.at u.page u.own) (v.page u.page u.own)
            u.small in
        let inside' =
          slot-inside a h w.page w.index (frees w.page) (v.at w.page w.own) (v.page w.page w.own)
            w.small in
        elim (pages-apart a h u.page w.page (v.at u.page u.own) (v.at w.page w.own)
          (λ e. ground arith)) [
            | inl before ↦ omega (arith, u.address, u.fits, w.address, inside)
            | inr behind ↦ omega (arith, u.address, w.address, inside')
          ]
  ]

  -- The page of a slot is found by its address.
  pub slot-page :
      (p m : ℕ)
      → IsArena a
      → (u : IsSlot h ours frees p m)
      → (ptr_to_page_index a p ≡ meta_index a u.page)
        × (meta_ptr a (ptr_to_page_index a p) ≡ u.page)
  slot-page p m sound u =
      let at = v.at u.page u.own in
      let inside = slot-inside a h u.page u.index (frees u.page) at (v.page u.page u.own) u.small in
      let (pos, _, _) = slot_facts (class_of h u.page) (v.page u.page u.own).known in
      let here : ptr_to_page_index a p ≡ meta_index a u.page =
        unfold ptr_to_page_index page_addr in
        ground (arith, at.place, at.above, at.below, u.address, inside, sound.below, sound.sized) in
      (here, ap (meta_ptr a) here ∙ sym at.entry)

  -- Another slot is at another address.
  pub address-other :
      (some : Ptr → List ℕ) (p m y j : ℕ)
      → (u : IsSlot h ours some p m) → ours y ≡ true
      → j < slots_per_page (class_of h y) page_size
      → (y ≡ u.page → j ≢ u.index)
      → (h.metas y).page_addr + j * class_to_size (class_of h y) ≢ p
  address-other some p m y j u own small other e = elim (Bool-cases (y == u.page)) [
    | inl same ↦
        let here : y ≡ u.page = ground arith in
        let (pos, _, _) = slot_facts (class_of h y) (v.page y own).known in
        let there : p ≡ (h.metas y).page_addr + u.index * class_to_size (class_of h y) =
          u.address
          ∙ ap (λ z. (h.metas z).page_addr + u.index * class_to_size (class_of h z)) (sym here) in
        slot-ne (h.metas y).page_addr (class_to_size (class_of h y)) j u.index pos (other here)
          (e ∙ there)
    | inr differ ↦
        let inside =
          slot-inside a h u.page u.index (frees u.page) (v.at u.page u.own) (v.page u.page u.own)
            u.small in
        let inside' = slot-inside a h y j (frees y) (v.at y own) (v.page y own) small in
        let (pos, _, _) = slot_facts (class_of h u.page) (v.page u.page u.own).known in
        let (pos', _, _) = slot_facts (class_of h y) (v.page y own).known in
        elim (pages-apart a h y u.page (v.at y own) (v.at u.page u.own) (λ z. ground arith)) [
          | inl before ↦ omega (arith, u.address, inside, inside')
          | inr behind ↦ omega (arith, u.address, inside, inside')
        ]
  ]

  -- A free slot is at another address, and none of its words is in the slot.
  module _ (p m : ℕ) (u : IsSlot h ours frees p m) (y j : ℕ) (own : ours y ≡ true)
      (small : j < slots_per_page (class_of h y) page_size) (free : has j (frees y) ≡ true) where
    abbrev q : Ptr
    q = (h.metas y).page_addr + j * class_to_size (class_of h y)

    q-other : q ≢ p
    q-other = address-other frees p m y j u own small λ here z.
        let at_index : has u.index (frees y) ≡ true = subst (λ k. has k (frees y) ≡ true) z free in
        let not_free : has u.index (frees y) ≡ false =
          ap (λ x. has u.index (frees x)) here ∙ u.used in
        ground arith

    pub free-outside : (x : Ptr) → p ≤ x → x < p + m → q ≢ x
    free-outside x low high e =
        let none : Ptr → List ℕ = λ _. [] in
        let u0 : IsSlot h ours none p m = record {
          page = u.page;
          index = u.index;
          own = u.own;
          small = u.small;
          used = refl;
          address = u.address;
          fits = u.fits;
        } in
        let w0 : IsSlot h ours none q 0 = record {
          page = y;
          index = j;
          own = own;
          small = small;
          used = refl;
          address = refl;
          fits = omega arith;
        } in
        elim (dec_lt p q) [
          | yes less ↦ omega (arith, slots-apart none p q m 0 u0 w0 less)
          | no not_less ↦ q-other (omega arith)
        ]
