-- ===== src/Slab/Return.antt =====
-- What a free of src/slab.rs, and a write of the client, does to the slots that are held.
use ferrum_alloc.Base.{
  ℕ, ◌+◌, ◌*◌, ◌≤◌, ◌<◌, ◌≡◌, ◌≢◌, sym, ap, ◌∙◌, subst, true, false, List, ◌∷◌, arith, ◌==◌,
  Bool-cases, inl, inr,
}
use ferrum_alloc.Memory.{Ptr, update, read_u16}
use ferrum_alloc.Page.{Heap, set_mem}
use ferrum_alloc.Platform.{page_size}
use ferrum_alloc.SizeClass.{class_to_size, slots_per_page}
use ferrum_alloc.Arena.{Arena, meta_ptr, meta_index, ptr_to_page_index}
use ferrum_alloc.Arena.Pages.{IsArena}
use ferrum_alloc.Slab.{Slab, free, free_no_arena}
use ferrum_alloc.Slab.FreeList.{has}
use ferrum_alloc.Slab.State.{class_of}
use ferrum_alloc.Slab.Distinct.{PageOf-frame}
use ferrum_alloc.Slab.Give.{free_no_arena-IsGive}
use ferrum_alloc.Slab.Held.{address-other, slot-page, free-outside}
use ferrum_alloc.Slab.Serve.{IsHeld, IsSlot-move}

module _ (first : ℕ) (a : Arena) (s : Slab) (h : Heap) (held : Ptr → ℕ) (sound : IsArena a)
    (v : IsHeld first a s h held) where
  -- A slot that is held is given back: both functions do the same, found by the arena or by the entry.
  pub free-free_no_arena :
      (p : Ptr)
      → held p ≢ 0
      → let meta = meta_ptr a (ptr_to_page_index a p) in free s h a p ≡ free_no_arena s h p meta
  unfolding free free_no_arena
  free-free_no_arena p has_p =
      let u = v.slots p has_p in
      let at = v.slab.at u.page u.own in
      let (index, meta) = slot-page a s h v.ours v.frees v.lists v.slab p (held p) sound u in
      let known = (v.slab.page u.page u.own).known in
      let data_page : (meta_index a u.page == 0) ≡ false = ground (arith, at.above) in
      let slab_page : (class_of h u.page == 0xFF) ≡ false = ground (arith, known) in
      rw (index, sym at.entry, data_page, slab_page, at.place)

  -- Every slot in use but the one given back is held.
  returned-used :
      (p : Ptr) (has_p : held p ≢ 0) (y j : ℕ)
      → v.ours y ≡ true
      → j < slots_per_page (class_of h y) page_size
      → let u = v.slots p has_p in
        has j (update v.frees u.page (u.index ∷ v.frees u.page) y) ≡ false
        → update held p 0 ((h.metas y).page_addr + j * class_to_size (class_of h y)) ≢ 0
  unfolding update
  returned-used p has_p y j own small free =
      let u = v.slots p has_p in
      let other : y ≡ u.page → j ≢ u.index = λ here z.
        let e : (y == u.page) ≡ true = ground arith in
        let free_x : has j (u.index ∷ v.frees u.page) ≡ false = rw e at free in ground arith in
      let apart =
        address-other a s h v.ours v.frees v.lists v.slab v.frees p (held p) y j u own small
          other in
      let still : has j (v.frees y) ≡ false = elim (Bool-cases (y == u.page)) [
        | inl e ↦
            let here : y ≡ u.page = ground arith in
            let free_x : has j (u.index ∷ v.frees u.page) ≡ false = rw e at free in
            ap (λ z. has j (v.frees z)) here ∙ ground arith
        | inr d ↦ rw d at free
      ] in
      ground (arith, v.used y j own small still)

  pub free-IsHeld :
      (p : Ptr) → held p ≢ 0 → let (s1, h1) = free s h a p in IsHeld first a s1 h1 (update held p 0)
  unfolding update
  free-IsHeld p has_p =
      let u = v.slots p has_p in
      let x : Ptr = u.page in
      let (index, meta) = slot-page a s h v.ours v.frees v.lists v.slab p (held p) sound u in
      let t =
        free_no_arena-IsGive a s h v.ours v.frees v.lists v.slab x u.index u.own u.small u.used in
      let frees1 : Ptr → List ℕ = update v.frees x (u.index ∷ v.frees x) in
      let p1 : Ptr = (h.metas x).page_addr + u.index * class_to_size (class_of h x) in
      let same : free s h a p ≡ free_no_arena s h p1 x =
        free-free_no_arena p has_p ∙ rw meta (ap (λ q. free_no_arena s h q x) u.address) in
      rw same record {
        ours = v.ours;
        frees = frees1;
        lists = t.lists;
        from = v.from;
        exact = v.exact;
        slab = t.slab;
        used = λ y j own small free.
            let class = t.classes y in
            subst (λ q. update held p 0 q ≢ 0)
              (ap (λ b. b + j * class_to_size (class_of h y)) (sym (t.places y))
                ∙ ap (λ k. ((free_no_arena s h p1 x).1.metas y).page_addr + j * class_to_size k)
                    (sym class))
              (returned-used p has_p y j own
                (subst (λ k. j < slots_per_page k page_size) class small) free);
        slots = λ q has_q.
            let w = v.slots q (ground arith) in
            let ne : q ≢ p = λ e. ground arith in
            let apart : (q == p) ≡ false = ground arith in
            rw apart (
              IsSlot-move h (free_no_arena s h p1 x).1 v.ours v.ours v.frees frees1 q (held q) w
                w.own (t.places w.page) (t.classes w.page)
                (elim (Bool-cases (w.page == x)) [
                  | inl e ↦
                      let here : w.page ≡ x = ground arith in
                      let other : w.index ≢ u.index = λ z. ne (
                        w.address
                        ∙ ap (λ y. (h.metas y).page_addr + w.index * class_to_size (class_of h y))
                            here
                        ∙ ap (λ k. (h.metas x).page_addr + k * class_to_size (class_of h x)) z
                        ∙ sym u.address) in
                      let still : has w.index (v.frees x) ≡ false =
                        ap (λ y. has w.index (v.frees y)) (sym here) ∙ w.used in
                      rw e (ground arith)
                  | inr d ↦ rw d w.used
                ]));
      }

  -- A write into a slot that is held.
  pub write-IsHeld :
      (p x value : ℕ)
      → held p ≢ 0
      → p ≤ x
      → x < p + held p
      → IsHeld first a s (set_mem h (update h.mem x value)) held
  unfolding read_u16 update
  write-IsHeld p x value has_p low high =
      let u = v.slots p has_p in
      let h1 = set_mem h (update h.mem x value) in
      record {
        ours = v.ours;
        frees = v.frees;
        lists = v.lists;
        from = v.from;
        exact = v.exact;
        used = v.used;
        slab = record {
          at = λ y own.
              let at = v.slab.at y own in
              record { entry = at.entry; above = at.above; below = at.below; place = at.place };
          page = λ y own.
              PageOf-frame h.mem h1.mem (h.metas y) (class_of h y) (v.frees y)
                (λ j free small.
                  let out =
                    free-outside a s h v.ours v.frees v.lists v.slab p (held p) u y j own small free
                      x low high in
                  ground (arith, out))
                (v.slab.page y own);
          chain = v.slab.chain;
          listed = v.slab.listed;
          complete = v.slab.complete;
        };
        slots = λ q has_q.
            let w = v.slots q has_q in
            record {
              page = w.page;
              index = w.index;
              own = w.own;
              small = w.small;
              used = w.used;
              address = w.address;
              fits = w.fits;
            };
      }
