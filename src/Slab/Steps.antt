-- ===== src/Slab/Steps.antt =====
-- What a request to src/slab.rs does to the slots that are held.
use ferrum_alloc.Base.{
  ℕ, sym, ap, ◌∙◌, subst, ◌*◌, ◌+◌, ◌≤◌, ◌<◌, ◌≡◌, ◌≢◌, refl, sym, ◌∙◌, Bool, true, false, List, [],
  ◌∷◌, none, some, arith, ◌==◌, leb, Bool-cases, inl, inr,
}
use ferrum_alloc.Memory.{Ptr, null, update}
use ferrum_alloc.Page.{Heap}
use ferrum_alloc.Platform.{page_size}
use ferrum_alloc.SizeClass.{num_size_classes, class_to_size, slots_per_page}
use ferrum_alloc.Arena.{Arena, pages_per_arena, meta_ptr, meta_index, page_addr, alloc_page}
use ferrum_alloc.Arena.Pages.{IsArena, alloc_page-IsArena}
use ferrum_alloc.Slab.{Slab, alloc, alloc_from, take_first}
use ferrum_alloc.Slab.FreeList.{has, range, has-range_in}
use ferrum_alloc.Slab.Grow.{grown, grown-IsSlab, grown_front, grown-class, grown-place, new}
use ferrum_alloc.Slab.Held.{IsSlot}
use ferrum_alloc.Slab.State.{class_of}
use ferrum_alloc.Slab.Serve.{
  IsHeld, is_taken, IsSlot-move, cons, chain-cons, alloc_from-take_first, taken-IsHeld,
}

-- The result of a request for a slot of class `c`.
abbrev pub IsServed : (first : ℕ) (held : Ptr → ℕ) (c : ℕ) → Ptr × Slab × Heap × Arena → Type 0
IsServed first held c (p, s, h, a) =
    IsArena a
    × (p ≢ null → IsHeld first a s h (update held p (class_to_size c)))
    × (p ≡ null → IsHeld first a s h held)

module _ (first : ℕ) (a : Arena) (s : Slab) (h : Heap) (held : Ptr → ℕ) (sound : IsArena a)
    (v : IsHeld first a s h held) (c : ℕ) where
  -- From a page of the class.
  pub take-IsHeld :
      s.partial_pages c ≢ null
      → let (p, s1, h1) = take_first s h c in
        (alloc_from s h a c (s.partial_pages c) ≡ take_first s h c)
        × (p ≢ null)
        × IsHeld first a s1 h1 (update held p (class_to_size c))
  take-IsHeld real =
      let x : Ptr = s.partial_pages c in
      let (xs, front) = chain-cons h x (v.lists c) (v.slab.chain c) real in
      let (own, same, left) = v.slab.listed c x (rw front (ground arith)) in
      let w = cons (v.frees x) left in
      let (given, after) =
        taken-IsHeld a s h v.ours v.frees v.lists v.slab c w.head w.tail xs front w.same held first
          v.from v.exact v.slots v.used in
      (alloc_from-take_first a s h c (v.slab.at x own), given, after)

  alloc-listed :
      (owner : ℕ) → s.partial_pages c ≢ null → IsServed first held c (alloc s h a c owner)
  unfolding alloc
  alloc-listed owner real =
      let (same, given, after) = take-IsHeld real in
      let listed : (s.partial_pages c == null) ≡ false = ground arith in
      rw (listed, same) (sound, λ _. after, λ e. absurd (given e))

  module _ (owner : ℕ) (known : c < num_size_classes) (empty : s.partial_pages c ≡ null)
      (room : a.next_free_page < pages_per_arena) where
    abbrev a1 : Arena
    a1 = (alloc_page a).1

    abbrev x : Ptr
    x = meta_ptr a a.next_free_page

    moved : (a1.base ≡ a.base) × (a1.next_free_page ≡ a.next_free_page + 1)
    unfolding alloc_page
    moved = ground (arith, sound.below)

    abbrev s1 : Slab
    s1 =
        (grown a a1 s h v.ours v.frees v.lists v.slab c owner known moved.0 moved.1 sound.above room
          empty).0

    abbrev h1 : Heap
    h1 =
        (grown a a1 s h v.ours v.frees v.lists v.slab c owner known moved.0 moved.1 sound.above room
          empty).1

    abbrev ours1 : Ptr → Bool
    ours1 = update v.ours x true

    abbrev frees1 : Ptr → List ℕ
    frees1 = update v.frees x (range 0 (slots_per_page c page_size))

    old-IsSlot : (p : Ptr) → held p ≢ 0 → IsSlot h1 ours1 frees1 p (held p)
    unfolding update
    old-IsSlot p has_p =
        let u = v.slots p has_p in
        let other =
          new a a1 s h v.ours v.frees v.lists v.slab c owner known moved.0 moved.1 sound.above room
            empty u.page u.own in
        IsSlot-move h h1 v.ours ours1 v.frees frees1 p (held p) u (ground (arith, u.own))
          (ground (
            arith,
            grown-place a a1 s h v.ours v.frees v.lists v.slab c owner known moved.0 moved.1
                sound.above room empty u.page,
          ))
          (ground (
            arith,
            grown-class a a1 s h v.ours v.frees v.lists v.slab c owner known moved.0 moved.1
                sound.above room empty u.page,
          ))
          (ground (arith, u.used))

    new-exact : (y : Ptr) → ours1 y ≡ is_taken a1 first y
    unfolding update meta_ptr meta_index
    new-exact y = ground (arith, v.exact y, moved, v.from)

    -- All slots of the new page are free.
    new-used :
        (y j : ℕ)
        → ours1 y ≡ true
        → j < slots_per_page (class_of h1 y) page_size
        → has j (frees1 y) ≡ false
        → held ((h1.metas y).page_addr + j * class_to_size (class_of h1 y)) ≢ 0
    unfolding update
    new-used y j own small free =
        let place =
          grown-place a a1 s h v.ours v.frees v.lists v.slab c owner known moved.0 moved.1
            sound.above room empty y in
        let class =
          grown-class a a1 s h v.ours v.frees v.lists v.slab c owner known moved.0 moved.1
            sound.above room empty y in
        elim (Bool-cases (y == x)) [
          | inl e ↦
              let class_x : class_of h1 y ≡ c = rw e at class in
              let small_x : j < slots_per_page c page_size =
                subst (λ k. j < slots_per_page k page_size) class_x small in
              let free_x : has j (range 0 (slots_per_page c page_size)) ≡ false = rw e at free in
              absurd (
                ground (
                  arith,
                  has-range_in j 0 (slots_per_page c page_size) (omega arith)
                      (omega (arith, small_x)),
                ))
          | inr d ↦
              let class_y : class_of h1 y ≡ class_of h y = rw d at class in
              let place_y : (h1.metas y).page_addr ≡ (h.metas y).page_addr = rw d at place in
              let own_y : v.ours y ≡ true = rw d at own in
              let free_y : has j (v.frees y) ≡ false = rw d at free in
              subst (λ q. held q ≢ 0)
                (ap (λ b. b + j * class_to_size (class_of h y)) (sym place_y)
                  ∙ ap (λ k. (h1.metas y).page_addr + j * class_to_size k) (sym class_y))
                (v.used y j own_y (subst (λ k. j < slots_per_page k page_size) class_y small)
                  free_y)
        ]

    new-IsHeld : IsHeld first a1 s1 h1 held
    new-IsHeld = record {
      from = omega (arith, moved, v.from);
      exact = new-exact;
      used = new-used;
      ours = ours1;
      frees = frees1;
      lists = update v.lists c (x ∷ []);
      slab =
          grown-IsSlab a a1 s h v.ours v.frees v.lists v.slab c owner known moved.0 moved.1
            sound.above room empty;
      slots = old-IsSlot;
    }

    new-first : s1.partial_pages c ≡ x
    new-first =
        grown_front a a1 s h v.ours v.frees v.lists v.slab c owner known moved.0 moved.1 sound.above
          room empty

    x-real : x ≢ null
    unfolding meta_ptr
    x-real e = omega arith

    new_sound : IsArena a1
    new_sound = (alloc_page-IsArena a sound).0

    page_given : (alloc_page a).0 ≡ some (x, page_addr a a.next_free_page)
    unfolding alloc_page
    page_given =
        let not_full : leb pages_per_arena a.next_free_page ≡ false = ground arith in rw not_full

    alloc_grown :
        alloc s h a c owner ≡ (let (p, s2, h2) = alloc_from s1 h1 a1 c x in (p, s2, h2, a1))
    unfolding alloc
    alloc_grown =
        let none_listed : (s.partial_pages c == null) ≡ true = ground arith in
        rw (none_listed, page_given)

  no_page : pages_per_arena ≤ a.next_free_page → ((alloc_page a).0 ≡ none) × ((alloc_page a).1 ≡ a)
  unfolding alloc_page
  no_page full =
      let at_end : leb pages_per_arena a.next_free_page ≡ true = ground arith in
      (rw at_end, rw at_end)

  alloc-full :
      (owner : ℕ)
      → s.partial_pages c ≡ null
      → pages_per_arena ≤ a.next_free_page
      → alloc s h a c owner ≡ (null, s, h, a)
  unfolding alloc
  alloc-full owner empty full =
      let none_listed : (s.partial_pages c == null) ≡ true = ground arith in
      rw (none_listed, (no_page full).0, (no_page full).1)

module _ (first : ℕ) (a : Arena) (s : Slab) (h : Heap) (held : Ptr → ℕ) (sound : IsArena a)
    (v : IsHeld first a s h held) where
  -- A request for a slot of a class.
  pub alloc-IsServed :
      (c owner : ℕ) → c < num_size_classes → IsServed first held c (alloc s h a c owner)
  alloc-IsServed c owner known = elim (Bool-cases (s.partial_pages c == null)) [
    | inr listed ↦ alloc-listed first a s h held sound v c owner (λ e. ground arith)
    | inl none_listed ↦
        let empty : s.partial_pages c ≡ null = ground arith in
        elim (Bool-cases (leb pages_per_arena a.next_free_page)) [
          | inl full ↦
              rw (alloc-full first a s h held sound v c owner empty (ground arith))
                (sound, λ e. absurd (e refl), λ _. v)
          | inr open_end ↦
              let room : a.next_free_page < pages_per_arena = ground arith in
              let x1 : Slab = s1 first a s h held sound v c owner known empty room in
              let y1 : Heap = h1 first a s h held sound v c owner known empty room in
              let sound1 = new_sound first a s h held sound v c owner known empty room in
              let head = new-first first a s h held sound v c owner known empty room in
              let real = x-real first a s h held sound v c owner known empty room in
              let (same, given, after) =
                take-IsHeld first (alloc_page a).1 x1 y1 held sound1
                  (new-IsHeld first a s h held sound v c owner known empty room) c
                  (λ e. real (sym head ∙ e)) in
              rw (alloc_grown first a s h held sound v c owner known empty room, rw head at same)
                (sound1, λ _. after, λ e. absurd (given e))
        ]
  ]
