-- ===== src/Slab/Run.antt =====
-- A client of src/slab.rs on the pages of one arena: any sequence of calls that gives back only what it
-- holds, and writes only there.
use ferrum_alloc.Base.{
  ℕ, ◌+◌, ◌≤◌, ◌<◌, ◌≡◌, ◌≢◌, refl, subst, true, false, List, [], ◌∷◌, length, some, arith, ◌==◌,
  Bool-cases, inl, inr,
}
use ferrum_alloc.Memory.{Ptr, null, update}
use ferrum_alloc.Page.{Heap, set_mem}
use ferrum_alloc.Platform.{page_size}
use ferrum_alloc.SizeClass.{num_size_classes, class_to_size, slots_per_page}
use ferrum_alloc.Arena.{
  Arena, data_start_offset, meta_ptr, meta_index, page_addr, ptr_to_page_index,
}
use ferrum_alloc.Arena.Pages.{IsArena, meta_index-meta_ptr}
use ferrum_alloc.Slab
use ferrum_alloc.Slab.{Slab, alloc, alloc_no_arena, free, free_no_arena}
use ferrum_alloc.Slab.State.{has_free, class_of, slot-inside}
use ferrum_alloc.Slab.Held.{slots-apart}
use ferrum_alloc.Slab.Serve.{IsHeld}
use ferrum_alloc.Slab.Kept.{alloc_no_arena-some, alloc-mem, free_no_arena-mem}
use ferrum_alloc.Slab.Distinct.{all-length}
use ferrum_alloc.Slab.FreeList.{has}
use ferrum_alloc.Slab.PageList.{chain-none}
use ferrum_alloc.Slab.Slots.{slot_facts}
use ferrum_alloc.Slab.Steps.{alloc-IsServed, take-IsHeld}
use ferrum_alloc.Slab.Return.{free-free_no_arena, free-IsHeld, write-IsHeld}

-- The states that the client reaches from an arena whose next page is `first`, each with the bytes of
-- the slot that it was given at every address, 0 where it holds nothing.
pub data IsRun (first : ℕ) : Arena → Slab → Heap → (Ptr → ℕ) → Type 0 where
  start :
      (a : Arena) (h : Heap)
      → IsArena a
      → a.next_free_page ≡ first
      → IsRun first a Slab.new h (λ _. 0)
  allocated :
      {a : Arena} {s : Slab} {h : Heap} {held : Ptr → ℕ} (c owner : ℕ)
      → c < num_size_classes
      → (alloc s h a c owner).0 ≢ null
      → IsRun first a s h held
      → IsRun first
          (alloc s h a c owner).3
          (alloc s h a c owner).1
          (alloc s h a c owner).2
          (update held (alloc s h a c owner).0 (class_to_size c))
  refused :
      {a : Arena} {s : Slab} {h : Heap} {held : Ptr → ℕ} (c owner : ℕ)
      → c < num_size_classes
      → (alloc s h a c owner).0 ≡ null
      → IsRun first a s h held
      → IsRun first (alloc s h a c owner).3 (alloc s h a c owner).1 (alloc s h a c owner).2 held
  allocated_no_arena :
      {a : Arena} {s : Slab} {h : Heap} {held : Ptr → ℕ} (c p : ℕ) (s1 : Slab) (h1 : Heap)
      → alloc_no_arena s h c ≡ some (p, s1, h1)
      → IsRun first a s h held
      → IsRun first a s1 h1 (update held p (class_to_size c))
  freed :
      {a : Arena} {s : Slab} {h : Heap} {held : Ptr → ℕ} (p : Ptr)
      → held p ≢ 0
      → IsRun first a s h held
      → IsRun first a (free s h a p).0 (free s h a p).1 (update held p 0)
  freed_no_arena :
      {a : Arena} {s : Slab} {h : Heap} {held : Ptr → ℕ} (p : Ptr)
      → held p ≢ 0
      → IsRun first a s h held
      → IsRun first a
          (free_no_arena s h p (meta_ptr a (ptr_to_page_index a p))).0
          (free_no_arena s h p (meta_ptr a (ptr_to_page_index a p))).1
          (update held p 0)
  written :
      {a : Arena} {s : Slab} {h : Heap} {held : Ptr → ℕ} (p x value : ℕ)
      → held p ≢ 0
      → p ≤ x
      → x < p + held p
      → IsRun first a s h held
      → IsRun first a s (set_mem h (update h.mem x value)) held

free-left : (fs : List ℕ) → 0 < length fs → has_free fs ≡ true
free-left [] some_free = absurd (omega arith)
free-left (f ∷ fs) some_free = refl

start-IsHeld :
    (first : ℕ) (a : Arena) (h : Heap)
    → a.next_free_page ≡ first
    → IsHeld first a Slab.new h (λ _. 0)
start-IsHeld first a h begin = record {
  ours = λ _. false;
  frees = λ _. [];
  lists = λ _. [];
  from = omega (arith, begin);
  exact = λ x. ground (arith, begin);
  slab = record {
    at = λ x own. absurd (ground arith);
    page = λ x own. absurd (ground arith);
    chain = λ c. refl;
    listed = λ c x i. absurd (ground arith);
    complete = λ x own i. absurd (ground arith);
  };
  slots = λ p has_p. absurd (has_p refl);
  used = λ x i own. absurd (ground arith);
}

-- In every state that a client of the slab allocator reaches on a well-formed arena, the list of each
-- class holds exactly those pages of that class that have a free slot, among all pages that the arena
-- has handed out since the start, and is linked in both directions; each of these pages chains its
-- free slots, and its other slots are exactly those that the client holds.
pub run-IsHeld :
    (first : ℕ) (a : Arena) (s : Slab) (h : Heap) (held : Ptr → ℕ)
    → IsRun first a s h held
    → IsArena a × IsHeld first a s h held
run-IsHeld first a s h held (start a0 h0 sound begin) = (sound, start-IsHeld first a0 h0 begin)
run-IsHeld first a s h held
      (allocated {a = a0} {s = s0} {h = h0} {held = held0} c owner known real r) =
    let (sound, v) = run-IsHeld first a0 s0 h0 held0 r in
    let (sound1, given, none_given) = alloc-IsServed first a0 s0 h0 held0 sound v c owner known in
    (sound1, given real)
run-IsHeld first a s h held
      (refused {a = a0} {s = s0} {h = h0} {held = held0} c owner known gone r) =
    let (sound, v) = run-IsHeld first a0 s0 h0 held0 r in
    let (sound1, given, none_given) = alloc-IsServed first a0 s0 h0 held0 sound v c owner known in
    (sound1, none_given gone)
run-IsHeld first a s h held
      (allocated_no_arena {a = a0} {s = s0} {h = h0} {held = held0} c p s1 h1 made r) =
    let (sound, v) = run-IsHeld first a0 s0 h0 held0 r in
    let (real, same) = alloc_no_arena-some s0 h0 c (p, s1, h1) made in
    (
      sound,
      subst
          (λ (w : Ptr × Slab × Heap). IsHeld first a0 w.1 w.2 (update held0 w.0 (class_to_size c)))
          same (take-IsHeld first a0 s0 h0 held0 sound v c real).2,
    )
run-IsHeld first a s h held (freed {a = a0} {s = s0} {h = h0} {held = held0} p has_p r) =
    let (sound, v) = run-IsHeld first a0 s0 h0 held0 r in
    (sound, free-IsHeld first a0 s0 h0 held0 sound v p has_p)
run-IsHeld first a s h held (freed_no_arena {a = a0} {s = s0} {h = h0} {held = held0} p has_p r) =
    let (sound, v) = run-IsHeld first a0 s0 h0 held0 r in
    (
      sound,
      subst (λ (w : Slab × Heap). IsHeld first a0 w.0 w.1 (update held0 p 0))
          (free-free_no_arena first a0 s0 h0 held0 sound v p has_p)
          (free-IsHeld first a0 s0 h0 held0 sound v p has_p),
    )
run-IsHeld first a s h held
      (written {a = a0} {s = s0} {h = h0} {held = held0} p x value has_p low high r) =
    let (sound, v) = run-IsHeld first a0 s0 h0 held0 r in
    (sound, write-IsHeld first a0 s0 h0 held0 sound v p x value has_p low high)

module _ (first : ℕ) (a : Arena) (s : Slab) (h : Heap) (held : Ptr → ℕ)
    (run : IsRun first a s h held) where
  -- In every state that a client of the slab allocator reaches on a well-formed arena, the slots that
  -- it holds do not overlap.
  pub run-apart : (p q : Ptr) → held p ≢ 0 → held q ≢ 0 → p < q → p + held p ≤ q
  run-apart p q has_p has_q lt =
      let (sound, v) = run-IsHeld first a s h held run in
      slots-apart a s h v.ours v.frees v.lists v.slab v.frees p q (held p) (held q)
        (v.slots p has_p) (v.slots q has_q) lt

  -- In every state that a client of the slab allocator reaches on a well-formed arena, a slot that it
  -- holds lies in the data pages that the arena has handed out, and both ways to give it back,
  -- `free` and `free_no_arena`, do the same.
  pub run-inside :
      (p : Ptr)
      → held p ≢ 0
      → (a.base + data_start_offset ≤ p)
        × (p + held p ≤ page_addr a a.next_free_page)
        × (free s h a p ≡ free_no_arena s h p (meta_ptr a (ptr_to_page_index a p)))
  run-inside p has_p =
      let (sound, v) = run-IsHeld first a s h held run in
      let u = v.slots p has_p in
      let at = v.slab.at u.page u.own in
      let inside =
        slot-inside a h u.page u.index (v.frees u.page) at (v.slab.page u.page u.own) u.small in
      (
        (unfold page_addr in omega (arith, u.address, at.place, at.above)),
        (unfold page_addr in omega (arith, u.address, u.fits, at.place, at.below, inside)),
        free-free_no_arena first a s h held sound v p has_p,
      )

  -- In every state that a client of the slab allocator reaches on a well-formed arena, no word in a
  -- slot that it holds is changed by an allocation of any class, whether or not it takes a new page.
  pub run-kept_alloc :
      (p x c owner : ℕ)
      → held p ≢ 0
      → p ≤ x
      → x < p + held p
      → c < num_size_classes
      → (alloc s h a c owner).2.mem x ≡ h.mem x
  run-kept_alloc p x c owner has_p low high known =
      alloc-mem s h a c owner x known (omega (arith, run-inside p has_p))

  -- In every state that a client of the slab allocator reaches on a well-formed arena, no word in a
  -- slot that it holds is changed by a free of another slot that it holds.
  pub run-kept_free :
      (p x q : ℕ)
      → held p ≢ 0
      → p ≤ x
      → x < p + held p
      → held q ≢ 0
      → q ≢ p
      → (free s h a q).1.mem x ≡ h.mem x
  run-kept_free p x q has_p low high has_q ne =
      let out : x ≢ q = λ e. omega (arith, run-apart p q has_p has_q (omega arith)) in
      rw ((run-inside q has_q).2)
        (free_no_arena-mem s h q (meta_ptr a (ptr_to_page_index a q)) x out)

  -- In every state that a client of the slab allocator reaches on a well-formed arena, where a class has
  -- a page with a free slot, `alloc` and `alloc_no_arena` of that class give the same slot, which is not
  -- null, and the same state, and the arena hands out no page.
  pub run-alloc_agree :
      (c owner : ℕ)
      → s.partial_pages c ≢ null
      → let (p, s1, h1, a1) = alloc s h a c owner in
        (alloc_no_arena s h c ≡ some (p, s1, h1)) × (p ≢ null) × (a1 ≡ a)
  unfolding alloc alloc_no_arena
  run-alloc_agree c owner real =
      let (sound, v) = run-IsHeld first a s h held run in
      let (same, given, after) = take-IsHeld first a s h held sound v c real in
      let listed : (s.partial_pages c == null) ≡ false = ground arith in
      rw (listed, same) (refl, given, refl)

  -- In every state that a client of the slab allocator reaches on a well-formed arena, if it holds
  -- nothing, then no page that the arena has handed out since the start has a used slot, and the list
  -- of its class is not empty.
  pub run-nothing_held :
      (k : ℕ)
      → first ≤ k
      → k < a.next_free_page
      → ((p : Ptr) → held p ≡ 0)
      → ((h.metas (meta_ptr a k)).used_slots ≡ 0)
        × (s.partial_pages (h.metas (meta_ptr a k)).size_class ≢ null)
  run-nothing_held k low high nothing =
      let (sound, v) = run-IsHeld first a s h held run in
      let x : Ptr = meta_ptr a k in
      let index : meta_index a x ≡ k = (meta_index-meta_ptr a k (omega (arith, sound.below))).0 in
      let own : v.ours x ≡ true = ground (arith, v.exact x, index) in
      let page = v.slab.page x own in
      let n : ℕ = slots_per_page (class_of h x) page_size in
      let all : (j : ℕ) → j < n → has j (v.frees x) ≡ true = λ j lt.
        elim (Bool-cases (has j (v.frees x))) [
          | inl free ↦ free
          | inr taken ↦ absurd (v.used x j own lt taken (nothing _))
        ] in
      let (pos, slots, few) = slot_facts (class_of h x) page.known in
      let many = all-length n (v.frees x) all in
      let some_free : has_free (v.frees x) ≡ true = free-left (v.frees x) (omega arith) in
      (
        omega (arith, page.counted, many),
        λ e.
            let chain = v.slab.chain (class_of h x) in
            let empty =
              chain-none h.metas null (s.partial_pages (class_of h x)) (v.lists (class_of h x))
                chain e in
            let listed = v.slab.complete x own some_free in ground (arith, rw empty at listed),
      )
