-- ===== src/Api/Medium/Steps.antt =====
-- What one call does to the blocks that a program holds (`Blocks`).
use ferrum_alloc.Base.{
  ℕ, ◌+◌, ◌*◌, ◌%◌, ◌^◌, ◌≤◌, ◌<◌, ◌≡◌, ◌≢◌, ◌∙◌, refl, sym, ap, subst, arith, ltb, Bool-cases, inl,
  inr,
}
use ferrum_alloc.Memory.{Ptr, Mem, null, update}
use ferrum_alloc.Page.{Heap, set_mem}
use ferrum_alloc.Platform.{page_size}
use ferrum_alloc.Arena
use ferrum_alloc.Arena.{Arena, meta_pages, meta_ptr, page_addr}
use ferrum_alloc.Arena.Pages.{IsArena, alloc-IsArena}
use ferrum_alloc.Arena.Marks.{alloc-mem, alloc-marks, alloc-base}
use ferrum_alloc.Tlsf.Allocator
use ferrum_alloc.Tlsf.Allocator.{Tlsf, with_mem}
use ferrum_alloc.Tlsf.Pool.Run.{IsServed, alloc-IsServed, free-IsServed, write-IsServed}
use ferrum_alloc.Tlsf.Pool.Served.{IsServed-cong, served-inside, outside-IsServed}
use ferrum_alloc.Tlsf.Pool.Place.{place, alloc-place, free-place}
use ferrum_alloc.Api.Global.{tlsf_pool_size}
use ferrum_alloc.Api.Medium.{tlsf_of}
use ferrum_alloc.Api.Medium.Served.{IsPlaced-put}
use ferrum_alloc.Api.Medium.Blocks.{in_pool, IsHeap}

-- The memory in the record of the allocator is not looked at.
stale-IsHeap :
    (h : Heap) (a : Arena) (t : Tlsf) (held : Ptr → ℕ)
    → IsHeap h a (tlsf_of h t) held
    → IsHeap h a t held
stale-IsHeap h a t held v = record {
  sound = v.sound;
  past = v.past;
  placed = record {
    sized = v.placed.sized;
    start = v.placed.start;
    end = v.placed.end;
    large = v.placed.large;
  };
  marked = v.marked;
  served = v.served;
  behind = v.behind;
  apart = v.apart;
}

module _ (h : Heap) (a : Arena) (t : Tlsf) (held : Ptr → ℕ) (v : IsHeap h a t held) where
  -- The allocator has moved on in its pool, where what is held has changed.
  put-IsHeap :
      (t1 : Tlsf) (held1 held' : Ptr → ℕ)
      → place t1 ≡ place t
      → IsServed t.pool_start tlsf_pool_size t1 held1
      → ((p : Ptr) → in_pool t held' p ≡ held1 p)
      → ((p : Ptr) → t.pool_end ≤ p → held' p ≡ held p)
      → IsHeap (set_mem h t1.mem) a t1 held'
  put-IsHeap t1 held1 held' same served within outside =
      let start : t.pool_start ≡ t1.pool_start = sym (ap (λ (r : Ptr × Ptr). r.0) same) in
      let end : t1.pool_end ≡ t.pool_end = ap (λ (r : Ptr × Ptr). r.1) same in
      let there : IsServed t.pool_start tlsf_pool_size t1 (in_pool t1 held') =
        IsServed-cong t.pool_start tlsf_pool_size t1 held1 (in_pool t1 held')
          (λ p. ground (arith, within p)) served in
      record {
        sound = v.sound;
        past = v.past;
        placed = IsPlaced-put h a t t1 same v.placed;
        marked = v.marked;
        served = subst (λ (b : Ptr). IsServed b tlsf_pool_size t1 (in_pool t1 held')) start there;
        behind = λ p high has_p.
            let e = outside p (omega arith) in rw e (v.behind p (omega arith) (λ z. has_p (e ∙ z)));
        apart = λ p q high lt has_p has_q.
            let e = outside p (omega arith) in
            let e' = outside q (omega arith) in
            rw e (v.apart p q (omega arith) lt (λ z. has_p (e ∙ z)) (λ z. has_q (e' ∙ z)));
      }

  -- The pool serves a request.
  pub alloc-IsHeap :
      (n : ℕ)
      → n ≢ 0
      → n < 2 ^ 59
      → (Allocator.alloc (tlsf_of h t) n).0 ≢ null
      → let (p, t1) = Allocator.alloc (tlsf_of h t) n in
        IsHeap (set_mem h t1.mem) a t1 (update held p n)
  unfolding update
  alloc-IsHeap n some_bytes below served =
      let t0 : Tlsf = tlsf_of h t in
      let (p, t1) = Allocator.alloc t0 n in
      let held1 : Ptr → ℕ = update (in_pool t held) p n in
      let after =
        alloc-IsServed t.pool_start tlsf_pool_size t0 (in_pool t held) v.served n some_bytes below
          served in
      let (above, inside, even) =
        served-inside t.pool_start tlsf_pool_size t1 held1 after (omega arith) p
          (λ e. some_bytes (ground arith)) in
      let low : p < t.pool_end = omega (arith, inside, v.placed.start, v.placed.end) in
      put-IsHeap t1 held1 (update held p n) (alloc-place t0 n) after (λ q. ground arith)
        (λ q high. ground arith)

  -- A block of the pool is given back.
  pub free-IsHeap :
      (p : Ptr)
      → p < t.pool_end
      → held p ≢ 0
      → let t1 = Allocator.free (tlsf_of h t) p in IsHeap (set_mem h t1.mem) a t1 (update held p 0)
  unfolding update
  free-IsHeap p low has_p =
      let t0 : Tlsf = tlsf_of h t in
      let there : in_pool t held p ≡ held p = ground arith in
      put-IsHeap (Allocator.free t0 p) (update (in_pool t held) p 0) (update held p 0)
        (free-place t0 p)
        (free-IsServed t.pool_start tlsf_pool_size t0 (in_pool t held) v.served p
          (λ e. has_p (sym there ∙ e)))
        (λ q. ground arith) (λ q high. ground arith)

  -- One behind it is given back: the program holds it no more.
  pub dropped-IsHeap : (p : Ptr) → t.pool_end ≤ p → IsHeap h a t (update held p 0)
  unfolding update
  dropped-IsHeap p high = record {
    sound = v.sound;
    past = v.past;
    placed = v.placed;
    marked = v.marked;
    served =
        IsServed-cong t.pool_start tlsf_pool_size (tlsf_of h t) (in_pool t held)
          (in_pool t (update held p 0)) (λ q. ground arith) v.served;
    behind = λ q high' has_q. ground (arith, v.behind q high');
    apart = λ q r high' lt has_q has_r. ground (arith, v.apart q r high' lt);
  }

  -- The program writes into a block.
  pub write-IsHeap :
      (p x value : ℕ) → p ≤ x → x < p + held p → IsHeap (set_mem h (update h.mem x value)) a t held
  write-IsHeap p x value above below = stale-IsHeap (set_mem h (update h.mem x value)) a t held (
      let t1 : Tlsf = with_mem t (update h.mem x value) in
      elim (Bool-cases (ltb p t.pool_end)) [
        | inl low ↦
            let there : in_pool t held p ≡ held p = ground arith in
            put-IsHeap t1 (in_pool t held) held refl
              (write-IsServed t.pool_start tlsf_pool_size (tlsf_of h t) (in_pool t held) v.served p
                x value above (omega (arith, there)))
              (λ q. refl) (λ q high. refl)
        | inr high ↦
            let past : t.pool_end ≤ x = ground arith in
            put-IsHeap t1 (in_pool t held) held refl
              (outside-IsServed t.pool_start tlsf_pool_size (tlsf_of h t) (in_pool t held) v.served
                x value (omega arith) (omega (arith, past, v.placed.start, v.placed.end)))
              (λ q. refl) (λ q high. refl)
      ])

  -- The arena has handed out pages behind the pool, or none.
  grow-IsHeap :
      (h1 : Heap) (a1 : Arena) (held' : Ptr → ℕ)
      → a1.base ≡ a.base
      → IsArena a1
      → a.next_free_page ≤ a1.next_free_page
      → h1.mem ≡ h.mem
      → ((i : ℕ)
          → meta_pages ≤ i
          → i < a1.next_free_page
          → (h1.metas (meta_ptr a1 i)).size_class ≡ 0xFF)
      → ((p : Ptr) → p < t.pool_end → held' p ≡ held p)
      → ((p : Ptr)
          → t.pool_end ≤ p
          → held' p ≢ 0
          → (p % 16 ≡ 0) × (p + held' p ≤ page_addr a1 a1.next_free_page))
      → ((p q : Ptr) → t.pool_end ≤ p → p < q → held' p ≢ 0 → held' q ≢ 0 → p + held' p ≤ q)
      → IsHeap h1 a1 (tlsf_of h t) held'
  unfolding page_addr
  grow-IsHeap h1 a1 held' base sound on same marked within behind apart = record {
    sound = sound;
    past = omega (arith, v.past);
    placed = record {
      sized = sound.sized;
      start = omega (arith, v.placed.start);
      end = omega (arith, v.placed.end);
      large = λ i low high. marked i low (omega (arith, v.past));
    };
    marked = marked;
    served =
        subst (λ (m : Mem). IsServed t.pool_start tlsf_pool_size (with_mem t m) (in_pool t held'))
          (sym same)
          (IsServed-cong t.pool_start tlsf_pool_size (tlsf_of h t) (in_pool t held)
            (in_pool t held') (λ q. ground (arith, within q)) v.served);
    behind = behind;
    apart = apart;
  }

  alloc-marked :
      (n i : ℕ)
      → meta_pages ≤ i
      → i < (Arena.alloc a h n).1.next_free_page
      → ((Arena.alloc a h n).2.metas (meta_ptr (Arena.alloc a h n).1 i)).size_class ≡ 0xFF
  unfolding meta_ptr
  alloc-marked n i above below =
      rw (alloc-base a h n) (alloc-marks a h n meta_pages v.marked i above below)

  -- The arena serves a request behind the pool.
  pub arena-IsHeap :
      (n : ℕ)
      → n < 2 ^ 59
      → let (p, a1, h1) = Arena.alloc a h n in
        p ≢ null → IsHeap h1 a1 (tlsf_of h t) (update held p n)
  unfolding update page_addr
  arena-IsHeap n below given =
      let (p, a1, h1) = Arena.alloc a h n in
      let (sound, cases) = alloc-IsArena a h n v.sound (omega arith) in
      let e = alloc-base a h n in
      elim cases [
        | inl (gone, _, _, _) ↦ absurd (given gone)
        | inr (at, pos, room, close, inside) ↦
            let here : p ≡ a.base + a.next_free_page * page_size = at in
            let up : p + n ≤ a1.base + a1.next_free_page * page_size = omega (arith, room, e) in
            let high : t.pool_end ≤ p = omega (arith, v.placed.end, v.past) in
            let even : p % 16 ≡ 0 = omega (arith, v.served.pool.even, v.placed.start) in
            grow-IsHeap h1 a1 (update held p n) e sound (omega (arith, e)) (alloc-mem a h n)
              (alloc-marked n) (λ q low. ground arith)
              (λ q high' has_q. ground (arith, v.behind q high', e))
              (λ q r high' lt has_q has_r.
                ground (arith, v.apart q r high' lt, v.behind q high', v.behind r))
      ]

  -- The arena refuses a request.
  pub refused-IsHeap :
      (n : ℕ)
      → n < 2 ^ 59
      → let (p, a1, h1) = Arena.alloc a h n in p ≡ null → IsHeap h1 a1 (tlsf_of h t) held
  unfolding page_addr
  refused-IsHeap n below gone =
      let (p, a1, h1) = Arena.alloc a h n in
      let (sound, cases) = alloc-IsArena a h n v.sound (omega arith) in
      let e = alloc-base a h n in
      let on : a.next_free_page ≤ a1.next_free_page = elim cases [
        | inl (_, same, _, _) ↦ omega (arith, ap (λ (b : Arena). b.next_free_page) same)
        | inr (at, pos, room, close, inside) ↦ omega (arith, at, room)
      ] in
      grow-IsHeap h1 a1 held e sound on (alloc-mem a h n) (alloc-marked n) (λ q low. refl)
        (λ q high has_q. ground (arith, v.behind q high, e, on)) v.apart
