-- ===== src/Api/Medium/Calls.antt =====
-- A program that asks src/api.rs for blocks above the slab sizes and below the huge ones: any sequence
-- of calls, from the first one on.
use ferrum_alloc.Base.{
  ℕ, ◌+◌, ◌-◌, ◌%◌, ◌≤◌, ◌<◌, ◌≡◌, ◌≢◌, ◌∙◌, refl, sym, ap, subst, true, false, some, [], ◌∷◌,
  arith, ltb, Bool-cases, inl, inr,
}
use ferrum_alloc.Memory.{Ptr, Mem, null, update}
use ferrum_alloc.Platform.{Os, page_size}
use ferrum_alloc.SizeClass.{slab_max_size}
use ferrum_alloc.Arena
use ferrum_alloc.Arena.{Arena, data_start_offset, page_addr}
use ferrum_alloc.Huge.{huge_alloc_threshold}
use ferrum_alloc.ThreadCache.{get_or_create}
use ferrum_alloc.Tlsf.Allocator
use ferrum_alloc.Tlsf.Allocator.{Tlsf, with_mem}
use ferrum_alloc.Tlsf.Pool.{free_part}
use ferrum_alloc.Tlsf.Mapping.{header_size}
use ferrum_alloc.Arena.Marks.{alloc-mem}
use ferrum_alloc.Tlsf.Pool.Served.{served-free_kept}
use ferrum_alloc.Tlsf.Pool.Start.{pool_payload}
use ferrum_alloc.Tlsf.Pool.Alloc.{alloc-IsTaken}
use ferrum_alloc.Api.Global.{Global, global_mem, tlsf_pool_size, put_tlsf, ensure_init}
use ferrum_alloc.Api.Malloc.{ferrum_malloc}
use ferrum_alloc.Api.Free.{ferrum_free, in_tlsf}
use ferrum_alloc.Api.Routes.{untouched}
use ferrum_alloc.Api.Medium.{
  serving, tlsf_of, ferrum_malloc-tlsf, ferrum_malloc-arena, ferrum_free-large,
}
use ferrum_alloc.Api.Medium.Start.{
  mapped, first_arena, first_tlsf, first_global, ensure_init-HasPool,
}
use ferrum_alloc.Api.Medium.Blocks.{
  IsHeap, heap-IsLarge, heap-contains, heap-Owned, pool-address, in_pool, outside-contains,
}
use ferrum_alloc.Api.Medium.Steps.{
  alloc-IsHeap, free-IsHeap, dropped-IsHeap, arena-IsHeap, refused-IsHeap,
}

module _ (os : Os) (fuel : ℕ) where
  -- The states that the program reaches, each with the bytes that it was granted at every address, 0
  -- where it holds nothing: its first call maps the arena; then it asks for sizes above 1024 bytes
  -- and below 256 KB, gives back what it holds, and writes where it holds something.
  pub data IsReached : os.State → Global → (Ptr → ℕ) → Type 0 where
    started :
        (s : os.State) (g : Global)
        → mapped os s g ≢ null
        → mapped os s g % page_size ≡ 0
        → IsReached (ensure_init os s (untouched g)).0 (ensure_init os s (untouched g)).1 (λ _. 0)
    given :
        {s : os.State} {g : Global} {held : Ptr → ℕ} (size p : ℕ) (s1 : os.State) (g1 : Global)
        → slab_max_size < size
        → size < huge_alloc_threshold
        → ferrum_malloc os fuel s g size ≡ some (p, s1, g1)
        → p ≢ null
        → IsReached s g held
        → IsReached s1 g1 (update held p size)
    refused :
        {s : os.State} {g : Global} {held : Ptr → ℕ} (size p : ℕ) (s1 : os.State) (g1 : Global)
        → slab_max_size < size
        → size < huge_alloc_threshold
        → ferrum_malloc os fuel s g size ≡ some (p, s1, g1)
        → p ≡ null
        → IsReached s g held
        → IsReached s1 g1 held
    freed :
        {s : os.State} {g : Global} {held : Ptr → ℕ} (p : ℕ) (s1 : os.State) (g1 : Global)
        → held p ≢ 0
        → ferrum_free os s g p ≡ some (s1, g1)
        → IsReached s g held
        → IsReached s1 g1 (update held p 0)
    written :
        {s : os.State} {g : Global} {held : Ptr → ℕ} (p x value : ℕ)
        → p ≤ x
        → x < p + held p
        → IsReached s g held
        → IsReached s (global_mem g (update g.heap.mem x value)) held

-- The arena and the TLSF allocator are in place and hold the program's blocks.
pub record IsReady (g : Global) (held : Ptr → ℕ) : Type 0 where
  pub arena : Arena
  pub tlsf : Tlsf
  pub state : g ≡ serving g arena tlsf
  pub heap : IsHeap g.heap arena tlsf held

-- The state after the first call.
pub first-IsReady :
    (os : Os) (s : os.State) (g : Global)
    → mapped os s g ≢ null
    → mapped os s g % page_size ≡ 0
    → IsReady (ensure_init os s (untouched g)).1 (λ _. 0)
unfolding page_addr
first-IsReady os s g real paged =
    let (made, sound, v) = ensure_init-HasPool os s g real paged in
    let t : Tlsf = first_tlsf os s g in
    let ready : IsReady (first_global os s g) (λ _. 0) = record {
      arena = first_arena os s g;
      tlsf = t;
      state = refl;
      heap = record {
        sound = sound;
        past = omega arith;
        placed = v.placed;
        marked = λ i low high. v.placed.large i low high;
        served = record {
          blocks = free_part (pool_payload tlsf_pool_size) ∷ [];
          pool = v.pool;
          whole = omega arith;
          granted = λ p has_p. absurd (has_p (ground arith));
          counted = λ x used. absurd (ground arith);
        };
        behind = λ p high has_p. absurd (has_p refl);
        apart = λ p q high lt has_p has_q. absurd (has_p refl);
      };
    } in
    subst (λ (r : os.State × Global). IsReady r.1 (λ _. 0)) (sym made) ready

-- What `ferrum_malloc` and `ferrum_free` return, and the state they leave.
pub record IsMalloc (os : Os) (fuel : ℕ) (s : os.State) (g : Global) (held : Ptr → ℕ) (size : ℕ)
    : Type 0 where
  pub block : Ptr
  pub state : Global
  pub returns : ferrum_malloc os fuel s g size ≡ some (block, s, state)
  pub given : block ≢ null → IsReady state (update held block size)
  pub refused : block ≡ null → IsReady state held
  pub kept :
      (p x : Ptr)
      → in_tlsf g p ≡ true
      → held p ≢ 0
      → p ≤ x
      → x < p + held p
      → state.heap.mem x ≡ g.heap.mem x

pub record IsFree (os : Os) (s : os.State) (g : Global) (held : Ptr → ℕ) (p : Ptr) : Type 0 where
  pub system : os.State
  pub state : Global
  pub returns : ferrum_free os s g p ≡ some (system, state)
  pub ready : IsReady state (update held p 0)
  pub kept :
      (q x : Ptr)
      → in_tlsf g q ≡ true
      → held q ≢ 0
      → q ≢ p
      → q ≤ x
      → x < q + held q
      → state.heap.mem x ≡ g.heap.mem x

pub serving-IsReady :
    (g : Global) (a : Arena) (t : Tlsf) (held : Ptr → ℕ)
    → IsHeap g.heap a t held
    → IsReady (serving g a t) held
serving-IsReady g a t held v = record { arena = a; tlsf = t; state = refl; heap = v }

module _ (os : Os) (fuel : ℕ) (s : os.State) (g : Global) (a : Arena) (t : Tlsf) (held : Ptr → ℕ)
    (v : IsHeap g.heap a t held) where
  pub serving-IsMalloc :
      (size : ℕ)
      → slab_max_size < size
      → size < huge_alloc_threshold
      → IsMalloc os fuel s (serving g a t) held size
  unfolding in_tlsf
  serving-IsMalloc size above below =
      let t0 : Tlsf = tlsf_of g.heap t in
      let some_bytes : size ≢ 0 = λ e. omega arith in
      let (p, t1) = Allocator.alloc t0 size in
      elim (alloc-IsTaken t0 t.pool_start v.served.blocks v.served.pool size some_bytes
        (omega arith)) [
          | inl w ↦
              let real : p ≢ null = λ e. omega (arith, w.address) in
              record {
                block = p;
                state = put_tlsf (serving g a t) t1;
                returns = ferrum_malloc-tlsf os fuel s g a t size above below real;
                given = λ _.
                    serving-IsReady (global_mem g t1.mem) a t1 (update held p size)
                      (alloc-IsHeap g.heap a t held v size some_bytes (omega arith) real);
                refused = λ e. absurd (real e);
                kept = λ q x own has_q above' below'.
                    w.kept (q - header_size) x
                      (heap-Owned g.heap a t held v q x own has_q above' below');
              }
          | inr (gone, _) ↦
              let (q, a1, h1) = Arena.alloc a g.heap size in
              record {
                block = q;
                state = serving (record g { heap = h1 }) a1 t0;
                returns = ferrum_malloc-arena os fuel s g a t size above below gone;
                given = λ real.
                    serving-IsReady (record g { heap = h1 }) a1 t0 (update held q size)
                      (arena-IsHeap g.heap a t held v size (omega arith) real);
                refused = λ e.
                    serving-IsReady (record g { heap = h1 }) a1 t0 held
                      (refused-IsHeap g.heap a t held v size (omega arith) e);
                kept =
                    λ p x own has_p above' below'. ap (λ (m : Mem). m x) (alloc-mem a g.heap size);
              }
        ]

  pub serving-IsFree : (p : Ptr) → held p ≢ 0 → IsFree os s (serving g a t) held p
  unfolding in_tlsf
  serving-IsFree p has_p =
      let returns = ferrum_free-large os s g a t p (heap-IsLarge g.heap a t held v p has_p) in
      let (found, s1, ts) = get_or_create os s g.threads in
      let g1 : Global = record g { threads = ts } in
      let t1 : Tlsf = Allocator.free (tlsf_of g.heap t) p in
      elim (Bool-cases (ltb p t.pool_end)) [
        | inl low ↦
            let own : Allocator.contains t p ≡ true =
              heap-contains g.heap a t held v p (ground arith) has_p in
            record {
              system = s1;
              state = put_tlsf (serving g1 a t) t1;
              returns = rw own at returns;
              ready =
                  serving-IsReady (global_mem g1 t1.mem) a t1 (update held p 0)
                    (free-IsHeap g.heap a t held v p (ground arith) has_p);
              kept = λ q x own' has_q ne above' below'.
                  let there : in_pool t held p ≡ held p = ground arith in
                  let w = heap-Owned g.heap a t held v q x own' has_q above' below' in
                  served-free_kept t.pool_start tlsf_pool_size (tlsf_of g.heap t) (in_pool t held)
                    v.served p (λ e. has_p (sym there ∙ e)) (q - header_size) x
                    (λ e. ne (pool-address g.heap a t held v q p own' has_q e)) w;
            }
        | inr high ↦
            let other : Allocator.contains t p ≡ false = outside-contains t p (ground arith) in
            record {
              system = s1;
              state = serving g1 a t;
              returns = rw other at returns;
              ready =
                  serving-IsReady g1 a t (update held p 0)
                    (dropped-IsHeap g.heap a t held v p (ground arith));
              kept = λ q x own' has_q ne above' below'. refl;
            }
      ]
