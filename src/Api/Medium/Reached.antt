-- ===== src/Api/Medium/Reached.antt =====
-- What a program that calls src/api.rs for blocks above the slab sizes and below the huge ones can rely
-- on in every state that it reaches.
use ferrum_alloc.Base.{
  ℕ, ◌+◌, ◌≤◌, ◌<◌, ◌≡◌, ◌≢◌, ◌∙◌, sym, ap, subst, true, none, some, some-same, Option, [], ◌∷◌,
  arith,
}
use ferrum_alloc.Memory.{Ptr, Mem, null, update}
use ferrum_alloc.Platform.{Os}
use ferrum_alloc.SizeClass.{slab_max_size}
use ferrum_alloc.Huge.{huge_alloc_threshold}
use ferrum_alloc.Api.Global.{Global, tlsf_pool_size, global_mem}
use ferrum_alloc.Api.Malloc.{ferrum_malloc}
use ferrum_alloc.Api.Free.{ferrum_free, in_tlsf}
use ferrum_alloc.Tlsf.Allocator
use ferrum_alloc.Tlsf.Allocator.{Tlsf}
use ferrum_alloc.Tlsf.Pool.{free_part}
use ferrum_alloc.Tlsf.Pool.Start.{pool_payload}
use ferrum_alloc.Tlsf.Pool.Alloc.{alloc-served, align_up_size_lem}
use ferrum_alloc.Tlsf.Pool.Served.{served-nothing_held}
use ferrum_alloc.Api.Medium.{tlsf_of, ferrum_malloc-tlsf}
use ferrum_alloc.Api.Medium.Blocks.{in_pool, heap-apart}
use ferrum_alloc.Api.Medium.Steps.{write-IsHeap}
use ferrum_alloc.Api.Medium.Calls.{
  IsReached, started, given, refused, freed, written, IsReady, IsMalloc, IsFree, first-IsReady,
  serving-IsMalloc, serving-IsFree,
}

-- The call has returned a block.
abbrev pub IsBlock : (os : Os) → Option (Ptr × os.State × Global) → Type 0
IsBlock os none = ⊥
IsBlock os (some (p, _, _)) = p ≢ null

-- The word at an address after a call that returns.
abbrev pub word_after_malloc : (os : Os) → Option (Ptr × os.State × Global) → Ptr → Option ℕ
word_after_malloc os none x = none
word_after_malloc os (some (_, _, g)) x = some (g.heap.mem x)

abbrev pub word_after_free : (os : Os) → Option (os.State × Global) → Ptr → Option ℕ
word_after_free os none x = none
word_after_free os (some (_, g)) x = some (g.heap.mem x)

module _ (os : Os) (fuel : ℕ) where
  ready-IsMalloc :
      (s : os.State) (g : Global) (held : Ptr → ℕ) (size : ℕ)
      → IsReady g held
      → slab_max_size < size
      → size < huge_alloc_threshold
      → IsMalloc os fuel s g held size
  ready-IsMalloc s g held size r above below =
      subst (λ (x : Global). IsMalloc os fuel s x held size) (sym r.state)
        (serving-IsMalloc os fuel s g r.arena r.tlsf held r.heap size above below)

  pub ready-IsFree :
      (s : os.State) (g : Global) (held : Ptr → ℕ) (p : Ptr)
      → IsReady g held
      → held p ≢ 0
      → IsFree os s g held p
  ready-IsFree s g held p r has_p =
      subst (λ (x : Global). IsFree os s x held p) (sym r.state)
        (serving-IsFree os fuel s g r.arena r.tlsf held r.heap p has_p)

  ready-write :
      (g : Global) (held : Ptr → ℕ) (p x value : ℕ)
      → p ≤ x
      → x < p + held p
      → IsReady g held
      → IsReady (global_mem g (update g.heap.mem x value)) held
  ready-write g held p x value above below r =
      let m : Mem = update g.heap.mem x value in
      record {
        arena = r.arena;
        tlsf = r.tlsf;
        state = ap (λ (y : Global). global_mem y m) r.state;
        heap = write-IsHeap g.heap r.arena r.tlsf held r.heap p x value above below;
      }

  -- The state that a call leaves.
  after-malloc :
      (s : os.State) (g : Global) (held : Ptr → ℕ) (size p : ℕ) (s1 : os.State) (g1 : Global)
      → IsMalloc os fuel s g held size
      → ferrum_malloc os fuel s g size ≡ some (p, s1, g1)
      → (p ≢ null → IsReady g1 (update held p size)) × (p ≡ null → IsReady g1 held)
  after-malloc s g held size p s1 g1 m made =
      let same : (m.block, s, m.state) ≡ (p, s1, g1) =
        some-same (m.block, s, m.state) (p, s1, g1) (sym m.returns ∙ made) in
      subst
        (λ (r : Ptr × os.State × Global).
          (r.0 ≢ null → IsReady r.2 (update held r.0 size)) × (r.0 ≡ null → IsReady r.2 held))
        same (m.given, m.refused)

  after-free :
      (s : os.State) (g : Global) (held : Ptr → ℕ) (p : Ptr) (s1 : os.State) (g1 : Global)
      → IsFree os s g held p
      → ferrum_free os s g p ≡ some (s1, g1)
      → IsReady g1 (update held p 0)
  after-free s g held p s1 g1 m made =
      let same : (m.system, m.state) ≡ (s1, g1) =
        some-same (m.system, m.state) (s1, g1) (sym m.returns ∙ made) in
      subst (λ (r : os.State × Global). IsReady r.1 (update held p 0)) same m.ready

  -- In every state that a program reaches by calls of `ferrum_malloc` above 1024 bytes and below
  -- 256 KB, of `ferrum_free`, and by writes where it holds something, from a first call that maps
  -- the arena at a page that is not null, the arena and the TLSF allocator are in place: the used
  -- blocks of the pool are those that the program holds there, and what it holds elsewhere lies
  -- apart on pages behind the pool that the arena has handed out.
  pub reached-IsReady :
      (s : os.State) (g : Global) (held : Ptr → ℕ) → IsReached os fuel s g held → IsReady g held
  reached-IsReady s g held (started s0 g0 real paged) = first-IsReady os s0 g0 real paged
  reached-IsReady s g held
        (given {s = s0} {g = g0} {held = held0} size p s1 g1 above below made real r) =
      let m = ready-IsMalloc s0 g0 held0 size (reached-IsReady s0 g0 held0 r) above below in
      (after-malloc s0 g0 held0 size p s1 g1 m made).0 real
  reached-IsReady s g held
        (refused {s = s0} {g = g0} {held = held0} size p s1 g1 above below made gone r) =
      let m = ready-IsMalloc s0 g0 held0 size (reached-IsReady s0 g0 held0 r) above below in
      (after-malloc s0 g0 held0 size p s1 g1 m made).1 gone
  reached-IsReady s g held (freed {s = s0} {g = g0} {held = held0} p s1 g1 has_p made r) =
      after-free s0 g0 held0 p s1 g1
        (ready-IsFree s0 g0 held0 p (reached-IsReady s0 g0 held0 r) has_p) made
  reached-IsReady s g held (written {s = s0} {g = g0} {held = held0} p x value above below r) =
      ready-write g0 held0 p x value above below (reached-IsReady s0 g0 held0 r)

module _ (os : Os) (fuel : ℕ) (s : os.State) (g : Global) (held : Ptr → ℕ)
    (reached : IsReached os fuel s g held) where
  -- In every state that a program reaches by calls of `ferrum_malloc` above 1024 bytes and below
  -- 256 KB, of `ferrum_free`, and by writes where it holds something, from a first call that maps
  -- the arena at a page that is not null, what it holds at two addresses does not overlap.
  pub reached-apart : (p q : Ptr) → held p ≢ 0 → held q ≢ 0 → p < q → p + held p ≤ q
  reached-apart p q has_p has_q lt =
      let r = reached-IsReady os fuel s g held reached in
      heap-apart g.heap r.arena r.tlsf held r.heap p q has_p has_q lt

  -- In every state that a program reaches by calls of `ferrum_malloc` above 1024 bytes and below
  -- 256 KB, of `ferrum_free`, and by writes where it holds something, from a first call that maps
  -- the arena at a page that is not null, the next of those calls returns: `ferrum_malloc` of such
  -- a size gives a block or null, and `ferrum_free` of what the program holds ends, and neither
  -- reads a null pointer.
  pub reached-returns :
      (size p : ℕ)
      → slab_max_size < size
      → size < huge_alloc_threshold
      → held p ≢ 0
      → (ferrum_malloc os fuel s g size ≢ none) × (ferrum_free os s g p ≢ none)
  reached-returns size p above below has_p =
      let r = reached-IsReady os fuel s g held reached in
      let m = ready-IsMalloc os fuel s g held size r above below in
      let f = ready-IsFree os fuel s g held p r has_p in
      (λ e. absurd (ground (arith, m.returns, e)), λ e. absurd (ground (arith, f.returns, e)))

  -- In every state that a program reaches by calls of `ferrum_malloc` above 1024 bytes and below
  -- 256 KB, of `ferrum_free`, and by writes where it holds something, from a first call that maps
  -- the arena at a page that is not null, the next request of such a size returns and
  -- changes no word of what the program holds in the pool of the TLSF allocator.
  pub reached-kept_malloc :
      (p x size : ℕ)
      → in_tlsf g p ≡ true
      → held p ≢ 0
      → p ≤ x
      → x < p + held p
      → slab_max_size < size
      → size < huge_alloc_threshold
      → word_after_malloc os (ferrum_malloc os fuel s g size) x ≡ some (g.heap.mem x)
  reached-kept_malloc p x size own has_p low high above below =
      let r = reached-IsReady os fuel s g held reached in
      let m = ready-IsMalloc os fuel s g held size r above below in
      rw m.returns (ap some (m.kept p x own has_p low high))

  -- In every state that a program reaches by calls of `ferrum_malloc` above 1024 bytes and below
  -- 256 KB, of `ferrum_free`, and by writes where it holds something, from a first call that maps
  -- the arena at a page that is not null, `ferrum_free` of what it holds returns and
  -- changes no word of another block that the program holds in the pool of the TLSF allocator.
  pub reached-kept_free :
      (p x q : ℕ)
      → in_tlsf g p ≡ true
      → held p ≢ 0
      → p ≤ x
      → x < p + held p
      → held q ≢ 0
      → p ≢ q
      → word_after_free os (ferrum_free os s g q) x ≡ some (g.heap.mem x)
  reached-kept_free p x q own has_p low high has_q ne =
      let r = reached-IsReady os fuel s g held reached in
      let m = ready-IsFree os fuel s g held q r has_q in
      rw m.returns (ap some (m.kept p x own has_p ne low high))

  -- In every state that a program reaches by calls of `ferrum_malloc` above 1024 bytes and below
  -- 256 KB, of `ferrum_free`, and by writes where it holds something, from a first call that maps
  -- the arena at a page that is not null, if it holds nothing, the next request of such a size is
  -- served: `ferrum_malloc` gives a block.
  pub reached-served_again :
      (size : ℕ)
      → slab_max_size < size
      → size < huge_alloc_threshold
      → ((p : Ptr) → held p ≡ 0)
      → IsBlock os (ferrum_malloc os fuel s g size)
  reached-served_again size above below nothing =
      let r = reached-IsReady os fuel s g held reached in
      let v = r.heap in
      let t : Tlsf = tlsf_of g.heap r.tlsf in
      let base : Ptr = r.tlsf.pool_start in
      let pool =
        served-nothing_held base tlsf_pool_size t (in_pool r.tlsf held) v.served
          (λ p. ground (arith, nothing p)) in
      let w =
        alloc-served t base (free_part (pool_payload tlsf_pool_size) ∷ []) pool size base
          (λ e. omega arith) (omega arith) (ground (arith, align_up_size_lem size (omega arith))) in
      let real : (Allocator.alloc t size).0 ≢ null = λ e. omega (arith, w.address) in
      let given = ferrum_malloc-tlsf os fuel s g r.arena r.tlsf size above below real in
      subst (λ (x : Global). IsBlock os (ferrum_malloc os fuel s x size)) (sym r.state)
        (rw given real)
