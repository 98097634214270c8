-- ===== src/Tlsf/Pool/Served.antt =====
-- The blocks that a client of src/tlsf.rs holds, in a state whose pool serves it.
use ferrum_alloc.Base.{
  ℕ, ◌+◌, ◌-◌, ◌*◌, ◌%◌, ◌≤◌, ◌<◌, ◌≡◌, ◌≢◌, ◌∙◌, sym, arith, false, true, refl, ap, subst, Bool,
  List, [], ◌∷◌, Bool-cases, inl, inr,
}
use ferrum_alloc.Memory.{Ptr, update}
use ferrum_alloc.Tlsf.Mapping.{header_size, min_payload}
use ferrum_alloc.Tlsf.Allocator.{Tlsf, with_mem, free, usable_size}
use ferrum_alloc.Tlsf.Block.{payload, size}
use ferrum_alloc.Tlsf.Allocator.Listed.{IsListed-frame}
use ferrum_alloc.Tlsf.Pool.{Part, used_part, free_part, after, stop, free_size, NoPair, AllSized}
use ferrum_alloc.Tlsf.Pool.State.{IsPool, IsPool-layout, IsPool-tags, open-size}
use ferrum_alloc.Tlsf.Pool.Start.{pool_payload}
use ferrum_alloc.Tlsf.Pool.Layout.{starts_bounds, heads_bounds, starts_of_free}
use ferrum_alloc.Tlsf.Pool.Phys.{Phys-frame}
use ferrum_alloc.Tlsf.Pool.Live.{used_block, used_size, used_spaced, starts_of_used}
use ferrum_alloc.Tlsf.Pool.Owned.{Owned}
use ferrum_alloc.Tlsf.Pool.Free.{free-mem}
use ferrum_alloc.Tlsf.Pool.Run.{IsServed}

-- Only the bytes held count.
pub IsServed-cong :
    (base pool_size : ℕ) (t : Tlsf) (held held' : Ptr → ℕ)
    → ((p : Ptr) → held' p ≡ held p)
    → IsServed base pool_size t held
    → IsServed base pool_size t held'
IsServed-cong base pool_size t held held' same s = record {
  blocks = s.blocks;
  pool = s.pool;
  whole = s.whole;
  granted = λ p has_p. rw (same p) (s.granted p (λ e. has_p (same p ∙ e)));
  counted = λ x used. λ e. s.counted x used (sym (same (x + header_size)) ∙ e);
}

-- Blocks that are all free, and no two in a row, are one block.
nothing_behind :
    (a : Ptr) (ps : List Part) → AllSized ps → NoPair true ps → used_size a ps a ≡ 0 → ps ≡ []
nothing_behind a [] sized apart none = refl
nothing_behind a (p ∷ ps) (low, whole, sized) (used, rest) none = absurd (ground arith)

one_free :
    (a k : ℕ) (ps : List Part)
    → AllSized ps
    → NoPair false ps
    → ((x : Ptr) → used_size a ps x ≡ 0)
    → stop a ps ≡ a + header_size + k
    → ps ≡ free_part k ∷ []
one_free a k [] sized apart none ends = absurd (omega arith)
one_free a k (p ∷ ps) (low, whole, sized) (apart, rest) none ends = elim (Bool-cases p.free) [
  | inl frees ↦
      let gone =
        nothing_behind (after a p) ps sized (rw frees at rest) (ground (arith, none (after a p))) in
      let same : p.bytes ≡ k = omega (arith, ap (stop (after a p)) gone) in
      ap (λ (b : Bool). record { bytes = p.bytes; free = b } ∷ ps) frees
      ∙ ap (λ (n : ℕ). free_part n ∷ ps) same
      ∙ ap (λ qs. free_part k ∷ qs) gone
  | inr uses ↦ absurd (ground (arith, none a))
]

module _ (base pool_size : ℕ) (t : Tlsf) (held : Ptr → ℕ) (s : IsServed base pool_size t held) where
  -- What it holds at two addresses does not overlap, and leaves room for a header between.
  pub served-apart : (p q : Ptr) → held p ≢ 0 → held q ≢ 0 → p < q → p + held p + header_size ≤ q
  served-apart p q has_p has_q lt =
      let (room, fits) = s.granted p has_p in
      let (room', fits') = s.granted q has_q in
      let i = starts_of_used base s.blocks (q - header_size) (λ e. has_q (omega arith)) in
      omega (
        arith,
        used_spaced base s.blocks (p - header_size) (q - header_size) s.pool.sized s.pool.even
            (λ e. has_p (omega arith)) (ground arith) (omega arith),
      )

  -- It lies inside the pool, between two headers, at a 16-byte aligned address.
  pub served-inside :
      2 * header_size + min_payload ≤ pool_size
      → (p : Ptr) → held p ≢ 0
      → (base + header_size ≤ p) × (p + held p + header_size ≤ base + pool_size) × (p % 16 ≡ 0)
  served-inside low p has_p =
      let (room, fits) = s.granted p has_p in
      let real' : used_size base s.blocks (p - header_size) ≢ 0 = λ e. has_p (omega arith) in
      let (above, below, even_p) =
        starts_bounds base s.blocks (p - header_size) s.pool.sized s.pool.even
          (starts_of_used base s.blocks (p - header_size) real') in
      (
        omega arith,
        omega (
          arith,
          fits,
          s.whole,
          used_spaced base s.blocks (p - header_size) (stop base s.blocks) s.pool.sized s.pool.even
              real' (ground arith) (omega arith),
        ),
        omega arith,
      )

  -- A write behind the pool.
  pub outside-IsServed :
      (x value : ℕ)
      → 2 * header_size + min_payload ≤ pool_size
      → base + pool_size ≤ x
      → IsServed base pool_size (with_mem t (update t.mem x value)) held
  unfolding update
  outside-IsServed x value low high =
      let end : stop base s.blocks + header_size ≤ base + pool_size = omega (arith, s.whole) in
      record {
        blocks = s.blocks;
        pool = record {
          real = s.pool.real;
          even = s.pool.even;
          sized = s.pool.sized;
          bound = s.pool.bound;
          tags =
              Phys-frame t.mem (update t.mem x value) base 0 false s.blocks s.pool.tags
                (λ y i. ground (arith, heads_bounds base s.blocks y s.pool.sized s.pool.even i));
          apart = s.pool.apart;
          listed =
              IsListed-frame t (free_size base s.blocks) s.pool.listed (update t.mem x value)
                (λ y has_size. ground (
                  arith,
                  starts_bounds base s.blocks y s.pool.sized s.pool.even
                      (starts_of_free base s.blocks y has_size),
                ));
        };
        whole = s.whole;
        granted = s.granted;
        counted = s.counted;
      }

  -- When it holds nothing, the pool is one free block.
  pub served-nothing_held :
      ((p : Ptr) → held p ≡ 0) → IsPool t base (free_part (pool_payload pool_size) ∷ [])
  served-nothing_held none =
      subst (IsPool t base)
        (one_free base (pool_payload pool_size) s.blocks s.pool.sized s.pool.apart
          (λ x. ground (arith, s.counted x, none (x + header_size))) s.whole)
        s.pool

  -- `free` of a block that it holds keeps the words of the others.
  pub served-free_kept :
      (q : Ptr)
      → held q ≢ 0
      → (b x : Ptr) → b + header_size ≢ q
      → Owned base s.blocks b x
      → (free t q).mem x ≡ t.mem x
  served-free_kept q has_q b x ne own =
      let (room, fits) = s.granted q has_q in
      let k : ℕ = used_size base s.blocks (q - header_size) in
      let w = used_block base s.blocks (q - header_size) (λ e. has_q (omega arith)) in
      let here : payload (stop base w.before) ≡ q = omega (arith, w.at) in
      rw here at (
        free-mem t base w.before k w.behind (subst (IsPool t base) w.same s.pool) b x
          (λ e. ne (omega (arith, w.at))) (subst (λ ps. Owned base ps b x) w.same own))

  -- `usable_size` of a block that it holds.
  pub served-usable : (p : Ptr) → held p ≢ 0 → held p ≤ usable_size t.mem p
  unfolding usable_size
  served-usable p has_p =
      let (room, fits) = s.granted p has_p in
      let k : ℕ = used_size base s.blocks (p - header_size) in
      let w = used_block base s.blocks (p - header_size) (λ e. has_p (omega arith)) in
      let pool = subst (IsPool t base) w.same s.pool in
      let is_size =
        open-size t base w.before k w.behind false false
          (IsPool-layout t base w.before (used_part k) w.behind pool)
          (IsPool-tags t base w.before (used_part k) w.behind pool) in
      let here : size t.mem (p - header_size) ≡ k = rw w.at at is_size in ground arith
