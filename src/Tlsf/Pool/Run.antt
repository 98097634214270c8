-- ===== src/Tlsf/Pool/Run.antt =====
-- A client of src/tlsf.rs: any sequence of calls that gives back only what it holds, and writes only
-- there.
use ferrum_alloc.Base.{
  ℕ, ◌+◌, ◌-◌, ◌*◌, ◌%◌, ◌^◌, ◌≤◌, ◌<◌, ◌≡◌, ◌≢◌, refl, ◌∙◌, sym, ap, subst, true, false, List, [],
  ◌∷◌, ◌++◌, arith, if◌then◌else◌, leb, ◌==◌, inl, inr,
}
use ferrum_alloc.Memory.{Ptr, null, Mem, update}
use ferrum_alloc.Tlsf.Mapping.{header_size, min_payload}
use ferrum_alloc.Tlsf.Block.{payload}
use ferrum_alloc.Tlsf.Allocator.{Tlsf, new, with_mem, add_pool, alloc, free}
use ferrum_alloc.Tlsf.Allocator.Listed.{IsListed-frame}
use ferrum_alloc.Tlsf.Pool.{Part, used_part, free_part, stop, starts, heads, free_size}
use ferrum_alloc.Tlsf.Pool.Layout.{stop-append, starts_bounds, heads_bounds, starts_of_free, spaced}
use ferrum_alloc.Tlsf.Pool.Phys.{Phys-frame}
use ferrum_alloc.Tlsf.Pool.State.{IsPool, IsPool-layout}
use ferrum_alloc.Tlsf.Pool.Alloc.{align_up_size_lem, adjusted, alloc-IsTaken}
use ferrum_alloc.Tlsf.Pool.Coalesce.{taken}
use ferrum_alloc.Tlsf.Pool.Free.{free-IsPool}
use ferrum_alloc.Tlsf.Pool.Start.{pool_payload, add_pool-IsPool}
use ferrum_alloc.Tlsf.Pool.Coalesce.{coalesce}
use ferrum_alloc.Tlsf.Pool.Live.{
  used-none, used_size, used_spaced, starts_of_used, used_block, coalesce-used_size, coalesce-stop,
  taken-used_size, taken-stop, freed-used_size,
}

-- The states that a client reaches, each with the bytes that it was granted at every address, 0
-- where it holds nothing: it allocates less than 2^59 bytes, it gives back what it holds, and it
-- writes where it holds something.
pub data IsRun (base pool_size : ℕ) : Tlsf → (Ptr → ℕ) → Type 0 where
  start : (m : Mem) → IsRun base pool_size (add_pool (new m) base pool_size) (λ _. 0)
  allocated :
      {t : Tlsf} {held : Ptr → ℕ} (n : ℕ)
      → n ≢ 0
      → n < 2 ^ 59
      → (alloc t n).0 ≢ null
      → IsRun base pool_size t held
      → IsRun base pool_size (alloc t n).1 (update held (alloc t n).0 n)
  refused :
      {t : Tlsf} {held : Ptr → ℕ} (n : ℕ)
      → n ≢ 0
      → n < 2 ^ 59
      → (alloc t n).0 ≡ null
      → IsRun base pool_size t held
      → IsRun base pool_size (alloc t n).1 held
  freed :
      {t : Tlsf} {held : Ptr → ℕ} (p : Ptr)
      → held p ≢ 0
      → IsRun base pool_size t held
      → IsRun base pool_size (free t p) (update held p 0)
  written :
      {t : Tlsf} {held : Ptr → ℕ} (p x value : ℕ)
      → p ≤ x
      → x < p + held p
      → IsRun base pool_size t held
      → IsRun base pool_size (with_mem t (update t.mem x value)) held

-- The pool's used blocks are those that the client holds, each at least as large as granted.
pub record IsServed (base pool_size : ℕ) (t : Tlsf) (held : Ptr → ℕ) : Type 0 where
  pub blocks : List Part
  pub pool : IsPool t base blocks
  pub whole : stop base blocks ≡ base + header_size + pool_payload pool_size
  pub granted :
      (p : Ptr)
      → held p ≢ 0
      → (header_size ≤ p) × (held p ≤ used_size base blocks (p - header_size))
  pub counted : (x : Ptr) → used_size base blocks x ≢ 0 → held (x + header_size) ≢ 0

adjusted-ge : (n : ℕ) → n < 2 ^ 59 → n ≤ adjusted n
adjusted-ge n below = omega (arith, align_up_size_lem n below)

module _ (base pool_size : ℕ) (t : Tlsf) (held : Ptr → ℕ) (s : IsServed base pool_size t held) where
  pub alloc-IsServed :
      (n : ℕ)
      → n ≢ 0
      → n < 2 ^ 59
      → (alloc t n).0 ≢ null
      → IsServed base pool_size (alloc t n).1 (update held (alloc t n).0 n)
  unfolding update
  alloc-IsServed n real below served = elim (alloc-IsTaken t base s.blocks s.pool n real below) [
    | inl w ↦
        let lay =
          IsPool-layout t base w.before (free_part w.size) w.behind
            (subst (IsPool t base) w.same s.pool) in
        let b : Ptr = stop base w.before in
        let blocks' : List Part = w.before ++ taken w.size (adjusted n) w.behind in
        let enough : n ≤ adjusted n = adjusted-ge n below in
        let used_now : (x : Ptr)
            → used_size base blocks' x ≡ (
                if x == b
                then (if leb 32 (w.size - adjusted n) then adjusted n else w.size)
                else used_size base s.blocks x) =
          λ x. rw (ap (λ qs. used_size base qs x) w.same) (
            taken-used_size base w.before w.size w.behind lay.front lay.even (adjusted n)
              (omega arith) w.fits x) in
        record {
          blocks = blocks';
          pool = w.pool;
          whole =
              taken-stop base w.before w.size w.behind lay.front lay.even (adjusted n) w.fits
              ∙ sym (ap (stop base) w.same)
              ∙ s.whole;
          granted = λ q holds. ground (arith, w.address, used_now (q - 16), s.granted q, w.fits);
          counted = λ x used. ground (arith, w.address, used_now x, s.counted x);
        }
    | inr (gone, no_fit) ↦ absurd (served (ap (λ (r : Ptr × Tlsf). r.0) gone))
  ]

  pub alloc-same :
      (n : ℕ)
      → n ≢ 0
      → n < 2 ^ 59
      → (alloc t n).0 ≡ null
      → IsServed base pool_size (alloc t n).1 held
  alloc-same n real below gone = elim (alloc-IsTaken t base s.blocks s.pool n real below) [
    | inl w ↦ absurd (ground (arith, w.address))
    | inr (same, no_fit) ↦ rw same s
  ]

  pub free-IsServed : (p : Ptr) → held p ≢ 0 → IsServed base pool_size (free t p) (update held p 0)
  unfolding update
  free-IsServed p holds =
      let (room, fits) = s.granted p holds in
      let x : Ptr = p - header_size in
      let k : ℕ = used_size base s.blocks x in
      let w = used_block base s.blocks x (λ e. holds (omega arith)) in
      let pool = subst (IsPool t base) w.same s.pool in
      let lay = IsPool-layout t base w.before (used_part k) w.behind pool in
      let here : payload (stop base w.before) ≡ p = omega (arith, w.at) in
      let used_now : (y : Ptr)
          → used_size base (coalesce (w.before ++ free_part k ∷ w.behind)) y
            ≡ (if y == x then 0 else used_size base s.blocks y) =
        λ y.
          rw
            (
              coalesce-used_size base (w.before ++ free_part k ∷ w.behind) y,
              ap (λ qs. used_size base qs y) w.same,
            )
            (rw w.at at (freed-used_size base w.before k w.behind lay.front lay.even y)) in
      record {
        blocks = coalesce (w.before ++ free_part k ∷ w.behind);
        pool = rw here at (free-IsPool t base w.before k w.behind pool);
        whole =
            coalesce-stop base (w.before ++ free_part k ∷ w.behind)
            ∙ stop-append base w.before (free_part k ∷ w.behind)
            ∙ sym (stop-append base w.before (used_part k ∷ w.behind))
            ∙ sym (ap (stop base) w.same)
            ∙ s.whole;
        granted = λ q has_q. ground (arith, used_now (q - 16), s.granted q);
        counted = λ y used. ground (arith, used_now y, s.counted y);
      }

  pub write-IsServed :
      (p x value : ℕ)
      → p ≤ x
      → x < p + held p
      → IsServed base pool_size (with_mem t (update t.mem x value)) held
  unfolding update
  write-IsServed p x value low high =
      let (room, fits) = s.granted p (λ e. omega arith) in
      let b : Ptr = p - header_size in
      let real : used_size base s.blocks b ≢ 0 = λ e. omega arith in
      let i_b = starts_of_used base s.blocks b real in
      let apart : (y : Ptr)
          → heads base s.blocks y ≡ true
          → b < y
          → b + header_size + used_size base s.blocks b ≤ y =
        λ y i lt. used_spaced base s.blocks b y s.pool.sized s.pool.even real i lt in
      let start : (z : Ptr) → free_size base s.blocks z ≢ 0 → starts base s.blocks z ≡ true =
        λ z has_size. starts_of_free base s.blocks z has_size in
      record {
        blocks = s.blocks;
        pool = record {
          real = s.pool.real;
          even = s.pool.even;
          sized = s.pool.sized;
          bound = s.pool.bound;
          tags = Phys-frame t.mem (update t.mem x value) base 0 false s.blocks s.pool.tags (λ y i.
              ground (
                arith,
                heads_bounds base s.blocks y s.pool.sized s.pool.even i,
                starts_bounds base s.blocks b s.pool.sized s.pool.even i_b,
                apart y i,
              ));
          apart = s.pool.apart;
          listed =
              IsListed-frame t (free_size base s.blocks) s.pool.listed (update t.mem x value)
                (λ y has_size. ground (
                  arith,
                  used-none base s.blocks b real,
                  starts_bounds base s.blocks b s.pool.sized s.pool.even i_b,
                  starts_bounds base s.blocks y s.pool.sized s.pool.even (start y has_size),
                  spaced base s.blocks b y s.pool.sized s.pool.even (start y has_size),
                  start y has_size,
                  i_b,
                  apart y,
                ));
        };
        whole = s.whole;
        granted = s.granted;
        counted = s.counted;
      }

-- Every state that a client reaches from a pool of 48 bytes to 4 MB at an aligned address that is
-- not null is a pool whose used blocks are those that the client holds, each at least as large as
-- it asked for.
pub run-IsServed :
    (base pool_size : ℕ) (t : Tlsf) (held : Ptr → ℕ)
    → base ≢ null
    → base % 16 ≡ 0
    → 2 * header_size + min_payload ≤ pool_size
    → pool_size ≤ 2 ^ 22
    → IsRun base pool_size t held
    → IsServed base pool_size t held
run-IsServed base pool_size t held real even low high (start m) = record {
  blocks = free_part (pool_payload pool_size) ∷ [];
  pool = add_pool-IsPool m base pool_size real even low high;
  whole = omega arith;
  granted = λ p holds. absurd (holds refl);
  counted = λ x used. ground arith;
}
run-IsServed base pool_size t held real even low high (allocated n some_bytes below served r) =
    alloc-IsServed base pool_size _ _ (run-IsServed base pool_size _ _ real even low high r) n
      some_bytes below served
run-IsServed base pool_size t held real even low high (refused n some_bytes below gone r) =
    alloc-same base pool_size _ _ (run-IsServed base pool_size _ _ real even low high r) n
      some_bytes below gone
run-IsServed base pool_size t held real even low high (freed p holds r) =
    free-IsServed base pool_size _ _ (run-IsServed base pool_size _ _ real even low high r) p holds
run-IsServed base pool_size t held real even low high (written p x value above below r) =
    write-IsServed base pool_size _ _ (run-IsServed base pool_size _ _ real even low high r) p x
      value above below
