-- ===== src/Tlsf/Pool/Given.antt =====
-- The block that `alloc` of src/tlsf.rs returns, as one of the used blocks.
use ferrum_alloc.Base.{
  ℕ, ◌+◌, ◌-◌, ◌^◌, ◌≤◌, ◌<◌, ◌≡◌, ◌≢◌, ◌∙◌, sym, ap, subst, false, List, ◌∷◌, ◌++◌, arith,
  Bool-cases, inl, inr, leb, ◌==◌,
}
use ferrum_alloc.Memory.{Ptr, null}
use ferrum_alloc.Tlsf.Mapping.{header_size}
use ferrum_alloc.Tlsf.Block.{size}
use ferrum_alloc.Tlsf.Allocator.{Tlsf, alloc, usable_size}
use ferrum_alloc.Tlsf.Pool.{Part, used_part, free_part, stop}
use ferrum_alloc.Tlsf.Pool.Layout.{stop-append, stop-le}
use ferrum_alloc.Tlsf.Pool.State.{IsPool, IsPool-layout, IsPool-tags, open-size}
use ferrum_alloc.Tlsf.Pool.Alloc.{adjusted, alloc-IsTaken, align_up_size_lem}
use ferrum_alloc.Tlsf.Pool.Coalesce.{taken}
use ferrum_alloc.Tlsf.Pool.Live.{taken-stop}

-- Among blocks that end where `ps` do, the result is a used block of at least `n` bytes.
pub record IsGiven (a : Ptr) (ps : List Part) (n : ℕ) (result : Ptr × Tlsf) : Type 0 where
  pub before : List Part
  pub size : ℕ
  pub behind : List Part
  pub pool : IsPool result.1 a (before ++ used_part size ∷ behind)
  pub fits : n ≤ size
  pub address : result.0 ≡ stop a before + header_size
  pub whole : stop a (before ++ used_part size ∷ behind) ≡ stop a ps

-- The first of the blocks that taking leaves.
record IsCut (size n : ℕ) (vs : List Part) : Type 0 where
  got : ℕ
  rest : List Part
  same : taken size n vs ≡ used_part got ∷ rest
  enough : n ≤ size → n ≤ got

cut : (size n : ℕ) (vs : List Part) → IsCut size n vs
cut size n vs = elim (Bool-cases (leb 32 (size - n))) [
  | inl cuts ↦ record {
    got = n;
    rest = free_part (size - n - header_size) ∷ vs;
    same = rw cuts;
    enough = λ fits. omega arith;
  }
  | inr keeps ↦ record { got = size; rest = vs; same = rw keeps; enough = λ fits. fits }
]

pub alloc-IsGiven :
    (t : Tlsf) (a : Ptr) (ps : List Part) (n : ℕ)
    → IsPool t a ps
    → n ≢ 0
    → n < 2 ^ 59
    → (alloc t n).0 ≢ null
    → IsGiven a ps n (alloc t n)
alloc-IsGiven t a ps n v real below served = elim (alloc-IsTaken t a ps v n real below) [
  | inl w ↦
      let k : ℕ = adjusted n in
      let c = cut w.size k w.behind in
      let lay =
        IsPool-layout t a w.before (free_part w.size) w.behind (subst (IsPool t a) w.same v) in
      record {
        before = w.before;
        size = c.got;
        behind = c.rest;
        pool = subst (λ qs. IsPool (alloc t n).1 a (w.before ++ qs)) c.same w.pool;
        fits = omega (arith, c.enough w.fits, align_up_size_lem n below);
        address = w.address;
        whole =
            ap (λ qs. stop a (w.before ++ qs)) (sym c.same)
            ∙ taken-stop a w.before w.size w.behind lay.front lay.even k w.fits
            ∙ sym (ap (stop a) w.same);
      }
  | inr (gone, no_fit) ↦ absurd (served (ap (λ (r : Ptr × Tlsf). r.0) gone))
]

-- What a given block is good for, and that it lies inside the pool.
module _ (a : Ptr) (ps : List Part) (n : ℕ) (r : Ptr × Tlsf) (w : IsGiven a ps n r) where
  pub given-usable_size : n ≤ usable_size r.1.mem r.0
  unfolding usable_size
  given-usable_size =
      let is_size =
        open-size r.1 a w.before w.size w.behind false false
          (IsPool-layout r.1 a w.before (used_part w.size) w.behind w.pool)
          (IsPool-tags r.1 a w.before (used_part w.size) w.behind w.pool) in
      let here : r.0 - header_size ≡ stop a w.before = omega (arith, w.address) in
      let real : (r.0 == null) ≡ false = ground (arith, w.address) in
      rw (real, here, is_size) w.fits

  pub given-inside : (a + header_size ≤ r.0) × (r.0 + n ≤ stop a ps)
  given-inside =
      let whole : stop (stop a w.before + (header_size + w.size)) w.behind ≡ stop a ps =
        sym (stop-append a w.before (used_part w.size ∷ w.behind)) ∙ w.whole in
      (
        omega (arith, w.address, stop-le a w.before),
        omega (
          arith,
          w.address,
          w.fits,
          whole,
          stop-le (stop a w.before + (header_size + w.size)) w.behind,
        ),
      )
