-- ===== src/Tlsf/Pool/RoundTrip.antt =====
-- `alloc` of src/tlsf.rs followed by `free`.
use ferrum_alloc.Base.{
  ℕ, ◌+◌, ◌-◌, ◌^◌, ◌<◌, ◌≡◌, ◌≢◌, ◌∙◌, sym, ap, subst, false, List, ◌∷◌, ◌++◌, arith, Bool-cases,
  inl, inr, leb,
}
use ferrum_alloc.Memory.{Ptr, null}
use ferrum_alloc.Tlsf.Mapping.{header_size}
use ferrum_alloc.Tlsf.Allocator.{Tlsf, alloc, free}
use ferrum_alloc.Tlsf.Pool.{Part, free_part, stop}
use ferrum_alloc.Tlsf.Pool.State.{IsPool}
use ferrum_alloc.Tlsf.Pool.Alloc.{adjusted, alloc-IsTaken}
use ferrum_alloc.Tlsf.Pool.Coalesce.{taken}
use ferrum_alloc.Tlsf.Pool.Free.{free-IsPool}
use ferrum_alloc.Tlsf.Pool.Coalesce.{coalesce, coalesce-NoPair, coalesce-cong, coalesce-join}

-- The taken block and its rest, given back.
given_back :
    (t : Tlsf) (a : Ptr) (us : List Part) (k n : ℕ) (vs : List Part) (p : Ptr)
    → p ≡ stop a us + header_size
    → IsPool t a (us ++ taken k n vs)
    → IsPool (free t p) a (coalesce (us ++ free_part k ∷ vs))
given_back t a us k n vs p e v = elim (Bool-cases (leb 32 (k - n))) [
  | inl cuts ↦
      let r : ℕ = k - n - header_size in
      let whole : n + header_size + r ≡ k = ground arith in
      let pool = free-IsPool t a us n (free_part r ∷ vs) (rw cuts at v) in
      let same : coalesce (us ++ free_part n ∷ free_part r ∷ vs)
          ≡ coalesce (us ++ free_part k ∷ vs) =
        coalesce-cong us (free_part n ∷ free_part r ∷ vs) (free_part k ∷ vs)
          (coalesce-join n r vs ∙ ap (λ (b : ℕ). coalesce (free_part b ∷ vs)) whole) in
      rw e (subst (IsPool (free t (stop a us + header_size)) a) same pool)
  | inr keeps ↦ rw e (free-IsPool t a us k vs (rw keeps at v))
]

-- After an `alloc` of a size other than 0 and below 2^59 on a pool that returns a block, `free` of
-- it leaves the blocks that there were before.
pub alloc-free :
    (t : Tlsf) (a : Ptr) (ps : List Part) (n : ℕ)
    → IsPool t a ps
    → n ≢ 0
    → n < 2 ^ 59
    → (alloc t n).0 ≢ null
    → IsPool (free (alloc t n).1 (alloc t n).0) a ps
alloc-free t a ps n v real below served = elim (alloc-IsTaken t a ps v n real below) [
  | inl w ↦
      let pool =
        given_back (alloc t n).1 a w.before w.size (adjusted n) w.behind (alloc t n).0 w.address
          w.pool in
      subst (IsPool (free (alloc t n).1 (alloc t n).0) a)
        (ap coalesce (sym w.same) ∙ coalesce-NoPair false ps v.apart) pool
  | inr (gone, no_fit) ↦ absurd (served (ap (λ (r : Ptr × Tlsf). r.0) gone))
]
